-- ===== src/Net/Failure.antt =====
-- What becomes of the connection of lib/net.c that a write fails on: it is removed, and a broadcast
-- goes on from the node that was freed.
use daliserver.Common.{
  ℕ, ◌<◌, ◌≡◌, ◌≢◌, refl, sym, ap, ◌∙◌, Bool, true, false, Option, none, some, List, [], ◌∷◌, ◌++◌,
  arith, ltb, ◌==◌, length, Bool-cases, inl, inr, map,
}
use daliserver.Net.{
  Connection, Server, Sockets, list_find, list_remove, set_waiting, is_short, remove_found,
  server_connection_remove, connection_reply, next_node, idle, written, visit, broadcast_loop,
  server_broadcast,
}
use daliserver.Net.Broadcast.{HasFresh, AreDistinct, AllFound, distinct-AllFound, visit-waiting}

fresh-none : (p : ℕ) (l : List Connection) → HasFresh p l → list_find p l ≡ none
unfolding list_find
fresh-none p [] h = refl
fresh-none p (c ∷ l) (h, f) = ground (arith, fresh-none p l f)

find-removed : (p : ℕ) (l : List Connection) → AreDistinct l → list_find p (list_remove p l) ≡ none
unfolding list_find list_remove
find-removed p [] h = refl
find-removed p (c ∷ l) (f, h) = elim (Bool-cases (c.address == p)) [
  | inl e ↦ let same : c.address ≡ p = ground arith in rw e (fresh-none p l (rw⁻¹ same f))
  | inr e ↦ rw e (rw e (find-removed p l h))
]

fresh-set_waiting :
    (q p : ℕ) (w : Bool) (l : List Connection) → HasFresh q l → HasFresh q (set_waiting p w l)
unfolding set_waiting
fresh-set_waiting q p w [] h = h
fresh-set_waiting q p w (c ∷ l) (h, f) = elim (Bool-cases (c.address == p)) [
  | inl e ↦ rw e (h, f)
  | inr e ↦ rw e (h, fresh-set_waiting q p w l f)
]

pub distinct-set_waiting :
    (p : ℕ) (w : Bool) (l : List Connection) → AreDistinct l → AreDistinct (set_waiting p w l)
unfolding set_waiting
distinct-set_waiting p w [] h = h
distinct-set_waiting p w (c ∷ l) (f, h) = elim (Bool-cases (c.address == p)) [
  | inl e ↦ rw e (f, h)
  | inr e ↦ rw e (fresh-set_waiting c.address p w l f, distinct-set_waiting p w l h)
]

fresh-list_remove : (q p : ℕ) (l : List Connection) → HasFresh q l → HasFresh q (list_remove p l)
unfolding list_remove
fresh-list_remove q p [] h = h
fresh-list_remove q p (c ∷ l) (h, f) = elim (Bool-cases (c.address == p)) [
  | inl e ↦ rw e f
  | inr e ↦ rw e (h, fresh-list_remove q p l f)
]

pub distinct-list_remove :
    (p : ℕ) (l : List Connection) → AreDistinct l → AreDistinct (list_remove p l)
unfolding list_remove
distinct-list_remove p [] h = h
distinct-list_remove p (c ∷ l) (f, h) = elim (Bool-cases (c.address == p)) [
  | inl e ↦ rw e h
  | inr e ↦ rw e (fresh-list_remove c.address p l f, distinct-list_remove p l h)
]

fresh-append :
    (c : Connection) (q : ℕ) (l : List Connection)
    → HasFresh q l
    → c.address ≢ q
    → HasFresh q (l ++ c ∷ [])
fresh-append c q [] h n = (n, tt)
fresh-append c q (c' ∷ l) (h, f) n = (h, fresh-append c q l f n)

pub distinct-append :
    (c : Connection) (l : List Connection)
    → HasFresh c.address l
    → AreDistinct l
    → AreDistinct (l ++ c ∷ [])
distinct-append c [] f h = (tt, tt)
distinct-append c (c' ∷ l) (n, f) (g, h) =
    (fresh-append c c'.address l g (λ e. n (sym e)), distinct-append c l f h)

abbrev pub AllWaiting : List Connection → Type 0
AllWaiting [] = Unit
AllWaiting (c ∷ l) = (c.waiting ≡ true) × AllWaiting l

module _ {D : Type 0} (net : Sockets) (destroy : ℕ → D → D) where
  found_remove-gone :
      (p : ℕ) (o : Option Connection) (s : D × Server)
      → list_find p s.1.connections ≡ o
      → AreDistinct s.1.connections
      → list_find p (remove_found net destroy p o s).1.connections ≡ none
  found_remove-gone p none s e h = e
  found_remove-gone p (some c) s e h = find-removed p s.1.connections h

  -- After a reply that falls short, the connection is not in the list any more.
  pub reply_short-gone :
      (c : Connection) (p : ℕ) (buffer : List ℕ) (d : D) (sv : Server)
      → list_find p sv.connections ≡ some c
      → 0 < length buffer
      → is_short (net sv.actions c.socket buffer) sv.framesize ≡ true
      → AreDistinct sv.connections
      → list_find p (connection_reply net destroy p buffer (d, sv)).1.connections ≡ none
  unfolding connection_reply server_connection_remove
  reply_short-gone c p buffer d sv e long short h =
      let more : ltb 0 (length buffer) ≡ true = ground arith in
      rw (e, more, short)
        (found_remove-gone p (list_find p (set_waiting p false sv.connections))
          (d, written c buffer (idle p sv)) refl (distinct-set_waiting p false sv.connections h))

  next_gone :
      (p : ℕ) (next : D × Server → D × Server) (s : D × Server)
      → list_find p s.1.connections ≡ none
      → (next_node net destroy p next s).1.faulted ≡ true
  next_gone p next s e = rw e refl

  loop_faults :
      (buffer : List ℕ) (pre : List Connection) (c : Connection) (post : List Connection) (d : D)
      (sv : Server)
      → AllFound (pre ++ c ∷ post) sv.connections
      → AllWaiting pre
      → c.waiting ≡ false
      → 0 < length buffer
      → is_short (net sv.actions c.socket buffer) sv.framesize ≡ true
      → AreDistinct sv.connections
      → (broadcast_loop net destroy buffer
          (map (λ (c : Connection). c.address) (pre ++ c ∷ post))
          (d, sv)).1.faulted
        ≡ true
  unfolding broadcast_loop
  loop_faults buffer [] c post d sv (e, found) all w long short h =
      let next = broadcast_loop net destroy buffer (map (λ (c : Connection). c.address) post) in
      ap (λ o. (visit net destroy c.address buffer o next (d, sv)).1.faulted) e
      ∙ rw w (
          next_gone c.address next (connection_reply net destroy c.address buffer (d, sv))
            (reply_short-gone c c.address buffer d sv e long short h))
  loop_faults buffer (c' ∷ pre) c post d sv (e, found) (w', all) w long short h =
      let next =
        broadcast_loop net destroy buffer (map (λ (c : Connection). c.address) (pre ++ c ∷ post)) in
      ap (λ o. (visit net destroy c'.address buffer o next (d, sv)).1.faulted) e
      ∙ ap (λ (s : D × Server). s.1.faulted)
          (visit-waiting net destroy c' c'.address buffer next (d, sv) e w')
      ∙ loop_faults buffer pre c post d sv found all w long short h

  -- If the write to the first connection that does not wait for an answer falls short, the
  -- broadcast accesses freed memory.
  pub broadcast_short-faults :
      (buffer : List ℕ) (pre : List Connection) (c : Connection) (post : List Connection) (d : D)
      (sv : Server)
      → sv.connections ≡ pre ++ c ∷ post
      → AllWaiting pre
      → c.waiting ≡ false
      → 0 < length buffer
      → is_short (net sv.actions c.socket buffer) sv.framesize ≡ true
      → AreDistinct sv.connections
      → (server_broadcast net destroy buffer (d, sv)).1.faulted ≡ true
  unfolding server_broadcast
  broadcast_short-faults buffer pre c post d sv split all w long short h =
      let more : ltb 0 (length buffer) ≡ true = ground arith in
      rw more (
        ap
          (λ l.
            (broadcast_loop net destroy buffer (map (λ (c : Connection). c.address) l)
              (d, sv)).1.faulted)
          split
        ∙ loop_faults buffer pre c post d sv (rw⁻¹ split (distinct-AllFound sv.connections h)) all w
            long short h)
