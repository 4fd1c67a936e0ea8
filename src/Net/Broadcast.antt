-- ===== src/Net/Broadcast.antt =====
-- What `server_broadcast` of lib/net.c writes, and what becomes of it when a write falls short.
use daliserver.Common.{
  ℕ, ◌≤◌, ◌<◌, ◌≡◌, ◌≢◌, refl, sym, ap, ◌∙◌, true, false, some, List, [], ◌∷◌, arith, ltb, ◌==◌,
  if◌then◌else◌, length, Bool-cases, inl, inr, map, some_inj,
}
use daliserver.Net.{
  Connection, Server, Sockets, Action, write, list_find, set_waiting, is_short, connection_reply,
  next_node, idle, written, visit, broadcast_loop, server_broadcast,
}

-- Sockets that take all of a buffer that is as long as a frame.
abbrev pub TakeFrames : Sockets → ℕ → Type 0
TakeFrames net framesize =
    (actions : List Action) (socket : ℕ) (buffer : List ℕ)
    → framesize ≤ length buffer
    → is_short (net actions socket buffer) framesize ≡ false

-- No other connection has the address.
abbrev pub HasFresh : ℕ → List Connection → Type 0
HasFresh p [] = Unit
HasFresh p (c ∷ l) = (c.address ≢ p) × HasFresh p l

abbrev pub AreDistinct : List Connection → Type 0
AreDistinct [] = Unit
AreDistinct (c ∷ l) = HasFresh c.address l × AreDistinct l

abbrev pub AllFound : List Connection → List Connection → Type 0
AllFound [] l = Unit
AllFound (c ∷ sub) l = (list_find c.address l ≡ some c) × AllFound sub l

cons-AllFound :
    (c : Connection) (sub l : List Connection)
    → HasFresh c.address sub
    → AllFound sub l
    → AllFound sub (c ∷ l)
unfolding list_find
cons-AllFound c [] l h k = tt
cons-AllFound c (c' ∷ sub) l (h, f) (e, k) = (ground arith, cons-AllFound c sub l f k)

pub distinct-AllFound : (l : List Connection) → AreDistinct l → AllFound l l
unfolding list_find
distinct-AllFound [] h = tt
distinct-AllFound (c ∷ l) (f, h) = (ground arith, cons-AllFound c l l f (distinct-AllFound l h))

set_waiting-same :
    (p : ℕ) (c : Connection) (l : List Connection)
    → list_find p l ≡ some c
    → c.waiting ≡ false
    → set_waiting p false l ≡ l
unfolding list_find set_waiting
set_waiting-same p c [] e w = refl
set_waiting-same p c (c' ∷ l) e w = elim (Bool-cases (c'.address == p)) [
  | inl f ↦ ground (arith, some_inj c' c)
  | inr f ↦ ground (arith, set_waiting-same p c l)
]

-- The writes of a broadcast, in the order of the list.
abbrev pub sent : List ℕ → List Connection → List Action → List Action
sent buffer [] actions = actions
sent buffer (c ∷ l) actions =
    sent buffer l (if c.waiting then actions else write c.socket buffer ∷ actions)

module _ {D : Type 0} (net : Sockets) (destroy : ℕ → D → D) where
  pub reply-writes :
      (c : Connection) (p : ℕ) (buffer : List ℕ) (d : D) (sv : Server)
      → list_find p sv.connections ≡ some c
      → 0 < length buffer
      → is_short (net sv.actions c.socket buffer) sv.framesize ≡ false
      → connection_reply net destroy p buffer (d, sv) ≡ (d, written c buffer (idle p sv))
  unfolding connection_reply
  reply-writes c p buffer d sv e h k =
      let long : ltb 0 (length buffer) ≡ true = ground arith in rw (e, long, k)

  next-found :
      (c : Connection) (p : ℕ) (next : D × Server → D × Server) (s : D × Server)
      → list_find p s.1.connections ≡ some c
      → next_node net destroy p next s ≡ next s
  next-found c p next s e = rw e

  pub visit-waiting :
      (c : Connection) (p : ℕ) (buffer : List ℕ) (next : D × Server → D × Server) (s : D × Server)
      → list_find p s.1.connections ≡ some c
      → c.waiting ≡ true
      → visit net destroy p buffer (some c) next s ≡ next s
  visit-waiting c p buffer next s e w = rw (w, e)

  visit-writes :
      (c : Connection) (p : ℕ) (buffer : List ℕ) (next : D × Server → D × Server) (d : D)
      (sv : Server)
      → list_find p sv.connections ≡ some c
      → c.waiting ≡ false
      → 0 < length buffer
      → is_short (net sv.actions c.socket buffer) sv.framesize ≡ false
      → visit net destroy p buffer (some c) next (d, sv) ≡ next (d, written c buffer sv)
  visit-writes c p buffer next d sv e w h k =
      let same : written c buffer (idle p sv) ≡ written c buffer sv =
        ap (λ l. record sv { connections = l; actions = write c.socket buffer ∷ sv.actions })
          (set_waiting-same p c sv.connections e w) in
      rw w (
        ap (next_node net destroy p next)
          (reply-writes c p buffer d sv e h k ∙ ap (λ t. (d, t)) same)
        ∙ next-found c p next (d, written c buffer sv) e)

  loop-sent :
      (framesize : ℕ) (buffer : List ℕ)
      → TakeFrames net framesize
      → framesize ≤ length buffer
      → 0 < length buffer
      → (sub : List Connection) (d : D) (sv : Server) → sv.framesize ≡ framesize
      → AllFound sub sv.connections
      → broadcast_loop net destroy buffer (map (λ (c : Connection). c.address) sub) (d, sv)
        ≡ (d, record sv { actions = sent buffer sub sv.actions })
  unfolding broadcast_loop
  loop-sent framesize buffer takes long some_byte [] d sv size found = refl
  loop-sent framesize buffer takes long some_byte (c ∷ sub) d sv size (e, found) =
      let next = broadcast_loop net destroy buffer (map (λ (c : Connection). c.address) sub) in
      ap (λ o. visit net destroy c.address buffer o next (d, sv)) e ∙ elim (Bool-cases c.waiting) [
        | inl w ↦
            visit-waiting c c.address buffer next (d, sv) e w
            ∙ loop-sent framesize buffer takes long some_byte sub d sv size found
            ∙ ap
                (λ b. (
                  d,
                  record sv {
                    actions =
                        sent buffer sub
                          (if b then sv.actions else write c.socket buffer ∷ sv.actions);
                  },
                ))
                (sym w)
        | inr w ↦
            visit-writes c c.address buffer next d sv e w some_byte (
              ap (λ n. is_short (net sv.actions c.socket buffer) n) size
              ∙ takes sv.actions c.socket buffer long)
            ∙ loop-sent framesize buffer takes long some_byte sub d (written c buffer sv) size found
            ∙ ap
                (λ b. (
                  d,
                  record sv {
                    actions =
                        sent buffer sub
                          (if b then sv.actions else write c.socket buffer ∷ sv.actions);
                  },
                ))
                (sym w)
      ]

  -- With sockets that take whole frames and connections with different addresses, a broadcast of a
  -- frame writes it to each connection that does not wait for an answer, in the order of the list,
  -- and does nothing else; it accesses no freed memory.
  pub broadcast-sent :
      (buffer : List ℕ) (d : D) (sv : Server)
      → TakeFrames net sv.framesize
      → sv.framesize ≤ length buffer
      → 0 < length buffer
      → AreDistinct sv.connections
      → server_broadcast net destroy buffer (d, sv)
        ≡ (d, record sv { actions = sent buffer sv.connections sv.actions })
  unfolding server_broadcast
  broadcast-sent buffer d sv takes long some_byte distinct =
      let more : ltb 0 (length buffer) ≡ true = ground arith in
      rw more (
        loop-sent sv.framesize buffer takes long some_byte sv.connections d sv refl
          (distinct-AllFound sv.connections distinct))
