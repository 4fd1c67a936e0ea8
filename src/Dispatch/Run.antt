-- ===== src/Dispatch/Run.antt =====
-- The loop of `dispatch_run` in lib/dispatch.c: it calls what the events ask for.
use mathlib.Core.Option
use mathlib.Core.List.{append_assoc, append-nil}
use daliserver.Common.{
  ℕ, zero, suc, ◌+◌, ◌≤◌, ◌<◌, ◌≡◌, refl, sym, ap, ◌∙◌, true, false, Option, none, some, List, [],
  ◌∷◌, ◌++◌, ◌==◌, bit_and, if◌then◌else◌, arith, ltb, length, get_elem?, take, drop, some_inj,
}
use daliserver.Common.Int.{pos}
use daliserver.Common.Counting.{get_elem?-lt}
use daliserver.Dispatch.{
  PollFlags, Slot, Dispatch, Invocation, Handlers, perform, run_loop, dispatch_run, set_revents,
  entries, reaction, event_handled, DispatchError, fd_closed, poll_error, fd_invalid, ready, error,
}
use daliserver.Dispatch.Remove.{IsBounded}

length-set_revents :
    {F : Type 0} (revents : List ℕ) (slots : List (Slot F))
    → length (set_revents revents slots) ≡ length slots
length-set_revents [] slots = refl
length-set_revents (r ∷ revents) [] = refl
length-set_revents (r ∷ revents) (s ∷ slots) = ap suc (length-set_revents revents slots)

pub set_revents-IsBounded :
    {F : Type 0} (revents : List ℕ) (d : Dispatch F)
    → IsBounded d
    → IsBounded (record d { slots = set_revents revents d.slots })
set_revents-IsBounded revents d v = ground (arith, length-set_revents revents d.slots)

module _ {F E : Type 0} (flags : PollFlags) (run : Handlers F E) where
  pub loop-visit :
      (fuel i : ℕ) (s : Dispatch F × E) (slot : Slot F)
      → i < s.0.numentries
      → get_elem? s.0.slots i ≡ some slot
      → run_loop flags run (suc fuel) i s
        ≡ run_loop flags run fuel (i + 1) (perform flags run (reaction flags slot) s)
  unfolding run_loop
  loop-visit fuel i s slot h p =
      let inside : ltb i s.0.numentries ≡ true = ground arith in rw (inside, p)

  pub loop-stop :
      (fuel i : ℕ) (s : Dispatch F × E) → s.0.numentries ≤ i → run_loop flags run fuel i s ≡ some s
  unfolding run_loop
  loop-stop zero i s h = let out : ltb i s.0.numentries ≡ false = ground arith in rw out
  loop-stop (suc fuel) i s h = let out : ltb i s.0.numentries ≡ false = ground arith in rw out

-- The worst that poll() reports of a descriptor comes first.
abbrev pub problems : PollFlags → List (ℕ × DispatchError)
problems flags =
    (flags.pollnval, fd_invalid) ∷ (flags.pollerr, poll_error) ∷ (flags.pollhup, fd_closed) ∷ []

abbrev pub first_problem : List (ℕ × DispatchError) → ℕ → Option DispatchError
first_problem [] revents = none
first_problem ((flag, err) ∷ more) revents =
    if bit_and revents flag == 0 then first_problem more revents else some err

module _ {F : Type 0} (flags : PollFlags) where
  abbrev pub on_problem : Slot F → DispatchError → Option F → Option (Invocation F)
  on_problem s err none = none
  on_problem s err (some f) = some (error f s.arg err)

  abbrev pub on_ready : Slot F → Option F → Option (Invocation F)
  on_ready s none = none
  on_ready s (some f) = if bit_and s.revents s.events == 0 then none else some (ready f s.arg)

  -- What the events on a slot ask for: its function for errors if there is a problem, and its
  -- function for input if there is none and an event that it waits for.
  abbrev pub asked : Slot F → Option (Invocation F)
  asked s = elim (first_problem (problems flags) s.revents) [
    | some err ↦ on_problem s err s.errorfn
    | none ↦ on_ready s s.readyfn
  ]

  reaction-asked : (s : Slot F) → reaction flags s ≡ asked s
  unfolding reaction
  reaction-asked s = ground arith

  abbrev pub listed : Option (Invocation F) → List (Invocation F) → List (Invocation F)
  listed none rest = rest
  listed (some call) rest = call ∷ rest

  -- What the events on the slots ask for, in the order of the table.
  abbrev pub reactions : List (Slot F) → List (Invocation F)
  reactions [] = []
  reactions (s ∷ slots) = listed (asked s) (reactions slots)

  abbrev reacted : List (Slot F) → List (Invocation F)
  reacted [] = []
  reacted (s ∷ slots) = listed (reaction flags s) (reacted slots)

  reacted-reactions : (slots : List (Slot F)) → reacted slots ≡ reactions slots
  reacted-reactions [] = refl
  reacted-reactions (s ∷ slots) =
      ap (λ c. listed c (reacted slots)) (reaction-asked s)
      ∙ ap (listed (asked s)) (reacted-reactions slots)

  -- Functions that leave the table alone, and are written down as they are called.
  abbrev pub write_down : Handlers F (List (Invocation F))
  write_down call (d, calls) = (d, calls ++ call ∷ [])

  drop-get_elem? :
      (xs : List (Slot F)) (i : ℕ) (x : Slot F)
      → get_elem? xs i ≡ some x
      → drop i xs ≡ x ∷ drop (suc i) xs
  drop-get_elem? [] i x h = cc
  drop-get_elem? (y ∷ xs) zero x h = ap (λ z. z ∷ xs) (some_inj y x h)
  drop-get_elem? (y ∷ xs) (suc i) x h = drop-get_elem? xs i x h

  perform-listed :
      (call : Option (Invocation F)) (d : Dispatch F) (calls rest : List (Invocation F))
      → (perform flags write_down call (d, calls)).1 ++ rest ≡ calls ++ listed call rest
  perform-listed none d calls rest = refl
  perform-listed (some call) d calls rest = append_assoc calls (call ∷ []) rest

  perform-table :
      (call : Option (Invocation F)) (d : Dispatch F) (calls : List (Invocation F))
      → (perform flags write_down call (d, calls)).0 ≡ d
  perform-table none d calls = refl
  perform-table (some call) d calls = refl

  loop-reactions :
      (k i : ℕ) (d : Dispatch F) (calls : List (Invocation F))
      → i + k ≡ d.numentries
      → d.numentries ≤ length d.slots
      → run_loop flags write_down k i (d, calls)
        ≡ some (d, calls ++ reacted (take k (drop i d.slots)))
  loop-reactions zero i d calls e h =
      loop-stop flags write_down zero i (d, calls) (omega arith)
      ∙ ap (λ l. some (d, l)) (sym (append-nil calls))
  loop-reactions (suc k) i d calls e h =
      let (slot, p) = get_elem?-lt d.slots i (omega arith) in
      let call = reaction flags slot in
      let next : i + 1 ≡ suc i = omega arith in
      loop-visit flags write_down k i (d, calls) slot (omega arith) p
      ∙ ap
          (λ t.
            run_loop flags write_down k (i + 1) (t, (perform flags write_down call (d, calls)).1))
          (perform-table call d calls)
      ∙ loop-reactions k (i + 1) d (perform flags write_down call (d, calls)).1 (omega arith) h
      ∙ ap (λ l. some (d, l))
          (perform-listed call d calls (reacted (take k (drop (i + 1) d.slots)))
            ∙ ap (λ n. calls ++ listed call (reacted (take k (drop n d.slots)))) next
            ∙ ap (λ l. calls ++ reacted (take (suc k) l)) (sym (drop-get_elem? d.slots i slot p)))

  -- When poll() reports events, `dispatch_run` makes one call for each entry that asks for one, in
  -- the order of the table, as long as none of the functions changes the table. An entry with an
  -- invalid descriptor, an error or a hang-up has its error function called, if it has one, with the
  -- first of these that is reported; another entry has its function for input called, if it has one
  -- and an event came that it waits for. The loop ends after as many rounds as there are entries,
  -- without a read outside the table.
  pub run-reactions :
      (n : ℕ) (revents : List ℕ) (d : Dispatch F) (calls : List (Invocation F))
      → IsBounded d
      → let d' = record d { slots = set_revents revents d.slots } in
        dispatch_run flags write_down d.numentries (pos (suc n)) revents (d, calls)
        ≡ some ((d', calls ++ reactions (entries d')), event_handled)
  unfolding dispatch_run
  run-reactions n revents d calls v =
      ap (λ o. Option.map (λ r. (r, event_handled)) o)
        (loop-reactions d.numentries 0 (record d { slots = set_revents revents d.slots }) calls
            (omega arith) (set_revents-IsBounded revents d v).within
          ∙ ap (λ l. some (record d { slots = set_revents revents d.slots }, calls ++ l))
              (reacted-reactions (take d.numentries (set_revents revents d.slots))))
