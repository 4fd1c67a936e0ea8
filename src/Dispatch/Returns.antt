-- ===== src/Dispatch/Returns.antt =====
-- The loop of `dispatch_run` in lib/dispatch.c ends, although the functions that it calls add entries
-- to the table and take entries out of it.
use mathlib.Core.Option
use mathlib.Core.Path.{subst}
use daliserver.Common.{
  ℕ, zero, suc, ◌+◌, ◌≤◌, ◌<◌, ◌≡◌, refl, sym, ap, ◌∙◌, false, Option, none, some, List, arith, ltb,
  Bool-cases, inl, inr, is_some, some_inj,
}
use daliserver.Common.Int.{ℤ, pos, negsuc}
use daliserver.Common.Counting.{one_if, count, get_elem?-lt}
use daliserver.Dispatch.{
  PollFlags, Dispatch, Invocation, Handlers, perform, run_loop, dispatch_run, set_revents, entries,
  reaction, event_handled, timeout, DispatchStatus,
}
use daliserver.Dispatch.Remove.{IsBounded}
use daliserver.Dispatch.Run.{loop-visit, loop-stop, set_revents-IsBounded}
use daliserver.Dispatch.Ahead.{Change, carry_all, is_asking, Ahead, all-Ahead, pass, none_left}

module _ {F E : Type 0} (flags : PollFlags) (run : Handlers F E)
    (keeps : (call : Invocation F) (s : Dispatch F × E)
      → (changes : List (Change F)) × (carry_all flags changes s.0 ≡ some (run call s).0)) where
  called-Ahead :
      (call : Option (Invocation F)) (c i : ℕ) (s : Dispatch F × E)
      → Ahead flags c i s.0
      → Ahead flags c i (perform flags run call s).0
  called-Ahead none c i s a = a
  called-Ahead (some call) c i s a =
      let (changes, e) = keeps call s in
      let (d', done, a') = all-Ahead flags changes c i s.0 a in
      subst (Ahead flags c i) (some_inj d' (run call s).0 (sym done ∙ e)) a'

  -- A round at an entry that asks for nothing.
  round_quiet :
      (fuel i : ℕ) (s : Dispatch F × E) (call : Option (Invocation F))
      → is_some call ≡ false
      → run_loop flags run fuel (i + 1) (perform flags run call s)
        ≡ run_loop flags run fuel (i + 1) s
  round_quiet fuel i s none e = refl
  round_quiet fuel i s (some call) e = ground arith

  -- `c` bounds the entries ahead that ask for a call, and `n` the entries up to the next of them.
  loop_returns :
      (c n i : ℕ) (s : Dispatch F × E)
      → Ahead flags c i s.0
      → s.0.numentries ≤ i + n
      → (fuel : ℕ) × (r : Dispatch F × E) × (run_loop flags run fuel i s ≡ some r) × IsBounded r.0
  loop_returns c zero i s a high = (0, s, loop-stop flags run 0 i s (omega arith), a.bounded)
  loop_returns zero (suc n) i s a high = elim (Bool-cases (ltb i s.0.numentries)) [
    | inr out ↦ (0, s, loop-stop flags run 0 i s (ground arith), a.bounded)
    | inl inside ↦
        let lt : i < s.0.numentries = ground arith in
        let (slot, p) = get_elem?-lt s.0.slots i (omega (arith, a.bounded.within)) in
        let still = none_left flags i s.0 slot lt p a in
        let (fuel, r, q, v) =
          loop_returns zero n (i + 1) s (pass flags zero i 0 s.0 slot p (ap one_if still) a)
            (omega arith) in
        (
          suc fuel,
          r,
          loop-visit flags run fuel i s slot lt p
              ∙ round_quiet fuel i s (reaction flags slot) still
              ∙ q,
          v,
        )
  ]
  loop_returns (suc c) (suc n) i s a high = elim (Bool-cases (ltb i s.0.numentries)) [
    | inr out ↦ (0, s, loop-stop flags run 0 i s (ground arith), a.bounded)
    | inl inside ↦
        let lt : i < s.0.numentries = ground arith in
        let (slot, p) = get_elem?-lt s.0.slots i (omega (arith, a.bounded.within)) in
        elim (Bool-cases (is_some (reaction flags slot))) [
          | inr still ↦
              let (fuel, r, q, v) =
                loop_returns (suc c) n (i + 1) s
                  (pass flags (suc c) i 0 s.0 slot p (ap one_if still) (
                    subst (λ k. Ahead flags k i s.0) (let e : suc c ≡ suc c + 0 = omega arith in e)
                      a))
                  (omega arith) in
              (
                suc fuel,
                r,
                loop-visit flags run fuel i s slot lt p
                    ∙ round_quiet fuel i s (reaction flags slot) still
                    ∙ q,
                v,
              )
          | inl asks ↦
              let s' = perform flags run (reaction flags slot) s in
              let a' = called-Ahead (reaction flags slot) c (i + 1) s (
                pass flags c i 1 s.0 slot p (ap one_if asks) (
                  subst (λ k. Ahead flags k i s.0) (let e : suc c ≡ c + 1 = omega arith in e) a)) in
              let (fuel, r, q, v) = loop_returns c s'.0.numentries (i + 1) s' a' (omega arith) in
              (suc fuel, r, loop-visit flags run fuel i s slot lt p ∙ q, v)
        ]
  ]

  -- Let each function that is called change the table by dispatch_add and dispatch_remove_fd only,
  -- with whatever arguments and as often as it likes. Then `dispatch_run` ends, whatever poll()
  -- reports: some number of rounds is enough, although the functions may add entries in each of
  -- them. It reads nothing outside the table, and the table stays within its memory.
  pub run_returns :
      (polled : ℤ) (revents : List ℕ) (s : Dispatch F × E)
      → IsBounded s.0
      → (fuel : ℕ) × (r : Dispatch F × E) × (status : DispatchStatus) × (dispatch_run flags run fuel
            polled revents s
          ≡ some (r, status))
        × IsBounded r.0
  unfolding dispatch_run
  run_returns (negsuc n) revents s v = (0, s, timeout, refl, v)
  run_returns (pos zero) revents s v = (0, s, timeout, refl, v)
  run_returns (pos (suc n)) revents (d, e) v =
      let marked : Dispatch F = record d { slots = set_revents revents d.slots } in
      let c = count (is_asking flags) (entries marked) in
      let (fuel, r, q, kept) =
        loop_returns c d.numentries 0 (marked, e)
          (record { bounded = set_revents-IsBounded revents d v; few = λ h. omega arith })
          (omega arith) in
      (fuel, r, event_handled, ap (λ o. Option.map (λ x. (x, event_handled)) o) q, kept)
