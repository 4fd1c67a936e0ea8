-- ===== src/Dispatch/Add.antt =====
-- What dispatch_add in lib/dispatch.c does to the table.
use daliserver.Common.{
  ℕ, suc, ◌+◌, ◌<◌, ◌≡◌, refl, ap, ◌∙◌, Option, [], ◌∷◌, ◌++◌, arith, ltb, Bool-cases, length,
  length-set, length-append, take-set_end, take-append, set, take, inl, inr, replicate,
}
use daliserver.Common.Int.{ℤ, pos}
use daliserver.Dispatch.{
  PollFlags, Slot, Dispatch, dispatch_add, entries, store, grow, alloc_increase, events_of,
}
use daliserver.Dispatch.Remove.{IsBounded}

module _ {F : Type 0} where
  store-entries :
      (d : Dispatch F) (s : Slot F)
      → IsBounded d
      → d.numentries < length d.slots
      → IsBounded (store s d) × (entries (store s d) ≡ entries d ++ s ∷ [])
  store-entries d s v room = (
    ground (arith, length-set d.slots d.numentries s),
    ap (λ k. take k (set d.slots d.numentries s))
          (let e : d.numentries + 1 ≡ suc d.numentries = omega arith in e)
        ∙ take-set_end d.numentries d.slots s room,
  )

  grow-entries :
      (unset : Slot F) (d : Dispatch F)
      → IsBounded d
      → IsBounded (grow unset d)
        × (d.numentries < length (grow unset d).slots)
        × ((grow unset d).numentries ≡ d.numentries)
        × (entries (grow unset d) ≡ entries d)
  grow-entries unset d v = elim (Bool-cases (ltb d.allocentries (d.numentries + 1))) [
    | inl e ↦
        let more = length-append d.slots (replicate alloc_increase unset) in
        rw e (
          ground (arith, more),
          omega (arith, more, v.within),
          refl,
          take-append d.numentries d.slots (replicate alloc_increase unset) v.within,
        )
    | inr e ↦ rw e (v, ground (arith, v.allocated), refl, refl)
  ]

  -- `dispatch_add` appends an entry with what it is given, with -1 for the events read as POLLIN
  -- and no event pending, and keeps the table within its memory.
  pub add-entries :
      (flags : PollFlags) (unset : Slot F) (d : Dispatch F) (fd : ℕ) (events : ℤ)
      (readyfn errorfn indexfn : Option F) (arg : ℕ)
      → IsBounded d
      → let d' = dispatch_add flags unset d (pos fd) events readyfn errorfn indexfn arg in
        IsBounded d'
        × (entries d'
            ≡ entries d
              ++ record {
                arg = arg;
                readyfn = readyfn;
                errorfn = errorfn;
                indexfn = indexfn;
                fd = pos fd;
                events = events_of flags events;
                revents = 0;
              }
                ∷ [])
  unfolding dispatch_add
  add-entries flags unset d fd events readyfn errorfn indexfn arg v =
      let s : Slot F = record {
        arg = arg;
        readyfn = readyfn;
        errorfn = errorfn;
        indexfn = indexfn;
        fd = pos fd;
        events = events_of flags events;
        revents = 0;
      } in
      let (bounded, room, same, kept) = grow-entries unset d v in
      let (bounded', e) = store-entries (grow unset d) s bounded (omega (arith, same, room)) in
      (bounded', e ∙ ap (λ l. l ++ s ∷ []) kept)
