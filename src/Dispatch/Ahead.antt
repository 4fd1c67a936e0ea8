-- ===== src/Dispatch/Ahead.antt =====
-- How many entries of the table in lib/dispatch.c still ask for a call while the loop of
-- `dispatch_run` goes through it: what adds entries and what takes them out makes them no more.
use Prim.Native.Nat.{bit_and-bitwise}
use daliserver.Common.{
  ℕ, zero, suc, ◌+◌, ◌≤◌, ◌<◌, ◌≡◌, refl, ap, ◌∙◌, Bool, false, Option, some, List, [], ◌∷◌, ◌++◌,
  arith, ltb, Bool-cases, replicate, get_elem?, take, take-append, inl, inr, is_some,
}
use daliserver.Common.Int.{ℤ, pos}
use daliserver.Common.Counting.{
  one_if, count, count_more, count-take_le, count-take-suc, count-take-set_beyond, get_elem?-lt,
}
use daliserver.Dispatch.{
  PollFlags, Slot, Dispatch, dispatch_add, dispatch_remove, dispatch_remove_fd, remove_loop,
  entries, reaction, ◌>>=◌, alloc_increase,
}
use daliserver.Dispatch.Remove.{IsBounded, remove-Removed, is_fd, loop-hit, loop-miss}
use daliserver.Dispatch.Add.{add-entries}

-- What the functions of the program do to the table.
pub data Change (F : Type 0) : Type 0 where
  adds : Slot F → ℕ → ℤ → Option F → Option F → Option F → ℕ → Change F
  removes : ℤ → Change F

module _ {F : Type 0} (flags : PollFlags) where
  abbrev pub is_asking : Slot F → Bool
  is_asking s = is_some (reaction flags s)

  quiet : (s : Slot F) → s.revents ≡ 0 → is_asking s ≡ false
  unfolding reaction
  quiet s e =
      rw
        (
          e,
          bit_and-bitwise 0 flags.pollnval,
          bit_and-bitwise 0 flags.pollerr,
          bit_and-bitwise 0 flags.pollhup,
          bit_and-bitwise 0 s.events,
        )
        refl

  -- At most `c` entries from the index `i` on ask for a call.
  pub record Ahead (c i : ℕ) (d : Dispatch F) : Type 0 where
    pub bounded : IsBounded d
    pub few : i < d.numentries → count is_asking (entries d) ≤ c + count is_asking (take i d.slots)

  remove-Ahead :
      (c i j : ℕ) (d : Dispatch F) (s : Slot F)
      → j < d.numentries
      → get_elem? d.slots j ≡ some s
      → Ahead c i d
      → (d' : Dispatch F) × (dispatch_remove d j ≡ some d')
        × (d'.numentries + 1 ≡ d.numentries)
        × Ahead c i d'
  remove-Ahead c i j d s lt p a =
      let (d', e, r) = remove-Removed d j s lt a.bounded p in
      (
        d',
        e,
        r.fewer,
        record {
          bounded = r.bounded;
          few = λ h.
              omega (arith, a.few (omega (arith, r.fewer)), r.rest is_asking, r.others is_asking i);
        },
      )

  loop-Ahead :
      (c i fuel j : ℕ) (fd : ℤ) (d : Dispatch F)
      → d.numentries ≤ j + fuel
      → Ahead c i d
      → (d' : Dispatch F) × (remove_loop fuel j fd d ≡ some d') × Ahead c i d'
  unfolding remove_loop
  loop-Ahead c i zero j fd d high a =
      let out : ltb j d.numentries ≡ false = ground arith in (d, rw out refl, a)
  loop-Ahead c i (suc fuel) j fd d high a = elim (Bool-cases (ltb j d.numentries)) [
    | inr out ↦ (d, rw out, a)
    | inl inside ↦
        let (s, p) = get_elem?-lt d.slots j (ground (arith, a.bounded.within)) in
        elim (Bool-cases (is_fd fd s)) [
          | inl hit ↦
              let (d1, q, fewer, a1) = remove-Ahead c i j d s (ground arith) p a in
              let (d', done, a') = loop-Ahead c i fuel j fd d1 (omega arith) a1 in
              (d', loop-hit fuel j fd d d1 s inside p hit q ∙ done, a')
          | inr miss ↦
              let (d', done, a') = loop-Ahead c i fuel (j + 1) fd d (omega arith) a in
              (d', loop-miss fuel j fd d s inside p miss ∙ done, a')
        ]
  ]

  remove_fd-Ahead :
      (c i : ℕ) (fd : ℤ) (d : Dispatch F)
      → Ahead c i d
      → (d' : Dispatch F) × (dispatch_remove_fd d fd ≡ some d') × Ahead c i d'
  unfolding dispatch_remove_fd
  remove_fd-Ahead c i fd d a = loop-Ahead c i d.numentries 0 fd d (omega arith) a

  add-before :
      (unset : Slot F) (d : Dispatch F) (fd : ℕ) (events : ℤ) (readyfn errorfn indexfn : Option F)
      (arg i : ℕ)
      → IsBounded d
      → i ≤ d.numentries
      → let d' = dispatch_add flags unset d (pos fd) events readyfn errorfn indexfn arg in
        (d'.numentries ≡ d.numentries + 1)
        × (count is_asking (take i d'.slots) ≡ count is_asking (take i d.slots))
  unfolding dispatch_add
  add-before unset d fd events readyfn errorfn indexfn arg i v h =
      elim (Bool-cases (ltb d.allocentries (d.numentries + 1))) [
        | inl e ↦ rw e (
          refl,
          count-take-set_beyond is_asking i d.numentries (d.slots ++ replicate alloc_increase unset)
                _ h
              ∙ ap (λ l. count is_asking l)
                  (take-append i d.slots (replicate alloc_increase unset)
                    (omega (arith, v.within))),
        )
        | inr e ↦ rw e (refl, count-take-set_beyond is_asking i d.numentries d.slots _ h)
      ]

  add-Ahead :
      (unset : Slot F) (c i : ℕ) (d : Dispatch F) (fd : ℕ) (events : ℤ)
      (readyfn errorfn indexfn : Option F) (arg : ℕ)
      → Ahead c i d
      → Ahead c i (dispatch_add flags unset d (pos fd) events readyfn errorfn indexfn arg)
  add-Ahead unset c i d fd events readyfn errorfn indexfn arg a =
      let (bounded, e) =
        add-entries flags unset d fd events readyfn errorfn indexfn arg a.bounded in
      let d' = dispatch_add flags unset d (pos fd) events readyfn errorfn indexfn arg in
      let same = count_more is_asking (entries d) (entries d') _ false e (quiet _ refl) in
      let more =
        (add-before unset d fd events readyfn errorfn indexfn arg 0 a.bounded (omega arith)).0 in
      record {
        bounded = bounded;
        few = λ h.
            let kept =
              (add-before unset d fd events readyfn errorfn indexfn arg i a.bounded
                (omega arith)).1 in
            elim (Bool-cases (ltb i d.numentries)) [
              | inl inside ↦ omega (arith, a.few (ground arith))
              | inr out ↦
                  let last : i ≡ d.numentries = ground arith in
                  omega (arith, ap (λ k. count is_asking (take k d.slots)) last)
            ];
      }

  abbrev pub change_table : Change F → Dispatch F → Option (Dispatch F)
  change_table (adds unset fd events readyfn errorfn indexfn arg) d =
      some (dispatch_add flags unset d (pos fd) events readyfn errorfn indexfn arg)
  change_table (removes fd) d = dispatch_remove_fd d fd

  abbrev pub carry_all : List (Change F) → Dispatch F → Option (Dispatch F)
  carry_all [] d = some d
  carry_all (change ∷ changes) d = change_table change d >>= carry_all changes

  pub all-Ahead :
      (changes : List (Change F)) (c i : ℕ) (d : Dispatch F)
      → Ahead c i d
      → (d' : Dispatch F) × (carry_all changes d ≡ some d') × Ahead c i d'
  all-Ahead [] c i d a = (d, refl, a)
  all-Ahead (adds unset fd events readyfn errorfn indexfn arg ∷ changes) c i d a =
      all-Ahead changes c i (dispatch_add flags unset d (pos fd) events readyfn errorfn indexfn arg)
        (add-Ahead unset c i d fd events readyfn errorfn indexfn arg a)
  all-Ahead (removes fd ∷ changes) c i d a =
      let (d1, e, a1) = remove_fd-Ahead c i fd d a in
      let (d', done, a') = all-Ahead changes c i d1 a1 in
      (d', ap (λ o. o >>= carry_all changes) e ∙ done, a')

  -- The entry at the index is passed; it was one of those that ask if it has a call.
  pub pass :
      (c i b : ℕ) (d : Dispatch F) (s : Slot F)
      → get_elem? d.slots i ≡ some s
      → one_if (is_asking s) ≡ b
      → Ahead (c + b) i d
      → Ahead c (i + 1) d
  pass c i b d s p e a = record {
    bounded = a.bounded;
    few = λ h.
        let next : i + 1 ≡ suc i = omega arith in
        omega (
          arith,
          a.few (omega arith),
          count-take-suc is_asking i d.slots s p,
          ap (λ k. count is_asking (take k d.slots)) next,
        );
  }

  -- No entry asks if none is left to ask.
  pub none_left :
      (i : ℕ) (d : Dispatch F) (s : Slot F)
      → i < d.numentries
      → get_elem? d.slots i ≡ some s
      → Ahead 0 i d
      → is_asking s ≡ false
  none_left i d s h p a = elim (Bool-cases (is_asking s)) [
    | inr none_asks ↦ none_asks
    | inl asks ↦ absurd (
        omega (
          arith,
          a.few h,
          ap one_if asks,
          count-take-suc is_asking i d.slots s p,
          count-take_le is_asking (suc i) d.numentries d.slots (omega arith),
        ))
  ]
