-- ===== src/Dispatch/Remove.antt =====
-- What removing in lib/dispatch.c does to the table. Removal moves the last entry, so
-- tables are compared by how many entries pass a test, for every test.
use daliserver.Common.{
  ℕ, zero, suc, ◌+◌, ◌-◌, ◌≤◌, ◌<◌, ◌≡◌, refl, ap, ◌∙◌, Bool, true, false, ◌&&◌, some, arith, ltb,
  ◌==◌, Bool-cases, length, length-set, get_elem?, set, take, inl, inr,
}
use daliserver.Common.Int.{ℤ, eq_ℤ}
use daliserver.Common.Counting.{
  one_if, count, count_both_le, count-take-suc, count-take-set_beyond, count-take-set, get_elem?-lt,
}
use daliserver.Dispatch.{
  Slot, Dispatch, move_last, dispatch_remove, remove_loop, dispatch_remove_fd, entries,
}

-- The entries in use are within the memory that is allocated.
pub record IsBounded {F : Type 0} (d : Dispatch F) : Type 0 where
  pub within : d.numentries ≤ length d.slots
  pub allocated : d.allocentries ≡ length d.slots

-- A table is another one less the entry `s`, as far as its entries and the first `i` slots go. The
-- entry is all that may be missing before any other index.
pub record Removed {F : Type 0} (i : ℕ) (s : Slot F) (d d' : Dispatch F) : Type 0 where
  pub bounded : IsBounded d'
  pub fewer : d'.numentries + 1 ≡ d.numentries
  pub rest : (q : Slot F → Bool) → count q (entries d') + one_if (q s) ≡ count q (entries d)
  before : (q : Slot F → Bool) → count q (take i d'.slots) ≡ count q (take i d.slots)
  pub others :
      (q : Slot F → Bool) (k : ℕ)
      → count q (take k d.slots) ≤ count q (take k d'.slots) + one_if (q s)

module _ {F : Type 0} where
  moved :
      (d : Dispatch F) (i n : ℕ) (s last : Slot F)
      → d.numentries ≡ suc n
      → i < n
      → IsBounded d
      → get_elem? d.slots i ≡ some s
      → get_elem? d.slots n ≡ some last
      → (d' : Dispatch F) × (move_last d i (some last) ≡ some d') × Removed i s d d'
  moved d i n s last e lt v p q = (
    _,
    refl,
    record {
      bounded = ground (arith, length-set d.slots i last);
      fewer = omega arith;
      rest = λ c. omega (
        arith,
        count-take-set c n i d.slots s last lt p,
        count-take-suc c n d.slots last q,
        ap (λ k. count c (take k d.slots)) e,
        ap (λ k. count c (take (k - 1) (set d.slots i last))) e,
        ap (λ k. count c (take k (set d.slots i last))) (let f : suc n - 1 ≡ n = omega arith in f),
      );
      before = λ c. count-take-set_beyond c i i d.slots last (omega arith);
      others = λ c k. elim (Bool-cases (ltb i k)) [
        | inl far ↦ omega (arith, count-take-set c k i d.slots s last (ground arith) p)
        | inr near ↦ omega (arith, count-take-set_beyond c k i d.slots last (ground arith))
      ];
    },
  )

  dropped :
      (d : Dispatch F) (i : ℕ) (s : Slot F)
      → d.numentries ≡ suc i
      → IsBounded d
      → get_elem? d.slots i ≡ some s
      → Removed i s d (record d { numentries = d.numentries - 1 })
  dropped d i s e v p = record {
    bounded = ground arith;
    fewer = omega arith;
    rest = λ c. omega (
      arith,
      count-take-suc c i d.slots s p,
      ap (λ k. count c (take k d.slots)) e,
      ap (λ k. count c (take (k - 1) d.slots)) e,
      ap (λ k. count c (take k d.slots)) (let f : suc i - 1 ≡ i = omega arith in f),
    );
    before = λ c. refl;
    others = λ c k. omega arith;
  }

  pub remove-Removed :
      (d : Dispatch F) (i : ℕ) (s : Slot F)
      → i < d.numentries
      → IsBounded d
      → get_elem? d.slots i ≡ some s
      → (d' : Dispatch F) × (dispatch_remove d i ≡ some d') × Removed i s d d'
  unfolding dispatch_remove
  remove-Removed d i s lt v p =
      let n = d.numentries - 1 in
      let inside : ltb i d.numentries ≡ true = ground arith in
      elim (Bool-cases (i == n)) [
        | inl e ↦ (_, rw (inside, e), dropped d i s (ground arith) v p)
        | inr e ↦
            let (last, q) = get_elem?-lt d.slots n (omega (arith, v.within)) in
            let (d', r, done) = moved d i n s last (omega arith) (ground arith) v p q in
            (d', rw (inside, e, q) r, done)
      ]

  abbrev pub is_fd : ℤ → Slot F → Bool
  is_fd fd s = eq_ℤ s.fd fd

  -- The table `d'` is `d` without the entries of a descriptor.
  pub record Without (fd : ℤ) (d d' : Dispatch F) : Type 0 where
    pub bounded : IsBounded d'
    pub exactly :
        (p : Slot F → Bool)
        → count p (entries d') + count (λ s. p s && is_fd fd s) (entries d) ≡ count p (entries d)

  Without-none :
      (fd : ℤ) (d : Dispatch F) → IsBounded d → count (is_fd fd) (entries d) ≡ 0 → Without fd d d
  Without-none fd d v clean = record {
    bounded = v;
    exactly = λ p. omega (arith, count_both_le p (is_fd fd) (entries d));
  }

  Without-Removed :
      (fd : ℤ) (i : ℕ) (s : Slot F) (d d1 d' : Dispatch F)
      → is_fd fd s ≡ true
      → Removed i s d d1
      → Without fd d1 d'
      → Without fd d d'
  Without-Removed fd i s d d1 d' hit r w = record {
    bounded = w.bounded;
    exactly = λ p.
        let both : (p s && is_fd fd s) ≡ p s = ground arith in
        omega (arith, w.exactly p, r.rest p, r.rest (λ s. p s && is_fd fd s), ap one_if both);
  }

  pub loop-miss :
      (fuel i : ℕ) (fd : ℤ) (d : Dispatch F) (s : Slot F)
      → ltb i d.numentries ≡ true
      → get_elem? d.slots i ≡ some s
      → is_fd fd s ≡ false
      → remove_loop (suc fuel) i fd d ≡ remove_loop fuel (i + 1) fd d
  unfolding remove_loop
  loop-miss fuel i fd d s inside p miss = rw (inside, p, miss)

  pub loop-hit :
      (fuel i : ℕ) (fd : ℤ) (d d1 : Dispatch F) (s : Slot F)
      → ltb i d.numentries ≡ true
      → get_elem? d.slots i ≡ some s
      → is_fd fd s ≡ true
      → dispatch_remove d i ≡ some d1
      → remove_loop (suc fuel) i fd d ≡ remove_loop fuel i fd d1
  unfolding remove_loop
  loop-hit fuel i fd d d1 s inside p hit q = rw (inside, p, hit, q)

  loop-Without :
      (fuel i : ℕ) (fd : ℤ) (d : Dispatch F)
      → i ≤ d.numentries
      → d.numentries ≤ i + fuel
      → IsBounded d
      → count (is_fd fd) (take i d.slots) ≡ 0
      → (d' : Dispatch F) × (remove_loop fuel i fd d ≡ some d') × Without fd d d'
  unfolding remove_loop
  loop-Without zero i fd d low high v clean =
      let e : d.numentries ≡ i = omega arith in
      let out : ltb i d.numentries ≡ false = ground arith in
      (d, rw out refl, Without-none fd d v (ap (λ k. count (is_fd fd) (take k d.slots)) e ∙ clean))
  loop-Without (suc fuel) i fd d low high v clean = elim (Bool-cases (ltb i d.numentries)) [
    | inr out ↦
        let e : d.numentries ≡ i = ground arith in
        (d, rw out, Without-none fd d v (ap (λ k. count (is_fd fd) (take k d.slots)) e ∙ clean))
    | inl inside ↦
        let lt : i < d.numentries = ground arith in
        let (s, p) = get_elem?-lt d.slots i (omega (arith, v.within)) in
        elim (Bool-cases (is_fd fd s)) [
          | inl hit ↦
              let (d1, q, r) = remove-Removed d i s lt v p in
              let (d', done, w) =
                loop-Without fuel i fd d1 (omega (arith, r.fewer)) (omega (arith, r.fewer))
                  r.bounded (r.before (is_fd fd) ∙ clean) in
              (
                d',
                loop-hit fuel i fd d d1 s inside p hit q ∙ done,
                Without-Removed fd i s d d1 d' hit r w,
              )
          | inr miss ↦
              let (d', done, w) = loop-Without fuel (i + 1) fd d (omega arith) (omega arith) v (
                omega (
                  arith,
                  count-take-suc (is_fd fd) i d.slots s p,
                  ap one_if miss,
                  clean,
                  ap (λ k. count (is_fd fd) (take k d.slots))
                      (let e : i + 1 ≡ suc i = omega arith in e),
                )) in
              (d', loop-miss fuel i fd d s inside p miss ∙ done, w)
        ]
  ]

  -- On a table within its memory `dispatch_remove_fd` returns, without a read outside the table. It
  -- takes out exactly the entries with the descriptor: for every test, those that pass it
  -- afterwards and those that passed it with the descriptor are together those that passed before.
  pub remove_fd-Without :
      (d : Dispatch F) (fd : ℤ)
      → IsBounded d
      → (d' : Dispatch F) × (dispatch_remove_fd d fd ≡ some d') × Without fd d d'
  unfolding dispatch_remove_fd
  remove_fd-Without d fd v =
      loop-Without d.numentries 0 fd d (omega arith) (omega arith) v (unfold count in refl)
