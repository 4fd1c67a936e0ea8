-- ===== src/Array/Elements.antt =====
-- What the operations of lib/array.c do to the elements.
use daliserver.Common.{
  ℕ, zero, suc, ◌+◌, ◌-◌, ◌*◌, ◌≤◌, ◌<◌, ◌≡◌, ◌↔◌, refl, ap, ◌∙◌, ◌==◌, true, false, Option, none,
  some, List, [], ◌∷◌, ◌++◌, arith, ltb, leb, if◌then◌else◌, Bool-cases, inl, inr, length,
  get_elem?, set, take, drop, replicate, length-append, length-set, length-take, length-drop,
  length-replicate, take-set_end, take-append,
}
use daliserver.Array.{
  Array, memcpy, array_get, element, put_last, made, array_append, shrink, remove_cell,
  array_remove,
}

-- The elements that the array holds.
abbrev pub elements : {E : Type 0} → Array E → List E
elements a = elim a.storage [ none ↦ [] | some cells ↦ take a.length cells ]

-- The memory is as long as what is allocated, which has room for the elements; an array without
-- memory is empty.
abbrev pub Fits : {E : Type 0} → Array E → Option (List E) → Type 0
Fits a none = (a.allocated ≡ 0) × (a.length ≡ 0)
Fits a (some cells) = (length cells ≡ a.allocated) × (a.length ≤ a.allocated) × (0 < a.length)

abbrev pub IsArray : {E : Type 0} → Array E → Type 0
IsArray a = Fits a a.storage

module _ {E : Type 0} where
  get-take : (n i : ℕ) (cells : List E) → i < n → get_elem? (take n cells) i ≡ get_elem? cells i
  get-take zero i cells h = absurd (omega arith)
  get-take (suc n) i [] h = refl
  get-take (suc n) zero (x ∷ cells) h = refl
  get-take (suc n) (suc i) (x ∷ cells) h = get-take n i cells (omega arith)

  get-beyond : (i : ℕ) (cells : List E) → length cells ≤ i → get_elem? cells i ≡ none
  get-beyond i [] h = refl
  get-beyond zero (x ∷ cells) h = absurd (omega arith)
  get-beyond (suc i) (x ∷ cells) h = get-beyond i cells (omega arith)

  -- `array_remove` accesses memory beyond what is allocated exactly when the index is in range and
  -- the array is full.
  pub remove-full :
      (a : Array E) (index : ℕ)
      → IsArray a
      → (array_remove a index ≡ none) ↔ ((index < a.length) × (a.length ≡ a.allocated))
  unfolding array_remove memcpy
  remove-full a index v = go a.storage v
    where
      go :
          (cells : Option (List E))
          → Fits a cells
          → ((if ltb index a.length then remove_cell a index cells else some a) ≡ none)
            ↔ ((index < a.length) × (a.length ≡ a.allocated))
      go none v = ground arith
      go (some cells) v = ground arith

  -- `array_get` points to the element at the index, and is NULL behind the last one.
  pub get-elements :
      (a : Array E) (index : ℕ) → IsArray a → array_get a index ≡ get_elem? (elements a) index
  unfolding array_get
  get-elements a index v = go a.storage v
    where
      short : (cells : List E) → a.length ≤ index → get_elem? (take a.length cells) index ≡ none
      short cells h =
          get-beyond index (take a.length cells) (omega (arith, length-take a.length cells))

      go :
          (o : Option (List E))
          → Fits a o
          → (if ltb index a.length then element o index else none)
            ≡ get_elem? (elim o [ none ↦ [] | some cells ↦ take a.length cells ]) index
      go none v = ground arith
      go (some cells) v = ground (arith, short cells, get-take a.length index cells)

  -- The array before the new element is put there.
  made-room :
      (unset : E) (n k : ℕ) (o : Option (List E))
      → let a : Array E = record { allocated = n; length = k; storage = o } in
        IsArray a
        → (cells : List E) × (made unset a
            ≡ record { allocated = length cells; length = k; storage = some cells })
          × (k < length cells)
          × (take k cells ≡ elements a)
  made-room unset n k none (e, z) =
      let fits : ltb 1 (k + 1) ≡ false = ground arith in
      (unset ∷ [], rw fits refl, omega arith, ap (λ i. take i (unset ∷ [])) z)
  made-room unset n k (some cells) (e, r, p) = elim (Bool-cases (ltb n (k + 1))) [
    | inr f ↦ (cells, rw (f, e) refl, ground arith, refl)
    | inl f ↦
        let more = replicate (n * 2 - n) unset in
        let len : length (cells ++ more) ≡ n * 2 =
          omega (arith, length-append cells more, length-replicate (n * 2 - n) unset) in
        (
          cells ++ more,
          rw (f, len) refl,
          ground (arith, len),
          take-append k cells more (omega arith),
        )
  ]

  -- `array_append` writes within the memory, returns the index behind the last element, and adds
  -- the element there.
  pub append-elements :
      (unset : E) (a : Array E) (x : E)
      → IsArray a
      → (a' : Array E) × (array_append unset a x ≡ some (a', a.length))
        × IsArray a'
        × (elements a' ≡ elements a ++ x ∷ [])
  unfolding array_append
  append-elements unset a x v =
      let (cells, e, room, same) = made-room unset a.allocated a.length a.storage v in
      let inside : ltb a.length (length cells) ≡ true = ground arith in
      let next : a.length + 1 ≡ suc a.length = omega arith in
      (
        record {
          allocated = length cells;
          length = a.length + 1;
          storage = some (set cells a.length x);
        },
        ap (λ b. put_last x b b.storage) e ∙ rw inside refl,
        (length-set cells a.length x, omega arith, omega arith),
        ap (λ n. take n (set cells a.length x)) next
            ∙ take-set_end a.length cells x room
            ∙ ap (λ l. l ++ x ∷ []) same,
      )

  take-longer : (n m : ℕ) (xs : List E) → n ≤ m → take n (take m xs) ≡ take n xs
  take-longer zero m xs h = refl
  take-longer (suc n) zero xs h = absurd (omega arith)
  take-longer (suc n) (suc m) [] h = refl
  take-longer (suc n) (suc m) (x ∷ xs) h = ap (λ l. x ∷ l) (take-longer n m xs (omega arith))

  -- The copy moves the `c` cells behind the index down by one; the last of them is not in use.
  moved_down :
      (i n c : ℕ) (cells rest : List E)
      → c + i ≡ suc n
      → i ≤ n
      → suc n < length cells
      → take n (take i cells ++ take c (drop (suc i) cells) ++ rest)
        ≡ take i (take (suc n) cells) ++ drop (suc i) (take (suc n) cells)
  moved_down i n c [] rest e h r = absurd (omega arith)
  moved_down zero n c (x ∷ cells) rest e h r =
      take-append n (take c cells) rest (omega (arith, length-take c cells))
      ∙ take-longer n c cells (omega arith)
  moved_down (suc i) zero c (x ∷ cells) rest e h r = absurd (omega arith)
  moved_down (suc i) (suc n) c (x ∷ cells) rest e h r =
      ap (λ l. x ∷ l) (moved_down i n c cells rest (omega arith) (omega arith) (omega arith))

  abbrev without : ℕ → List E → List E
  without i xs = take i xs ++ drop (suc i) xs

  shrunk :
      (n k : ℕ) (moved : List E)
      → length moved ≡ n
      → suc k < n
      → let a : Array E = record { allocated = n; length = suc k; storage = some moved } in
        (a' : Array E) × (some (shrink a moved) ≡ some a')
        × IsArray a'
        × (elements a' ≡ take k moved)
  shrunk n zero moved e h = (_, refl, (refl, refl), refl)
  shrunk n (suc k) moved e h =
      let more : (suc (suc k) == 1) ≡ false = ground arith in
      let less : suc (suc k) - 1 ≡ suc k = omega arith in
      (
        record { allocated = n; length = suc k; storage = some moved },
        rw (more, less) refl,
        (e, omega arith, omega arith),
        refl,
      )

  shrink-elements :
      (n k i : ℕ) (cells : List E)
      → length cells ≡ n
      → k < n
      → i < k
      → let a : Array E = record { allocated = n; length = k; storage = some cells } in
        (a' : Array E) × (array_remove a i ≡ some a')
        × IsArray a'
        × (elements a' ≡ without i (take k cells))
  unfolding array_remove memcpy
  shrink-elements n zero i cells e room h = absurd (omega arith)
  shrink-elements n (suc k) i cells e room h =
      let inside : ltb i (suc k) ≡ true = ground arith in
      let fits : leb (i + 1 + (suc k - i)) (length cells) ≡ true = ground arith in
      let next : i + 1 ≡ suc i = omega arith in
      let rest = drop (i + (suc k - i)) cells in
      let moved = take i cells ++ take (suc k - i) (drop (i + 1) cells) ++ rest in
      let as_long : length moved ≡ n = omega (
        arith,
        length-append (take i cells ++ take (suc k - i) (drop (i + 1) cells)) rest,
        length-append (take i cells) (take (suc k - i) (drop (i + 1) cells)),
        length-take i cells,
        length-take (suc k - i) (drop (i + 1) cells),
        length-drop (i + 1) cells,
        length-drop (i + (suc k - i)) cells,
      ) in
      let p : take k moved ≡ without i (take (suc k) cells) =
        ap (λ j. take k (take i cells ++ take (suc k - i) (drop j cells) ++ rest)) next
        ∙ moved_down i k (suc k - i) cells rest (omega arith) (omega arith) (omega arith) in
      let (a', q, v, els) = shrunk n k moved as_long (omega arith) in
      (a', rw (inside, fits) q, v, els ∙ p)

  -- In an array that is not full, `array_remove` at an index in range stays within the memory and
  -- takes out the element there; the order of the others is kept.
  pub remove-elements :
      (a : Array E) (index : ℕ)
      → IsArray a
      → index < a.length
      → a.length < a.allocated
      → (a' : Array E) × (array_remove a index ≡ some a')
        × IsArray a'
        × (elements a' ≡ take index (elements a) ++ drop (suc index) (elements a))
  remove-elements a index v h room = go a.allocated a.length a.storage v h room
    where
      go :
          (n k : ℕ) (o : Option (List E))
          → let a : Array E = record { allocated = n; length = k; storage = o } in
            IsArray a
            → index < k
            → k < n
            → (a' : Array E) × (array_remove a index ≡ some a')
              × IsArray a'
              × (elements a' ≡ without index (elements a))
      go n k none (e, z) h room = absurd (omega arith)
      go n k (some cells) (e, r, p) h room = shrink-elements n k index cells e room h
