-- ===== src/Common/Counting.antt =====
-- Counting the elements of a list that pass a test, along `take` and `set`.
use Prim.Native.Nat.{ℕ, zero, suc, ◌+◌, ◌≤◌, ◌<◌}
use mathlib.Core.Path.{◌≡◌, refl, ap}
use mathlib.Core.Bool.{Bool, false, not, ◌&&◌}
use mathlib.Core.List.{List, [], ◌∷◌, ◌++◌}
use mathlib.Core.Option.{some}
use native.Mathlib.Omega.{arith}
use daliserver.Common.Tests.{if◌then◌else◌}
use daliserver.Common.Lists.{length, get_elem?, set, take}

abbrev pub one_if : Bool → ℕ
one_if b = if b then 1 else 0

module _ {ℓ} {A : Type ℓ} where
  unfoldable pub count : (A → Bool) → List A → ℕ
  count p [] = 0
  count p (x ∷ xs) = one_if (p x) + count p xs

  pub count-append : (p : A → Bool) (xs ys : List A) → count p (xs ++ ys) ≡ count p xs + count p ys
  unfolding count
  count-append p [] ys = omega arith
  count-append p (x ∷ xs) ys = omega (arith, count-append p xs ys)

  pub count_both_le : (p q : A → Bool) (xs : List A) → count (λ x. p x && q x) xs ≤ count q xs
  unfolding count
  count_both_le p q [] = omega arith
  count_both_le p q (x ∷ xs) = ground (arith, count_both_le p q xs)

  pub count-take-suc :
      (p : A → Bool) (n : ℕ) (xs : List A) (x : A)
      → get_elem? xs n ≡ some x
      → count p (take (suc n) xs) ≡ count p (take n xs) + one_if (p x)
  unfolding count
  count-take-suc p n [] x h = ground arith
  count-take-suc p zero (y ∷ xs) x h = ground arith
  count-take-suc p (suc n) (y ∷ xs) x h = omega (arith, count-take-suc p n xs x h)

  pub count-take-set_beyond :
      (p : A → Bool) (n i : ℕ) (xs : List A) (v : A)
      → n ≤ i
      → count p (take n (set xs i v)) ≡ count p (take n xs)
  unfolding count
  count-take-set_beyond p zero i xs v h = refl
  count-take-set_beyond p (suc n) i [] v h = refl
  count-take-set_beyond p (suc n) zero (x ∷ xs) v h = absurd (omega arith)
  count-take-set_beyond p (suc n) (suc i) (x ∷ xs) v h =
      omega (arith, count-take-set_beyond p n i xs v (omega arith))

  pub count-take-set :
      (p : A → Bool) (n i : ℕ) (xs : List A) (x v : A)
      → i < n
      → get_elem? xs i ≡ some x
      → count p (take n (set xs i v)) + one_if (p x) ≡ count p (take n xs) + one_if (p v)
  unfolding count
  count-take-set p zero i xs x v h e = absurd (omega arith)
  count-take-set p (suc n) i [] x v h e = ground arith
  count-take-set p (suc n) zero (y ∷ xs) x v h e = ground arith
  count-take-set p (suc n) (suc i) (y ∷ xs) x v h e =
      omega (arith, count-take-set p n i xs x v (omega arith) e)

  pub count-take_le :
      (p : A → Bool) (i n : ℕ) (xs : List A) → i ≤ n → count p (take i xs) ≤ count p (take n xs)
  unfolding count
  count-take_le p zero n xs h = omega arith
  count-take_le p (suc i) zero xs h = absurd (omega arith)
  count-take_le p (suc i) (suc n) [] h = omega arith
  count-take_le p (suc i) (suc n) (x ∷ xs) h = omega (arith, count-take_le p i n xs (omega arith))

  pub get_elem?-lt : (xs : List A) (i : ℕ) → i < length xs → (x : A) × (get_elem? xs i ≡ some x)
  get_elem?-lt [] i h = absurd (omega arith)
  get_elem?-lt (x ∷ xs) zero h = (x, refl)
  get_elem?-lt (x ∷ xs) (suc i) h = get_elem?-lt xs i (omega arith)

  pub count_never : (q : A → Bool) (xs : List A) → ((x : A) → q x ≡ false) → count q xs ≡ 0
  unfolding count
  count_never q [] never = refl
  count_never q (x ∷ xs) never = rw (never x) (omega (arith, count_never q xs never))

  pub count_twice : (q : A → Bool) (xs : List A) → count (λ x. q x && q x) xs ≡ count q xs
  unfolding count
  count_twice q [] = refl
  count_twice q (x ∷ xs) = ground (arith, count_twice q xs)

  pub count_more :
      (q : A → Bool) (xs ys : List A) (x : A) (b : Bool)
      → ys ≡ xs ++ (x ∷ [])
      → q x ≡ b
      → count q ys ≡ count q xs + one_if b
  unfolding count
  count_more q xs ys x b e is =
      omega (arith, ap (λ l. count q l) e, count-append q xs (x ∷ []), ap one_if is)

  -- The elements that pass a test and not another one.
  abbrev pub but : (A → Bool) → (A → Bool) → A → Bool
  but p q x = p x && not (q x)
