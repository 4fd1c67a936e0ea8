-- ===== src/Pack/Fields.antt =====
-- The bytes of one field of lib/pack.c: their number, their range and the value they stand for.
use mathlib.Core.List.{reverse, reverse-reverse, reverse-cons}
use native.Mathlib.Nat.{mul_comm, div-div-eq-div-mul}
use native.Mathlib.Numerals.{towards_suc}
use daliserver.Common.{
  ℕ, zero, suc, ◌+◌, ◌*◌, ◌/◌, ◌%◌, ◌^◌, ◌<◌, ◌≤◌, ◌≡◌, refl, ap, ◌∙◌, Bool, true, false, List, [],
  ◌∷◌, ◌++◌, arith, length, length-append, some,
}
use daliserver.Common.Bits.{bit_or-shifted}
use daliserver.Pack.{
  Directive, byte, ubyte, short, ushort, int, uint, long, ulong, float, double, skip, little, big,
  sys, other, width, shifted_bytes, join_bytes, ordered, split_at,
}

-- The value of the `n` lowest bytes of a number.
low_part : ℕ → ℕ → ℕ
low_part zero value = 0
low_part (suc n) value = value % 256 + 256 * low_part n (value / 256)

le-mul : (k a b : ℕ) → a ≤ b → a * k ≤ b * k
le-mul k a b h = grind arith

pow_plus_8 : (s : ℕ) → 2 ^ (s + 8) ≡ 256 * 2 ^ s
pow_plus_8 s = simp towards_suc (omega arith)

div-pow_plus_8 : (s v : ℕ) → v / 2 ^ (s + 8) ≡ v / 2 ^ s / 256
div-pow_plus_8 s v = rw (pow_plus_8 s, mul_comm 256 (2 ^ s), div-div-eq-div-mul v (2 ^ s) 256)

-- One more byte: `b` is the byte and `t` the value of those above it.
join_step : (s acc b t : ℕ) → acc + b * 2 ^ s + t * 2 ^ (s + 8) ≡ acc + (b + 256 * t) * 2 ^ s
join_step s acc b t = rw (pow_plus_8 s) (omega arith)

join-shifted :
    (n s acc v : ℕ)
    → acc < 2 ^ s
    → join_bytes acc s (shifted_bytes n s v) ≡ acc + low_part n (v / 2 ^ s) * 2 ^ s
unfolding join_bytes shifted_bytes low_part
join-shifted zero s acc v h = omega arith
join-shifted (suc n) s acc v h =
    let b = v / 2 ^ s % 256 in
    let rest = shifted_bytes n (s + 8) v in
    let small : acc + b * 2 ^ s < 2 ^ (s + 8) =
      rw (pow_plus_8 s) (omega (arith, le-mul (2 ^ s) b 255 (omega arith))) in
    ap (λ a. join_bytes a (s + 8) rest) (bit_or-shifted s acc b h)
    ∙ join-shifted n (s + 8) (acc + b * 2 ^ s) v small
    ∙ rw (div-pow_plus_8 s v) (join_step s acc b (low_part n (v / 2 ^ s / 256)))

low_part_eight : (v : ℕ) → low_part 8 v ≡ v % 2 ^ 64
unfolding low_part
low_part_eight v = omega arith

low_part_four : (v : ℕ) → low_part 4 v ≡ v % 2 ^ 32
unfolding low_part
low_part_four v = omega arith

pub length-shifted_bytes : (n s v : ℕ) → length (shifted_bytes n s v) ≡ n
unfolding shifted_bytes
length-shifted_bytes zero s v = refl
length-shifted_bytes (suc n) s v = ap suc (length-shifted_bytes n (s + 8) v)

length-reverse : (xs : List ℕ) → length (reverse xs) ≡ length xs
length-reverse [] = refl
length-reverse (x ∷ xs) =
    rw (reverse-cons x xs) (omega (arith, length-append (reverse xs) (x ∷ []), length-reverse xs))

pub length-ordered : (is_little : Bool) (xs : List ℕ) → length (ordered is_little xs) ≡ length xs
length-ordered true xs = refl
length-ordered false xs = length-reverse xs

pub ordered_twice : (is_little : Bool) (xs : List ℕ) → ordered is_little (ordered is_little xs) ≡ xs
ordered_twice true xs = refl
ordered_twice false xs = reverse-reverse xs

pub split_at-append : (xs ys : List ℕ) → split_at (length xs) (xs ++ ys) ≡ some (xs, ys)
unfolding split_at
split_at-append [] ys = refl
split_at-append (x ∷ xs) ys = rw (split_at-append xs ys)

pub split_at-le :
    (n : ℕ) (xs : List ℕ)
    → n ≤ length xs
    → (front : List ℕ) × (rest : List ℕ) × (split_at n xs ≡ some (front, rest))
      × (xs ≡ front ++ rest)
      × (length front ≡ n)
unfolding split_at
split_at-le zero xs h = ([], xs, refl, refl, refl)
split_at-le (suc n) [] h = absurd (omega arith)
split_at-le (suc n) (x ∷ xs) h =
    let (front, rest, e, join, size) = split_at-le n xs (omega arith) in
    (x ∷ front, rest, rw e, ap (λ l. x ∷ l) join, ap suc size)

low_part_one : (v : ℕ) → low_part 1 v ≡ v % 2 ^ 8
unfolding low_part
low_part_one v = omega arith

low_part_two : (v : ℕ) → low_part 2 v ≡ v % 2 ^ 16
unfolding low_part
low_part_two v = omega arith

-- The directives that take an argument.
abbrev pub is_field : Directive → Bool
is_field skip = false
is_field little = false
is_field big = false
is_field sys = false
is_field other = false
is_field _ = true

low_part-width :
    (d : Directive) (v : ℕ) → is_field d ≡ true → low_part (width d) v ≡ v % 2 ^ (8 * width d)
low_part-width byte v h = low_part_one v
low_part-width ubyte v h = low_part_one v
low_part-width short v h = low_part_two v
low_part-width ushort v h = low_part_two v
low_part-width int v h = low_part_four v
low_part-width uint v h = low_part_four v
low_part-width float v h = low_part_four v
low_part-width long v h = low_part_eight v
low_part-width ulong v h = low_part_eight v
low_part-width double v h = low_part_eight v
low_part-width _ v h = cc

-- Reading the bytes of a field in the order in which they were written gives the bits that fit.
pub join-ordered :
    (d : Directive) (is_little : Bool) (v : ℕ)
    → is_field d ≡ true
    → join_bytes 0 0 (ordered is_little (ordered is_little (shifted_bytes (width d) 0 v)))
      ≡ v % 2 ^ (8 * width d)
join-ordered d is_little v h =
    ap (λ l. join_bytes 0 0 l) (ordered_twice is_little (shifted_bytes (width d) 0 v))
    ∙ join-shifted (width d) 0 0 v (omega arith)
    ∙ omega (
      arith,
      ap (low_part (width d)) (let e : v / 2 ^ 0 ≡ v = omega arith in e),
      low_part-width d v h,
    )

pub length-field :
    (d : Directive) (is_little : Bool) (v : ℕ)
    → length (ordered is_little (shifted_bytes (width d) 0 v)) ≡ width d
length-field d is_little v =
    length-ordered is_little (shifted_bytes (width d) 0 v) ∙ length-shifted_bytes (width d) 0 v
