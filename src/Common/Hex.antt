-- ===== src/Common/Hex.antt =====
-- Texts as bytes, and the conversions of numbers to hexadecimal digits by printf().
use Prim.Native.Nat.{ℕ, zero, suc, ◌+◌, ◌-◌, ◌/◌, ◌%◌, ◌^◌, ◌<◌, ◌≤◌, max}
use Prim.Native.Char.{code}
use Prim.Native.String.{String}
use mathlib.Core.Path.{◌≡◌, refl, ap, ◌∙◌}
use mathlib.Core.List.{List, [], ◌∷◌}
use native.Mathlib.Nat.{pow-suc}
use native.Mathlib.Omega.{arith}
use daliserver.Common.Tests.{ltb, ◌==◌, if◌then◌else◌}

-- The bytes of a text in ASCII.
abbrev pub codes : String → List ℕ
codes String.[] = []
codes (String.◌∷◌ c s) = code c ∷ codes s

abbrev pub digit : ℕ → ℕ
digit d = if ltb d 10 then b'0' + d else b'a' + (d - 10)

-- The `w` lowest digits of `v`, in front of a text.
pub low_digits : ℕ → ℕ → List ℕ → List ℕ
low_digits zero v text = text
low_digits (suc w) v text = low_digits w (v / 16) (digit (v % 16) ∷ text)

-- The number of digits that `v` needs.
pub digit_count : ℕ → ℕ → ℕ
digit_count zero v = zero
digit_count (suc most) v =
    let above = digit_count most (v / 16) in if v == 0 then zero else suc above

-- `%0wx`: at least `w` digits, and all that `v` has. An unsigned long has at most 16.
unfoldable pub hex : ℕ → ℕ → List ℕ
unfolding low_digits digit_count
hex w v = low_digits (max w (digit_count 16 v)) v []

digit_count-le : (most w v : ℕ) → v < 16 ^ w → digit_count most v ≤ w
unfolding digit_count
digit_count-le zero w v h = omega arith
digit_count-le (suc most) zero v h = ground arith
digit_count-le (suc most) (suc w) v h =
    let below : v / 16 < 16 ^ w = grind (arith, pow-suc 16 w) in
    let above = digit_count-le most w (v / 16) below in ground arith

-- Where `w` digits are enough, there are exactly `w`.
pub hex-low_digits : (w v : ℕ) → v < 16 ^ w → hex w v ≡ low_digits w v []
unfolding hex
hex-low_digits w v h =
    let enough : max w (digit_count 16 v) ≡ w = omega (arith, digit_count-le 16 w v h) in
    ap (λ n. low_digits n v []) enough

-- A byte has two digits.
pub hex-byte : (v : ℕ) → v < 256 → hex 2 v ≡ digit (v / 16) ∷ digit (v % 16) ∷ []
unfolding low_digits
hex-byte v h =
    let one : v / 16 % 16 ≡ v / 16 = omega arith in
    hex-low_digits 2 v h ∙ ap (λ d. digit d ∷ digit (v % 16) ∷ []) one

abbrev pub AreBytes : List ℕ → Type 0
AreBytes [] = Unit
AreBytes (b ∷ bytes) = (b < 256) × AreBytes bytes

-- Every digit is a digit or a small letter, so it is no blank and no line end.
abbrev pub IsWord : List ℕ → Type 0
IsWord [] = Unit
IsWord (c ∷ text) = (32 < c) × IsWord text

digit_word : (d : ℕ) → 32 < digit d
digit_word d = ground arith

low_digits-IsWord : (w v : ℕ) (text : List ℕ) → IsWord text → IsWord (low_digits w v text)
unfolding low_digits
low_digits-IsWord zero v text h = h
low_digits-IsWord (suc w) v text h =
    low_digits-IsWord w (v / 16) (digit (v % 16) ∷ text) (digit_word (v % 16), h)

pub hex-IsWord : (w v : ℕ) → IsWord (hex w v)
unfolding hex
hex-IsWord w v = low_digits-IsWord (max w (digit_count 16 v)) v [] tt

hex_ff : hex 2 255 ≡ codes "ff"
unfolding hex
hex_ff = refl

hex_long : hex 8 (2 ^ 36 + 10) ≡ codes "100000000a"
unfolding hex
hex_long = refl
