-- ===== src/Options/Number.antt =====
-- strtol() of the C library with base 0, on the bytes of a text.
use Prim.Native.Nat.{min}
use daliserver.Common.{
  ℕ, ◌+◌, ◌-◌, ◌*◌, zero, suc, Bool, false, ◌&&◌, ◌||◌, List, [], ◌∷◌, ◌==◌, ltb, leb,
  if◌then◌else◌, drop,
}
use daliserver.Common.Int.{ℤ, pos, negsuc}

abbrev is_space : ℕ → Bool
is_space c = (c == 32) || (leb 9 c && leb c 13)

abbrev skip_spaces : List ℕ → List ℕ
skip_spaces [] = []
skip_spaces (c ∷ cs) = if is_space c then skip_spaces cs else (c ∷ cs)

-- The value of a digit or a letter; no base reaches 36 + 1.
abbrev pub digit_of : ℕ → ℕ
digit_of c =
    if leb 48 c && leb c 57
    then c - 48
    else if leb 65 c && leb c 90
    then c - 55
    else if leb 97 c && leb c 122
    then c - 87
    else 36

abbrev pub digits : ℕ → ℕ → List ℕ → ℕ
digits base acc [] = acc
digits base acc (c ∷ cs) =
    let rest = digits base (acc * base + digit_of c) cs in
    if ltb (digit_of c) base then rest else acc

-- An "x" and a digit to the base 16.
abbrev is_hex : List ℕ → Bool
is_hex (x ∷ h ∷ _) = ((x == 120) || (x == 88)) && ltb (digit_of h) 16
is_hex _ = false

abbrev number : List ℕ → ℕ
number [] = 0
number (c ∷ cs) =
    if c == 48
    then (if is_hex cs then digits 16 0 (drop 1 cs) else digits 8 0 cs)
    else digits 10 0 (c ∷ cs)

abbrev negative : ℕ → ℕ → ℤ
negative long_max zero = pos 0
negative long_max (suc n) = negsuc (min long_max n)

abbrev signed : ℕ → List ℕ → ℤ
signed long_max [] = pos 0
signed long_max (c ∷ cs) =
    if c == 45
    then negative long_max (number cs)
    else if c == 43
    then pos (min long_max (number cs))
    else pos (min long_max (number (c ∷ cs)))

unfoldable pub strtol : ℕ → List ℕ → ℤ
strtol long_max text = signed long_max (skip_spaces text)
