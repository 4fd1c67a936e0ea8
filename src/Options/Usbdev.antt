-- ===== src/Options/Usbdev.antt =====
-- The argument of -u, of src/daliserver.c, against the decimal notation of numbers.
use Prim.Native.Nat.{min}
use daliserver.Common.{
  ℕ, zero, suc, ◌+◌, ◌*◌, ◌/◌, ◌%◌, ◌≤◌, ◌<◌, ◌≡◌, refl, ap, sym, ◌∙◌, true, false, some, none, [],
  ◌∷◌, arith, ◌==◌, if◌then◌else◌, leb, ltb, ◌&&◌, ◌||◌, drop, Bool-cases, inl, inr,
}
use daliserver.Common.Int.{ℤ, pos}
use daliserver.Options.{Text, int_max, strchr, in_int, split_usbdev}
use daliserver.Options.Number.{strtol, digits, digit_of}

-- The decimal notation of `n` before a text; `n` itself is fuel enough.
abbrev decimal_with : ℕ → ℕ → Text → Text
decimal_with zero n text = (48 + n) ∷ text
decimal_with (suc fuel) n text =
    let rest = decimal_with fuel (n / 10) ((48 + n % 10) ∷ text) in
    if ltb n 10 then (48 + n) ∷ text else rest

abbrev pub decimal : ℕ → Text → Text
decimal n text = decimal_with n n text

digit_of_lem : (d : ℕ) → d < 10 → digit_of (48 + d) ≡ d
digit_of_lem d h = ground arith

digits-digit :
    (acc d : ℕ) (text : Text)
    → d < 10
    → digits 10 acc ((48 + d) ∷ text) ≡ digits 10 (acc * 10 + d) text
digits-digit acc d text h =
    let below : ltb d 10 ≡ true = ground arith in rw (digit_of_lem d h) (rw below refl)

digits-first : (d : ℕ) (text : Text) → d < 10 → digits 10 0 ((48 + d) ∷ text) ≡ digits 10 d text
digits-first d text h = digits-digit 0 d text h ∙ ap (λ k. digits 10 k text) (omega arith)

digits-decimal :
    (fuel n : ℕ) (text : Text)
    → n ≤ fuel
    → digits 10 0 (decimal_with fuel n text) ≡ digits 10 n text
digits-decimal zero n text h = digits-first n text (omega arith)
digits-decimal (suc fuel) n text h = elim (Bool-cases (ltb n 10)) [
  | inl e ↦ rw e (digits-first n text (ground arith))
  | inr e ↦ rw e (
      digits-decimal fuel (n / 10) ((48 + n % 10) ∷ text) (ground arith)
      ∙ digits-digit (n / 10) (n % 10) text (omega arith)
      ∙ ap (λ k. digits 10 k text) (omega arith))
]

strchr-other : (d : ℕ) (text : Text) → d < 10 → strchr ((48 + d) ∷ text) 58 ≡ strchr text 58
strchr-other d text h = let differs : (48 + d == 58) ≡ false = ground arith in rw differs refl

strchr-decimal :
    (fuel n : ℕ) (text : Text) → n ≤ fuel → strchr (decimal_with fuel n text) 58 ≡ strchr text 58
strchr-decimal zero n text h = strchr-other n text (omega arith)
strchr-decimal (suc fuel) n text h = elim (Bool-cases (ltb n 10)) [
  | inl e ↦ rw e (strchr-other n text (ground arith))
  | inr e ↦ rw e (
      strchr-decimal fuel (n / 10) ((48 + n % 10) ∷ text) (ground arith)
      ∙ strchr-other (n % 10) text (omega arith))
]

-- A text whose first digit is from 1 to 9.
strtol-digits :
    (long_max c : ℕ) (text : Text)
    → 49 ≤ c
    → c ≤ 57
    → strtol long_max (c ∷ text) ≡ pos (min long_max (digits 10 0 (c ∷ text)))
unfolding strtol
strtol-digits long_max c text h k =
    let no_space : ((c == 32) || (leb 9 c && leb c 13)) ≡ false = ground arith in
    let no_minus : (c == 45) ≡ false = ground arith in
    let no_plus : (c == 43) ≡ false = ground arith in
    let no_zero : (c == 48) ≡ false = ground arith in
    rw no_space (rw no_minus (rw no_plus (rw no_zero refl)))

-- The texts after a number that a colon or the end follows.
data Stops : Text → Type 0 where
  at_end : Stops []
  at_colon : {text : Text} → Stops (58 ∷ text)

digits-Stops : (n : ℕ) (text : Text) → Stops text → digits 10 n text ≡ n
digits-Stops n _ at_end = refl
digits-Stops n _ at_colon = refl

strtol-zero : (long_max : ℕ) (text : Text) → Stops text → strtol long_max (48 ∷ text) ≡ pos 0
unfolding strtol
strtol-zero long_max _ at_end = ap pos (omega arith)
strtol-zero long_max _ (at_colon {text = []}) = ap pos (omega arith)
strtol-zero long_max _ (at_colon {text = c ∷ text}) = ap pos (omega arith)

-- A number other than 0 begins with a digit from 1 to 9.
decimal-first :
    (fuel n : ℕ) (text : Text)
    → 0 < n
    → n ≤ fuel
    → (c : ℕ) × (49 ≤ c) × (c ≤ 57) × (rest : Text) × (decimal_with fuel n text ≡ c ∷ rest)
decimal-first zero n text h k = absurd (omega arith)
decimal-first (suc fuel) n text h k = elim (Bool-cases (ltb n 10)) [
  | inl e ↦ (48 + n, omega arith, ground arith, text, rw e refl)
  | inr e ↦
      let (c, low, high, rest, p) =
        decimal-first fuel (n / 10) ((48 + n % 10) ∷ text) (ground arith) (ground arith) in
      (c, low, high, rest, rw e p)
]

strtol-decimal :
    (long_max n : ℕ) (text : Text)
    → Stops text
    → strtol long_max (decimal n text) ≡ pos (min long_max n)
strtol-decimal long_max zero text stops = strtol-zero long_max text stops ∙ ap pos (omega arith)
strtol-decimal long_max (suc n) text stops =
    let (c, low, high, rest, p) = decimal-first (suc n) (suc n) text (omega arith) (omega arith) in
    let value : digits 10 0 (c ∷ rest) ≡ suc n =
      ap (digits 10 0) (sym p)
      ∙ digits-decimal (suc n) (suc n) text (omega arith)
      ∙ digits-Stops (suc n) text stops in
    ap (strtol long_max) p
    ∙ strtol-digits long_max c rest low high
    ∙ ap (λ k. pos (min long_max k)) value

split-colon :
    (long_max : ℕ) (arg colon : Text) (bus dev : ℤ)
    → strchr arg 58 ≡ some colon
    → strtol long_max arg ≡ bus
    → strtol long_max (drop 1 colon) ≡ dev
    → split_usbdev long_max arg ≡ (if in_int bus && in_int dev then some (bus, dev) else none)
unfolding split_usbdev
split-colon long_max arg colon bus dev h p q = rw (h, split_usbdev) (rw p (rw q refl))

-- `-u bus:dev` with two numbers in decimal notation is taken for these numbers if both fit an int,
-- and is refused otherwise.
pub usbdev-decimal :
    (long_max bus dev : ℕ)
    → int_max < long_max
    → split_usbdev long_max (decimal bus (58 ∷ decimal dev []))
      ≡ (if leb bus int_max && leb dev int_max then some (pos bus, pos dev) else none)
usbdev-decimal long_max bus dev h =
    split-colon long_max _ _ _ _ (strchr-decimal bus bus (58 ∷ decimal dev []) (omega arith))
      (strtol-decimal long_max bus (58 ∷ decimal dev []) at_colon)
      (strtol-decimal long_max dev [] at_end)
    ∙ ground arith
