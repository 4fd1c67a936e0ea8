-- ===== src/Hexdump/Read.antt =====
-- What hexdump() of lib/util.c prints can be read back.
use mathlib.Core.List.{append_assoc}
use daliserver.Common.{
  ℕ, zero, suc, ◌+◌, ◌-◌, ◌*◌, ◌/◌, ◌%◌, ◌<◌, ◌≡◌, ◌≢◌, refl, false, ap, ◌∙◌, List, [], ◌∷◌, ◌++◌,
  ltb, ◌==◌, length, length-append, length-drop, take, drop, get_elem?, if◌then◌else◌, arith,
}
use daliserver.Common.Hex.{codes, hex, digit, hex-byte, IsWord, hex-IsWord, AreBytes}
use daliserver.Hexdump.Rows.{
  each, AreBytes-take, AreBytes-drop, take-drop, IsFrom, line_of, print_line_lem, IsFrom-next,
}
use daliserver.Hexdump.{hex_column, text_column, print_line, lines, hexdump}

-- The lines of a text, without their ends.
split : List ℕ → List (List ℕ)
split [] = []
split (c ∷ text) = let rest = split text in if c == b'\n' then [] ∷ rest else onto c rest
  where
    onto : ℕ → List (List ℕ) → List (List ℕ)
    onto c [] = (c ∷ []) ∷ []
    onto c (line ∷ rest) = (c ∷ line) ∷ rest

abbrev behind_blank : List ℕ → List ℕ
behind_blank [] = []
behind_blank (c ∷ text) = if c == b' ' then text else behind_blank text

abbrev value : ℕ → ℕ
value c = if ltb b'9' c then c - b'a' + 10 else c - b'0'

abbrev pairs : ℕ → List ℕ → List ℕ
pairs zero text = []
pairs (suc n) (a ∷ b ∷ c ∷ text) = (value a * 16 + value b) ∷ pairs n text
pairs (suc n) text = []

-- Behind the address, each byte has two digits, a blank and a character.
abbrev read_line : List ℕ → List ℕ
read_line line = let text = behind_blank line in pairs (length text / 4) text

-- The bytes of a dump, read from the columns of digits of each line.
unfoldable pub undump : List ℕ → List ℕ
unfolding split
undump text = each read_line (split text)

abbrev NoBreak : List ℕ → Type 0
NoBreak [] = Unit
NoBreak (c ∷ text) = (c ≢ b'\n') × NoBreak text

NoBreak-append : (xs ys : List ℕ) → NoBreak xs → NoBreak ys → NoBreak (xs ++ ys)
NoBreak-append [] ys h k = k
NoBreak-append (c ∷ xs) ys (ne, h) k = (ne, NoBreak-append xs ys h k)

IsWord-NoBreak : (xs : List ℕ) → IsWord xs → NoBreak xs
IsWord-NoBreak [] h = tt
IsWord-NoBreak (c ∷ xs) (low, h) = (omega arith, IsWord-NoBreak xs h)

each-NoBreak :
    (print : ℕ → List ℕ) → ((b : ℕ) → NoBreak (print b)) → (row : List ℕ) → NoBreak (each print row)
each-NoBreak print h [] = tt
each-NoBreak print h (b ∷ row) =
    NoBreak-append (print b) (each print row) (h b) (each-NoBreak print h row)

line_of-NoBreak : (line : ℕ) (row : List ℕ) → NoBreak (line_of line row)
line_of-NoBreak line row = (
  omega arith,
  (
    omega arith,
    NoBreak-append (hex 8 (line * 16)) (b' ' ∷ (each hex_column row ++ each text_column row))
        (IsWord-NoBreak _ (hex-IsWord 8 (line * 16)))
        (
          omega arith,
          NoBreak-append (each hex_column row) (each text_column row)
              (each-NoBreak hex_column
                (λ b.
                  NoBreak-append (hex 2 b) (b' ' ∷ []) (IsWord-NoBreak _ (hex-IsWord 2 b))
                    (omega arith, tt))
                row)
              (each-NoBreak text_column (λ b. (ground arith, tt)) row),
        ),
  ),
)

split-line : (line rest : List ℕ) → NoBreak line → split (line ++ b'\n' ∷ rest) ≡ line ∷ split rest
unfolding split
split-line [] rest h = refl
split-line (c ∷ line) rest (ne, h) =
    let other : (c == b'\n') ≡ false = ground arith in rw (other, split-line line rest h) refl

behind_blank-word : (word rest : List ℕ) → IsWord word → behind_blank (word ++ b' ' ∷ rest) ≡ rest
behind_blank-word [] rest h = refl
behind_blank-word (c ∷ word) rest (low, h) =
    let other : (c == b' ') ≡ false = ground arith in rw other (behind_blank-word word rest h)

value-digit : (d : ℕ) → d < 16 → value (digit d) ≡ d
value-digit d h = ground arith

pairs-columns :
    (row rest : List ℕ) → AreBytes row → pairs (length row) (each hex_column row ++ rest) ≡ row
pairs-columns [] rest h = refl
pairs-columns (b ∷ row) rest (small, h) =
    let high = value-digit (b / 16) (omega arith) in
    let low = value-digit (b % 16) (omega arith) in
    let same : b / 16 * 16 + b % 16 ≡ b = omega arith in
    rw (hex-byte b small) (
      ap (λ n. n ∷ pairs (length row) (each hex_column row ++ rest))
        (ap (λ n. n * 16 + value (digit (b % 16))) high ∙ ap (λ n. b / 16 * 16 + n) low ∙ same)
      ∙ ap (λ l. b ∷ l) (pairs-columns row rest h))

length-hex_columns : (row : List ℕ) → AreBytes row → length (each hex_column row) ≡ 3 * length row
length-hex_columns [] h = refl
length-hex_columns (b ∷ row) (small, h) =
    rw (hex-byte b small) (omega (arith, length-hex_columns row h))

length-text_columns : (row : List ℕ) → length (each text_column row) ≡ length row
length-text_columns [] = refl
length-text_columns (b ∷ row) = ap (λ n. suc n) (length-text_columns row)

read_line-line_of : (line : ℕ) (row : List ℕ) → AreBytes row → read_line (line_of line row) ≡ row
read_line-line_of line row h =
    let text = each hex_column row ++ each text_column row in
    let address = codes "0x" ++ hex 8 (line * 16) in
    let behind : behind_blank (line_of line row) ≡ text =
      behind_blank-word address text (omega arith, (omega arith, hex-IsWord 8 (line * 16))) in
    let all : length text / 4 ≡ length row = omega (
      arith,
      length-append (each hex_column row) (each text_column row),
      length-hex_columns row h,
      length-text_columns row,
    ) in
    ap (λ t. pairs (length t / 4) t) behind
    ∙ ap (λ n. pairs n text) all
    ∙ pairs-columns row (each text_column row) h

undump-line :
    (bytes : List ℕ) (line : ℕ) (rest text : List ℕ)
    → AreBytes rest
    → IsFrom bytes (line * 16) rest
    → undump (print_line bytes line ++ text) ≡ take 16 rest ++ undump text
unfolding undump
undump-line bytes line rest text h from =
    let row = take 16 rest in
    ap (λ t. undump (t ++ text)) (print_line_lem bytes line rest from)
    ∙ ap undump (append_assoc (line_of line row) (b'\n' ∷ []) text)
    ∙ ap (each read_line) (split-line (line_of line row) text (line_of-NoBreak line row))
    ∙ ap (λ r. r ++ undump text) (read_line-line_of line row (AreBytes-take 16 rest h))

undump_nothing : undump [] ≡ []
unfolding undump
undump_nothing = refl

undump-lines :
    (left : ℕ) (bytes : List ℕ) (line : ℕ) (rest : List ℕ)
    → AreBytes rest
    → IsFrom bytes (line * 16) rest
    → left ≡ (length rest + 15) / 16
    → undump (lines left bytes line) ≡ rest
unfolding lines
undump-lines zero bytes line [] h from e = undump_nothing
undump-lines zero bytes line (b ∷ rest) h from e = absurd (omega arith)
undump-lines (suc left) bytes line rest h from e =
    undump-line bytes line rest (lines left bytes (suc line)) h from
    ∙ ap (λ r. take 16 rest ++ r)
        (undump-lines left bytes (suc line) (drop 16 rest) (AreBytes-drop 16 rest h)
          (IsFrom-next bytes line rest from) (omega (arith, length-drop 16 rest)))
    ∙ take-drop 16 rest

-- From what `hexdump` prints of bytes, however many they are, `undump` reads the same bytes back,
-- taking them from the columns of digits of each line.
pub undump-hexdump : (bytes : List ℕ) → AreBytes bytes → undump (hexdump bytes) ≡ bytes
unfolding hexdump
undump-hexdump bytes h = undump-lines ((length bytes + 15) / 16) bytes 0 bytes h (from bytes) refl
  where
    from : (bytes : List ℕ) → IsFrom bytes (0 * 16) bytes
    from bytes k = let place : 0 * 16 + k ≡ k = omega arith in ap (get_elem? bytes) place
