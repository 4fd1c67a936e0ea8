-- ===== src/Hexdump/Rows.antt =====
-- The rows of a dump of lib/util.c, as the columns that its loops print.
use mathlib.Core.List.{append_assoc}
use native.Mathlib.Numerals.{unary_clauses}
use daliserver.Common.{
  ℕ, zero, suc, ◌+◌, ◌*◌, ◌≡◌, refl, sym, ap, ◌∙◌, none, some, List, [], ◌∷◌, ◌++◌, take, drop,
  get_elem?, arith,
}
use daliserver.Common.Hex.{codes, hex, AreBytes}
use daliserver.Hexdump.{columns, hex_column, text_column, print_line}

abbrev pub each {ℓ} : {A : Type ℓ} → (A → List ℕ) → List A → List ℕ
each f [] = []
each f (x ∷ xs) = f x ++ each f xs

pub AreBytes-take : (n : ℕ) (bytes : List ℕ) → AreBytes bytes → AreBytes (take n bytes)
AreBytes-take zero bytes h = tt
AreBytes-take (suc n) [] h = tt
AreBytes-take (suc n) (b ∷ bytes) (small, h) = (small, AreBytes-take n bytes h)

pub AreBytes-drop : (n : ℕ) (bytes : List ℕ) → AreBytes bytes → AreBytes (drop n bytes)
AreBytes-drop zero bytes h = h
AreBytes-drop (suc n) [] h = tt
AreBytes-drop (suc n) (b ∷ bytes) (small, h) = AreBytes-drop n bytes h

pub take-drop : (n : ℕ) (bytes : List ℕ) → take n bytes ++ drop n bytes ≡ bytes
take-drop zero bytes = refl
take-drop (suc n) [] = refl
take-drop (suc n) (b ∷ bytes) = ap (λ l. b ∷ l) (take-drop n bytes)

get_elem?-drop : (n k : ℕ) (bytes : List ℕ) → get_elem? (drop n bytes) k ≡ get_elem? bytes (n + k)
get_elem?-drop zero k bytes = let same : k ≡ 0 + k = omega arith in ap (get_elem? bytes) same
get_elem?-drop (suc n) k [] = refl
get_elem?-drop (suc n) k (b ∷ bytes) =
    let place : suc (n + k) ≡ suc n + k = omega arith in
    get_elem?-drop n k bytes ∙ ap (get_elem? (b ∷ bytes)) place

-- From the index `i` on, the bytes are `rest`.
abbrev pub IsFrom : List ℕ → ℕ → List ℕ → Type 0
IsFrom bytes i rest = (k : ℕ) → get_elem? bytes (i + k) ≡ get_elem? rest k

IsFrom-behind :
    (bytes : List ℕ) (i b : ℕ) (rest : List ℕ)
    → IsFrom bytes i (b ∷ rest)
    → IsFrom bytes (suc i) rest
IsFrom-behind bytes i b rest h k =
    let place : suc i + k ≡ i + suc k = omega arith in ap (get_elem? bytes) place ∙ h (suc k)

columns-each :
    (print : ℕ → List ℕ) (left : ℕ) (bytes : List ℕ) (i : ℕ) (rest : List ℕ)
    → IsFrom bytes i rest
    → columns print left bytes i ≡ each print (take left rest)
unfolding columns
columns-each print zero bytes i rest h = refl
columns-each print (suc left) bytes i [] h =
    let e : get_elem? bytes i ≡ none = simp unary_clauses at (h 0) in rw (columns, e) refl
columns-each print (suc left) bytes i (b ∷ rest) h =
    let e : get_elem? bytes i ≡ some b = simp unary_clauses at (h 0) in
    rw (columns, e)
      (ap (λ t. print b ++ t)
        (columns-each print left bytes (suc i) rest (IsFrom-behind bytes i b rest h)))

-- A line without its end.
abbrev pub line_of : ℕ → List ℕ → List ℕ
line_of line row =
    codes "0x" ++ (hex 8 (line * 16) ++ (b' ' ∷ (each hex_column row ++ each text_column row)))

pub print_line_lem :
    (bytes : List ℕ) (line : ℕ) (rest : List ℕ)
    → IsFrom bytes (line * 16) rest
    → print_line bytes line ≡ line_of line (take 16 rest) ++ b'\n' ∷ []
print_line_lem bytes line rest h =
    rw
      (
        columns-each hex_column 16 bytes (line * 16) rest h,
        columns-each text_column 16 bytes (line * 16) rest h,
      )
      (ap (λ t. codes "0x" ++ (t ++ b'\n' ∷ []))
        (append_assoc (hex 8 (line * 16)) (b' ' ∷ each hex_column (take 16 rest))
          (each text_column (take 16 rest))))

pub IsFrom-next :
    (bytes : List ℕ) (line : ℕ) (rest : List ℕ)
    → IsFrom bytes (line * 16) rest
    → IsFrom bytes (suc line * 16) (drop 16 rest)
IsFrom-next bytes line rest from k =
    let place : suc line * 16 + k ≡ line * 16 + (16 + k) = omega arith in
    ap (get_elem? bytes) place ∙ from (16 + k) ∙ sym (get_elem?-drop 16 k rest)
