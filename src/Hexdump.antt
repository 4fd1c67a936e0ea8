-- ===== src/Hexdump.antt =====
-- lib/util.c: hexdump(). What it prints is one text, with a line end behind each line.
pub mod Rows
pub mod Read
mod Tests
use daliserver.Common.{
  ℕ, zero, suc, ◌+◌, ◌*◌, ◌/◌, ◌&&◌, none, some, List, [], ◌∷◌, ◌++◌, leb, length, get_elem?,
  if◌then◌else◌,
}
use daliserver.Common.Hex.{codes, hex}

-- The characters from 0x20 to 0x7e are printed, and a dot for any other byte.
abbrev pub printable : ℕ → ℕ
printable character = if leb 0x20 character && leb character 0x7e then character else b'.'

-- The loop over the columns from the index `i` on, with the number of columns that are left. It
-- ends at the end of the data too.
unfoldable pub columns : (ℕ → List ℕ) → ℕ → List ℕ → ℕ → List ℕ
columns print zero bytes i = []
columns print (suc left) bytes i =
    let more = columns print left bytes (suc i) in
    elim (get_elem? bytes i) [ none ↦ [] | some byte ↦ print byte ++ more ]

abbrev pub hex_column : ℕ → List ℕ
hex_column byte = hex 2 byte ++ b' ' ∷ []

abbrev pub text_column : ℕ → List ℕ
text_column byte = printable byte ∷ []

abbrev pub print_line : List ℕ → ℕ → List ℕ
print_line bytes line =
    codes "0x"
    ++ hex 8 (line * 16)
    ++ b' ' ∷ columns hex_column 16 bytes (line * 16)
    ++ columns text_column 16 bytes (line * 16)
    ++ b'\n' ∷ []

-- The loop over the lines, with the number of lines that are left.
unfoldable pub lines : ℕ → List ℕ → ℕ → List ℕ
lines zero bytes line = []
lines (suc left) bytes line = print_line bytes line ++ lines left bytes (suc line)

unfoldable pub hexdump : List ℕ → List ℕ
unfolding lines
hexdump bytes = lines ((length bytes + 15) / 16) bytes 0
