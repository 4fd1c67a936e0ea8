-- ===== src/Usb/Print.antt =====
-- usbdali_print_in and usbdali_print_out of lib/usb.c. A buffer stands with its length, and what is
-- printed is one text.
pub mod Shown
mod Tests
use daliserver.Common.{
  ℕ, ◌*◌, ◌^◌, ◌≡◌, refl, Bool, ◌||◌, Option, none, some, List, [], ◌∷◌, ◌++◌, ◌==◌, bit_or,
  if◌then◌else◌,
}
use daliserver.Common.Hex.{codes, hex}

-- A label, a number of `w` digits and a blank.
abbrev pub shows : List ℕ → ℕ → ℕ → List ℕ
shows label w v = label ++ hex w v ++ b' ' ∷ []

abbrev print_direction : ℕ → List ℕ
print_direction d =
    if d == 0x11
    then codes "Direction: DALI<->DALI "
    else if d == 0x12
    then codes "Direction: USB<->DALI "
    else codes "Direction: Unknown (" ++ hex 2 d ++ codes ") "

abbrev print_type_in : ℕ → List ℕ
print_type_in t =
    if t == 0x71 || t == 0x72
    then codes "Type: Send response "
    else if t == 0x73
    then codes "Type: Send complete "
    else codes "Type: Unknown (" ++ hex 2 t ++ codes ") "

abbrev print_data_in : ℕ → ℕ → ℕ → ℕ → List ℕ
print_data_in t b3 b4 b5 =
    if t == 0x71
    then codes "Response: ff "
    else if t == 0x72
    then shows (codes "Response: ") 2 b5
    else if t == 0x73 || t == 0x74
    then shows (codes "Address: ") 2 b4 ++ shows (codes "Command: ") 2 b5
    else codes "Data: " ++ shows [] 2 b3 ++ shows [] 2 b4 ++ shows [] 2 b5

abbrev print_seqnum_in : ℕ → ℕ → List ℕ
print_seqnum_in t b8 = if t == 0x71 || t == 0x72 then shows (codes "Sequence number: ") 2 b8 else []

-- A buffer of nine bytes or more; a shorter one prints nothing.
unfoldable pub usbdali_print_in : Option (List ℕ) → List ℕ
usbdali_print_in (some (b0 ∷ b1 ∷ b2 ∷ b3 ∷ b4 ∷ b5 ∷ b6 ∷ b7 ∷ b8 ∷ rest)) =
    print_direction b0
    ++ print_type_in b1
    ++ print_data_in b1 b3 b4 b5
    ++ shows (codes "Status: ") 4 (bit_or (b6 * 2 ^ 8) b7)
    ++ print_seqnum_in b1 b8
usbdali_print_in _ = []

abbrev print_data_out : ℕ → ℕ → ℕ → ℕ → ℕ → List ℕ
print_data_out t b4 b5 b6 b7 =
    if t == 0x03
    then codes "Type: 16bit DALI "
      ++ shows (codes "Address: ") 2 b6
      ++ shows (codes "Command: ") 2 b7
    else if t == 0x04
    then codes "Type: 24bit DALI "
      ++ shows (codes "Command: ") 2 b5
      ++ shows (codes "Address: ") 2 b6
      ++ shows (codes "Value: ") 2 b7
    else codes "Type: Unknown ("
      ++ hex 2 t
      ++ codes ") "
      ++ codes "Data: "
      ++ shows [] 2 b4
      ++ shows [] 2 b5
      ++ shows [] 2 b6
      ++ shows [] 2 b7

-- A buffer of eight bytes or more; a shorter one prints nothing.
unfoldable pub usbdali_print_out : Option (List ℕ) → List ℕ
usbdali_print_out (some (b0 ∷ b1 ∷ b2 ∷ b3 ∷ b4 ∷ b5 ∷ b6 ∷ b7 ∷ rest)) =
    print_direction b0 ++ shows (codes "Sequence number: ") 2 b1 ++ print_data_out b3 b4 b5 b6 b7
usbdali_print_out _ = []
