-- ===== src/Pack/Tests.antt =====
-- Runs of lib/pack.c at the formats that lib/usb.c uses.
use daliserver.Common.{
  ℕ, ◌≡◌, ◌↔◌, refl, true, List, [], ◌∷◌, ◌++◌, some, none, arith, drop, length, replicate, ◌/◌,
  ◌^◌,
}
use daliserver.Pack.{Machine, pack, packed, Packed, unpack, unpacked, Unpacked, pack_length}
use daliserver.Pack.Rounds.{fields, stored}
use daliserver.Pack.RoundTrip.{unpack-pack, needed, LacksRoom, pack_invalid_iff}

abbrev machine : Machine
machine = record { system_little = true; float_bits = λ b. b / 2 ^ 32 }

-- ">CC CCCSC"
abbrev in_format : List ℕ
in_format = b'>' ∷ b'C' ∷ b'C' ∷ b' ' ∷ b'C' ∷ b'C' ∷ b'C' ∷ b'S' ∷ b'C' ∷ []

abbrev in_args : List ℕ
in_args = 0x12 ∷ 0x72 ∷ 0 ∷ 0xff ∷ 0x93 ∷ 0x1234 ∷ 0x11d ∷ []

abbrev in_bytes : List ℕ
in_bytes = 0x12 ∷ 0x72 ∷ 9 ∷ 0 ∷ 0xff ∷ 0x93 ∷ 0x12 ∷ 0x34 ∷ 0x1d ∷ []

in_format_packs :
    pack machine in_format (some (replicate 9 9 ++ 7 ∷ [])) (some 10) none in_args
    ≡ packed (in_bytes ++ 7 ∷ []) (some 9)
unfolding pack
in_format_packs = refl

in_format_unpacks :
    unpack machine in_format (some in_bytes) (some 9)
    ≡ unpacked (0x12 ∷ 0x72 ∷ 0 ∷ 0xff ∷ 0x93 ∷ 0x1234 ∷ 0x1d ∷ [])
unfolding unpack
in_format_unpacks = refl

short_packet : unpack machine in_format (some in_bytes) (some 8) ≡ Unpacked.invalid
unfolding unpack
short_packet = refl

unpack-pack_example :
    (out : List ℕ) × (pack machine in_format (some (replicate 10 9)) (some 10) none in_args
      ≡ packed out (some (pack_length in_format)))
    × (length out ≡ length (replicate {A = ℕ} 10 9))
    × (drop (pack_length in_format) out ≡ drop (pack_length in_format) (replicate 10 9))
    × (unpack machine in_format (some out) (some 10) ≡ unpacked (stored machine in_format in_args))
unfolding pack_length fields
unpack-pack_example =
    unpack-pack machine in_format (replicate 10 9) in_args none 10 (omega arith) (omega arith)
      (omega arith)

pack_invalid_iff_example :
    ((pack machine in_format (some in_bytes) (some 8) none in_args ≡ Packed.invalid)
      ↔ LacksRoom (some 8) (needed in_format))
    × ((unpack machine in_format (some in_bytes) (some 8) ≡ Unpacked.invalid)
        ↔ LacksRoom (some 8) (needed in_format))
pack_invalid_iff_example = pack_invalid_iff machine in_format in_bytes in_args none (some 8)
