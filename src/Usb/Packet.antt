-- ===== src/Usb/Packet.antt =====
-- The packets that lib/usb.c sends and reads.
use daliserver.Common.{
  ℕ, ◌+◌, ◌%◌, ◌^◌, ◌/◌, ◌<◌, ◌≡◌, refl, ap, ◌∙◌, Bool, true, false, none, some, List, [], ◌∷◌,
  arith, length, replicate, ◌==◌, if◌then◌else◌, Bool-cases, ==_iff, ◌*◌, bit_or, ltb, inl, inr,
}
use daliserver.Frame.{DaliFrame}
use daliserver.Common.Bits.{zero-bit_or, bit_or-shifted}
use daliserver.Pack.RoundTrip.{pack_invalid_iff}
use daliserver.Pack.{pack_length, Machine, pack, packed, unpack, unpacked}
use daliserver.Usb.{out_format, out_fields, in_format, usbdali_length, decode_in}

-- The 64 bytes of a command: the header, the frame and 56 zeros.
abbrev pub out_packet : ℕ → DaliFrame → List ℕ
out_packet seq_num f =
    0x12
    ∷ (seq_num % 256)
    ∷ 0
    ∷ (if f.ecommand == 0 then 0x03 else 0x04)
    ∷ 0
    ∷ (f.ecommand % 256)
    ∷ (f.address % 256)
    ∷ (f.command % 256)
    ∷ replicate 56 0

pack_eight :
    (m : Machine) (a b c d e f g h : ℕ)
    → pack m out_format
        (some (replicate usbdali_length 0))
        (some usbdali_length)
        none
        (a ∷ b ∷ c ∷ d ∷ e ∷ f ∷ g ∷ h ∷ [])
      ≡ packed
          ((a / 2 ^ 0 % 256)
            ∷ (b / 2 ^ 0 % 256)
            ∷ (c / 2 ^ 0 % 256)
            ∷ (d / 2 ^ 0 % 256)
            ∷ (e / 2 ^ 0 % 256)
            ∷ (f / 2 ^ 0 % 256)
            ∷ (g / 2 ^ 0 % 256)
            ∷ (h / 2 ^ 0 % 256)
            ∷ replicate 56 0)
          (some 8)
unfolding pack
pack_eight m = go m.system_little
  where
    go :
        (s : Bool) (a b c d e f g h : ℕ)
        → pack
            (record { system_little = s; float_bits = m.float_bits })
            out_format
            (some (replicate usbdali_length 0))
            (some usbdali_length)
            none
            (a ∷ b ∷ c ∷ d ∷ e ∷ f ∷ g ∷ h ∷ [])
          ≡ packed
              ((a / 2 ^ 0 % 256)
                ∷ (b / 2 ^ 0 % 256)
                ∷ (c / 2 ^ 0 % 256)
                ∷ (d / 2 ^ 0 % 256)
                ∷ (e / 2 ^ 0 % 256)
                ∷ (f / 2 ^ 0 % 256)
                ∷ (g / 2 ^ 0 % 256)
                ∷ (h / 2 ^ 0 % 256)
                ∷ replicate 56 0)
              (some 8)
    go true a b c d e f g h = refl
    go false a b c d e f g h = refl

div_one : (v : ℕ) → v / 1 ≡ v
div_one v = omega arith

-- `pack` never fails on the fields of a request; it writes the packet and stores 8 in the size.
pub pack-out_fields :
    (m : Machine) (seq_num : ℕ) (frame : DaliFrame)
    → pack m out_format
        (some (replicate usbdali_length 0))
        (some usbdali_length)
        none
        (out_fields seq_num frame)
      ≡ packed (out_packet seq_num frame) (some 8)
pack-out_fields m seq_num frame = elim (Bool-cases (frame.ecommand == 0)) [
  | inl e ↦ rw e (
      pack_eight m 0x12 seq_num 0 0x03 0 0 frame.address frame.command
      ∙ simp (div_one, (==_iff frame.ecommand 0).0 e))
  | inr e ↦
      rw e (
        pack_eight m 0x12 seq_num 0 0x04 0 frame.ecommand frame.address frame.command
        ∙ simp div_one)
]

abbrev pub received : (d t u e a c s1 s0 n : ℕ) → List ℕ → List ℕ
received d t u e a c s1 s0 n rest = d ∷ t ∷ u ∷ e ∷ a ∷ c ∷ s1 ∷ s0 ∷ n ∷ rest

unpack-nine :
    (m : Machine) (d t u e a c s1 s0 n : ℕ) (rest : List ℕ)
    → unpack m in_format
        (some (received d t u e a c s1 s0 n rest))
        (some (length (received d t u e a c s1 s0 n rest)))
      ≡ unpacked (
          bit_or 0 (d * 1)
          ∷ bit_or 0 (t * 1)
          ∷ bit_or 0 (e * 1)
          ∷ bit_or 0 (a * 1)
          ∷ bit_or 0 (c * 1)
          ∷ bit_or (bit_or 0 (s0 * 1)) (s1 * 2 ^ 8)
          ∷ bit_or 0 (n * 1)
          ∷ [])
unfolding unpack
unpack-nine m d t u e a c s1 s0 n rest =
    let enough : ltb (length (received d t u e a c s1 s0 n rest)) 9 ≡ false = ground arith in
    rw enough

mul-one : (v : ℕ) → v * 1 ≡ v
mul-one v = omega arith

-- A packet of nine bytes or more is decoded field by field, with the third byte skipped and the
-- status in big endian order; a shorter one is refused.
pub decode-unpack :
    (m : Machine) (d t u e a c s1 s0 n : ℕ) (rest short : List ℕ)
    → s0 < 256
    → length short < 9
    → (decode_in (
          unpack m in_format
            (some (received d t u e a c s1 s0 n rest))
            (some (length (received d t u e a c s1 s0 n rest))))
        ≡ some (record {
          direction = d;
          type = t;
          ecommand = e;
          address = a;
          command = c;
          status = s0 + s1 * 256;
          seqnum = n;
        }))
      × (decode_in (unpack m in_format (some short) (some (length short))) ≡ none)
unfolding pack_length
decode-unpack m d t u e a c s1 s0 n rest short h0 few = (
  ap decode_in (unpack-nine m d t u e a c s1 s0 n rest)
      ∙ simp (mul-one, zero-bit_or, bit_or-shifted 8 s0 s1 h0),
  ap decode_in
      ((pack_invalid_iff m in_format short [] none (some (length short))).1.1 (ground arith)),
)
