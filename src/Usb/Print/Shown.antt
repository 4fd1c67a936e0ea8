-- ===== src/Usb/Print/Shown.antt =====
-- What lib/usb.c prints of a packet, against what it decodes and sends.
use mathlib.Core.List.{append_assoc}
use daliserver.Common.{
  ℕ, ◌+◌, ◌*◌, ◌%◌, ◌<◌, ◌≡◌, sym, ap, ◌∙◌, Option, none, some, List, [], ◌∷◌, ◌++◌, ◌==◌,
  if◌then◌else◌, length, replicate, arith, Bool-cases, inl, inr,
}
use daliserver.Common.Hex.{codes, hex, AreBytes}
use daliserver.Common.Bits.{shifted-bit_or}
use daliserver.Frame.{DaliFrame}
use daliserver.Pack.{Machine, Packed, packed, pack, unpack}
use daliserver.Usb.{UsbDaliIn, in_format, out_format, out_fields, decode_in, usbdali_length}
use daliserver.Usb.Packet.{out_packet, decode-unpack, pack-out_fields, received}
use daliserver.Usb.Print.{
  shows, print_direction, print_type_in, print_data_in, print_seqnum_in, usbdali_print_in,
  usbdali_print_out,
}

pub data Kind : Type 0 where
  no_response response complete broadcast other : Kind

abbrev pub kind : ℕ → Kind
kind t =
    if t == 0x71
    then no_response
    else if t == 0x72
    then response
    else if t == 0x73
    then complete
    else if t == 0x74
    then broadcast
    else other

abbrev pub status : UsbDaliIn → List ℕ
status p = shows (codes "Status: ") 4 p.status

-- Each kind of packet shows the fields that it has.
abbrev pub shown : UsbDaliIn → Kind → List ℕ
shown p no_response =
    codes "Type: Send response Response: ff "
    ++ status p
    ++ shows (codes "Sequence number: ") 2 p.seqnum
shown p response =
    codes "Type: Send response "
    ++ shows (codes "Response: ") 2 p.command
    ++ status p
    ++ shows (codes "Sequence number: ") 2 p.seqnum
shown p complete =
    codes "Type: Send complete "
    ++ shows (codes "Address: ") 2 p.address
    ++ shows (codes "Command: ") 2 p.command
    ++ status p
shown p broadcast =
    codes "Type: Unknown ("
    ++ hex 2 p.type
    ++ codes ") "
    ++ shows (codes "Address: ") 2 p.address
    ++ shows (codes "Command: ") 2 p.command
    ++ status p
shown p other =
    codes "Type: Unknown ("
    ++ hex 2 p.type
    ++ codes ") Data: "
    ++ shows [] 2 p.ecommand
    ++ shows [] 2 p.address
    ++ shows [] 2 p.command
    ++ status p

-- A packet that is not decoded shows nothing.
abbrev pub shown_in : Option UsbDaliIn → List ℕ
shown_in none = []
shown_in (some p) = print_direction p.direction ++ shown p (kind p.type)

abbrev pub shown_out : ℕ → DaliFrame → List ℕ
shown_out seq_num f =
    codes "Direction: USB<->DALI "
    ++ shows (codes "Sequence number: ") 2 (seq_num % 256)
    ++ (if f.ecommand == 0
        then codes "Type: 16bit DALI "
          ++ shows (codes "Address: ") 2 (f.address % 256)
          ++ shows (codes "Command: ") 2 (f.command % 256)
        else codes "Type: 24bit DALI "
          ++ shows (codes "Command: ") 2 (f.ecommand % 256)
          ++ shows (codes "Address: ") 2 (f.address % 256)
          ++ shows (codes "Value: ") 2 (f.command % 256))

abbrev pub printed : Packed → List ℕ
printed (packed buffer size) = usbdali_print_out (some buffer)
printed _ = []

shown-type :
    (p : UsbDaliIn) (d : List ℕ)
    → d
        ++ print_type_in p.type
        ++ print_data_in p.type p.ecommand p.address p.command
        ++ status p
        ++ print_seqnum_in p.type p.seqnum
      ≡ d ++ shown p (kind p.type)
shown-type p d = elim (Bool-cases (p.type == 0x71)) [
  | inl e ↦ rw e (simp append_assoc)
  | inr e ↦ elim (Bool-cases (p.type == 0x72)) [
    | inl f ↦ rw (e, f) (simp append_assoc)
    | inr f ↦ elim (Bool-cases (p.type == 0x73)) [
      | inl g ↦ rw (e, f, g) (simp append_assoc)
      | inr g ↦ elim (Bool-cases (p.type == 0x74)) [
        | inl k ↦ rw (e, f, g, k) (simp append_assoc)
        | inr k ↦ rw (e, f, g, k) (simp append_assoc)
      ]
    ]
  ]
]

printed_long :
    (m : Machine) (d t u e a c s1 s0 n : ℕ) (rest : List ℕ)
    → s0 < 256
    → usbdali_print_in (some (received d t u e a c s1 s0 n rest))
      ≡ shown_in (
          decode_in (
            unpack m in_format
              (some (received d t u e a c s1 s0 n rest))
              (some (length (received d t u e a c s1 s0 n rest)))))
unfolding usbdali_print_in
printed_long m d t u e a c s1 s0 n rest h =
    let p : UsbDaliIn = record {
      direction = d;
      type = t;
      ecommand = e;
      address = a;
      command = c;
      status = s0 + s1 * 256;
      seqnum = n;
    } in
    ap
      (λ v.
        print_direction d
        ++ print_type_in t
        ++ print_data_in t e a c
        ++ shows (codes "Status: ") 4 v
        ++ print_seqnum_in t n)
      (shifted-bit_or 8 s0 s1 h)
    ∙ shown-type p (print_direction d)
    ∙ sym (ap shown_in (decode-unpack m d t u e a c s1 s0 n rest [] h (omega arith)).0)

printed_out :
    (seq_num : ℕ) (f : DaliFrame)
    → usbdali_print_out (some (out_packet seq_num f)) ≡ shown_out seq_num f
unfolding usbdali_print_out
printed_out seq_num f = elim (Bool-cases (f.ecommand == 0)) [
  | inl e ↦ rw e (simp append_assoc)
  | inr e ↦ rw e (simp append_assoc)
]

decode_short :
    (m : Machine) (buffer : List ℕ)
    → length buffer < 9
    → [] ≡ shown_in (decode_in (unpack m in_format (some buffer) (some (length buffer))))
decode_short m buffer few =
    sym (ap shown_in (decode-unpack m 0 0 0 0 0 0 0 0 0 [] buffer (omega arith) few).1)

printed_in :
    (m : Machine) (buffer : List ℕ)
    → AreBytes buffer
    → usbdali_print_in (some buffer)
      ≡ shown_in (decode_in (unpack m in_format (some buffer) (some (length buffer))))
unfolding usbdali_print_in
printed_in m [] h = decode_short m [] (omega arith)
printed_in m (b0 ∷ []) h = decode_short m (b0 ∷ []) (omega arith)
printed_in m (b0 ∷ b1 ∷ []) h = decode_short m (b0 ∷ b1 ∷ []) (omega arith)
printed_in m (b0 ∷ b1 ∷ b2 ∷ []) h = decode_short m (b0 ∷ b1 ∷ b2 ∷ []) (omega arith)
printed_in m (b0 ∷ b1 ∷ b2 ∷ b3 ∷ []) h = decode_short m (b0 ∷ b1 ∷ b2 ∷ b3 ∷ []) (omega arith)
printed_in m (b0 ∷ b1 ∷ b2 ∷ b3 ∷ b4 ∷ []) h =
    decode_short m (b0 ∷ b1 ∷ b2 ∷ b3 ∷ b4 ∷ []) (omega arith)
printed_in m (b0 ∷ b1 ∷ b2 ∷ b3 ∷ b4 ∷ b5 ∷ []) h =
    decode_short m (b0 ∷ b1 ∷ b2 ∷ b3 ∷ b4 ∷ b5 ∷ []) (omega arith)
printed_in m (b0 ∷ b1 ∷ b2 ∷ b3 ∷ b4 ∷ b5 ∷ b6 ∷ []) h =
    decode_short m (b0 ∷ b1 ∷ b2 ∷ b3 ∷ b4 ∷ b5 ∷ b6 ∷ []) (omega arith)
printed_in m (b0 ∷ b1 ∷ b2 ∷ b3 ∷ b4 ∷ b5 ∷ b6 ∷ b7 ∷ []) h =
    decode_short m (b0 ∷ b1 ∷ b2 ∷ b3 ∷ b4 ∷ b5 ∷ b6 ∷ b7 ∷ []) (omega arith)
printed_in m (d ∷ t ∷ u ∷ e ∷ a ∷ c ∷ s1 ∷ s0 ∷ n ∷ rest)
      (_, (_, (_, (_, (_, (_, (_, (low, _)))))))) =
    printed_long m d t u e a c s1 s0 n rest low

-- What is printed of a packet from the adapter, of any length, is what its decoding shows: nothing
-- if it is refused, and otherwise its direction, its type, its status and the fields of its type,
-- a response with its sequence number. What is printed of the packet that `pack` makes of a
-- request shows its sequence number and each field of its frame.
pub print_shows :
    (m : Machine) (buffer : List ℕ) (seq_num : ℕ) (frame : DaliFrame)
    → AreBytes buffer
    → (usbdali_print_in (some buffer)
        ≡ shown_in (decode_in (unpack m in_format (some buffer) (some (length buffer)))))
      × (printed (
            pack m out_format
              (some (replicate usbdali_length 0))
              (some usbdali_length)
              none
              (out_fields seq_num frame))
          ≡ shown_out seq_num frame)
print_shows m buffer seq_num frame h = (
  printed_in m buffer h,
  ap printed (pack-out_fields m seq_num frame) ∙ printed_out seq_num frame,
)
