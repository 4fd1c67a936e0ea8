-- ===== src/Usb/Print/Tests.antt =====
-- What lib/usb.c prints of a few packets.
use daliserver.Common.{◌≡◌, refl, true, none, some, List, [], ◌∷◌, ℕ, length, replicate, arith}
use daliserver.Common.Hex.{codes, hex}
use daliserver.Frame.{daliframe_new}
use daliserver.Pack.{Machine, pack, unpack}
use daliserver.Usb.{in_format, out_format, out_fields, decode_in, usbdali_length}
use daliserver.Usb.Print.{usbdali_print_in, usbdali_print_out}
use daliserver.Usb.Print.Shown.{shown_in, shown_out, printed, print_shows}

abbrev machine : Machine
machine = record { system_little = true; float_bits = λ b. b }

abbrev answer : List ℕ
answer = 0x12 ∷ 0x72 ∷ 0 ∷ 0 ∷ 0xff ∷ 0x93 ∷ 0x12 ∷ 0x34 ∷ 0x1d ∷ []

answer_printed :
    usbdali_print_in (some answer)
    ≡ codes
        "Direction: USB<->DALI Type: Send response Response: 93 Status: 1234 Sequence number: 1d "
unfolding usbdali_print_in hex
answer_printed = refl

command_printed :
    usbdali_print_out (some (0x12 ∷ 7 ∷ 0 ∷ 4 ∷ 0 ∷ 3 ∷ 1 ∷ 0x68 ∷ []))
    ≡ codes
        "Direction: USB<->DALI Sequence number: 07 Type: 24bit DALI Command: 03 Address: 01 Value: 68 "
unfolding usbdali_print_out hex
command_printed = refl

print_shows_example :
    (usbdali_print_in (some answer)
      ≡ shown_in (decode_in (unpack machine in_format (some answer) (some (length answer)))))
    × (printed (
          pack machine out_format
            (some (replicate usbdali_length 0))
            (some usbdali_length)
            none
            (out_fields 7 (daliframe_new 0xfe 0x05)))
        ≡ shown_out 7 (daliframe_new 0xfe 0x05))
print_shows_example = print_shows machine answer 7 (daliframe_new 0xfe 0x05) (ground arith)
