-- ===== src/Options/Tests.antt =====
-- Runs of the command line of src/daliserver.c.
use daliserver.Common.{arith, ◌≡◌, refl, true, some, [], ◌∷◌}
use daliserver.Common.Int.{pos}
use daliserver.Options.{
  defaults, opt_b, opt_r, opt_p, split_usbdev, parse_opt, set_option, parse_from,
}
use daliserver.Options.Number.{strtol}
use daliserver.Options.Usbdev.{decimal, usbdev-decimal}

-- "1:0x1f"
split_hex :
    split_usbdev 9223372036854775807 (49 ∷ 58 ∷ 48 ∷ 120 ∷ 49 ∷ 102 ∷ []) ≡ some (pos 1, pos 31)
unfolding split_usbdev strtol
split_hex = refl

parse_two :
    parse_opt true 9223372036854775807 (opt_r (120 ∷ []) ∷ opt_b ∷ opt_p (45 ∷ 49 ∷ []) ∷ [])
    ≡ some (record defaults { port = 65535; background = true; pidfile = some (120 ∷ []) })
unfolding parse_opt set_option parse_from strtol
parse_two = refl

usbdev-decimal_example :
    split_usbdev 9223372036854775807 (decimal 2 (58 ∷ decimal 117 [])) ≡ some (pos 2, pos 117)
usbdev-decimal_example = usbdev-decimal 9223372036854775807 2 117 (omega arith)
