-- ===== src/Options/Described.antt =====
-- The loop of parse_opt, src/daliserver.c, against a reading of the command line field by field.
use mathlib.Core.Option.{get_or, or_else}
use daliserver.Common.{
  ℕ, Bool, true, false, ◌&&◌, ◌||◌, Option, none, some, List, [], ◌∷◌, if◌then◌else◌, is_some,
}
use daliserver.Common.Int.{ℤ}
use daliserver.Options.{
  Text, Options, Opt, opt_d, opt_l, opt_p, opt_f, opt_r, opt_u, opt_n, opt_s, opt_b, opt_other,
  default_pid, level_named, low_16, split_usbdev,
}
use daliserver.Options.Number.{strtol}

module _ {A : Type 0} where
  -- The value of the last option that has one.
  abbrev pub last_of : (Opt → Option A) → List Opt → Option A
  last_of value [] = none
  last_of value (opt ∷ opts) = or_else (last_of value opts) (value opt)

  -- The value of the last option that has one, else a value that is given.
  abbrev pub last_or : (Opt → Option A) → A → List Opt → A
  last_or value d opts = get_or (last_of value opts) d

abbrev pub has : (Opt → Bool) → List Opt → Bool
has test [] = false
has test (opt ∷ opts) = test opt || has test opts

abbrev level_of : Opt → Option ℕ
level_of (opt_d arg) = level_named arg
level_of _ = none

abbrev address_of : Opt → Option Text
address_of (opt_l arg) = some arg
address_of _ = none

abbrev logfile_of : Opt → Option (Option Text)
logfile_of (opt_f arg) = some (some arg)
logfile_of _ = none

abbrev pidfile_of : Opt → Option Text
pidfile_of (opt_r arg) = some arg
pidfile_of _ = none

abbrev is_n : Opt → Bool
is_n opt_n = true
is_n _ = false

abbrev is_s : Opt → Bool
is_s opt_s = true
is_s _ = false

abbrev is_b : Opt → Bool
is_b opt_b = true
is_b _ = false

-- The file of the last -r; without one, the default file if there is a -b and no file so far.
abbrev pub pid_or : Option Text → List Opt → Option Text
pid_or file opts =
    or_else (last_of pidfile_of opts) (if has is_b opts then default_pid file else file)

module _ (vsyslog : Bool) (long_max : ℕ) where
  abbrev port_of : Opt → Option ℕ
  port_of (opt_p arg) = some (low_16 (strtol long_max arg))
  port_of _ = none

  abbrev usbdev_of : Opt → Option (ℤ × ℤ)
  usbdev_of (opt_u arg) = split_usbdev long_max arg
  usbdev_of _ = none

  abbrev accepts : Opt → Bool
  accepts (opt_d arg) = is_some (level_named arg)
  accepts (opt_u arg) = is_some (split_usbdev long_max arg)
  accepts opt_s = vsyslog
  accepts (opt_other _) = false
  accepts _ = true

  abbrev pub accepts_all : List Opt → Bool
  accepts_all [] = true
  accepts_all (opt ∷ opts) = accepts opt && accepts_all opts

  -- What a command line says, field by field.
  abbrev pub described : Options → List Opt → Options
  described o opts = record {
    port = last_or port_of o.port opts;
    address = last_or address_of o.address opts;
    loglevel = last_or level_of o.loglevel opts;
    dryrun = has is_n opts || o.dryrun;
    syslog = has is_s opts || o.syslog;
    logfile = last_or logfile_of o.logfile opts;
    background = has is_b opts || o.background;
    pidfile = pid_or o.pidfile opts;
    usbbus = (last_or usbdev_of (o.usbbus, o.usbdev) opts).0;
    usbdev = (last_or usbdev_of (o.usbbus, o.usbdev) opts).1;
  }
