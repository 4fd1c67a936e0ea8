-- ===== src/Options.antt =====
-- src/daliserver.c: the command line. What getopt() returns is a list of options with their
-- arguments; `vsyslog` tells whether the program was built with HAVE_VSYSLOG and `long_max` is
-- LONG_MAX. A text is the list of its bytes without the zero at its end.
pub mod Number
pub mod Usbdev
pub mod Described
mod Tests
use daliserver.Common.{
  ℕ, Bool, true, false, ◌&&◌, Option, none, some, List, [], ◌∷◌, ◌==◌, ◌%◌, ◌-◌, leb, if◌then◌else◌,
  drop,
}
use daliserver.Common.Int.{ℤ, pos, negsuc}
use daliserver.Options.Number.{strtol}

abbrev pub Text : Type 0
Text = List ℕ

pub record Options : Type 0 where
  pub port : ℕ
  pub address : Text
  pub loglevel : ℕ
  pub dryrun : Bool
  pub syslog : Bool
  pub logfile : Option Text
  pub background : Bool
  pub pidfile : Option Text
  pub usbbus : ℤ
  pub usbdev : ℤ

-- "127.0.0.1"
abbrev pub default_net_address : Text
default_net_address = 49 ∷ 50 ∷ 55 ∷ 46 ∷ 48 ∷ 46 ∷ 48 ∷ 46 ∷ 49 ∷ []

-- "/var/run/daliserver.pid"
abbrev pub default_pid_file : Text
default_pid_file =
    47 ∷ 118 ∷ 97 ∷ 114 ∷ 47 ∷ 114 ∷ 117 ∷ 110 ∷ 47 ∷ 100 ∷ 97 ∷ 108 ∷ 105 ∷ 115 ∷ 101 ∷ 114 ∷ 118
    ∷ 101 ∷ 114 ∷ 46 ∷ 112 ∷ 105 ∷ 100 ∷ []

abbrev pub defaults : Options
defaults = record {
  port = 55825;
  address = default_net_address;
  loglevel = 3;
  dryrun = false;
  syslog = false;
  logfile = none;
  background = false;
  pidfile = none;
  usbbus = negsuc 0;
  usbdev = negsuc 0;
}

-- A value of getopt(), with what optarg points to where the option has an argument.
pub data Opt : Type 0 where
  opt_d opt_l opt_p opt_f opt_r opt_u : Text → Opt
  opt_n opt_s opt_b : Opt
  opt_other : ℕ → Opt

-- strcmp() == 0
abbrev pub equal : Text → Text → Bool
equal [] [] = true
equal (c ∷ cs) (d ∷ ds) = (c == d) && equal cs ds
equal _ _ = false

-- "fatal", "error", "warn", "info", "debug"
abbrev pub level_named : Text → Option ℕ
level_named name =
    if equal name (102 ∷ 97 ∷ 116 ∷ 97 ∷ 108 ∷ [])
    then some 0
    else if equal name (101 ∷ 114 ∷ 114 ∷ 111 ∷ 114 ∷ [])
    then some 1
    else if equal name (119 ∷ 97 ∷ 114 ∷ 110 ∷ [])
    then some 2
    else if equal name (105 ∷ 110 ∷ 102 ∷ 111 ∷ [])
    then some 3
    else if equal name (100 ∷ 101 ∷ 98 ∷ 117 ∷ 103 ∷ [])
    then some 4
    else none

-- `(unsigned short) (n & 0xffff)` of a two's complement number.
abbrev pub low_16 : ℤ → ℕ
low_16 (pos n) = n % 65536
low_16 (negsuc n) = 65535 - n % 65536

abbrev pub int_max : ℕ
int_max = 2147483647

-- The text from the first `c` on, and nothing if there is none.
abbrev pub strchr : Text → ℕ → Option Text
strchr [] c = none
strchr (d ∷ ds) c = if d == c then some (d ∷ ds) else strchr ds c

abbrev pub in_int : ℤ → Bool
in_int (pos n) = leb n int_max
in_int (negsuc _) = false

unfoldable pub split_usbdev : ℕ → Text → Option (ℤ × ℤ)
split_usbdev long_max arg = elim (strchr arg 58) [
  | none ↦ none
  | some colon ↦
      let bus = strtol long_max arg in
      let dev = strtol long_max (drop 1 colon) in
      if in_int bus && in_int dev then some (bus, dev) else none
]

-- The first pid file stays.
abbrev pub default_pid : Option Text → Option Text
default_pid none = some default_pid_file
default_pid (some file) = some file

module _ (vsyslog : Bool) (long_max : ℕ) where
  unfoldable pub set_option : Options → Opt → Option Options
  set_option o (opt_d arg) = elim (level_named arg) [
    | none ↦ none
    | some level ↦ some (record o { loglevel = level })
  ]
  set_option o (opt_l arg) = some (record o { address = arg })
  set_option o (opt_p arg) = some (record o { port = low_16 (strtol long_max arg) })
  set_option o opt_n = some (record o { dryrun = true })
  set_option o opt_s = if vsyslog then some (record o { syslog = true }) else none
  set_option o (opt_f arg) = some (record o { logfile = some arg })
  set_option o opt_b = some (record o { background = true; pidfile = default_pid o.pidfile })
  set_option o (opt_r arg) = some (record o { pidfile = some arg })
  set_option o (opt_u arg) = elim (split_usbdev long_max arg) [
    | none ↦ none
    | some (bus, dev) ↦ some (record o { usbbus = bus; usbdev = dev })
  ]
  set_option o (opt_other _) = none

  unfoldable pub parse_from : Options → List Opt → Option Options
  parse_from o [] = some o
  parse_from o (opt ∷ opts) = elim (set_option o opt) [ none ↦ none | some o' ↦ parse_from o' opts ]

  unfoldable pub parse_opt : List Opt → Option Options
  parse_opt opts = parse_from defaults opts
