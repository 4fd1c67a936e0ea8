-- ===== src/Log.antt =====
-- lib/log.c: the levels, the log file and the line that each message becomes. `level_max` is
-- LOG_LEVEL_MAX, `vsyslog` tells whether the program was built with HAVE_VSYSLOG. A message is the
-- text that vfprintf() makes of a format and its arguments; `stamp` is the date before it.
pub mod Levels
pub mod File
mod Tests
use daliserver.Common.{
  ℕ, Bool, true, false, ◌&&◌, ◌||◌, Option, none, some, List, [], ◌∷◌, ◌++◌, leb, ◌==◌,
  if◌then◌else◌, is_some,
}
use daliserver.Options.{Text}

-- The static variables. `fp_logfile` is the path of the file that is open.
pub record Log : Type 0 where
  pub loglevel : ℕ
  pub loglevel_file : ℕ
  pub loglevel_syslog : ℕ
  pub logfile : Option Text
  pub fp_logfile : Option Text
  pub enabled_syslog : Bool

pub data Stream : Type 0 where
  stdout stderr : Stream

pub data Priority : Type 0 where
  log_alert log_err log_warning log_info log_debug : Priority

-- What leaves the program, in the order of the calls.
pub data Output : Type 0 where
  to_console : Stream → Text → Output
  to_file : Text → Text → Output
  to_syslog : Priority → Text → Output
  closelog : Output
  openlog : Text → Output

abbrev pub initial : ℕ → Log
initial level_default = record {
  loglevel = level_default;
  loglevel_file = level_default;
  loglevel_syslog = 1;
  logfile = none;
  fp_logfile = none;
  enabled_syslog = false;
}

abbrev pub stream : ℕ → Stream
stream level = if leb level 1 then Stream.stderr else Stream.stdout

-- "!!FATAL!! ", "**ERROR** ", "--WARNING-- ", "INFO "
abbrev prefix_of : ℕ → Text
prefix_of level =
    if level == 0
    then 33 ∷ 33 ∷ 70 ∷ 65 ∷ 84 ∷ 65 ∷ 76 ∷ 33 ∷ 33 ∷ 32 ∷ []
    else if level == 1
    then 42 ∷ 42 ∷ 69 ∷ 82 ∷ 82 ∷ 79 ∷ 82 ∷ 42 ∷ 42 ∷ 32 ∷ []
    else if level == 2
    then 45 ∷ 45 ∷ 87 ∷ 65 ∷ 82 ∷ 78 ∷ 73 ∷ 78 ∷ 71 ∷ 45 ∷ 45 ∷ 32 ∷ []
    else if level == 3
    then 73 ∷ 78 ∷ 70 ∷ 79 ∷ 32 ∷ []
    else []

abbrev pub line : Text → ℕ → Text → Text
line stamp level message = stamp ++ prefix_of level ++ message ++ 10 ∷ []

abbrev pub syslog_lines : ℕ → Text → List Output
syslog_lines level message =
    if level == 0
    then to_syslog log_alert message ∷ []
    else if level == 1
    then to_syslog log_err message ∷ []
    else if level == 2
    then to_syslog log_warning message ∷ []
    else if level == 3
    then to_syslog log_info message ∷ []
    else if level == 4
    then to_syslog log_debug message ∷ []
    else []

abbrev pub file_lines : Option Text → Bool → Text → List Output
file_lines none wanted text = []
file_lines (some path) wanted text = if wanted then to_file path text ∷ [] else []

module _ (vsyslog : Bool) (level_max : ℕ) where
  unfoldable pub log_vprintf : Text → ℕ → Text → Log → List Output
  log_vprintf stamp level message log =
      if leb level level_max
      then (if leb level log.loglevel || (is_some log.fp_logfile && leb level log.loglevel_file)
          then (if leb level log.loglevel
              then to_console (stream level) (line stamp level message) ∷ []
              else [])
            ++ file_lines log.fp_logfile (leb level log.loglevel_file) (line stamp level message)
          else [])
        ++ (if vsyslog && leb level log.loglevel_syslog then syslog_lines level message else [])
      else []

  abbrev pub clamp : ℕ → ℕ
  clamp level = if leb level level_max then level else level_max

  unfoldable pub log_set_level : ℕ → Log → Log
  log_set_level level log = record log { loglevel = clamp level }

  unfoldable pub log_set_logfile_level : ℕ → Log → Log
  log_set_logfile_level level log = record log { loglevel_file = clamp level }

  unfoldable pub log_set_syslog_level : ℕ → Log → Log
  log_set_syslog_level level log = record log { loglevel_syslog = clamp level }

  -- "Error opening log file ", "Error setting log file "
  abbrev error_message : Bool → Text → Text → Text
  error_message opening path reason =
      (if opening
        then 69 ∷ 114 ∷ 114 ∷ 111 ∷ 114 ∷ 32 ∷ 111 ∷ 112 ∷ 101 ∷ 110 ∷ 105 ∷ 110 ∷ 103 ∷ 32 ∷ 108
          ∷ 111 ∷ 103 ∷ 32 ∷ 102 ∷ 105 ∷ 108 ∷ 101 ∷ 32 ∷ []
        else 69 ∷ 114 ∷ 114 ∷ 111 ∷ 114 ∷ 32 ∷ 115 ∷ 101 ∷ 116 ∷ 116 ∷ 105 ∷ 110 ∷ 103 ∷ 32 ∷ 108
          ∷ 111 ∷ 103 ∷ 32 ∷ 102 ∷ 105 ∷ 108 ∷ 101 ∷ 32 ∷ [])
      ++ path
      ++ 58 ∷ 32 ∷ reason

  -- The new state, whether the result is 0, and what is written. `opens` tells whether fopen() gets
  -- a file, and `reason` is strerror() where it does not.
  unfoldable pub log_reopen_file :
      (opens : Text → Bool) → Text → Text → Log → Log × Bool × List Output
  log_reopen_file opens reason stamp log = elim log.logfile [
    | none ↦ (record log { fp_logfile = none }, true, [])
    | some path ↦
        let closed = record log { fp_logfile = none } in
        if opens path
        then (record log { fp_logfile = some path }, true, [])
        else (closed, false, log_vprintf stamp 1 (error_message true path reason) closed)
  ]

  -- `copied` tells whether strdup() gets its memory.
  unfoldable pub log_set_logfile :
      (opens : Text → Bool) → Text → Text → Bool → Option Text → Log → Log × Bool × List Output
  log_set_logfile opens reason stamp copied none log =
      log_reopen_file opens reason stamp (record log { logfile = none })
  log_set_logfile opens reason stamp copied (some path) log =
      let unset = record log { logfile = none } in
      if copied
      then log_reopen_file opens reason stamp (record log { logfile = some path })
      else (unset, false, log_vprintf stamp 1 (error_message false path reason) unset)

unfoldable pub log_set_syslog : Option Text → Log → Log × List Output
log_set_syslog name log =
    let closing = if log.enabled_syslog then closelog ∷ [] else [] in
    elim name [
      | none ↦ (record log { enabled_syslog = false }, closing)
      | some ident ↦ (record log { enabled_syslog = true }, closing ++ openlog ident ∷ [])
    ]
