-- ===== src/Log/Levels.antt =====
-- What holds of the static variables of lib/log.c after any calls.
use daliserver.Common.{
  ℕ, ◌≤◌, ◌≡◌, refl, ◌⊎◌, inl, inr, Bool, true, Option, none, some, List, [], ◌∷◌, arith,
  Bool-cases, Option-cases, sym,
}
use daliserver.Options.{Text}
use daliserver.Log.{
  Log, initial, log_set_level, log_set_logfile_level, log_set_syslog_level, log_reopen_file,
  log_set_logfile, log_set_syslog,
}

-- A call of one of the functions that change the variables. `opens` tells which paths fopen() can
-- open at that time; strdup() has its memory.
pub data Call : Type 0 where
  set_level set_logfile_level set_syslog_level : ℕ → Call
  set_syslog : Option Text → Call
  reopen_file : (Text → Bool) → Call
  set_logfile : (Text → Bool) → Option Text → Call

-- No level is above the one that is built in, and the file that is open, if one is, has the path
-- that is set.
pub record IsLog (level_max : ℕ) (log : Log) : Type 0 where
  pub console : log.loglevel ≤ level_max
  pub file : log.loglevel_file ≤ level_max
  pub syslog : log.loglevel_syslog ≤ level_max
  pub opened : (log.fp_logfile ≡ none) ⊎ (log.fp_logfile ≡ log.logfile)

module _ (vsyslog : Bool) (level_max : ℕ) (reason stamp : Text) where
  unfoldable pub perform : Call → Log → Log
  perform (set_level level) log = log_set_level vsyslog level_max level log
  perform (set_logfile_level level) log = log_set_logfile_level vsyslog level_max level log
  perform (set_syslog_level level) log = log_set_syslog_level vsyslog level_max level log
  perform (set_syslog name) log = (log_set_syslog name log).0
  perform (reopen_file opens) log = (log_reopen_file vsyslog level_max opens reason stamp log).0
  perform (set_logfile opens path) log =
      (log_set_logfile vsyslog level_max opens reason stamp true path log).0

  unfoldable pub perform_all : List Call → Log → Log
  perform_all [] log = log
  perform_all (call ∷ calls) log = perform_all calls (perform call log)

  pub reopen-IsLog :
      (opens : Text → Bool) (log : Log)
      → log.loglevel ≤ level_max
      → log.loglevel_file ≤ level_max
      → log.loglevel_syslog ≤ level_max
      → IsLog level_max (log_reopen_file vsyslog level_max opens reason stamp log).0
  unfolding log_reopen_file
  reopen-IsLog opens log console file syslog = elim (Option-cases log.logfile) [
    | inl e ↦
        rw (e, log_reopen_file)
          record { console = console; file = file; syslog = syslog; opened = inl refl }
    | inr (path, e) ↦ elim (Bool-cases (opens path)) [
      | inl opened ↦
          rw (e, log_reopen_file)
            (rw opened
              record { console = console; file = file; syslog = syslog; opened = inr (sym e) })
      | inr shut ↦
          rw (e, log_reopen_file)
            (rw shut record { console = console; file = file; syslog = syslog; opened = inl refl })
    ]
  ]

  perform-IsLog :
      (call : Call) (log : Log) → IsLog level_max log → IsLog level_max (perform call log)
  unfolding perform log_set_level log_set_logfile_level log_set_syslog_level log_set_syslog
      log_set_logfile
  perform-IsLog (set_level level) log v = ground (arith)
  perform-IsLog (set_logfile_level level) log v = ground arith
  perform-IsLog (set_syslog_level level) log v = ground arith
  perform-IsLog (set_syslog none) log v = ground arith
  perform-IsLog (set_syslog (some ident)) log v = ground arith
  perform-IsLog (reopen_file opens) log v = reopen-IsLog opens log v.console v.file v.syslog
  perform-IsLog (set_logfile opens none) log v =
      reopen-IsLog opens (record log { logfile = none }) v.console v.file v.syslog
  perform-IsLog (set_logfile opens (some path)) log v =
      reopen-IsLog opens (record log { logfile = some path }) v.console v.file v.syslog

  -- From where the program starts, at a level that is built in, and after any calls, as long as
  -- strdup() has its memory: no level is above the one that is built in, and the file that is open,
  -- if one is, has the path that is set.
  pub perform_all-IsLog :
      (level_default : ℕ)
      → level_default ≤ level_max
      → 1 ≤ level_max
      → (calls : List Call) → IsLog level_max (perform_all calls (initial level_default))
  unfolding perform_all
  perform_all-IsLog level_default low errors calls =
      go calls (initial level_default)
        record { console = low; file = low; syslog = errors; opened = inl refl }
    where
      go :
          (calls : List Call) (log : Log)
          → IsLog level_max log
          → IsLog level_max (perform_all calls log)
      go [] log v = v
      go (call ∷ calls) log v = go calls (perform call log) (perform-IsLog call log v)
