-- ===== src/Log/Tests.antt =====
-- Runs of lib/log.c.
use daliserver.Common.{◌≡◌, Bool, true, false, some, [], ◌∷◌, arith, if◌then◌else◌}
use daliserver.Options.{Text}
use daliserver.Log.{Log, log_vprintf, log_set_logfile, initial}
use daliserver.Log.File.{files, set_logfile-files}
use daliserver.Log.Levels.{
  IsLog, perform_all, set_level, set_logfile, reopen_file, perform_all-IsLog,
}

abbrev fails : Text → Bool
fails _ = false

abbrev works : Text → Bool
works _ = true

abbrev before : Log
before = record (initial 3) { logfile = some (97 ∷ []); fp_logfile = some (97 ∷ []) }

set_logfile-files_example :
    let (log', ok, out) = log_set_logfile true 3 fails (33 ∷ []) [] true (some (98 ∷ [])) before in
    (files (log_vprintf true 3 (91 ∷ []) 2 (104 ∷ []) log') ≡ [])
    × (ok ≡ false)
    × ((if ok then out else []) ≡ [])
    × (files out ≡ [])
set_logfile-files_example =
    set_logfile-files true 3 fails (33 ∷ []) [] true (some (98 ∷ [])) before (91 ∷ []) 2 (104 ∷ [])

perform_all-IsLog_example : IsLog 3 (
    perform_all true 3 [] []
      (set_level 9 ∷ set_logfile works (some (97 ∷ [])) ∷ reopen_file fails ∷ [])
      (initial 3))
perform_all-IsLog_example =
    perform_all-IsLog true 3 [] [] 3 (omega arith) (omega arith)
      (set_level 9 ∷ set_logfile works (some (97 ∷ [])) ∷ reopen_file fails ∷ [])
