-- ===== src/Log/File.antt =====
-- Which file the messages of lib/log.c go to, and which of them go to the syslog.
use daliserver.Common.{
  ℕ, ◌≡◌, refl, ap, ◌∙◌, Bool, true, false, ◌&&◌, ◌||◌, Option, none, some, List, [], ◌∷◌, ◌++◌,
  leb, if◌then◌else◌, is_some, arith, Bool-cases, inl, inr,
}
use daliserver.Options.{Text}
use daliserver.Log.{
  Log, Stream, Priority, Output, to_console, to_file, to_syslog, closelog, openlog, line, stream,
  syslog_lines, log_vprintf, log_reopen_file, log_set_logfile, log_set_syslog, file_lines,
}

-- The lines that go to files, with the path of each.
abbrev pub files : List Output → List (Text × Text)
files [] = []
files (to_file path text ∷ rest) = (path, text) ∷ files rest
files (to_console _ _ ∷ rest) = files rest
files (to_syslog _ _ ∷ rest) = files rest
files (closelog ∷ rest) = files rest
files (openlog _ ∷ rest) = files rest

-- The lines that go to the syslog.
abbrev pub syslogs : List Output → List (Priority × Text)
syslogs [] = []
syslogs (to_file _ _ ∷ rest) = syslogs rest
syslogs (to_console _ _ ∷ rest) = syslogs rest
syslogs (to_syslog priority text ∷ rest) = (priority, text) ∷ syslogs rest
syslogs (closelog ∷ rest) = syslogs rest
syslogs (openlog _ ∷ rest) = syslogs rest

either : (b : Bool) → (if b then files [] else []) ≡ []
either true = refl
either false = refl

-- One line for a file, if there is one.
abbrev pub line_for : Option Text → Bool → Text → List (Text × Text)
line_for none wanted text = []
line_for (some path) wanted text = if wanted then (path, text) ∷ [] else []

files-syslog : (level : ℕ) (message : Text) → files (syslog_lines level message) ≡ []
files-syslog level message = ground arith

files-append : (xs ys : List Output) → files (xs ++ ys) ≡ files xs ++ files ys
files-append [] ys = refl
files-append (to_file path text ∷ xs) ys = ap (λ l. (path, text) ∷ l) (files-append xs ys)
files-append (to_console _ _ ∷ xs) ys = files-append xs ys
files-append (to_syslog _ _ ∷ xs) ys = files-append xs ys
files-append (closelog ∷ xs) ys = files-append xs ys
files-append (openlog _ ∷ xs) ys = files-append xs ys

printed :
    (most console wanted : Bool) (fp : Option Text) (s : Stream) (text : Text)
    (syslog : List Output)
    → files syslog ≡ []
    → files (
        if most
        then (if console || (is_some fp && wanted)
            then (if console then to_console s text ∷ [] else []) ++ file_lines fp wanted text
            else [])
          ++ syslog
        else [])
      ≡ line_for fp (most && wanted) text
printed false _ _ none _ _ _ h = refl
printed false _ _ (some _) _ _ _ h = refl
printed true true _ none _ _ _ h = h
printed true false _ none _ _ _ h = h
printed true true true (some path) _ text _ h = ap (λ l. (path, text) ∷ l) h
printed true false true (some path) _ text _ h = ap (λ l. (path, text) ∷ l) h
printed true true false (some _) _ _ _ h = h
printed true false false (some _) _ _ _ h = h

module _ (vsyslog : Bool) (level_max : ℕ) where
  vprintf-files :
      (stamp : Text) (level : ℕ) (message : Text) (log : Log)
      → files (log_vprintf vsyslog level_max stamp level message log)
        ≡ line_for log.fp_logfile
            (leb level level_max && leb level log.loglevel_file)
            (line stamp level message)
  unfolding log_vprintf
  vprintf-files stamp level message log =
      printed (leb level level_max) (leb level log.loglevel) (leb level log.loglevel_file)
        log.fp_logfile (stream level) (line stamp level message) _
        (go (vsyslog && leb level log.loglevel_syslog))
    where
      go : (b : Bool) → files (if b then syslog_lines level message else []) ≡ []
      go true = files-syslog level message
      go false = refl

  -- What is open after a call of `log_set_logfile`.
  abbrev pub target : (opens : Text → Bool) → Bool → Option Text → Log → Option Text
  target opens copied none log = none
  target opens copied (some path) log =
      if copied then (if opens path then some path else none) else log.fp_logfile

  abbrev pub succeeds : (opens : Text → Bool) → Bool → Option Text → Bool
  succeeds opens copied none = true
  succeeds opens copied (some path) = copied && opens path

  -- After `log_set_logfile`, whatever file was open before, each message goes to the file with the
  -- given path, with its date and prefix and if its level is one for the file; or to no file, if
  -- the path is NULL or the file does not open; or to the file from before, if strdup() has no
  -- memory. The result is 0 just if nothing fails, and then nothing is written. When the file does
  -- not open, the error does not go to the file from before.
  pub set_logfile-files :
      (opens : Text → Bool) (reason stamp : Text) (copied : Bool) (path : Option Text) (log : Log)
      (stamp' : Text) (level : ℕ) (message : Text)
      → let (log', ok, out) =
          log_set_logfile vsyslog level_max opens reason stamp copied path log in
        (files (log_vprintf vsyslog level_max stamp' level message log')
          ≡ line_for
              (target opens copied path log)
              (leb level level_max && leb level log.loglevel_file)
              (line stamp' level message))
        × (ok ≡ succeeds opens copied path)
        × ((if ok then out else []) ≡ [])
        × ((if copied then files out else []) ≡ [])
  unfolding log_set_logfile log_reopen_file
  set_logfile-files opens reason stamp copied none log stamp' level message =
      (vprintf-files stamp' level message _, refl, refl, either copied)
  set_logfile-files opens reason stamp false (some path) log stamp' level message =
      (vprintf-files stamp' level message _, refl, refl, refl)
  set_logfile-files opens reason stamp true (some path) log stamp' level message =
      elim (Bool-cases (opens path)) [
        | inl e ↦ rw e (vprintf-files stamp' level message _, refl, refl, refl)
        | inr e ↦ rw e (vprintf-files stamp' level message _, refl, refl, vprintf-files stamp 1 _ _)
      ]

sent :
    (most console wanted : Bool) (fp : Option Text) (s : Stream) (text : Text)
    (syslog : List Output)
    → syslogs (
        if most
        then (if console || (is_some fp && wanted)
            then (if console then to_console s text ∷ [] else []) ++ file_lines fp wanted text
            else [])
          ++ syslog
        else [])
      ≡ (if most then syslogs syslog else [])
sent false _ _ _ _ _ _ = refl
sent true true _ none _ _ _ = refl
sent true false _ none _ _ _ = refl
sent true true true (some path) _ _ _ = refl
sent true false true (some path) _ _ _ = refl
sent true true false (some _) _ _ _ = refl
sent true false false (some _) _ _ _ = refl

only :
    (b : Bool) (xs : List Output) → syslogs (if b then xs else []) ≡ (if b then syslogs xs else [])
only true xs = refl
only false xs = refl

-- With syslog built in, what a message sends to the syslog depends on its level alone, whatever
-- `log_set_syslog` has been called with: a name, NULL, or never before.
pub syslog-regardless :
    (level_max : ℕ) (name : Option Text) (stamp : Text) (level : ℕ) (message : Text) (log : Log)
    → let after = (log_set_syslog name log).0 in
      let expected =
        if leb level level_max
        then (if leb level log.loglevel_syslog then syslogs (syslog_lines level message) else [])
        else [] in
      (syslogs (log_vprintf true level_max stamp level message log) ≡ expected)
      × (syslogs (log_vprintf true level_max stamp level message after) ≡ expected)
unfolding log_vprintf log_set_syslog
syslog-regardless level_max name stamp level message log =
    (go log refl, go (log_set_syslog name log).0 (same name))
  where
    go :
        (l : Log)
        → l.loglevel_syslog ≡ log.loglevel_syslog
        → syslogs (log_vprintf true level_max stamp level message l) ≡ (
            if leb level level_max
            then (if leb level log.loglevel_syslog
                then syslogs (syslog_lines level message)
                else [])
            else [])
    go l e =
        sent (leb level level_max) (leb level l.loglevel) (leb level l.loglevel_file) l.fp_logfile
          (stream level) (line stamp level message) _
        ∙ ap
            (λ n.
              if leb level level_max
              then syslogs (if leb level n then syslog_lines level message else [])
              else [])
            e
        ∙ ap (λ x. if leb level level_max then x else [])
            (only (leb level log.loglevel_syslog) (syslog_lines level message))

    same : (n : Option Text) → (log_set_syslog n log).0.loglevel_syslog ≡ log.loglevel_syslog
    same none = refl
    same (some ident) = refl
