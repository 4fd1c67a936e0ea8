-- ===== src/Daemon/Report.antt =====
-- What the caller of daemonize(), lib/util.c, learns of the daemon.
use daliserver.Common.{
  ℕ, suc, ◌≡◌, refl, ◌∙◌, Bool, true, false, not, ◌&&◌, ◌||◌, Option, none, some, if◌then◌else◌,
  arith,
}
use daliserver.Daemon.{
  Read, byte, end_of_file, waiting, Calls, waits, exits, report, child, parent, daemonize,
}

-- A pipe: read() gets what is written, and otherwise waits as long as a process has the writing end
-- open.
pub record IsPipe (read : Option ℕ → ℕ → Read) : Type 0 where
  pub delivers : (b n : ℕ) → read (some b) n ≡ byte b
  pub blocks : (n : ℕ) → read none (suc n) ≡ waiting
  pub closes : read none 0 ≡ end_of_file

-- The steps before the report to the parent.
abbrev pub steps : Calls → Bool → Bool
steps calls pidfile =
    calls.setsid
    && calls.chdir
    && calls.reopen
    && calls.second_fork
    && (not pidfile || calls.open_pidfile && calls.lockf && calls.fdopen)

child-steps :
    (calls : Calls) (pidfile : Bool)
    → child calls pidfile
      ≡ report calls (if steps calls pidfile then 0 else 2) (steps calls pidfile)
child-steps calls pidfile = ground arith

parent-report :
    (read : Option ℕ → ℕ → Read)
    → IsPipe read
    → (calls : Calls) (retval : ℕ) (daemon : Bool)
    → parent read (report calls retval daemon).0 1 ≡ (if calls.write then exits retval else waits)
parent-report read p calls retval daemon = go calls.write
  where
    go :
        (write : Bool)
        → parent read (report (record calls { write = write }) retval daemon).0 1
          ≡ (if write then exits retval else waits)
    go true = rw (p.delivers retval 1, parent) refl
    go false = rw (p.blocks 0, parent) refl

-- Let the pipe work. A caller that is no child of init and gets a pipe and a child exits, with 0
-- just if the daemon goes on and with 2 just if a step before the report has failed; but if the
-- report cannot be written it waits for ever, and no daemon goes on.
pub daemonize_reports :
    (read : Option ℕ → ℕ → Read)
    → IsPipe read
    → (calls : Calls) (pidfile : Bool) → calls.orphan ≡ false
    → calls.pipe ≡ true
    → calls.fork ≡ true
    → let (caller, daemon) = daemonize read calls pidfile in
      (caller ≡ (if calls.write then exits (if daemon then 0 else 2) else waits))
      × (daemon ≡ (calls.write && steps calls pidfile))
unfolding daemonize
daemonize_reports read p calls pidfile own piped forked = rw own (
    rw piped (
      rw forked (
        rw (child-steps calls pidfile) (
          parent-report read p calls (if steps calls pidfile then 0 else 2) (steps calls pidfile)
              ∙ code calls.write (steps calls pidfile),
          refl,
        ))))
  where
    code :
        (write ok : Bool)
        → (if write then exits (if ok then 0 else 2) else waits)
          ≡ (if write then exits (if write && ok then 0 else 2) else waits)
    code true ok = refl
    code false ok = refl
