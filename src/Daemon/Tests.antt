-- ===== src/Daemon/Tests.antt =====
-- Runs of daemonize() of lib/util.c.
use daliserver.Common.{ℕ, zero, suc, ◌≡◌, refl, true, false, Option, none, some, if◌then◌else◌}
use daliserver.Daemon.{Read, byte, end_of_file, waiting, Calls, exits, daemonize}
use daliserver.Daemon.Report.{IsPipe, daemonize_reports}

abbrev read : Option ℕ → ℕ → Read
read (some b) _ = byte b
read none zero = end_of_file
read none (suc _) = waiting

read-IsPipe : IsPipe read
read-IsPipe = record { delivers = λ b n. refl; blocks = λ n. refl; closes = refl }

-- Another daemon has the lock.
abbrev locked : Calls
locked = record {
  orphan = false;
  pipe = true;
  fork = true;
  setsid = true;
  chdir = true;
  reopen = true;
  second_fork = true;
  open_pidfile = true;
  lockf = false;
  fdopen = true;
  write = true;
}

daemonize_reports_example :
    let (caller, daemon) = daemonize read locked true in
    (caller ≡ exits (if daemon then 0 else 2)) × (daemon ≡ false)
daemonize_reports_example = daemonize_reports read read-IsPipe locked true refl refl refl
