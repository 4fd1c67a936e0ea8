-- ===== src/Daemon.antt =====
-- lib/util.c: daemonize(), with the process that calls it and the daemon that it leaves behind. What
-- each system call does is a parameter, the pipe between the processes with its behaviour.
pub mod Report
mod Tests
use daliserver.Common.{ℕ, Bool, true, false, not, ◌&&◌, Option, none, some, if◌then◌else◌}

-- What read() on the pipe does: it gets a byte, it gets the end of the file, or it waits.
pub data Read : Type 0 where
  byte : ℕ → Read
  end_of_file waiting : Read

-- Whether the process is a child of init, and which calls succeed. `reopen` is all of freopen().
pub record Calls : Type 0 where
  pub orphan : Bool
  pub pipe : Bool
  pub fork : Bool
  pub setsid : Bool
  pub chdir : Bool
  pub reopen : Bool
  pub second_fork : Bool
  pub open_pidfile : Bool
  pub lockf : Bool
  pub fdopen : Bool
  pub write : Bool

-- What becomes of the process that calls daemonize().
pub data Caller : Type 0 where
  goes_on waits : Caller
  exits : ℕ → Caller

-- What the child writes into the pipe, and whether the daemon is there at the end.
abbrev pub report : Calls → ℕ → Bool → Option ℕ × Bool
report calls retval daemon = (if calls.write then some retval else none, calls.write && daemon)

abbrev pub lock_pidfile : Calls → Bool
lock_pidfile calls =
    if not calls.open_pidfile then false else if not calls.lockf then false else calls.fdopen

-- From the first fork on.
abbrev pub child : Calls → Bool → Option ℕ × Bool
child calls pidfile =
    if not calls.setsid
    then report calls 2 false
    else if not calls.chdir
    then report calls 2 false
    else if not calls.reopen
    then report calls 2 false
    else if not calls.second_fork
    then report calls 2 false
    else if (if pidfile then lock_pidfile calls else true)
    then report calls 0 true
    else report calls 2 false

-- The parent, while `writers` processes have the writing end of the pipe open.
abbrev pub parent : (read : Option ℕ → ℕ → Read) → Option ℕ → ℕ → Caller
parent read written writers = elim (read written writers) [
  | byte retval ↦ exits retval
  | end_of_file ↦ exits 1
  | waiting ↦ waits
]

-- The caller, and whether the rest of the program runs. The child's processes have closed their
-- ends when they are done; the parent has its own writing end open while it reads.
unfoldable pub daemonize : (read : Option ℕ → ℕ → Read) → Calls → Bool → Caller × Bool
daemonize read calls pidfile =
    let (written, daemon) = child calls pidfile in
    if calls.orphan
    then (goes_on, true)
    else if not calls.pipe
    then (exits 1, false)
    else if not calls.fork
    then (exits 1, false)
    else (parent read written 1, daemon)
