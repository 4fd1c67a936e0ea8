-- ===== src/Signals.antt =====
-- src/daliserver.c: signal_handler(), with the log that it reopens and the notifier that it writes
-- to. `K` is the state of the kernel, and `write` is write() of one byte on it. The messages that the
-- handler prints are left out.
pub mod Delivered
mod Tests
use daliserver.Common.{ℕ, Bool, true, false, List, [], ◌∷◌, if◌then◌else◌}
use daliserver.Options.{Text}
use daliserver.Log.{Log, log_reopen_file}
use daliserver.Ipc.{Ipc, ipc_notify}

-- SIGHUP, with the paths that fopen() can open at that time, and SIGTERM or SIGINT.
pub data Signal : Type 0 where
  hangup : (Text → Bool) → Signal
  terminate : Signal

-- `killed` is that the process has sent itself SIGKILL.
pub record Process (K : Type 0) : Type 0 where
  pub running : Bool
  pub killed : Bool
  pub log : Log
  pub kernel : K

module _ {K : Type 0} (vsyslog : Bool) (level_max : ℕ) (reason stamp : Text) (write : ℕ → K → K)
    (killsocket : Ipc) where
  unfoldable pub signal_handler : Signal → Process K → Process K
  signal_handler (hangup opens) p = record p {
    log = (log_reopen_file vsyslog level_max opens reason stamp p.log).0;
  }
  signal_handler terminate p =
      if p.running
      then record p { running = false; kernel = ipc_notify write killsocket p.kernel }
      else record p { killed = true; kernel = ipc_notify write killsocket p.kernel }

  unfoldable pub deliver : List Signal → Process K → Process K
  deliver [] p = p
  deliver (signal ∷ signals) p = deliver signals (signal_handler signal p)
