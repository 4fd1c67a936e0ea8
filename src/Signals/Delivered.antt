-- ===== src/Signals/Delivered.antt =====
-- What any signals do to the process, src/daliserver.c.
use daliserver.Common.{
  ℕ, suc, ◌≡◌, refl, ◌∙◌, Bool, true, false, ◌&&◌, ◌||◌, List, [], ◌∷◌, ◌==◌, leb, arith,
  if◌then◌else◌,
}
use daliserver.Options.{Text}
use daliserver.Log.{log_reopen_file}
use daliserver.Log.Levels.{IsLog, reopen-IsLog}
use daliserver.Ipc.{Ipc, ipc_read_socket, ipc_write_socket, ipc_notify}
use daliserver.Ipc.Wake.{IsPair}
use daliserver.Signals.{Signal, hangup, terminate, Process, signal_handler, deliver}

-- How many of the signals ask the process to end.
abbrev pub terminations : List Signal → ℕ
terminations [] = 0
terminations (hangup opens ∷ signals) = terminations signals
terminations (terminate ∷ signals) = suc (terminations signals)

module _ {K : Type 0} (vsyslog : Bool) (level_max : ℕ) (reason stamp : Text) (write : ℕ → K → K)
    (readable : ℕ → K → Bool) (killsocket : Ipc) where
  -- The process `p'` after `n` of the signals that ask it to end.
  pub record Delivered (n : ℕ) (p p' : Process K) : Type 0 where
    pub running : p'.running ≡ (p.running && (n == 0))
    pub killed : p'.killed ≡ (p.killed || leb (if p.running then 2 else 1) n)
    pub log : IsLog level_max p'.log
    pub asleep :
        readable (ipc_read_socket killsocket) p'.kernel
        ≡ readable (ipc_read_socket killsocket) p.kernel
    pub told :
        readable killsocket.socket_1 p'.kernel ≡ (readable killsocket.socket_1 p.kernel || leb 1 n)

  -- Let the sockets of the notifier be the ends of a pair, and let the log be in order. After any
  -- signals the loop is to go on just if it was and none of them was SIGTERM or SIGINT; the process
  -- has killed itself just if it had before, or there were two of these, or one after the loop had
  -- been told to end; the log is in order; and the descriptor that the loop polls is as readable as
  -- before, so that the signals do not wake the loop through it. The other end is readable just if
  -- it was or there was one of the signals to end.
  pub deliver-Delivered :
      IsPair write readable killsocket.socket_0 killsocket.socket_1
      → (signals : List Signal) (p : Process K) → IsLog level_max p.log
      → Delivered
          (terminations signals)
          p
          (deliver vsyslog level_max reason stamp write killsocket signals p)
  unfolding deliver signal_handler ipc_notify ipc_read_socket ipc_write_socket
  deliver-Delivered pair [] p v = record {
    running = ground arith;
    killed = ground arith;
    log = v;
    asleep = refl;
    told = ground arith;
  }
  deliver-Delivered pair (hangup opens ∷ signals) p v =
      let h =
        deliver-Delivered pair signals
          (record p { log = (log_reopen_file vsyslog level_max opens reason stamp p.log).0 })
          (reopen-IsLog vsyslog level_max reason stamp opens p.log v.console v.file v.syslog) in
      record {
        running = h.running;
        killed = h.killed;
        log = h.log;
        asleep = h.asleep;
        told = h.told;
      }
  deliver-Delivered pair (terminate ∷ signals) p v =
      go p.running refl (deliver-Delivered pair signals stopped v)
        (deliver-Delivered pair signals dead v)
    where
      stopped : Process K
      stopped = record p { running = false; kernel = ipc_notify write killsocket p.kernel }

      dead : Process K
      dead = record p { killed = true; kernel = ipc_notify write killsocket p.kernel }

      run : Process K → Process K
      run = deliver vsyslog level_max reason stamp write killsocket signals

      go :
          (b : Bool)
          → p.running ≡ b
          → Delivered (terminations signals) stopped (run stopped)
          → Delivered (terminations signals) dead (run dead)
          → Delivered (suc (terminations signals)) p (run (if b then stopped else dead))
      go true e h k = record {
        running = h.running ∙ ground arith;
        killed = h.killed ∙ ground arith;
        log = h.log;
        asleep = h.asleep ∙ pair.elsewhere p.kernel;
        told = h.told ∙ ground (arith, pair.arrives p.kernel);
      }
      go false e h k = record {
        running = k.running ∙ ground arith;
        killed = k.killed ∙ ground arith;
        log = k.log;
        asleep = k.asleep ∙ pair.elsewhere p.kernel;
        told = k.told ∙ ground (arith, pair.arrives p.kernel);
      }
