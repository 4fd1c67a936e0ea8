-- ===== src/Signals/Tests.antt =====
-- Runs of the signal handler of src/daliserver.c.
use daliserver.Common.{ℕ, refl, Bool, true, false, inl, [], ◌∷◌, ◌==◌, arith, if◌then◌else◌}
use daliserver.Log.{initial}
use daliserver.Log.Levels.{IsLog}
use daliserver.Ipc.{Ipc}
use daliserver.Ipc.Wake.{IsPair}
use daliserver.Signals.{Process, hangup, terminate, deliver}
use daliserver.Signals.Delivered.{Delivered, deliver-Delivered}

abbrev notifier : Ipc
notifier = record { socket_0 = 3; socket_1 = 4; dispatch = true }

-- Whether there is something to read at 3, and at 4.
abbrev send : ℕ → Bool × Bool → Bool × Bool
send fd (at_3, at_4) = if fd == 3 then (at_3, true) else (true, at_4)

abbrev readable : ℕ → Bool × Bool → Bool
readable fd (at_3, at_4) = if fd == 3 then at_3 else at_4

notifier-IsPair : IsPair send readable 3 4
notifier-IsPair = record { arrives = λ k. refl; elsewhere = λ k. refl }

abbrev up : Process (Bool × Bool)
up = record { running = true; killed = false; log = initial 3; kernel = (false, false) }

up-IsLog : IsLog 3 up.log
up-IsLog = record {
  console = omega arith;
  file = omega arith;
  syslog = omega arith;
  opened = inl refl;
}

deliver-Delivered_example :
    Delivered true 3 [] [] send readable notifier 2 up
      (deliver true 3 [] [] send notifier (terminate ∷ hangup (λ _. true) ∷ terminate ∷ []) up)
deliver-Delivered_example =
    deliver-Delivered true 3 [] [] send readable notifier notifier-IsPair
      (terminate ∷ hangup (λ _. true) ∷ terminate ∷ []) up up-IsLog
