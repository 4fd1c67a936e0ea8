-- ===== src/Main/Status.antt =====
-- When main(), src/daliserver.c, gets to its loop, and its exit status.
use daliserver.Common.{
  ℕ, ◌+◌, suc, ◌≡◌, refl, Bool, true, false, ◌&&◌, ◌||◌, Option, some, List, [], ◌∷◌, ◌++◌,
  if◌then◌else◌, arith,
}
use daliserver.Common.Int.{ℤ, pos, negsuc}
use daliserver.Options.{Text, Options}
use daliserver.Main.{
  Event, dispatch_new, server_close, usbdali_close, dispatch_free, free_opt, ipc_free, dispatch_run,
  Outcome, Rounds, stopped, failed, again, rounds, serve, with_usb, with_dispatch, with_options,
  set_up, main,
}

abbrev is_run : Event → Bool
is_run dispatch_run = true
is_run _ = false

-- How often dispatch_run is called.
abbrev pub runs : List Event → ℕ
runs [] = 0
runs (event ∷ events) = if is_run event then suc (runs events) else runs events

abbrev pub turns : Rounds → ℕ
turns stopped = 0
turns failed = 1
turns (again rest) = suc (turns rest)

runs-append : (xs ys : List Event) → runs (xs ++ ys) ≡ runs xs + runs ys
runs-append [] ys = omega arith
runs-append (x ∷ xs) ys = ground (arith, runs-append xs ys)

runs-rounds : (loop : Rounds) → runs (rounds loop) ≡ turns loop
runs-rounds stopped = refl
runs-rounds failed = refl
runs-rounds (again rest) = omega (arith, runs-rounds rest)

-- The calls with their result, where the loop has run or not.
Serves : Bool → Rounds → List Event × ℤ → Type 0
Serves ready loop r =
    (runs r.0 ≡ (if ready then turns loop else 0)) × (r.1 ≡ (if ready then pos 0 else negsuc 0))

serve-Serves : (ipc : Bool) (loop : Rounds) → Serves ipc loop (serve ipc loop)
unfolding Serves
serve-Serves false loop = (refl, refl)
serve-Serves true loop =
    (omega (arith, runs-append (rounds loop) (ipc_free ∷ []), runs-rounds loop), refl)

runs_more :
    (ok : Bool) (loop : Rounds) (r : List Event × ℤ) (event : Event)
    → is_run event ≡ false
    → Serves ok loop r
    → Serves ok loop (r.0 ++ event ∷ [], r.1)
unfolding Serves
runs_more ok loop r event other (count, error) =
    (rw (runs-append r.0 (event ∷ [])) (rw other (omega (arith, count))), error)

with_usb-Serves :
    (opts : Options) (can : Outcome) (loop : Rounds) (usb : Bool)
    → Serves (can.server && can.ipc) loop (with_usb opts can loop usb)
unfolding Serves
with_usb-Serves opts can loop usb = go can.server usb
  where
    go :
        (server usb : Bool)
        → Serves (server && can.ipc) loop (with_usb opts (record can { server = server }) loop usb)
    go false usb = (refl, refl)
    go true true = runs_more _ _ (serve can.ipc loop) server_close refl (serve-Serves can.ipc loop)
    go true false = runs_more _ _ (serve can.ipc loop) server_close refl (serve-Serves can.ipc loop)

abbrev pub ready : Options → Outcome → Bool
ready opts can = (opts.dryrun || can.usb) && (can.server && can.ipc)

with_dispatch-Serves :
    (opts : Options) (can : Outcome) (loop : Rounds)
    → Serves (ready opts can) loop (with_dispatch opts can loop)
unfolding Serves
with_dispatch-Serves opts can loop = go opts.dryrun can.usb
  where
    go :
        (dryrun usb : Bool)
        → Serves
            ((dryrun || usb) && (can.server && can.ipc))
            loop
            (with_dispatch (record opts { dryrun = dryrun }) (record can { usb = usb }) loop)
    go true usb = with_usb-Serves opts can loop false
    go false false = (refl, refl)
    go false true =
        runs_more _ _ (with_usb opts can loop true) usbdali_close refl
          (with_usb-Serves opts can loop true)

set_up-runs : (vsyslog : Bool) (opts : Options) → runs (set_up vsyslog opts) ≡ 0
set_up-runs vsyslog opts = go vsyslog opts.syslog opts.background opts.logfile
  where
    go :
        (vsyslog syslog background : Bool) (logfile : Option Text)
        → runs (
            set_up vsyslog
              (record opts { syslog = syslog; background = background; logfile = logfile }))
          ≡ 0
    go vsyslog syslog background logfile = ground arith

with_options-Serves :
    (vsyslog : Bool) (opts : Options) (dispatch ok : Bool) (loop : Rounds) (inner : List Event × ℤ)
    → Serves ok loop inner
    → Serves (dispatch && ok) loop (with_options vsyslog opts dispatch inner)
unfolding Serves
with_options-Serves vsyslog opts false ok loop inner h = (
  rw (runs-append (set_up vsyslog opts) (dispatch_new false ∷ free_opt ∷ []))
      (omega (arith, set_up-runs vsyslog opts)),
  refl,
)
with_options-Serves vsyslog opts true ok loop inner (count, error) = (
  omega (
    arith,
    runs-append (set_up vsyslog opts)
        ((dispatch_new true ∷ (inner.0 ++ (dispatch_free ∷ []))) ++ (free_opt ∷ [])),
    runs-append (inner.0 ++ (dispatch_free ∷ [])) (free_opt ∷ []),
    runs-append inner.0 (dispatch_free ∷ []),
    set_up-runs vsyslog opts,
    count,
  ),
  error,
)

-- The loop calls dispatch_run, as often as its turns tell, and the exit status is 0, just if the
-- dispatch table, the server and the notifier are made and the USB connection is made or -n is
-- given; otherwise dispatch_run is never called and the status is -1.
main_status :
    (vsyslog : Bool) (opts : Options) (can : Outcome) (loop : Rounds)
    → let ok = can.dispatch && ready opts can in
      let (events, status) = main vsyslog (some opts) can loop in
      (runs events ≡ (if ok then turns loop else 0)) × (status ≡ (if ok then pos 0 else negsuc 0))
unfolding main Serves
main_status vsyslog opts can loop =
    with_options-Serves vsyslog opts can.dispatch (ready opts can) loop
      (with_dispatch opts can loop) (with_dispatch-Serves opts can loop)
