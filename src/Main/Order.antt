-- ===== src/Main/Order.antt =====
-- The order in which main(), src/daliserver.c, makes, uses and frees the parts of the program.
use daliserver.Common.{
  ◌≡◌, refl, ap, ◌∙◌, Bool, true, false, not, ◌&&◌, Option, none, some, List, [], ◌∷◌, ◌++◌,
  if◌then◌else◌,
}
use daliserver.Common.Int.{ℤ}
use daliserver.Options.{Text, Options}
use daliserver.Main.{
  Event, show_banner, show_help, set_logfile_level_max, set_syslog, set_level, set_logfile,
  daemonize, parse_opt, dispatch_new, ipc_new, usbdali_open, server_open, set_destroy_callback,
  set_usb_callbacks, ipc_register, set_signals, dispatch_run, ipc_free, server_close, usbdali_close,
  dispatch_free, free_opt, Outcome, Rounds, stopped, failed, again, rounds, serve, with_usb,
  with_dispatch, set_up, main, with_options,
}

-- The parts, from the one that is made first.
pub record Held : Type 0 where
  pub options : Bool
  pub dispatch : Bool
  pub usb : Bool
  pub server : Bool
  pub notifier : Bool

abbrev pub nothing : Held
nothing = record {
  options = false;
  dispatch = false;
  usb = false;
  server = false;
  notifier = false;
}

-- What the program holds after a call, unless the call uses a part that is not held, makes a part
-- that is held already or frees a part that another one still uses: the USB connection, the server
-- and the notifier use the dispatch table, and the server's handler uses the USB connection.
abbrev pub follows : Event → Held → Option Held
follows (parse_opt ok) h = if h.options then none else some (record h { options = ok })
follows (dispatch_new ok) h = if h.dispatch then none else some (record h { dispatch = ok })
follows (usbdali_open _ _ ok) h =
    if h.options && h.dispatch && not h.usb && not h.server
    then some (record h { usb = ok })
    else none
follows (server_open _ _ ok) h =
    if h.options && h.dispatch && not h.server then some (record h { server = ok }) else none
follows (ipc_new ok) h = if h.notifier then none else some (record h { notifier = ok })
follows (set_level _) h = if h.options then some h else none
follows (set_logfile _) h = if h.options then some h else none
follows set_logfile_level_max h = some h
follows set_syslog h = some h
follows (daemonize _) h = if h.options && not h.dispatch then some h else none
follows show_banner h = some h
follows show_help h = some h
follows set_destroy_callback h = if h.server then some h else none
follows set_usb_callbacks h = if h.usb && h.server then some h else none
follows ipc_register h = if h.notifier && h.dispatch then some h else none
follows set_signals h = if h.notifier then some h else none
follows dispatch_run h = if h.dispatch && h.server && h.notifier then some h else none
follows ipc_free h = if h.notifier && h.dispatch then some (record h { notifier = false }) else none
follows server_close h =
    if h.server && h.dispatch && not h.notifier then some (record h { server = false }) else none
follows usbdali_close h =
    if h.usb && h.dispatch && not h.server then some (record h { usb = false }) else none
follows dispatch_free h =
    if h.dispatch && not h.usb && not h.server && not h.notifier
    then some (record h { dispatch = false })
    else none
follows free_opt h =
    if h.options && not h.usb && not h.server then some (record h { options = false }) else none

abbrev pub held_after : List Event → Option Held → Option Held
held_after [] h = h
held_after (event ∷ events) none = none
held_after (event ∷ events) (some h) = held_after events (follows event h)

held_after-append :
    (xs ys : List Event) (h : Option Held)
    → held_after (xs ++ ys) h ≡ held_after ys (held_after xs h)
held_after-append [] ys h = refl
held_after-append (x ∷ xs) [] none = refl
held_after-append (x ∷ xs) (y ∷ ys) none = refl
held_after-append (x ∷ xs) ys (some h) = held_after-append xs ys (follows x h)

served : Bool → Held
served usb = record { options = true; dispatch = true; usb = usb; server = true; notifier = false }

running : Bool → Held
running usb = record { options = true; dispatch = true; usb = usb; server = true; notifier = true }

rounds-hold :
    (loop : Rounds) (usb : Bool)
    → held_after (rounds loop) (some (running usb)) ≡ some (running usb)
unfolding running
rounds-hold stopped usb = refl
rounds-hold failed usb = refl
rounds-hold (again rest) usb = rounds-hold rest usb

serve-hold :
    (ipc : Bool) (loop : Rounds) (usb : Bool)
    → held_after (serve ipc loop).0 (some (served usb)) ≡ some (served usb)
unfolding running served
serve-hold false loop usb = refl
serve-hold true loop usb =
    held_after-append (rounds loop) (ipc_free ∷ []) (some (running usb))
    ∙ ap (held_after (ipc_free ∷ [])) (rounds-hold loop usb)

opened : Bool → Held
opened usb = record { options = true; dispatch = true; usb = usb; server = false; notifier = false }

with_usb-hold :
    (opts : Options) (can : Outcome) (loop : Rounds) (usb : Bool)
    → held_after (with_usb opts can loop usb).0 (some (opened usb)) ≡ some (opened usb)
unfolding opened served
with_usb-hold opts can loop usb = go can.server usb
  where
    close :
        (u : Bool)
        → held_after ((serve can.ipc loop).0 ++ server_close ∷ []) (some (served u))
          ≡ some (opened u)
    close u =
        held_after-append (serve can.ipc loop).0 (server_close ∷ []) (some (served u))
        ∙ ap (held_after (server_close ∷ [])) (serve-hold can.ipc loop u)

    go :
        (server usb : Bool)
        → held_after (with_usb opts (record can { server = server }) loop usb).0 (some (opened usb))
          ≡ some (opened usb)
    go false true = refl
    go false false = refl
    go true true = close true
    go true false = close false

with_dispatch-hold :
    (opts : Options) (can : Outcome) (loop : Rounds)
    → held_after (with_dispatch opts can loop).0 (some (opened false)) ≡ some (opened false)
unfolding opened
with_dispatch-hold opts can loop = go opts.dryrun can.usb
  where
    go :
        (dryrun usb : Bool)
        → held_after
            (with_dispatch (record opts { dryrun = dryrun }) (record can { usb = usb }) loop).0
            (some (opened false))
          ≡ some (opened false)
    go true usb = with_usb-hold opts can loop false
    go false false = refl
    go false true =
        held_after-append (with_usb opts can loop true).0 (usbdali_close ∷ []) (some (opened true))
        ∙ ap (held_after (usbdali_close ∷ [])) (with_usb-hold opts can loop true)

parsed : Held
parsed = record nothing { options = true }

set_up-hold :
    (vsyslog : Bool) (opts : Options) → held_after (set_up vsyslog opts) (some parsed) ≡ some parsed
unfolding parsed
set_up-hold vsyslog opts = go vsyslog opts.syslog opts.background opts.logfile
  where
    go :
        (vsyslog syslog background : Bool) (logfile : Option Text)
        → held_after
            (set_up vsyslog
              (record opts { syslog = syslog; background = background; logfile = logfile }))
            (some parsed)
          ≡ some parsed
    go true true true none = refl
    go true true true (some _) = refl
    go true true false none = refl
    go true true false (some _) = refl
    go true false true none = refl
    go true false true (some _) = refl
    go true false false none = refl
    go true false false (some _) = refl
    go false _ true none = refl
    go false _ true (some _) = refl
    go false _ false none = refl
    go false _ false (some _) = refl

with_options-hold :
    (vsyslog : Bool) (opts : Options) (dispatch : Bool) (inner : List Event × ℤ)
    → held_after inner.0 (some (opened false)) ≡ some (opened false)
    → held_after (with_options vsyslog opts dispatch inner).0 (some nothing) ≡ some nothing
unfolding parsed opened
with_options-hold vsyslog opts false inner h =
    held_after-append (set_up vsyslog opts) (dispatch_new false ∷ free_opt ∷ []) (some parsed)
    ∙ ap (held_after (dispatch_new false ∷ free_opt ∷ [])) (set_up-hold vsyslog opts)
with_options-hold vsyslog opts true inner h =
    let loop : List Event = dispatch_new true ∷ (inner.0 ++ (dispatch_free ∷ [])) in
    held_after-append (set_up vsyslog opts) (loop ++ (free_opt ∷ [])) (some parsed)
    ∙ ap (held_after (loop ++ (free_opt ∷ []))) (set_up-hold vsyslog opts)
    ∙ held_after-append loop (free_opt ∷ []) (some parsed)
    ∙ ap (held_after (free_opt ∷ [])) (
        held_after-append inner.0 (dispatch_free ∷ []) (some (opened false))
        ∙ ap (held_after (dispatch_free ∷ [])) h)

-- On each path through `main`, with any options and whatever can be made: a part is used only
-- while it is there, is freed once and before the dispatch table, the server before the USB
-- connection that its handler uses, and at the end nothing is held. The pointer to the server that
-- the driver has for its callback is not counted as a use.
pub main_releases :
    (vsyslog : Bool) (opts : Option Options) (can : Outcome) (loop : Rounds)
    → held_after (main vsyslog opts can loop).0 (some nothing) ≡ some nothing
unfolding main
main_releases vsyslog none can loop = refl
main_releases vsyslog (some opts) can loop =
    with_options-hold vsyslog opts can.dispatch (with_dispatch opts can loop)
      (with_dispatch-hold opts can loop)
