-- ===== src/Main.antt =====
-- src/daliserver.c: main(), as the calls that it makes in their order. What the calls return is a
-- parameter: whether each part can be made, and how the loop on dispatch_run ends. Messages are left
-- out, and daemonize() is taken to return; Daemon has what it does otherwise.
pub mod Order
pub mod Status
mod Tests
use daliserver.Common.{
  ℕ, Bool, true, false, not, ◌||◌, Option, none, some, List, [], ◌∷◌, ◌++◌, if◌then◌else◌,
}
use daliserver.Common.Int.{ℤ, pos, negsuc}
use daliserver.Options.{Text, Options}

pub data Event : Type 0 where
  show_banner show_help set_logfile_level_max set_syslog : Event
  set_level : ℕ → Event
  set_logfile : Text → Event
  daemonize : Option Text → Event
  parse_opt dispatch_new ipc_new : Bool → Event
  usbdali_open : ℤ → ℤ → Bool → Event
  server_open : Text → ℕ → Bool → Event
  set_destroy_callback set_usb_callbacks ipc_register set_signals dispatch_run : Event
  ipc_free server_close usbdali_close dispatch_free free_opt : Event

-- Which of the parts can be made.
pub record Outcome : Type 0 where
  pub dispatch : Bool
  pub usb : Bool
  pub server : Bool
  pub ipc : Bool

-- How the loop goes: `running` is 0, dispatch_run returns 0, or dispatch_run returns another value
-- and the loop goes on.
pub data Rounds : Type 0 where
  stopped failed : Rounds
  again : Rounds → Rounds

abbrev pub rounds : Rounds → List Event
rounds stopped = []
rounds failed = dispatch_run ∷ []
rounds (again rest) = dispatch_run ∷ rounds rest

-- With the sockets of the notifier, until the loop ends; the calls and the result.
abbrev pub serve : Bool → Rounds → List Event × ℤ
serve ipc loop =
    if ipc
    then (ipc_new true ∷ ipc_register ∷ set_signals ∷ (rounds loop ++ ipc_free ∷ []), pos 0)
    else (ipc_new false ∷ [], negsuc 0)

-- `usb` tells whether there is a USB connection.
abbrev pub with_usb : Options → Outcome → Rounds → Bool → List Event × ℤ
with_usb opts can loop usb =
    let (events, error) = serve can.ipc loop in
    if can.server
    then (
      server_open opts.address opts.port true
          ∷ set_destroy_callback
          ∷ ((if usb then set_usb_callbacks ∷ [] else []) ++ events ++ server_close ∷ []),
      error,
    )
    else (server_open opts.address opts.port false ∷ [], negsuc 0)

abbrev pub with_dispatch : Options → Outcome → Rounds → List Event × ℤ
with_dispatch opts can loop =
    let (events, error) = with_usb opts can loop true in
    if opts.dryrun
    then with_usb opts can loop false
    else if can.usb
    then (usbdali_open opts.usbbus opts.usbdev true ∷ (events ++ usbdali_close ∷ []), error)
    else (usbdali_open opts.usbbus opts.usbdev false ∷ [], negsuc 0)

abbrev pub set_log : Bool → Options → List Event
set_log vsyslog opts =
    set_level opts.loglevel
    ∷ ((elim opts.logfile [ none ↦ [] | some path ↦ set_logfile path ∷ set_logfile_level_max ∷ [] ])
        ++ (if vsyslog then (if opts.syslog then set_syslog ∷ [] else []) else []))

abbrev pub background : Options → List Event
background opts = if opts.background then daemonize opts.pidfile ∷ [] else show_banner ∷ []

abbrev pub set_up : Bool → Options → List Event
set_up vsyslog opts = set_log vsyslog opts ++ background opts

-- `served` is what is done with the dispatch table, if it can be made.
abbrev pub with_options : Bool → Options → Bool → List Event × ℤ → List Event × ℤ
with_options vsyslog opts dispatch served =
    if dispatch
    then (
      parse_opt true
          ∷ (set_up vsyslog opts
              ++ ((dispatch_new true ∷ (served.0 ++ (dispatch_free ∷ []))) ++ (free_opt ∷ []))),
      served.1,
    )
    else (parse_opt true ∷ (set_up vsyslog opts ++ dispatch_new false ∷ free_opt ∷ []), negsuc 0)

-- The calls, and the exit status. The argument after `vsyslog` is what parse_opt returns.
unfoldable pub main : Bool → Option Options → Outcome → Rounds → List Event × ℤ
main vsyslog none can loop = (parse_opt false ∷ show_banner ∷ show_help ∷ [], negsuc 0)
main vsyslog (some opts) can loop =
    with_options vsyslog opts can.dispatch (with_dispatch opts can loop)
