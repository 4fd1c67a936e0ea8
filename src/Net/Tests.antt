-- ===== src/Net/Tests.antt =====
-- Runs of lib/net.c with three connections: the sockets take every write, or the second fails.
use daliserver.Common.{
  ℕ, ◌≡◌, refl, ◌∙◌, true, false, Option, none, some, ◌||◌, List, [], ◌∷◌, arith, length, ◌==◌,
  if◌then◌else◌,
}
use daliserver.Common.Int.{pos, negsuc}
use daliserver.Net.{
  Action, Connection, Server, Sockets, register, server_close, server_broadcast,
  server_listener_ready, connection_ready, connection_error,
}
use daliserver.Net.Changes.{changes_of, all-table_after}
use daliserver.Common.Counting.{count}
use daliserver.Dispatch.{
  PollFlags, Slot, Dispatch, entries, Invocation, ready, error, Handlers, DispatchStatus,
  dispatch_run,
}
use daliserver.Dispatch.Ahead.{Change, carry_all}
use daliserver.Dispatch.Returns.{run_returns}
use daliserver.Dispatch.Remove.{IsBounded, is_fd}
use daliserver.Net.Watched.{table_after, has_socket, close-unwatched}
use daliserver.Net.Listen.{Listening, Undoes, server_open, open-Undoes}
use daliserver.Net.Broadcast.{TakeFrames, AreDistinct}
use daliserver.Net.Failure.{broadcast_short-faults}

abbrev taking : Sockets
taking = λ actions socket buffer. pos (length buffer)

abbrev failing : Sockets
failing = λ actions socket buffer. if socket == 6 then negsuc 0 else pos (length buffer)

abbrev waiting : Connection
waiting = record { address = 100; socket = 5; waiting = true }

abbrev idle_one : Connection
idle_one = record { address = 200; socket = 6; waiting = false }

abbrev idle_two : Connection
idle_two = record { address = 300; socket = 7; waiting = false }

abbrev server : Server
server = record {
  connections = waiting ∷ idle_one ∷ idle_two ∷ [];
  framesize = 4;
  actions = [];
  faulted = false;
}

abbrev frame : List ℕ
frame = 2 ∷ 2 ∷ 254 ∷ 0 ∷ []

abbrev forget_nothing : ℕ → ℕ → ℕ
forget_nothing p d = d

taking-TakeFrames : TakeFrames taking 4
taking-TakeFrames actions socket buffer h = ground arith

server-AreDistinct : AreDistinct server.connections
server-AreDistinct = ((ground arith, (ground arith, tt)), ((ground arith, tt), (tt, tt)))

broadcast_short-faults_example :
    (server_broadcast failing forget_nothing frame (0, server)).1.faulted ≡ true
broadcast_short-faults_example =
    broadcast_short-faults failing forget_nothing frame (waiting ∷ []) idle_one (idle_two ∷ []) 0
      server refl (refl, tt) refl (omega arith) refl server-AreDistinct

abbrev poll_bits : PollFlags
poll_bits = record { pollin = 1; pollerr = 8; pollhup = 16; pollnval = 32 }

abbrev slot_of : ℕ → Slot ℕ
slot_of fd = record {
  arg = fd;
  readyfn = some 100;
  errorfn = some 200;
  indexfn = none;
  fd = pos fd;
  events = 1;
  revents = 0;
}

abbrev table : Dispatch ℕ
table = record { numentries = 1; allocentries = 1; slots = slot_of 9 ∷ []; notices = [] }

table-IsBounded : IsBounded table
table-IsBounded = record { within = omega arith; allocated = refl }

-- The server with its three sockets registered behind the listener, 9.
abbrev busy : Server
busy = record server { actions = register 7 ∷ register 6 ∷ register 5 ∷ [] }

close-unwatched_example :
    let run = table_after poll_bits (slot_of 0) 100 200 (λ fd. fd) in
    (before : Dispatch ℕ) × (after : Dispatch ℕ) × (run busy.actions table ≡ some before)
    × (run (server_close taking forget_nothing 9 (0, busy)).1.actions table ≡ some after)
    × IsBounded after
    × ((fd : ℕ)
        → count (is_fd (pos fd)) (entries after) ≡ (
            if has_socket fd busy.connections || (9 == fd)
            then 0
            else count (is_fd (pos fd)) (entries before)))
close-unwatched_example =
    close-unwatched taking forget_nothing poll_bits (slot_of 0) 100 200 (λ fd. fd) 9 0 busy table
      table-IsBounded

-- The table after the calls, if they read nothing outside it.
abbrev if_carried : Dispatch ℕ → Option (Dispatch ℕ) → Dispatch ℕ
if_carried d none = d
if_carried d (some d') = d'

-- The functions of the server: 10 accepts a connection with the socket 12, 100 reads from a
-- connection that has been closed, and an error removes a connection.
abbrev called : Invocation ℕ → ℕ × Server → ℕ × Server
called (ready f arg) s =
    if f == 10
    then server_listener_ready taking forget_nothing (some 12) true 400 s
    else connection_ready taking forget_nothing (λ p buffer s'. s') arg (pos 0) [] s
called (error f arg err) s = connection_error taking forget_nothing arg err s

-- The table gets what the function that is called does to it.
abbrev served : Handlers ℕ (ℕ × Server)
served call (d, (k, sv)) =
    let after = called call (k, record sv { actions = [] }) in
    (if_carried d (table_after poll_bits (slot_of 0) 100 200 (λ fd. fd) after.1.actions d), after)

carried :
    (actions : List Action) (d : Dispatch ℕ) (o : Option (Dispatch ℕ))
    → table_after poll_bits (slot_of 0) 100 200 (λ fd. fd) actions d ≡ o
    → (changes : List (Change ℕ)) × (carry_all poll_bits changes d ≡ some (if_carried d o))
carried actions d none e = ([], refl)
carried actions d (some d') e = (
  changes_of poll_bits (slot_of 0) 100 200 (λ fd. fd) actions,
  all-table_after poll_bits (slot_of 0) 100 200 (λ fd. fd) actions d ∙ e,
)

served_keeps :
    (call : Invocation ℕ) (s : Dispatch ℕ × (ℕ × Server))
    → (changes : List (Change ℕ)) × (carry_all poll_bits changes s.0 ≡ some (served call s).0)
served_keeps call (d, (k, sv)) =
    carried (called call (k, record sv { actions = [] })).1.actions d
      (table_after poll_bits (slot_of 0) 100 200 (λ fd. fd)
        (called call (k, record sv { actions = [] })).1.actions d)
      refl

-- The listener, 9, and the connection at 200 with its socket 6.
abbrev listening : Dispatch ℕ
listening = record {
  numentries = 2;
  allocentries = 2;
  slots = record (slot_of 9) { readyfn = some 10 } ∷ record (slot_of 6) { arg = 200 } ∷ [];
  notices = [];
}

listening-IsBounded : IsBounded listening
listening-IsBounded = record { within = omega arith; allocated = refl }

run_returns_example :
    (fuel : ℕ) × (r : Dispatch ℕ × (ℕ × Server)) × (status : DispatchStatus) × (dispatch_run
        poll_bits served fuel
        (pos 2)
        (1 ∷ 16 ∷ [])
        (listening, (0, server))
      ≡ some (r, status))
    × IsBounded r.0
run_returns_example =
    run_returns poll_bits served served_keeps (pos 2) (1 ∷ 16 ∷ []) (listening, (0, server))
      listening-IsBounded

-- The address is in use.
abbrev in_use : Listening
in_use = record {
  memory = true;
  socket = some 8;
  setsockopt = true;
  inet_pton = true;
  bind = false;
  listen = true;
}

open-Undoes_example :
    Undoes poll_bits
      (slot_of 0)
      100
      200
      1
      taking
      forget_nothing
      0
      in_use
      table
      (server_open poll_bits (slot_of 0) 100 200 1 in_use 4 table)
open-Undoes_example =
    open-Undoes poll_bits (slot_of 0) 100 200 1 taking forget_nothing 0 in_use 4 table
      table-IsBounded
