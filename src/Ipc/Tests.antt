-- ===== src/Ipc/Tests.antt =====
-- Runs of lib/ipc.c.
use daliserver.Common.{ℕ, ◌≡◌, refl, Bool, true, false, none, some, [], ◌∷◌, arith}
use daliserver.Common.Int.{pos}
use daliserver.Common.Counting.{but, count}
use daliserver.Dispatch.{PollFlags, Slot, Dispatch, entries}
use daliserver.Dispatch.Remove.{is_fd}
use daliserver.Ipc.{Ipc, ipc_new, ipc_read_socket, ipc_register}
use daliserver.Ipc.Register.{IsRegistered, register_once}

abbrev sockets : Ipc
sockets = record { socket_0 = 3; socket_1 = 4; dispatch = false }

made : ipc_new (some (3, 4)) ≡ some sockets
unfolding ipc_new
made = refl

abbrev flags : PollFlags
flags = record { pollin = 1; pollerr = 8; pollhup = 16; pollnval = 32 }

abbrev slot : ℕ → Slot ℕ
slot fd = record {
  arg = 0;
  readyfn = some 100;
  errorfn = none;
  indexfn = none;
  fd = pos fd;
  events = 1;
  revents = 0;
}

abbrev table : Dispatch ℕ
table = record { numentries = 2; allocentries = 2; slots = slot 5 ∷ slot 3 ∷ []; notices = [] }

abbrev joined : Ipc
joined = record sockets { dispatch = true }

joined-IsRegistered : IsRegistered joined table
unfolding count ipc_read_socket
joined-IsRegistered = record {
  bounded = record { within = omega arith; allocated = refl };
  own = refl;
}

register_once_example :
    (table' : Dispatch ℕ) × (ipc_register flags (slot 0) 7 9 joined table ≡ some (joined, table'))
    × IsRegistered joined table'
    × ((p : Slot ℕ → Bool)
        → count (but p (is_fd (pos 3))) (entries table')
          ≡ count (but p (is_fd (pos 3))) (entries table))
unfolding ipc_read_socket
register_once_example = register_once flags (slot 0) 7 9 joined table joined-IsRegistered
