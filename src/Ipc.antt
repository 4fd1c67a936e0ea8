-- ===== src/Ipc.antt =====
-- lib/ipc.c: a pair of sockets that wakes the dispatch loop. The kernel's side of the sockets is a
-- parameter `K` with what write() and poll() do on it. There is one dispatch table, so the pointer
-- to it is whether it is set.
pub mod Wake
pub mod Register
mod Tests
use mathlib.Core.Option
use daliserver.Common.{ℕ, Bool, true, false, Option, none, some, List, if◌then◌else◌}
use daliserver.Common.Int.{ℤ, pos}
use daliserver.Dispatch.{PollFlags, Slot, Dispatch, dispatch_add, dispatch_remove_fd}

pub record Ipc : Type 0 where
  pub socket_0 : ℕ
  pub socket_1 : ℕ
  pub dispatch : Bool

-- What socketpair() returns: two descriptors, or an error.
unfoldable pub ipc_new : Option (ℕ × ℕ) → Option Ipc
ipc_new pair = Option.map (λ (a, b). record { socket_0 = a; socket_1 = b; dispatch = false }) pair

unfoldable pub ipc_read_socket : Ipc → ℕ
ipc_read_socket ipc = ipc.socket_0

unfoldable pub ipc_write_socket : Ipc → ℕ
ipc_write_socket ipc = ipc.socket_0

-- `write` is write() of one byte, `read` is read() of one byte.
unfoldable pub ipc_notify : {K : Type 0} → (write : ℕ → K → K) → Ipc → K → K
unfolding ipc_write_socket
ipc_notify write ipc k = write (ipc_write_socket ipc) k

unfoldable pub ipc_read_zero : {K : Type 0} → (read : ℕ → K → K) → Ipc → K → K
unfolding ipc_read_socket
ipc_read_zero read ipc k = read (ipc_read_socket ipc) k

module _ {F : Type 0} (flags : PollFlags) (unset : Slot F) (readyfn : F) (self : ℕ) where
  abbrev pub unregister : Ipc → Dispatch F → Option (Dispatch F)
  unregister ipc table =
      if ipc.dispatch then dispatch_remove_fd table (pos (ipc_read_socket ipc)) else some table

  abbrev pub add_read_socket : Ipc → Dispatch F → Ipc × Dispatch F
  add_read_socket ipc table = (
    record ipc { dispatch = true },
    dispatch_add flags unset table (pos (ipc_read_socket ipc)) (pos flags.pollin) (some readyfn)
        none none self,
  )

  unfoldable pub ipc_register : Ipc → Dispatch F → Option (Ipc × Dispatch F)
  ipc_register ipc table = Option.map (add_read_socket ipc) (unregister ipc table)

  -- The table; both sockets are closed.
  unfoldable pub ipc_free : Ipc → Dispatch F → Option (Dispatch F)
  ipc_free ipc table = unregister ipc table
