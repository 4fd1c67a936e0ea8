-- ===== src/Net.antt =====
-- lib/net.c: the server and its connections. A connection is known by its address, and its list
-- node by the connection. The driver's state `D` goes along, since the callback that runs before a
-- connection is freed changes it. `actions` are the system calls and the changes to the dispatch
-- queue, the latest first; `faulted` says that freed memory was accessed.
pub mod Listed
pub mod Connections
pub mod Broadcast
pub mod Failure
pub mod Watched
pub mod Changes
pub mod Waiting
pub mod Written
pub mod Listen
mod Tests
use daliserver.Common.{
  ℕ, Bool, true, false, not, ◌&&◌, ◌||◌, Option, none, some, List, [], ◌∷◌, ◌++◌, map, ltb, ◌==◌,
  is_some, if◌then◌else◌, length,
}
use daliserver.Common.Int.{ℤ, pos, negsuc}
use daliserver.Dispatch.{DispatchError}

pub record Connection : Type 0 where
  pub address : ℕ
  pub socket : ℕ
  pub waiting : Bool

pub data Action : Type 0 where
  write : ℕ → List ℕ → Action
  close register unregister : ℕ → Action

pub record Server : Type 0 where
  pub connections : List Connection
  pub framesize : ℕ
  pub actions : List Action
  pub faulted : Bool

-- What the system call write() returns; it may depend on all that was done before.
abbrev pub Sockets : Type 0
Sockets = List Action → ℕ → List ℕ → ℤ

-- `list_find` with `list_equal`: the first node that holds the connection.
unfoldable pub list_find : ℕ → List Connection → Option Connection
list_find p [] = none
list_find p (c ∷ rest) = if c.address == p then some c else list_find p rest

unfoldable pub list_remove : ℕ → List Connection → List Connection
list_remove p [] = []
list_remove p (c ∷ rest) = if c.address == p then rest else c ∷ list_remove p rest

-- `conn->waiting = …`
pub set_waiting : ℕ → Bool → List Connection → List Connection
set_waiting p w [] = []
set_waiting p w (c ∷ rest) =
    if c.address == p then record c { waiting = w } ∷ rest else c ∷ set_waiting p w rest

abbrev pub fault : Server → Server
fault sv = record sv { faulted = true }

-- Fewer bytes than a frame, or an error.
abbrev pub is_short : ℤ → ℕ → Bool
is_short (negsuc n) framesize = true
is_short (pos n) framesize = ltb n framesize

-- The connection waits for no answer any more.
abbrev pub idle : ℕ → Server → Server
idle p sv = record sv { connections = set_waiting p false sv.connections }

abbrev pub written : Connection → List ℕ → Server → Server
written c buffer sv = record sv { actions = write c.socket buffer ∷ sv.actions }

module _ {D : Type 0} (net : Sockets) (destroy : ℕ → D → D) where
  abbrev pub remove_found : ℕ → Option Connection → D × Server → D × Server
  remove_found p none (d, sv) = (d, fault sv)
  remove_found p (some c) (d, sv) = (
    destroy p d,
    record sv {
      connections = list_remove p sv.connections;
      actions = unregister c.socket ∷ close c.socket ∷ sv.actions;
    },
  )

  -- With `connection_free`: the destroy callback, close() and the dispatch queue, in this order.
  unfoldable pub server_connection_remove : ℕ → D × Server → D × Server
  unfolding list_find list_remove
  server_connection_remove p s = remove_found p (list_find p s.1.connections) s

  abbrev pub after_write : ℕ → ℤ → D × Server → D × Server
  after_write p wrbytes s =
      if is_short wrbytes s.1.framesize then server_connection_remove p s else s

  abbrev pub reply_found : ℕ → List ℕ → Option Connection → D × Server → D × Server
  reply_found p buffer none (d, sv) = (d, fault sv)
  reply_found p buffer (some c) (d, sv) =
      if ltb 0 (length buffer)
      then after_write p (net sv.actions c.socket buffer) (d, written c buffer (idle p sv))
      else (d, idle p sv)

  unfoldable pub connection_reply : ℕ → List ℕ → D × Server → D × Server
  unfolding list_find set_waiting
  connection_reply p buffer s = reply_found p buffer (list_find p s.1.connections) s

  -- `list_next(node)`: the node is gone if its connection was removed.
  abbrev pub next_node : ℕ → (D × Server → D × Server) → D × Server → D × Server
  next_node p next (d, sv) =
      if is_some (list_find p sv.connections) then next (d, sv) else (d, fault sv)

  abbrev pub visit :
      ℕ → List ℕ → Option Connection → (D × Server → D × Server) → D × Server → D × Server
  visit p buffer none next (d, sv) = (d, fault sv)
  visit p buffer (some c) next s =
      if c.waiting then next_node p next s else next_node p next (connection_reply p buffer s)

  pub broadcast_loop : List ℕ → List ℕ → D × Server → D × Server
  broadcast_loop buffer [] s = s
  broadcast_loop buffer (p ∷ nodes) s =
      visit p buffer (list_find p s.1.connections) (broadcast_loop buffer nodes) s

  unfoldable pub server_broadcast : List ℕ → D × Server → D × Server
  unfolding broadcast_loop
  server_broadcast buffer s =
      if ltb 0 (length buffer)
      then broadcast_loop buffer (map (λ (c : Connection). c.address) s.1.connections) s
      else s

  -- `recvfn` is the handler of complete frames; `rdbytes` is what read() returns.
  abbrev pub ready_found :
      (recvfn : ℕ → List ℕ → D × Server → D × Server)
      → ℕ
      → ℤ
      → List ℕ
      → Option Connection
      → D × Server
      → D × Server
  ready_found recvfn p rdbytes buffer none (d, sv) = (d, fault sv)
  ready_found recvfn p rdbytes buffer (some c) (d, sv) =
      if is_short rdbytes sv.framesize
      then server_connection_remove p (d, sv)
      else recvfn p buffer (d, record sv { connections = set_waiting p true sv.connections })

  unfoldable pub connection_ready :
      (recvfn : ℕ → List ℕ → D × Server → D × Server) → ℕ → ℤ → List ℕ → D × Server → D × Server
  unfolding list_find set_waiting
  connection_ready recvfn p rdbytes buffer s =
      ready_found recvfn p rdbytes buffer (list_find p s.1.connections) s

  -- Each of the three errors removes the connection.
  unfoldable pub connection_error : ℕ → DispatchError → D × Server → D × Server
  connection_error p err s = server_connection_remove p s

  -- `list_free` takes the connections from the front and frees each with `connection_free`.
  unfoldable pub free_connections : List Connection → D × Server → D × Server
  free_connections [] s = s
  free_connections (c ∷ rest) (d, sv) = free_connections rest (
    destroy c.address d,
    record sv { connections = rest; actions = unregister c.socket ∷ close c.socket ∷ sv.actions },
  )

  unfoldable pub server_close : (listener : ℕ) → D × Server → D × Server
  unfolding free_connections
  server_close listener (d, sv) =
      free_connections sv.connections
        (d, record sv { actions = close listener ∷ unregister listener ∷ sv.actions })

  -- A connection that accept() returns with an address of the right family; `fresh` is the address
  -- that malloc() returns. A connection of another family is left alone.
  unfoldable pub server_listener_ready :
      Option ℕ → (is_inet : Bool) → (fresh : ℕ) → D × Server → D × Server
  server_listener_ready none is_inet fresh s = s
  server_listener_ready (some socket) false fresh s = s
  server_listener_ready (some socket) true fresh (d, sv) = (
    d,
    record sv {
      connections =
          sv.connections ++ record { address = fresh; socket = socket; waiting = false } ∷ [];
      actions = register socket ∷ sv.actions;
    },
  )
