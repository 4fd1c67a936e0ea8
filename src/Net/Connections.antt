-- ===== src/Net/Connections.antt =====
-- What replies and broadcasts of lib/net.c do to the driver that is joined to the server and to the
-- list of connections: they forget a connection and remove it, or clear that it is waiting.
use daliserver.Common.{
  ℕ, ◌≡◌, refl, Bool, true, false, Option, none, some, List, [], ◌∷◌, ltb, is_some, length,
  Bool-cases, inl, inr, map,
}
use daliserver.Common.Int.{ℤ}
use daliserver.Net.{
  Connection, Server, Sockets, list_find, list_remove, set_waiting, is_short, remove_found,
  server_connection_remove, after_write, reply_found, connection_reply, next_node, idle, written,
  visit, broadcast_loop, server_broadcast, ready_found, connection_ready,
}

module _ {D : Type 0} (net : Sockets) (destroy : ℕ → D → D) (P : D → List Connection → Type 0)
    (P-remove : (p : ℕ) (d : D) (l : List Connection) → P d l → P (destroy p d) (list_remove p l))
    (P-waiting : (p : ℕ) (w : Bool) (d : D) (l : List Connection)
      → P d l
      → P d (set_waiting p w l)) where
  abbrev pub Held : D × Server → Type 0
  Held s = P s.0 s.1.connections

  found_remove-Held :
      (p : ℕ) (o : Option Connection) (s : D × Server)
      → Held s
      → Held (remove_found net destroy p o s)
  found_remove-Held p none s h = h
  found_remove-Held p (some c) s h = P-remove p s.0 s.1.connections h

  pub remove-Held :
      (p : ℕ) (s : D × Server) → Held s → Held (server_connection_remove net destroy p s)
  unfolding server_connection_remove
  remove-Held p s h = found_remove-Held p (list_find p s.1.connections) s h

  after_write-Held :
      (p : ℕ) (wrbytes : ℤ) (s : D × Server) → Held s → Held (after_write net destroy p wrbytes s)
  after_write-Held p wrbytes s h = elim (Bool-cases (is_short wrbytes s.1.framesize)) [
    | inl e ↦ rw e (remove-Held p s h)
    | inr e ↦ rw e h
  ]

  found-Held :
      (p : ℕ) (buffer : List ℕ) (o : Option Connection) (s : D × Server)
      → Held s
      → Held (reply_found net destroy p buffer o s)
  found-Held p buffer none s h = h
  found-Held p buffer (some c) (d, sv) h = elim (Bool-cases (ltb 0 (length buffer))) [
    | inl e ↦ rw e (
        after_write-Held p (net sv.actions c.socket buffer) (d, written c buffer (idle p sv))
          (P-waiting p false d sv.connections h))
    | inr e ↦ rw e (P-waiting p false d sv.connections h)
  ]

  pub reply-Held :
      (p : ℕ) (buffer : List ℕ) (s : D × Server)
      → Held s
      → Held (connection_reply net destroy p buffer s)
  unfolding connection_reply
  reply-Held p buffer s h = found-Held p buffer (list_find p s.1.connections) s h

  next-Held :
      (p : ℕ) (next : D × Server → D × Server) (s : D × Server)
      → ((t : D × Server) → Held t → Held (next t))
      → Held s
      → Held (next_node net destroy p next s)
  next-Held p next s k h = elim (Bool-cases (is_some (list_find p s.1.connections))) [
    | inl e ↦ rw e (k s h)
    | inr e ↦ rw e h
  ]

  visit-Held :
      (p : ℕ) (buffer : List ℕ) (o : Option Connection) (next : D × Server → D × Server)
      (s : D × Server)
      → ((t : D × Server) → Held t → Held (next t))
      → Held s
      → Held (visit net destroy p buffer o next s)
  visit-Held p buffer none next s k h = h
  visit-Held p buffer (some c) next s k h = elim (Bool-cases c.waiting) [
    | inl e ↦ rw e (next-Held p next s k h)
    | inr e ↦
        rw e
          (next-Held p next (connection_reply net destroy p buffer s) k (reply-Held p buffer s h))
  ]

  loop-Held :
      (buffer : List ℕ) (nodes : List ℕ) (s : D × Server)
      → Held s
      → Held (broadcast_loop net destroy buffer nodes s)
  unfolding broadcast_loop
  loop-Held buffer [] s h = h
  loop-Held buffer (p ∷ nodes) s h =
      visit-Held p buffer (list_find p s.1.connections) (broadcast_loop net destroy buffer nodes) s
        (loop-Held buffer nodes) h

  pub broadcast-Held :
      (buffer : List ℕ) (s : D × Server) → Held s → Held (server_broadcast net destroy buffer s)
  unfolding server_broadcast
  broadcast-Held buffer s h = elim (Bool-cases (ltb 0 (length buffer))) [
    | inl e ↦ rw e (loop-Held buffer (map (λ (c : Connection). c.address) s.1.connections) s h)
    | inr e ↦ rw e h
  ]

  found_ready-Held :
      (recvfn : ℕ → List ℕ → D × Server → D × Server) (p : ℕ) (rdbytes : ℤ) (buffer : List ℕ)
      (s : D × Server)
      → ((c : Connection) (t : D × Server)
          → list_find p s.1.connections ≡ some c
          → t.1.connections ≡ set_waiting p true s.1.connections
          → Held t
          → Held (recvfn p buffer t))
      → Held s
      → (o : Option Connection) → list_find p s.1.connections ≡ o
      → Held (ready_found net destroy recvfn p rdbytes buffer o s)
  found_ready-Held recvfn p rdbytes buffer s k h none e = h
  found_ready-Held recvfn p rdbytes buffer (d, sv) k h (some c) e =
      elim (Bool-cases (is_short rdbytes sv.framesize)) [
        | inl f ↦ rw f (remove-Held p (d, sv) h)
        | inr f ↦ rw f (
            k c (d, record sv { connections = set_waiting p true sv.connections }) e refl
              (P-waiting p true d sv.connections h))
      ]

  pub ready-Held :
      (recvfn : ℕ → List ℕ → D × Server → D × Server) (p : ℕ) (rdbytes : ℤ) (buffer : List ℕ)
      (s : D × Server)
      → ((c : Connection) (t : D × Server)
          → list_find p s.1.connections ≡ some c
          → t.1.connections ≡ set_waiting p true s.1.connections
          → Held t
          → Held (recvfn p buffer t))
      → Held s
      → Held (connection_ready net destroy recvfn p rdbytes buffer s)
  unfolding connection_ready
  ready-Held recvfn p rdbytes buffer s k h =
      found_ready-Held recvfn p rdbytes buffer s k h (list_find p s.1.connections) refl
