-- ===== src/Net/Written.antt =====
-- Whatever lib/net.c writes on the sockets passes a test that its callers' frames pass.
use daliserver.Common.{
  ℕ, ◌≡◌, Bool, true, ◌&&◌, Option, none, some, List, [], ◌∷◌, length, ltb, is_some, Bool-cases,
  inl, inr, map,
}
use daliserver.Common.Int.{ℤ}
use daliserver.Net.{
  Connection, Action, write, close, register, unregister, Server, Sockets, list_find, idle, written,
  is_short, remove_found, server_connection_remove, after_write, reply_found, connection_reply,
  next_node, visit, broadcast_loop, server_broadcast,
}

-- Each buffer that was written passes the test.
abbrev pub all_written : (List ℕ → Bool) → List Action → Bool
all_written test [] = true
all_written test (write socket buffer ∷ actions) = test buffer && all_written test actions
all_written test (close socket ∷ actions) = all_written test actions
all_written test (register socket ∷ actions) = all_written test actions
all_written test (unregister socket ∷ actions) = all_written test actions

module _ {D : Type 0} (net : Sockets) (destroy : ℕ → D → D) (test : List ℕ → Bool) where
  abbrev AreWritten : D × Server → Type 0
  AreWritten s = all_written test s.1.actions ≡ true

  pub remove-written :
      (p : ℕ) (s : D × Server)
      → all_written test s.1.actions ≡ true
      → all_written test (server_connection_remove net destroy p s).1.actions ≡ true
  unfolding server_connection_remove
  remove-written p s h = go (list_find p s.1.connections)
    where
      go : (o : Option Connection) → AreWritten (remove_found net destroy p o s)
      go none = h
      go (some c) = h

  pub reply-written :
      (p : ℕ) (buffer : List ℕ) (s : D × Server)
      → test buffer ≡ true
      → all_written test s.1.actions ≡ true
      → all_written test (connection_reply net destroy p buffer s).1.actions ≡ true
  unfolding connection_reply
  reply-written p buffer (d, sv) good h = go (list_find p sv.connections)
    where
      after :
          (c : Connection) (wrbytes : ℤ)
          → AreWritten (after_write net destroy p wrbytes (d, written c buffer (idle p sv)))
      after c wrbytes =
          let more : all_written test (written c buffer (idle p sv)).actions ≡ true = rw good h in
          elim (Bool-cases (is_short wrbytes sv.framesize)) [
            | inl e ↦ rw e (remove-written p (d, written c buffer (idle p sv)) more)
            | inr e ↦ rw e more
          ]

      go : (o : Option Connection) → AreWritten (reply_found net destroy p buffer o (d, sv))
      go none = h
      go (some c) = elim (Bool-cases (ltb 0 (length buffer))) [
        | inl e ↦ rw e (after c (net sv.actions c.socket buffer))
        | inr e ↦ rw e h
      ]

  next-written :
      (p : ℕ) (next : D × Server → D × Server) (s : D × Server)
      → ((r : D × Server) → AreWritten r → AreWritten (next r))
      → AreWritten s
      → AreWritten (next_node net destroy p next s)
  next-written p next s k h = elim (Bool-cases (is_some (list_find p s.1.connections))) [
    | inl e ↦ rw e (k s h)
    | inr e ↦ rw e h
  ]

  visit-written :
      (p : ℕ) (buffer : List ℕ) (o : Option Connection) (next : D × Server → D × Server)
      (s : D × Server)
      → test buffer ≡ true
      → ((r : D × Server) → AreWritten r → AreWritten (next r))
      → AreWritten s
      → AreWritten (visit net destroy p buffer o next s)
  visit-written p buffer none next s good k h = h
  visit-written p buffer (some c) next s good k h = elim (Bool-cases c.waiting) [
    | inl e ↦ rw e (next-written p next s k h)
    | inr e ↦ rw e (
        next-written p next (connection_reply net destroy p buffer s) k
          (reply-written p buffer s good h))
  ]

  loop-written :
      (buffer : List ℕ) (nodes : List ℕ) (s : D × Server)
      → test buffer ≡ true
      → AreWritten s
      → AreWritten (broadcast_loop net destroy buffer nodes s)
  unfolding broadcast_loop
  loop-written buffer [] s good h = h
  loop-written buffer (p ∷ nodes) s good h =
      visit-written p buffer (list_find p s.1.connections) (broadcast_loop net destroy buffer nodes)
        s good (λ r k. loop-written buffer nodes r good k) h

  pub broadcast-written :
      (buffer : List ℕ) (s : D × Server)
      → test buffer ≡ true
      → all_written test s.1.actions ≡ true
      → all_written test (server_broadcast net destroy buffer s).1.actions ≡ true
  unfolding server_broadcast
  broadcast-written buffer s good h = elim (Bool-cases (ltb 0 (length buffer))) [
    | inl e ↦
        rw e (loop-written buffer (map (λ (c : Connection). c.address) s.1.connections) s good h)
    | inr e ↦ rw e h
  ]
