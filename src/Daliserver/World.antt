-- ===== src/Daliserver/World.antt =====
-- The events of the program of src/daliserver.c as a step relation on the driver and the server.
use mathlib.Core.Path.{subst}
use mathlib.Core.Option
use daliserver.Common.{
  ℕ, ◌≡◌, refl, sym, ap, ◌∙◌, Bool, true, false, Option, none, some, List, [], ◌∷◌, ◌++◌, ◌==◌,
  if◌then◌else◌, Bool-cases, inl, inr, length, ltb, some_inj, is_some,
}
use daliserver.Common.Int.{ℤ}
use daliserver.Dispatch.{DispatchError}
use daliserver.Frame.{DaliFrame, daliframe_new}
use daliserver.Pack.{Machine}
use daliserver.Usb.{
  UsbDali, LibUsb, TransferStatus, on_received, on_sent, finish_receive, finish_send,
  usbdali_receive_callback, usbdali_send_callback, usbdali_queue, usbdali_next, initial,
  next_unless_shutdown, success, queue_full,
}
use daliserver.Usb.Requests.{outstanding, next-outstanding, queue-outstanding}
use daliserver.Net.{
  Connection, Server, Sockets, list_find, connection_ready, connection_error, server_listener_ready,
}
use daliserver.Net.Connections.{remove-Held, ready-Held}
use daliserver.Net.Listed.{IsListed, AllListed, append-AllListed, join-AllListed, find-set_waiting}
use daliserver.Daliserver.{
  net_dequeue_connection, callbacks, net_frame_handler, net_protocol, net_framesize,
}
use daliserver.Daliserver.Handlers.{World}
use daliserver.Daliserver.Ownership.{
  IsOwned, Owned, remove-Owned, waiting-Owned, received-IsOwned, sent-IsOwned,
}

-- The server that `server_open` sets up.
abbrev pub opened : Server
opened = record { connections = []; framesize = net_framesize; actions = []; faulted = false }

module _ (net : Sockets) (lib : LibUsb) (m : Machine) where
  -- The callbacks of libusb, events on a connection and on the listener.
  pub data WorldStep : World → World → Type 0 where
    received :
        (transfer : ℕ) (status : TransferStatus) (buffer : List ℕ) (s : World)
        → WorldStep s (usbdali_receive_callback lib m (callbacks net) transfer status buffer s)
    sent :
        (transfer : ℕ) (status : TransferStatus) (s r : World)
        → usbdali_send_callback lib m (callbacks net) transfer status s ≡ some r
        → WorldStep s r
    ready :
        (p : ℕ) (rdbytes : ℤ) (buffer : List ℕ) (s : World)
        → WorldStep s (
            connection_ready net
              (net_dequeue_connection net)
              (net_frame_handler net lib m)
              p
              rdbytes
              buffer
              s)
    failed :
        (p : ℕ) (err : DispatchError) (s : World)
        → WorldStep s (connection_error net (net_dequeue_connection net) p err s)
    accepted :
        (socket : Option ℕ) (is_inet : Bool) (fresh : ℕ) (s : World)
        → WorldStep s
            (server_listener_ready net (net_dequeue_connection net) socket is_inet fresh s)

  pub data WorldReach : World → Type 0 where
    start : WorldReach (usbdali_next lib m (initial lib m), opened)
    step : {s r : World} → WorldReach s → WorldStep s r → WorldReach r

  unless-outstanding : (d : UsbDali) → outstanding (next_unless_shutdown lib m d) ≡ outstanding d
  unless-outstanding d = go d.shutdown
    where
      go : (b : Bool) → outstanding (if b then d else usbdali_next lib m d) ≡ outstanding d
      go true = refl
      go false = next-outstanding lib m d

  receive-IsOwned :
      (transfer : ℕ) (s : World) → IsOwned s → IsOwned (finish_receive lib m transfer s.0, s.1)
  unfolding finish_receive
  receive-IsOwned transfer s h =
      subst (AllListed s.1.connections)
        (sym (unless-outstanding (record s.0 { recv_transfer = none; calls = _ }))) h

  send-IsOwned :
      (transfer : ℕ) (s : World) → IsOwned s → IsOwned (finish_send lib m transfer s.0, s.1)
  unfolding finish_send
  send-IsOwned transfer s h =
      subst (AllListed s.1.connections)
        (sym (unless-outstanding (record s.0 { send_transfer = none; calls = _ }))) h

  map-IsOwned :
      (transfer : ℕ) (o : Option World) (r : World)
      → ((t : World) → o ≡ some t → IsOwned t)
      → Option.map (λ (s : World). (finish_send lib m transfer s.0, s.1)) o ≡ some r
      → IsOwned r
  map-IsOwned transfer none r k e = cc
  map-IsOwned transfer (some t) r k e =
      subst IsOwned (some_inj _ r e) (send-IsOwned transfer t (k t refl))

  queued-IsOwned :
      (conn : ℕ) (frame : DaliFrame) (d : UsbDali) (l : List Connection)
      → IsListed l conn
      → Owned d l
      → Owned (usbdali_queue lib m d frame (some conn)).0 l
  queued-IsOwned conn frame d l c h =
      go (ltb (length d.queue) d.queue_size) (queue-outstanding lib m d frame (some conn))
    where
      go :
          (room : Bool)
          → (let (d', result) = usbdali_queue lib m d frame (some conn) in
              if room
              then (result ≡ success) × (outstanding d' ≡ outstanding d ++ (frame, some conn) ∷ [])
              else (result ≡ queue_full) × (d' ≡ d))
          → Owned (usbdali_queue lib m d frame (some conn)).0 l
      go true (q, e) =
          subst (AllListed l) (sym e)
            (join-AllListed l (outstanding d) ((frame, some conn) ∷ []) h (c, tt))
      go false (q, e) = subst (λ d'. Owned d' l) (sym e) h

  frame-IsOwned :
      (conn : ℕ) (buffer : List ℕ) (s : World)
      → IsListed s.1.connections conn
      → IsOwned s
      → IsOwned (net_frame_handler net lib m conn buffer s)
  unfolding net_frame_handler
  frame-IsOwned conn [] s c h = h
  frame-IsOwned conn (version ∷ []) s c h = h
  frame-IsOwned conn (version ∷ type ∷ []) s c h = h
  frame-IsOwned conn (version ∷ type ∷ address ∷ []) s c h = h
  frame-IsOwned conn (version ∷ type ∷ address ∷ command ∷ rest) s c h =
      elim (Bool-cases (version == net_protocol)) [
        | inr e ↦ rw e h
        | inl e ↦ rw e (elim (Bool-cases (type == 0)) [
          | inr f ↦ rw f h
          | inl f ↦
              rw f (queued-IsOwned conn (daliframe_new address command) s.0 s.1.connections c h)
        ])
      ]

  ready-IsOwned :
      (p : ℕ) (rdbytes : ℤ) (buffer : List ℕ) (s : World)
      → IsOwned s
      → IsOwned (
          connection_ready net
            (net_dequeue_connection net)
            (net_frame_handler net lib m)
            p
            rdbytes
            buffer
            s)
  ready-IsOwned p rdbytes buffer s h =
      ready-Held net (net_dequeue_connection net) Owned (remove-Owned net) (waiting-Owned net)
        (net_frame_handler net lib m) p rdbytes buffer s
        (λ c t e q. frame-IsOwned p buffer t (
          ap (λ l. is_some (list_find p l)) q
          ∙ find-set_waiting p p true s.1.connections
          ∙ ap is_some e))
        h

  accepted-IsOwned :
      (socket : Option ℕ) (is_inet : Bool) (fresh : ℕ) (s : World)
      → IsOwned s
      → IsOwned (server_listener_ready net (net_dequeue_connection net) socket is_inet fresh s)
  unfolding server_listener_ready
  accepted-IsOwned none is_inet fresh s h = h
  accepted-IsOwned (some socket) false fresh s h = h
  accepted-IsOwned (some socket) true fresh s h =
      append-AllListed s.1.connections
        (record { address = fresh; socket = socket; waiting = false } ∷ []) (outstanding s.0) h

  pub step-IsOwned : {s r : World} → WorldStep s r → IsOwned s → IsOwned r
  unfolding usbdali_receive_callback usbdali_send_callback connection_error
  step-IsOwned (received transfer status buffer s) h =
      receive-IsOwned transfer (on_received lib m (callbacks net) status buffer s)
        (received-IsOwned net lib m status buffer s h)
  step-IsOwned (sent transfer status s r e) h =
      map-IsOwned transfer (on_sent lib m (callbacks net) status s) r
        (λ t q. sent-IsOwned net lib m status s t q h) e
  step-IsOwned (ready p rdbytes buffer s) h = ready-IsOwned p rdbytes buffer s h
  step-IsOwned (failed p err s) h =
      remove-Held net (net_dequeue_connection net) Owned (remove-Owned net) (waiting-Owned net) p s
        h
  step-IsOwned (accepted socket is_inet fresh s) h = accepted-IsOwned socket is_inet fresh s h

  -- In every state that the program reaches, whatever the sockets and the adapter do, each
  -- connection that an active or queued request names is in the list of the server.
  pub WorldReach-IsOwned : {s : World} → WorldReach s → IsOwned s
  WorldReach-IsOwned start = subst (AllListed []) (sym (next-outstanding lib m (initial lib m))) tt
  WorldReach-IsOwned (step before s) = step-IsOwned s (WorldReach-IsOwned before)
