-- ===== src/Daliserver/Protocol.antt =====
-- The frames that the program of src/daliserver.c sends to its clients, in the protocol that the
-- README describes.
use mathlib.Core.Path.{subst}
use mathlib.Core.Option
use daliserver.Common.{
  ℕ, ◌%◌, ◌≡◌, refl, ap, ◌∙◌, Bool, true, false, ◌&&◌, ◌||◌, Option, none, some, List, [], ◌∷◌,
  ◌==◌, ltb, arith, Bool-cases, inl, inr, some_inj,
}
use daliserver.Common.Int.{ℤ}
use daliserver.Frame.{DaliFrame}
use daliserver.Pack.{Machine}
use daliserver.Usb.{
  UsbDaliError, UsbDaliTransaction, LibUsb, on_sent, finish_send, usbdali_receive_callback,
  usbdali_send_callback,
}
use daliserver.Net.{
  Connection, Server, Sockets, list_find, set_waiting, is_short, ready_found, connection_ready,
  connection_error, server_listener_ready,
}
use daliserver.Net.Written.{all_written, remove-written, reply-written, broadcast-written}
use daliserver.Daliserver.{
  callbacks, net_dequeue_connection, net_frame_handler, net_protocol, frame_of, reply_frame,
  NetStatus, dali_inband_handler, broadcast_frame,
}
use daliserver.Daliserver.Handlers.{World, received-Q, sent-Q}
use daliserver.Daliserver.World.{
  WorldStep, received, sent, ready, failed, accepted, WorldReach, start, step,
}

-- Version 2 and one of the four statuses. Only a response has a value in a reply, and only what was
-- heard on the bus has a fourth byte that is not zero.
abbrev pub is_frame : List ℕ → Bool
is_frame (version ∷ status ∷ a ∷ b ∷ []) =
    version == 2
    && ltb a 256
    && ltb b 256
    && (status == 2
        || (status == 1 && b == 0)
        || ((status == 0 || status == 255) && a == 0 && b == 0))
is_frame _ = false

byte_lt : (v : ℕ) → ltb (v % 256) 256 ≡ true
byte_lt v = ground arith

response_frame : (v : ℕ) → is_frame (frame_of NetStatus.response v 0) ≡ true
response_frame v = rw (byte_lt v) refl

reply_frame_lem : (err : UsbDaliError) (value : ℕ) → is_frame (reply_frame err value) ≡ true
unfolding reply_frame
reply_frame_lem UsbDaliError.success value = refl
reply_frame_lem UsbDaliError.response value = response_frame value
reply_frame_lem _ value = refl

broadcast_frame_lem : (a c : ℕ) → is_frame (frame_of NetStatus.broadcast a c) ≡ true
broadcast_frame_lem a c = rw (byte_lt a, byte_lt c) refl

abbrev Sends : World → Type 0
Sends s = all_written is_frame s.1.actions ≡ true

module _ (net : Sockets) (lib : LibUsb) (m : Machine) where
  inband-Sends :
      (err : UsbDaliError) (frame : DaliFrame) (value status : ℕ) (arg : Option ℕ) (s : World)
      → Sends s
      → Sends (dali_inband_handler net err frame value status arg s)
  unfolding dali_inband_handler
  inband-Sends err frame value status none s h = h
  inband-Sends err frame value status (some conn) s h =
      reply-written net (net_dequeue_connection net) is_frame conn (reply_frame err value) s
        (reply_frame_lem err value) h

  asked-Sends :
      (err : UsbDaliError) (frame : DaliFrame) (value status : ℕ) (t : UsbDaliTransaction)
      (s : World)
      → s.0.transaction ≡ some t
      → Sends s
      → Sends (dali_inband_handler net err frame value status t.arg s)
  asked-Sends err frame value status t s e h = inband-Sends err frame value status t.arg s h

  outband-Sends :
      (frame : DaliFrame) (s : World) → Sends s → Sends (broadcast_frame net (some frame) s)
  outband-Sends frame s h =
      broadcast-written net (net_dequeue_connection net) is_frame
        (frame_of NetStatus.broadcast frame.address frame.command) s
        (broadcast_frame_lem frame.address frame.command) h

  handler-server :
      (p : ℕ) (buffer : List ℕ) (s : World) → (net_frame_handler net lib m p buffer s).1 ≡ s.1
  unfolding net_frame_handler
  handler-server p [] s = refl
  handler-server p (version ∷ []) s = refl
  handler-server p (version ∷ type ∷ []) s = refl
  handler-server p (version ∷ type ∷ address ∷ []) s = refl
  handler-server p (version ∷ type ∷ address ∷ command ∷ rest) s =
      elim (Bool-cases (version == net_protocol)) [
        | inr e ↦ rw e refl
        | inl e ↦ rw e (elim (Bool-cases (type == 0)) [ inl f ↦ rw f refl | inr f ↦ rw f refl ])
      ]

  ready-Sends :
      (p : ℕ) (rdbytes : ℤ) (buffer : List ℕ) (s : World)
      → Sends s
      → Sends (
          connection_ready net
            (net_dequeue_connection net)
            (net_frame_handler net lib m)
            p
            rdbytes
            buffer
            s)
  unfolding connection_ready
  ready-Sends p rdbytes buffer (d, sv) h = go (list_find p sv.connections)
    where
      go :
          (o : Option Connection)
          → Sends (
              ready_found net
                (net_dequeue_connection net)
                (net_frame_handler net lib m)
                p
                rdbytes
                buffer
                o
                (d, sv))
      go none = h
      go (some c) = elim (Bool-cases (is_short rdbytes sv.framesize)) [
        | inl e ↦ rw e (remove-written net (net_dequeue_connection net) is_frame p (d, sv) h)
        | inr e ↦ rw e (
            ap (λ (x : Server). all_written is_frame x.actions)
              (handler-server p buffer
                (d, record sv { connections = set_waiting p true sv.connections }))
            ∙ h)
      ]

  map-Sends :
      (transfer : ℕ) (o : Option World) (r : World)
      → ((t : World) → o ≡ some t → Sends t)
      → Option.map (λ (s : World). (finish_send lib m transfer s.0, s.1)) o ≡ some r
      → Sends r
  map-Sends transfer none r k e = cc
  map-Sends transfer (some t) r k e = subst Sends (some_inj _ r e) (k t refl)

  accepted-Sends :
      (socket : Option ℕ) (is_inet : Bool) (fresh : ℕ) (s : World)
      → Sends s
      → Sends (server_listener_ready net (net_dequeue_connection net) socket is_inet fresh s)
  unfolding server_listener_ready
  accepted-Sends none is_inet fresh s h = h
  accepted-Sends (some socket) false fresh s h = h
  accepted-Sends (some socket) true fresh s h = h

  step-Sends : {s r : World} → WorldStep net lib m s r → Sends s → Sends r
  unfolding usbdali_receive_callback usbdali_send_callback connection_error
  step-Sends (received transfer status buffer s) h =
      received-Q net lib m Sends (λ s k. k) asked-Sends outband-Sends status buffer s h
  step-Sends (sent transfer status s r e) h =
      map-Sends transfer (on_sent lib m (callbacks net) status s) r
        (λ t q. sent-Q net lib m Sends (λ s k. k) asked-Sends outband-Sends status s t q h) e
  step-Sends (ready p rdbytes buffer s) h = ready-Sends p rdbytes buffer s h
  step-Sends (failed p err s) h = remove-written net (net_dequeue_connection net) is_frame p s h
  step-Sends (accepted socket is_inet fresh s) h = accepted-Sends socket is_inet fresh s h

  -- In every run of the program, whatever the sockets and the adapter do, each frame that is written
  -- has four bytes as the README describes them: the version 2, a status, and two more bytes. The
  -- status is that of a success or an error, then both bytes are 0; or of a response, then the
  -- last byte is 0; or of a broadcast.
  pub WorldReach-written :
      {s : World} → WorldReach net lib m s → all_written is_frame s.1.actions ≡ true
  WorldReach-written start = refl
  WorldReach-written (step before s) = step-Sends s (WorldReach-written before)
