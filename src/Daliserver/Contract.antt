-- ===== src/Daliserver/Contract.antt =====
-- The handlers of src/daliserver.c keep the contract that lib/usb.c has with its client.
use daliserver.Common.{ℕ, ◌∙◌, Option, none, some, List}
use daliserver.Frame.{DaliFrame}
use daliserver.Usb.{UsbDaliError, UsbDali}
use daliserver.Usb.Client.{Keeps, Keeps-refl, cancel-Keeps, IsClient}
use daliserver.Net.{Connection, Server, Sockets, list_remove}
use daliserver.Net.Connections.{reply-Held, broadcast-Held}
use daliserver.Daliserver.{
  net_dequeue_connection, dali_inband_handler, broadcast_frame, dali_outband_handler, callbacks,
  reply_frame,
}

Keeps-trans : (a b c : UsbDali) → Keeps a b → Keeps b c → Keeps a c
Keeps-trans a b c h k = record {
  recv = k.recv ∙ h.recv;
  send = k.send ∙ h.send;
  active = k.active ∙ h.active;
  size = k.size ∙ h.size;
  waiting = k.waiting ∙ h.waiting;
  seq = k.seq ∙ h.seq;
  down = k.down ∙ h.down;
  asked = k.asked ∙ h.asked;
}

module _ (net : Sockets) (d0 : UsbDali) where
  -- What replies and broadcasts keep: the driver is as before but for forgotten connections.
  abbrev Since : UsbDali → List Connection → Type 0
  Since d l = Keeps d0 d

  remove-Since :
      (p : ℕ) (d : UsbDali) (l : List Connection)
      → Since d l
      → Since (net_dequeue_connection net p d) (list_remove p l)
  remove-Since p d l k = Keeps-trans d0 d _ k (cancel-Keeps d p)

  inband-Keeps :
      (err : UsbDaliError) (frame : DaliFrame) (value status : ℕ) (arg : Option ℕ)
      (s : UsbDali × Server)
      → Keeps d0 s.0
      → Keeps d0 (dali_inband_handler net err frame value status arg s).0
  unfolding dali_inband_handler
  inband-Keeps err frame value status none s k = k
  inband-Keeps err frame value status (some conn) s k =
      reply-Held net (net_dequeue_connection net) Since remove-Since (λ p w d l k. k) conn
        (reply_frame err value) s k

  frame-Keeps :
      (frame : Option DaliFrame) (s : UsbDali × Server)
      → Keeps d0 s.0
      → Keeps d0 (broadcast_frame net frame s).0
  frame-Keeps none s k = k
  frame-Keeps (some frame) s k =
      broadcast-Held net (net_dequeue_connection net) Since remove-Since (λ p w d l k. k) _ s k

  outband-Keeps :
      (err : UsbDaliError) (frame : Option DaliFrame) (status : ℕ) (s : UsbDali × Server)
      → Keeps d0 s.0
      → Keeps d0 (dali_outband_handler net err frame status s).0
  unfolding dali_outband_handler
  outband-Keeps UsbDaliError.success frame status s k = frame-Keeps frame s k
  outband-Keeps _ frame status s k = k

-- Whatever the sockets do, the handlers change nothing of the driver but the connections that its
-- requests name, which is the contract of the driver's callbacks.
pub callbacks-IsClient : (net : Sockets) → IsClient (callbacks net)
callbacks-IsClient net = record {
  inband_keeps = λ err frame value status arg s.
      inband-Keeps net s.0 err frame value status arg s (Keeps-refl s.0);
  outband_keeps = λ err frame status s. outband-Keeps net s.0 err frame status s (Keeps-refl s.0);
}
