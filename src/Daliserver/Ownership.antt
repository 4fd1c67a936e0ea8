-- ===== src/Daliserver/Ownership.antt =====
-- Which connections the requests of the driver name, in the program that src/daliserver.c puts
-- together: a connection is freed only after `net_dequeue_connection` made the driver forget it.
use mathlib.Core.Path.{subst}
use daliserver.Common.{ℕ, ◌≡◌, sym, Bool, Option, none, some, List, map}
use daliserver.Frame.{DaliFrame}
use daliserver.Pack.{Machine}
use daliserver.Usb.{
  UsbDaliError, UsbDaliTransaction, UsbDali, LibUsb, TransferStatus, on_received, on_sent,
}
use daliserver.Usb.Requests.{outstanding, active_of, request_of, cancel-outstanding}
use daliserver.Net.{Connection, Sockets, list_remove, set_waiting}
use daliserver.Net.Connections.{reply-Held, broadcast-Held}
use daliserver.Net.Listed.{AllListed, waiting-AllListed, forget-AllListed, split-AllListed}
use daliserver.Daliserver.Handlers.{World, received-Q, sent-Q}
use daliserver.Daliserver.{
  net_dequeue_connection, dali_inband_handler, broadcast_frame, callbacks, reply_frame,
}

abbrev pub Owned : UsbDali → List Connection → Type 0
Owned d l = AllListed l (outstanding d)

-- Every connection that a request of the driver names is in the list of the server.
abbrev pub IsOwned : World → Type 0
IsOwned s = Owned s.0 s.1.connections

pub retire-IsOwned : (s : World) → IsOwned s → IsOwned (record s.0 { transaction = none }, s.1)
retire-IsOwned s h =
    (split-AllListed s.1.connections (active_of s.0.transaction) (map request_of s.0.queue) h).1

module _ (net : Sockets) where
  pub remove-Owned :
      (p : ℕ) (d : UsbDali) (l : List Connection)
      → Owned d l
      → Owned (net_dequeue_connection net p d) (list_remove p l)
  remove-Owned p d l h =
      subst (AllListed (list_remove p l)) (sym (cancel-outstanding d p).0)
        (forget-AllListed p l (outstanding d) h)

  pub waiting-Owned :
      (p : ℕ) (w : Bool) (d : UsbDali) (l : List Connection)
      → Owned d l
      → Owned d (set_waiting p w l)
  waiting-Owned p w d l h = waiting-AllListed p w l (outstanding d) h

  pub inband-IsOwned :
      (err : UsbDaliError) (frame : DaliFrame) (value status : ℕ) (arg : Option ℕ) (s : World)
      → IsOwned s
      → IsOwned (dali_inband_handler net err frame value status arg s)
  unfolding dali_inband_handler
  inband-IsOwned err frame value status none s h = h
  inband-IsOwned err frame value status (some conn) s h =
      reply-Held net (net_dequeue_connection net) Owned remove-Owned waiting-Owned conn
        (reply_frame err value) s h

  pub frame-IsOwned :
      (frame : Option DaliFrame) (s : World) → IsOwned s → IsOwned (broadcast_frame net frame s)
  frame-IsOwned none s h = h
  frame-IsOwned (some frame) s h =
      broadcast-Held net (net_dequeue_connection net) Owned remove-Owned waiting-Owned _ s h

  module _ (lib : LibUsb) (m : Machine) where
    asked-IsOwned :
        (err : UsbDaliError) (frame : DaliFrame) (value status : ℕ) (t : UsbDaliTransaction)
        (s : World)
        → s.0.transaction ≡ some t
        → IsOwned s
        → IsOwned (dali_inband_handler net err frame value status t.arg s)
    asked-IsOwned err frame value status t s e h = inband-IsOwned err frame value status t.arg s h

    pub received-IsOwned :
        (status : TransferStatus) (buffer : List ℕ) (s : World)
        → IsOwned s
        → IsOwned (on_received lib m (callbacks net) status buffer s)
    received-IsOwned =
        received-Q net lib m IsOwned retire-IsOwned asked-IsOwned
          (λ frame. frame-IsOwned (some frame))

    pub sent-IsOwned :
        (status : TransferStatus) (s r : World)
        → on_sent lib m (callbacks net) status s ≡ some r
        → IsOwned s
        → IsOwned r
    sent-IsOwned =
        sent-Q net lib m IsOwned retire-IsOwned asked-IsOwned (λ frame. frame-IsOwned (some frame))
