-- ===== src/Daliserver/Safe.antt =====
-- The handlers of src/daliserver.c with sockets that take whole frames: what they do to a server in
-- which no freed connection was accessed.
use mathlib.Core.Path.{subst}
use daliserver.Common.{
  ℕ, ◌≤◌, ◌≡◌, refl, sym, ap, ◌∙◌, Bool, true, false, Option, none, some, List, map, arith, length,
  is_some,
}
use daliserver.Frame.{DaliFrame}
use daliserver.Usb.{UsbDaliError, UsbDaliTransaction}
use daliserver.Usb.Requests.{active_of, request_of}
use daliserver.Net.{
  Connection, Server, Sockets, list_find, set_waiting, is_short, server_connection_remove,
}
use daliserver.Net.Listed.{IsListed, ArgIsListed, AllListed, split-AllListed}
use daliserver.Net.Broadcast.{TakeFrames, AreDistinct, reply-writes, broadcast-sent}
use daliserver.Net.Failure.{distinct-set_waiting, distinct-list_remove}
use daliserver.Daliserver.{
  net_dequeue_connection, dali_inband_handler, broadcast_frame, reply_frame, net_framesize,
}
use daliserver.Daliserver.Handlers.{World}
use daliserver.Daliserver.Ownership.{IsOwned, inband-IsOwned}

-- No freed connection was accessed, and the addresses differ.
pub record IsClean (sv : Server) : Type 0 where
  pub distinct : AreDistinct sv.connections
  pub size : sv.framesize ≡ net_framesize
  pub clean : sv.faulted ≡ false

abbrev pub IsSafe : World → Type 0
IsSafe s = IsOwned s × IsClean s.1

length-reply_frame : (err : UsbDaliError) (value : ℕ) → length (reply_frame err value) ≡ 4
unfolding reply_frame
length-reply_frame UsbDaliError.response value = refl
length-reply_frame UsbDaliError.success value = refl
length-reply_frame _ value = refl

pub found : (o : Option Connection) → is_some o ≡ true → (c : Connection) × (o ≡ some c)
found none h = cc
found (some c) h = (c, refl)

pub waiting-IsClean :
    (p : ℕ) (w : Bool) (sv : Server)
    → IsClean sv
    → IsClean (record sv { connections = set_waiting p w sv.connections })
waiting-IsClean p w sv v = record {
  distinct = distinct-set_waiting p w sv.connections v.distinct;
  size = v.size;
  clean = v.clean;
}

module _ (net : Sockets) (takes : TakeFrames net net_framesize) where
  taken :
      (sv : Server) (socket : ℕ) (buffer : List ℕ)
      → IsClean sv
      → 4 ≤ length buffer
      → is_short (net sv.actions socket buffer) sv.framesize ≡ false
  taken sv socket buffer v h =
      ap (is_short (net sv.actions socket buffer)) v.size ∙ takes sv.actions socket buffer h

  inband-IsClean :
      (err : UsbDaliError) (frame : DaliFrame) (value status : ℕ) (arg : Option ℕ) (s : World)
      → ArgIsListed s.1.connections arg
      → IsClean s.1
      → IsClean (dali_inband_handler net err frame value status arg s).1
  unfolding dali_inband_handler
  inband-IsClean err frame value status none s l v = v
  inband-IsClean err frame value status (some conn) (d, sv) l v =
      let (c, e) = found (list_find conn sv.connections) l in
      let four = length-reply_frame err value in
      subst (λ (s : World). IsClean s.1)
        (sym (
          reply-writes net (net_dequeue_connection net) c conn (reply_frame err value) d sv e
            (omega (arith, four))
            (taken sv c.socket (reply_frame err value) v (omega (arith, four)))))
        (let w = waiting-IsClean conn false sv v in
          record { distinct = w.distinct; size = w.size; clean = w.clean })

  pub frame-IsClean :
      (frame : DaliFrame) (s : World) → IsClean s.1 → IsClean (broadcast_frame net (some frame) s).1
  frame-IsClean frame (d, sv) v =
      subst (λ (s : World). IsClean s.1)
        (sym (
          broadcast-sent net (net_dequeue_connection net) _ d sv
            (λ actions socket buffer h.
              ap (is_short (net actions socket buffer)) v.size
              ∙ takes actions socket buffer (omega (arith, v.size)))
            (omega (arith, v.size)) (omega arith) v.distinct))
        (record { distinct = v.distinct; size = v.size; clean = v.clean })

  pub asked-IsSafe :
      (err : UsbDaliError) (frame : DaliFrame) (value status : ℕ) (t : UsbDaliTransaction)
      (s : World)
      → s.0.transaction ≡ some t
      → IsSafe s
      → IsSafe (dali_inband_handler net err frame value status t.arg s)
  asked-IsSafe err frame value status t s e (h, v) =
      let active =
        (split-AllListed s.1.connections (active_of s.0.transaction) (map request_of s.0.queue)
          h).0 in
      let (l, _) = subst (λ tx. AllListed s.1.connections (active_of tx)) e active in
      (
        inband-IsOwned net err frame value status t.arg s h,
        inband-IsClean err frame value status t.arg s l v,
      )

  pub removed-IsClean :
      (p : ℕ) (s : World)
      → IsListed s.1.connections p
      → IsClean s.1
      → IsClean (server_connection_remove net (net_dequeue_connection net) p s).1
  unfolding server_connection_remove
  removed-IsClean p s l v =
      let (c, e) = found (list_find p s.1.connections) l in
      rw e (record {
        distinct = distinct-list_remove p s.1.connections v.distinct;
        size = v.size;
        clean = v.clean;
      })
