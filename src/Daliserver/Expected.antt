-- ===== src/Daliserver/Expected.antt =====
-- The events of the program of src/daliserver.c with sockets that take whole frames: no freed
-- connection is accessed.
use mathlib.Core.Path.{subst}
use mathlib.Core.Option
use daliserver.Common.{
  ℕ, ◌≡◌, refl, sym, Bool, true, false, Option, none, some, List, [], ◌∷◌, ◌==◌, Bool-cases, inl,
  inr, some_inj,
}
use daliserver.Common.Int.{ℤ}
use daliserver.Pack.{Machine}
use daliserver.Usb.{
  LibUsb, TransferStatus, on_received, on_sent, usbdali_receive_callback, usbdali_send_callback,
  finish_send, usbdali_next, initial,
}
use daliserver.Net.{
  Connection, Sockets, list_find, is_short, connection_ready, connection_error,
  server_listener_ready,
}
use daliserver.Net.Listed.{IsListed}
use daliserver.Net.Broadcast.{TakeFrames, HasFresh}
use daliserver.Net.Failure.{distinct-append}
use daliserver.Daliserver.{
  net_dequeue_connection, callbacks, net_frame_handler, net_framesize, net_protocol,
}
use daliserver.Daliserver.Handlers.{World, received-Q, sent-Q}
use daliserver.Daliserver.Ownership.{retire-IsOwned, frame-IsOwned}
use daliserver.Daliserver.World.{opened, WorldStep, step-IsOwned, WorldReach, WorldReach-IsOwned}
use daliserver.Daliserver.Safe.{
  IsClean, IsSafe, found, waiting-IsClean, asked-IsSafe, frame-IsClean, removed-IsClean,
}

module _ (net : Sockets) (takes : TakeFrames net net_framesize) (lib : LibUsb) (m : Machine) where
  received-IsSafe :
      (status : TransferStatus) (buffer : List ℕ) (s : World)
      → IsSafe s
      → IsSafe (on_received lib m (callbacks net) status buffer s)
  received-IsSafe =
      received-Q net lib m IsSafe (λ s (h, v). (retire-IsOwned s h, v)) (asked-IsSafe net takes)
        (λ frame s (h, v). (frame-IsOwned net (some frame) s h, frame-IsClean net takes frame s v))

  sent-IsSafe :
      (status : TransferStatus) (s r : World)
      → on_sent lib m (callbacks net) status s ≡ some r
      → IsSafe s
      → IsSafe r
  sent-IsSafe =
      sent-Q net lib m IsSafe (λ s (h, v). (retire-IsOwned s h, v)) (asked-IsSafe net takes)
        (λ frame s (h, v). (frame-IsOwned net (some frame) s h, frame-IsClean net takes frame s v))

  frame-server :
      (conn : ℕ) (buffer : List ℕ) (s : World) → (net_frame_handler net lib m conn buffer s).1 ≡ s.1
  unfolding net_frame_handler
  frame-server conn [] s = refl
  frame-server conn (version ∷ []) s = refl
  frame-server conn (version ∷ type ∷ []) s = refl
  frame-server conn (version ∷ type ∷ address ∷ []) s = refl
  frame-server conn (version ∷ type ∷ address ∷ command ∷ rest) s =
      elim (Bool-cases (version == net_protocol)) [
        | inr e ↦ rw e refl
        | inl e ↦ rw e (elim (Bool-cases (type == 0)) [ inr f ↦ rw f refl | inl f ↦ rw f refl ])
      ]

  ready-IsClean :
      (p : ℕ) (rdbytes : ℤ) (buffer : List ℕ) (s : World)
      → IsListed s.1.connections p
      → IsClean s.1
      → IsClean
          (connection_ready net
            (net_dequeue_connection net)
            (net_frame_handler net lib m)
            p
            rdbytes
            buffer
            s).1
  unfolding connection_ready
  ready-IsClean p rdbytes buffer s l v =
      let (c, e) = found (list_find p s.1.connections) l in
      rw e (elim (Bool-cases (is_short rdbytes s.1.framesize)) [
        | inl f ↦ rw f (removed-IsClean net takes p s l v)
        | inr f ↦
            rw f (subst IsClean (sym (frame-server p buffer _)) (waiting-IsClean p true s.1 v))
      ])

  accepted-IsClean :
      (socket : Option ℕ) (is_inet : Bool) (fresh : ℕ) (s : World)
      → HasFresh fresh s.1.connections
      → IsClean s.1
      → IsClean (server_listener_ready net (net_dequeue_connection net) socket is_inet fresh s).1
  unfolding server_listener_ready
  accepted-IsClean none is_inet fresh s f v = v
  accepted-IsClean (some socket) false fresh s f v = v
  accepted-IsClean (some socket) true fresh s f v =
      let c : Connection = record { address = fresh; socket = socket; waiting = false } in
      record {
        distinct = distinct-append c s.1.connections f v.distinct;
        size = v.size;
        clean = v.clean;
      }

  finished-IsClean :
      (transfer : ℕ) (o : Option World) (r : World)
      → ((t : World) → o ≡ some t → IsClean t.1)
      → Option.map (λ (s : World). (finish_send lib m transfer s.0, s.1)) o ≡ some r
      → IsClean r.1
  finished-IsClean transfer none r k e = cc
  finished-IsClean transfer (some t) r k e =
      subst (λ (s : World). IsClean s.1) (some_inj _ r e) (k t refl)

  -- An event on a connection comes while the connection is listed, and `malloc` returns an address
  -- that no listed connection has.
  abbrev pub IsExpected : {s r : World} → WorldStep net lib m s r → Type 0
  IsExpected (WorldStep.received transfer status buffer s) = Unit
  IsExpected (WorldStep.sent transfer status s r e) = Unit
  IsExpected (WorldStep.ready p rdbytes buffer s) = IsListed s.1.connections p
  IsExpected (WorldStep.failed p err s) = IsListed s.1.connections p
  IsExpected (WorldStep.accepted socket is_inet fresh s) = HasFresh fresh s.1.connections

  pub data ExpectedReach : World → Type 0 where
    start : ExpectedReach (usbdali_next lib m (initial lib m), opened)
    step :
        {s r : World}
        → ExpectedReach s
        → (event : WorldStep net lib m s r) → IsExpected event
        → ExpectedReach r

  step-IsClean :
      {s r : World} → (event : WorldStep net lib m s r) → IsExpected event → IsSafe s → IsClean r.1
  unfolding usbdali_receive_callback usbdali_send_callback connection_error
  step-IsClean (WorldStep.received transfer status buffer s) x h =
      (received-IsSafe status buffer s h).1
  step-IsClean (WorldStep.sent transfer status s r e) x h =
      finished-IsClean transfer (on_sent lib m (callbacks net) status s) r
        (λ t q. (sent-IsSafe status s t q h).1) e
  step-IsClean (WorldStep.ready p rdbytes buffer s) x (h, v) = ready-IsClean p rdbytes buffer s x v
  step-IsClean (WorldStep.failed p err s) x (h, v) = removed-IsClean net takes p s x v
  step-IsClean (WorldStep.accepted socket is_inet fresh s) x (h, v) =
      accepted-IsClean socket is_inet fresh s x v

  reach-IsSafe : {s : World} → ExpectedReach s → IsSafe s
  reach-IsSafe start = (
    WorldReach-IsOwned net lib m WorldReach.start,
    record { distinct = tt; size = refl; clean = refl },
  )
  reach-IsSafe (step before event x) =
      let safe = reach-IsSafe before in
      (step-IsOwned net lib m event safe.0, step-IsClean event x safe)

  -- With sockets that take whole frames, the program never accesses a connection that was freed,
  -- as long as events come for listed connections and new connections have addresses of their own;
  -- the addresses of the connections then differ.
  pub ExpectedReach-IsClean : {s : World} → ExpectedReach s → IsClean s.1
  ExpectedReach-IsClean before = (reach-IsSafe before).1
