-- ===== src/Daliserver/Frames.antt =====
-- What the frame handler of src/daliserver.c makes of a frame.
use daliserver.Common.{
  ℕ, ◌≡◌, refl, ◌&&◌, Bool, true, false, some, List, [], ◌∷◌, ◌++◌, ◌==◌, if◌then◌else◌, Bool-cases,
  inl, inr, length, ltb,
}
use daliserver.Frame.{daliframe_new}
use daliserver.Pack.{Machine}
use daliserver.Usb.{UsbDali, LibUsb, success, queue_full, usbdali_queue}
use daliserver.Usb.Requests.{outstanding, queue-outstanding}
use daliserver.Net.{Server, Sockets}
use daliserver.Daliserver.{net_frame_handler, net_send, net_protocol}

-- A frame asks for a command to be sent, in the protocol of the server.
abbrev pub is_send : ℕ → ℕ → Bool
is_send version type = (version == net_protocol) && (type == 0)

module _ (net : Sockets) (lib : LibUsb) (m : Machine) where
  sends :
      (conn version type address command : ℕ) (rest : List ℕ) (s : UsbDali × Server)
      → net_frame_handler net lib m conn (version ∷ type ∷ address ∷ command ∷ rest) s
        ≡ (if is_send version type then net_send net lib m conn address command s else s)
  unfolding net_frame_handler
  sends conn version type address command rest s = elim (Bool-cases (version == net_protocol)) [
    | inl e ↦ rw e refl
    | inr e ↦ rw e refl
  ]

  -- A frame of four bytes or more leaves the server alone: nothing is answered at once. If it asks
  -- for a command in the server's protocol and the queue of the driver has room, the command joins
  -- the requests as the last one, with its connection; otherwise nothing changes at all.
  pub frame-outstanding :
      (conn version type address command : ℕ) (rest : List ℕ) (d : UsbDali) (sv : Server)
      → let (d', sv') =
          net_frame_handler net lib m conn (version ∷ type ∷ address ∷ command ∷ rest) (d, sv) in
        (sv' ≡ sv)
        × (if is_send version type && ltb (length d.queue) d.queue_size
            then outstanding d' ≡ outstanding d ++ (daliframe_new address command, some conn) ∷ []
            else d' ≡ d)
  frame-outstanding conn version type address command rest d sv =
      rw (sends conn version type address command rest (d, sv)) (
        go (is_send version type) (ltb (length d.queue) d.queue_size)
          (queue-outstanding lib m d (daliframe_new address command) (some conn)))
    where
      go :
          (send room : Bool)
          → (let (d', result) = usbdali_queue lib m d (daliframe_new address command) (some conn) in
              if room
              then (result ≡ success)
                × (outstanding d'
                    ≡ outstanding d ++ (daliframe_new address command, some conn) ∷ [])
              else (result ≡ queue_full) × (d' ≡ d))
          → let r = (if send then net_send net lib m conn address command (d, sv) else (d, sv)) in
            (r.1 ≡ sv)
            × (if send && room
                then outstanding r.0
                  ≡ outstanding d ++ (daliframe_new address command, some conn) ∷ []
                else r.0 ≡ d)
      go false room q = (refl, refl)
      go true true (q, e) = (refl, e)
      go true false (q, e) = (refl, e)
