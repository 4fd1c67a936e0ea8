-- ===== src/Usb/Stall.antt =====
-- What lib/usb.c does when libusb refuses a submission: it ignores the result.
use daliserver.Common.{
  ℕ, ◌≡◌, true, false, Option, none, List, [], ◌∷◌, ◌++◌, arith, length, ltb, is_some, Bool-cases,
  inl, inr,
}
use daliserver.Frame.{DaliFrame}
use daliserver.Pack.{Machine}
use daliserver.Usb.{UsbDali, LibUsb, usbdali_receive, usbdali_next, usbdali_queue}
use daliserver.Usb.Live.{live}
use daliserver.Usb.Requests.{Request}

-- Requests that come in one after another, with no callback in between.
abbrev pub queue_all : LibUsb → Machine → List Request → UsbDali → UsbDali
queue_all lib m [] d = d
queue_all lib m ((frame, arg) ∷ rest) d = queue_all lib m rest (usbdali_queue lib m d frame arg).0

record IsStalled (lib : LibUsb) (d : UsbDali) : Type 0 where
  recorded : is_some d.recv_transfer ≡ true
  idle : d.send_transfer ≡ none
  nothing : live lib d.calls ≡ []

module _ (lib : LibUsb) (m : Machine) where
  next-IsStalled : (d : UsbDali) → IsStalled lib d → IsStalled lib (usbdali_next lib m d)
  unfolding usbdali_next
  next-IsStalled d v = ground arith

  queue-IsStalled :
      (d : UsbDali) (frame : DaliFrame) (arg : Option ℕ)
      → IsStalled lib d
      → IsStalled lib (usbdali_queue lib m d frame arg).0
  unfolding usbdali_queue
  queue-IsStalled d frame arg v = elim (Bool-cases (ltb (length d.queue) d.queue_size)) [
    | inr e ↦ rw e v
    | inl e ↦ rw e (
        next-IsStalled
          (record d { queue = d.queue ++ record { seq_num = 0; request = frame; arg = arg } ∷ [] })
          (ground arith))
  ]

  queue_all-IsStalled :
      (requests : List Request) (d : UsbDali)
      → IsStalled lib d
      → IsStalled lib (queue_all lib m requests d)
  queue_all-IsStalled [] d v = v
  queue_all-IsStalled ((frame, arg) ∷ rest) d v =
      queue_all-IsStalled rest (usbdali_queue lib m d frame arg).0 (queue-IsStalled d frame arg v)

  receive-IsStalled :
      (d : UsbDali)
      → d.recv_transfer ≡ none
      → d.send_transfer ≡ none
      → live lib d.calls ≡ []
      → lib.accepts d.calls ≡ false
      → IsStalled lib (usbdali_receive lib m d)
  unfolding usbdali_receive
  receive-IsStalled d e f g h = ground arith

  -- If libusb refuses the submission of a receive, the driver keeps the dead transfer on record.
  -- Nothing is in flight then, and nothing ever is again, however many requests are queued: no
  -- callback can come, and no request is sent.
  pub receive_refused_stalls :
      (d : UsbDali) (requests : List Request)
      → d.recv_transfer ≡ none
      → d.send_transfer ≡ none
      → live lib d.calls ≡ []
      → lib.accepts d.calls ≡ false
      → let d' = queue_all lib m requests (usbdali_receive lib m d) in
        (live lib d'.calls ≡ []) × (d'.send_transfer ≡ none)
  receive_refused_stalls d requests e f g h =
      let v =
        queue_all-IsStalled requests (usbdali_receive lib m d) (receive-IsStalled d e f g h) in
      (v.nothing, v.idle)
