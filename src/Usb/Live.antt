-- ===== src/Usb/Live.antt =====
-- The transfers of lib/usb.c that libusb has accepted and whose callback has not freed them, read
-- off the calls, and the driver's invariant about them.
use daliserver.Common.{
  ℕ, ◌≤◌, ◌<◌, ◌≡◌, refl, ap, true, Option, none, some, List, [], ◌∷◌, ◌++◌, arith, length, ◌==◌,
  if◌then◌else◌, is_some, ◌⊎◌,
}
use daliserver.Pack.{Machine}
use daliserver.Usb.{
  send_dequeued, list_dequeue, UsbDaliTransaction, Call, submit_in, submit_out, cancel_transfer,
  free_transfer, UsbDali, LibUsb, usbdali_receive, usbdali_send, usbdali_next,
}
use daliserver.Usb.Packet.{pack-out_fields}

pub data Transfer : Type 0 where
  inward outward : ℕ → Transfer

abbrev pub address : Transfer → ℕ
address (inward t) = t
address (outward t) = t

abbrev pub erase : ℕ → List Transfer → List Transfer
erase t [] = []
erase t (x ∷ xs) = if address x == t then xs else x ∷ erase t xs

module _ (lib : LibUsb) where
  -- What is in flight after the calls: accepted, and not freed since.
  abbrev pub live : List Call → List Transfer
  live [] = []
  live (submit_in t ∷ calls) = if lib.accepts calls then inward t ∷ live calls else live calls
  live (submit_out t _ ∷ calls) = if lib.accepts calls then outward t ∷ live calls else live calls
  live (cancel_transfer t ∷ calls) = live calls
  live (free_transfer t ∷ calls) = erase t (live calls)

abbrev pub inward_of : Option ℕ → List Transfer
inward_of none = []
inward_of (some t) = inward t ∷ []

abbrev pub outward_of : Option ℕ → List Transfer
outward_of none = []
outward_of (some t) = outward t ∷ []

-- The transfers that the driver's two fields name.
abbrev pub recorded : UsbDali → List Transfer
recorded d = inward_of d.recv_transfer ++ outward_of d.send_transfer

abbrev pub active_seq : Option UsbDaliTransaction → ℕ
active_seq none = 0
active_seq (some t) = t.seq_num

pub record Inv (lib : LibUsb) (d : UsbDali) : Type 0 where
  -- exactly the transfers that the driver has on record are in flight
  pub in_flight : live lib d.calls ≡ recorded d
  -- nothing is received while a command is sent, and the command's transaction is there
  pub alone : is_some d.send_transfer ≡ true → d.recv_transfer ≡ none
  pub owned : is_some d.send_transfer ≡ true → is_some d.transaction ≡ true
  pub bounded : length d.queue ≤ d.queue_size
  pub seq_fits : d.seq_num < 256
  pub active_fits : active_seq d.transaction < 256

-- A transfer is out, so that a callback will come.
abbrev pub IsBusy : UsbDali → Type 0
IsBusy d = (is_some d.send_transfer ≡ true) ⊎ (is_some d.recv_transfer ≡ true)

module _ (lib : LibUsb) (m : Machine)
    (accepts : (calls : List Call) → lib.accepts calls ≡ true) where
  receive-Inv :
      (d : UsbDali) → Inv lib d → d.send_transfer ≡ none → Inv lib (usbdali_receive lib m d)
  unfolding usbdali_receive
  receive-Inv d v idle = ground (arith, accepts d.calls)

  receive-IsBusy : (d : UsbDali) → is_some (usbdali_receive lib m d).recv_transfer ≡ true
  unfolding usbdali_receive
  receive-IsBusy d = ground arith

  send-Inv :
      (d : UsbDali) (t : UsbDaliTransaction)
      → Inv lib d
      → d.recv_transfer ≡ none
      → Inv lib (usbdali_send lib m d t)
  unfolding usbdali_send
  send-Inv d t v idle = ground (arith, accepts d.calls, pack-out_fields m d.seq_num t.request)

  send-IsBusy :
      (d : UsbDali) (t : UsbDaliTransaction)
      → d.send_transfer ≡ none
      → d.transaction ≡ none
      → is_some (usbdali_send lib m d t).send_transfer ≡ true
  unfolding usbdali_send
  send-IsBusy d t e h = rw (e, h, pack-out_fields m d.seq_num t.request)

  dequeued-Inv :
      (d : UsbDali) (q : List UsbDaliTransaction)
      → d.queue ≡ q
      → d.send_transfer ≡ none
      → d.recv_transfer ≡ none
      → Inv lib d
      → Inv lib (send_dequeued lib m d (list_dequeue q))
  dequeued-Inv d [] e idle quiet v = receive-Inv (record d { queue = [] }) (ground arith) idle
  dequeued-Inv d (t ∷ q) e idle quiet v =
      send-Inv (record d { queue = q }) t (ground (arith, ap length e)) quiet

  -- `usbdali_next` keeps the invariant.
  pub next-Inv : (d : UsbDali) → Inv lib d → Inv lib (usbdali_next lib m d)
  unfolding usbdali_next
  next-Inv d v = ground (arith, dequeued-Inv d d.queue refl, receive-Inv d v)

  dequeued-IsBusy :
      (d : UsbDali) (q : List UsbDaliTransaction)
      → d.send_transfer ≡ none
      → d.transaction ≡ none
      → 0 < length q
      → is_some (send_dequeued lib m d (list_dequeue q)).send_transfer ≡ true
  dequeued-IsBusy d [] idle free h = absurd (omega arith)
  dequeued-IsBusy d (t ∷ q) idle free h = send-IsBusy (record d { queue = q }) t idle free

  -- After `usbdali_next` a transfer is out.
  pub next-IsBusy : (d : UsbDali) → IsBusy (usbdali_next lib m d)
  unfolding usbdali_next
  next-IsBusy d = ground (arith, dequeued-IsBusy d d.queue, receive-IsBusy d)
