-- ===== src/Usb/Close.antt =====
-- `usbdali_close` of lib/usb.c: it frees the queue and the active transaction, cancels the transfers,
-- lets libusb call back once, and frees the driver. The field keeps the address of the transaction.
use mathlib.Core.Option
use daliserver.Common.{
  ℕ, ◌≡◌, Bool, true, false, not, ◌&&◌, Option, none, some, List, [], ◌∷◌, arith, length, ◌==◌,
  is_some, if◌then◌else◌,
}
use daliserver.Pack.{Machine, unpack}
use daliserver.Usb.{
  UsbDali, UsbDaliIn, LibUsb, Call, Callbacks, TransferStatus, completed, cancelled, timed_out,
  cancel_receive, on_received, on_sent, finish_receive, finish_send, decode_in, in_format,
  usbdali_receive_callback, usbdali_send_callback,
}
use daliserver.Usb.Live.{Transfer, live, recorded, Inv}
use daliserver.Usb.Client.{IsClient}
use daliserver.Usb.Steps.{Reach, Reach-IsRunning}
use daliserver.Usb.Open.{Act, Opened, usbdali_release}

-- A transfer that ends while libusb handles events.
pub data Ending : Type 0 where
  receive_ends : ℕ → TransferStatus → List ℕ → Ending
  send_ends : ℕ → TransferStatus → Ending

-- What is left: the driver is gone.
pub record Closed (E : Type 0) : Type 0 where
  pub calls : List Call
  pub acts : List Act
  pub client : E

-- Whether the callback of a receive reads the transaction, if the driver has the address of one.
abbrev pub is_from_adapter : Option UsbDaliIn → Bool
is_from_adapter none = false
is_from_adapter (some p) = p.direction == 0x12

abbrev pub receive_reads : Machine → TransferStatus → List ℕ → Bool
receive_reads m completed buffer =
    is_from_adapter (decode_in (unpack m in_format (some buffer) (some (length buffer))))
receive_reads m cancelled buffer = false
receive_reads m _ buffer = true

abbrev pub send_reads : TransferStatus → Bool
send_reads completed = false
send_reads cancelled = false
send_reads _ = true

abbrev pub ending_of : (sends : Bool) → ℕ → TransferStatus → List ℕ → Ending
ending_of true t status buffer = send_ends t status
ending_of false t status buffer = receive_ends t status buffer

-- The transfers in flight, and the client, after the driver was freed; nothing if freed memory
-- was read.
abbrev pub outcome : {E : Type 0} → LibUsb → Option (Closed E) → Option (List Transfer × E)
outcome lib none = none
outcome lib (some c) = some (live lib c.calls, c.client)

module _ (lib : LibUsb) (m : Machine) where
  -- Up to the cancellation of the transfers. The memory of the transaction is freed.
  abbrev pub shut_down : UsbDali → UsbDali
  shut_down d =
      cancel_receive lib m d.send_transfer
        (cancel_receive lib m d.recv_transfer (record d { shutdown = true; queue = [] }))

  module _ {E : Type 0} (cb : Callbacks E) where
    -- `none` is an access to the transaction, which is freed.
    abbrev pub ends : Ending → UsbDali × E → Option (UsbDali × E)
    ends (receive_ends t status buffer) s =
        if is_some s.0.transaction && receive_reads m status buffer
        then none
        else some (usbdali_receive_callback lib m cb t status buffer s)
    ends (send_ends t status) s =
        if send_reads status then none else usbdali_send_callback lib m cb t status s

    abbrev pub after :
        Option (UsbDali × E) → (UsbDali × E → Option (UsbDali × E)) → Option (UsbDali × E)
    after none next = none
    after (some s) next = next s

    unfoldable pub handle_events : List Ending → UsbDali × E → Option (UsbDali × E)
    handle_events [] s = some s
    handle_events (ending ∷ endings) s = after (ends ending s) (handle_events endings)

    unfoldable pub usbdali_close : Opened → List Act → List Ending → UsbDali × E → Option (Closed E)
    usbdali_close o acts endings s =
        Option.map (λ r. record { calls = r.0.calls; acts = usbdali_release o acts; client = r.1 })
          (handle_events endings (shut_down s.0, s.1))

    closing_ends :
        (sends : Bool) (o : Opened) (acts : List Act) (t : ℕ) (buffer : List ℕ) (s : UsbDali × E)
        → Inv lib s.0
        → (if sends then s.0.send_transfer else s.0.recv_transfer) ≡ some t
        → (outcome lib (usbdali_close o acts (ending_of sends t cancelled buffer ∷ []) s)
            ≡ some ([], s.1))
          × (outcome lib (usbdali_close o acts [] s) ≡ some (recorded s.0, s.1))
          × (is_some
                (outcome lib (usbdali_close o acts (ending_of sends t timed_out buffer ∷ []) s))
              ≡ not (is_some s.0.transaction))
    unfolding usbdali_close handle_events usbdali_receive_callback on_received finish_receive
        usbdali_send_callback on_sent finish_send
    closing_ends true o acts t buffer s v e = (
      ground (arith, v.in_flight, v.alone),
      ground (arith, v.in_flight, v.alone),
      ground (arith, v.owned),
    )
    closing_ends false o acts t buffer s v e = (
      ground (arith, v.in_flight, v.alone),
      ground (arith, v.in_flight, v.alone),
      ground (arith, v.alone),
    )

module _ (lib : LibUsb) (m : Machine) (accepts : (calls : List Call) → lib.accepts calls ≡ true)
    {E : Type 0} (cb : Callbacks E) (keeps : IsClient cb) where
  -- Let the driver be in a state that it reaches, for a libusb that accepts every submission and
  -- callbacks that keep the client's contract, with a transfer in flight, when it is closed. If
  -- libusb cancels the transfer while the driver handles events that once, no freed memory is read,
  -- nothing is in flight when the driver is freed, and the client is not called. If libusb does not
  -- call back in time, the transfer is still in flight when the driver that its callback will read
  -- is freed. If the transfer times out instead, freed memory is read just if a request is active.
  pub close_ends :
      (sends : Bool) (o : Opened) (acts : List Act) (t : ℕ) (buffer : List ℕ) {start : E}
      (s : UsbDali × E)
      → Reach lib m cb start s
      → (if sends then s.0.send_transfer else s.0.recv_transfer) ≡ some t
      → (outcome lib (usbdali_close lib m cb o acts (ending_of sends t cancelled buffer ∷ []) s)
          ≡ some ([], s.1))
        × (outcome lib (usbdali_close lib m cb o acts [] s) ≡ some (recorded s.0, s.1))
        × (is_some (
              outcome lib
                (usbdali_close lib m cb o acts (ending_of sends t timed_out buffer ∷ []) s))
            ≡ not (is_some s.0.transaction))
  close_ends sends o acts t buffer s reach e =
      closing_ends lib m cb sends o acts t buffer s
        (Reach-IsRunning lib m accepts cb keeps reach).inv e
