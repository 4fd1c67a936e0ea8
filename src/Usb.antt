-- ===== src/Usb.antt =====
-- lib/usb.c: the queue of DALI commands and the transfers of the USB adapter. The driver's state
-- is explicit; `calls` is what it has asked of libusb, the latest first. Transfers are known by
-- their addresses. Memory for buffers and transactions is taken to be there; messages to the log
-- are left out.
pub mod Packet
pub mod Live
pub mod Client
pub mod Steps
pub mod Requests
pub mod Answers
pub mod Stall
pub mod Close
pub mod Retired
pub mod Remaining
pub mod Settled
pub mod Print
pub mod Open
mod Tests
use mathlib.Core.Option
use daliserver.Common.{
  ℕ, zero, suc, ◌+◌, Bool, true, false, not, ◌&&◌, Option, none, some, List, [], ◌∷◌, ◌++◌, map,
  ltb, ◌==◌, if◌then◌else◌, is_some, length, replicate,
}
use daliserver.Frame.{DaliFrame, daliframe_new, daliframe_enew}
use daliserver.Pack.{Machine, pack, Packed, packed, unpack, Unpacked, unpacked}

pub data UsbDaliError : Type 0 where
  success response send_timeout receive_timeout send_error receive_error : UsbDaliError
  queue_full invalid_arg no_memory system_error : UsbDaliError

-- The result codes of a libusb transfer.
pub data TransferStatus : Type 0 where
  completed error timed_out cancelled stall no_device overflow : TransferStatus

-- `arg` is the connection that waits for the answer, or NULL.
pub record UsbDaliTransaction : Type 0 where
  pub seq_num : ℕ
  pub request : DaliFrame
  pub arg : Option ℕ

pub data Call : Type 0 where
  submit_in : ℕ → Call
  submit_out : ℕ → List ℕ → Call
  cancel_transfer free_transfer : ℕ → Call

pub record UsbDali : Type 0 where
  pub recv_transfer : Option ℕ
  pub send_transfer : Option ℕ
  pub transaction : Option UsbDaliTransaction
  pub queue_size : ℕ
  pub queue : List UsbDaliTransaction
  pub seq_num : ℕ
  pub shutdown : Bool
  pub calls : List Call

-- libusb: the transfer that an allocation returns, and whether a submission is accepted. Both may
-- depend on all calls so far.
pub record LibUsb : Type 0 where
  pub alloc_transfer : List Call → ℕ
  pub accepts : List Call → Bool

-- The fields of a packet from the device.
pub record UsbDaliIn : Type 0 where
  pub direction : ℕ
  pub type : ℕ
  pub ecommand : ℕ
  pub address : ℕ
  pub command : ℕ
  pub status : ℕ
  pub seqnum : ℕ

abbrev pub usbdali_length : ℕ
usbdali_length = 64

abbrev pub out_format : List ℕ
out_format = b'C' ∷ b'C' ∷ b'C' ∷ b'C' ∷ b'C' ∷ b'C' ∷ b'C' ∷ b'C' ∷ []

abbrev pub in_format : List ℕ
in_format = b'>' ∷ b'C' ∷ b'C' ∷ b' ' ∷ b'C' ∷ b'C' ∷ b'C' ∷ b'S' ∷ b'C' ∷ []

-- The values of `unpack(">CC CCCSC", …)`, or nothing where it returns -1.
abbrev pub decode_in : Unpacked → Option UsbDaliIn
decode_in (unpacked (d ∷ t ∷ e ∷ a ∷ c ∷ s ∷ n ∷ [])) = some (record {
  direction = d;
  type = t;
  ecommand = e;
  address = a;
  command = c;
  status = s;
  seqnum = n;
})
decode_in _ = none

-- The arguments of `pack` for a request: 16 bits without an extended command, 24 bits with one.
abbrev pub out_fields : ℕ → DaliFrame → List ℕ
out_fields seq_num frame =
    if frame.ecommand == 0
    then 0x12 ∷ seq_num ∷ 0 ∷ 0x03 ∷ 0 ∷ 0 ∷ frame.address ∷ frame.command ∷ []
    else 0x12 ∷ seq_num ∷ 0 ∷ 0x04 ∷ 0 ∷ frame.ecommand ∷ frame.address ∷ frame.command ∷ []

abbrev pub list_dequeue :
    List UsbDaliTransaction → Option UsbDaliTransaction × List UsbDaliTransaction
list_dequeue [] = (none, [])
list_dequeue (t ∷ queue) = (some t, queue)

-- The client's callbacks, over the driver and the client's own state. The frame of an outband
-- message is NULL where there is none.
pub record Callbacks (E : Type 0) : Type 0 where
  pub inband : UsbDaliError → DaliFrame → ℕ → ℕ → Option ℕ → UsbDali × E → UsbDali × E
  pub outband : UsbDaliError → Option DaliFrame → ℕ → UsbDali × E → UsbDali × E

module _ (lib : LibUsb) (m : Machine) where
  unfoldable pub usbdali_receive : UsbDali → UsbDali
  usbdali_receive d =
      if is_some d.recv_transfer
      then d
      else let transfer = lib.alloc_transfer d.calls in
        record d { recv_transfer = some transfer; calls = submit_in transfer ∷ d.calls }

  -- With the packet at hand: the transaction becomes the active one and is submitted.
  abbrev pub submit : UsbDaliTransaction → Packed → UsbDali → UsbDali
  submit t (packed buffer size) d =
      let transfer = lib.alloc_transfer d.calls in
      record d {
        transaction = some (record t { seq_num = d.seq_num });
        seq_num = if d.seq_num == 0xff then 0 else d.seq_num + 1;
        send_transfer = some transfer;
        calls = submit_out transfer buffer ∷ d.calls;
      }
  submit t _ d = d

  unfoldable pub usbdali_send : UsbDali → UsbDaliTransaction → UsbDali
  usbdali_send d t =
      if is_some d.send_transfer
      then d
      else if is_some d.transaction
      then d
      else submit t
          (pack m out_format (some (replicate usbdali_length 0)) (some usbdali_length) none
            (out_fields d.seq_num t.request))
          d

  abbrev pub send_dequeued : UsbDali → Option UsbDaliTransaction × List UsbDaliTransaction → UsbDali
  send_dequeued d (none, queue) = usbdali_receive (record d { queue = queue })
  send_dequeued d (some t, queue) = usbdali_send (record d { queue = queue }) t

  abbrev pub cancel_receive : Option ℕ → UsbDali → UsbDali
  cancel_receive none d = d
  cancel_receive (some transfer) d = record d { calls = cancel_transfer transfer ∷ d.calls }

  unfoldable pub usbdali_next : UsbDali → UsbDali
  usbdali_next d =
      if is_some d.send_transfer
      then d
      else if is_some d.transaction
      then if is_some d.recv_transfer then d else usbdali_receive d
      else if ltb 0 (length d.queue)
      then if is_some d.recv_transfer
        then cancel_receive d.recv_transfer d
        else send_dequeued d (list_dequeue d.queue)
      else if is_some d.recv_transfer
      then d
      else usbdali_receive d

  unfoldable pub usbdali_queue : UsbDali → DaliFrame → Option ℕ → UsbDali × UsbDaliError
  usbdali_queue d frame cbarg =
      if ltb (length d.queue) d.queue_size
      then (
        usbdali_next (record d {
          queue = d.queue ++ record { seq_num = 0; request = frame; arg = cbarg } ∷ [];
        }),
        success,
      )
      else (d, queue_full)

  -- The state that `usbdali_open` sets up before its first `usbdali_next`.
  abbrev pub initial : UsbDali
  initial = record {
    recv_transfer = none;
    send_transfer = none;
    transaction = none;
    queue_size = 255;
    queue = [];
    seq_num = 1;
    shutdown = false;
    calls = [];
  }

  -- The end of both callbacks: the transfer is freed, and so is one that is recorded in its place.
  abbrev pub free_transfers : ℕ → Option ℕ → List Call → List Call
  free_transfers transfer none calls = free_transfer transfer ∷ calls
  free_transfers transfer (some other) calls =
      if transfer == other
      then free_transfer transfer ∷ calls
      else free_transfer transfer ∷ free_transfer other ∷ calls

  abbrev pub next_unless_shutdown : UsbDali → UsbDali
  next_unless_shutdown d = if d.shutdown then d else usbdali_next d

  unfoldable pub finish_receive : ℕ → UsbDali → UsbDali
  finish_receive transfer d =
      next_unless_shutdown
        (record d { recv_transfer = none; calls = free_transfers transfer d.recv_transfer d.calls })

  unfoldable pub finish_send : ℕ → UsbDali → UsbDali
  finish_send transfer d =
      next_unless_shutdown
        (record d { send_transfer = none; calls = free_transfers transfer d.send_transfer d.calls })

  module _ {E : Type 0} (cb : Callbacks E) where
    -- The transaction is freed after its callback.
    abbrev pub retire : UsbDali × E → UsbDali × E
    retire (d, e) = (record d { transaction = none }, e)

    abbrev pub handle_dali : UsbDaliIn → UsbDali × E → UsbDali × E
    handle_dali packet s =
        if packet.type == 0x73
        then cb.outband success (some (daliframe_new packet.address packet.command)) packet.status s
        else if packet.type == 0x74
        then cb.outband success
            (some (daliframe_enew packet.ecommand packet.address packet.command)) packet.status s
        else s

    abbrev pub handle_usb : UsbDaliIn → Option UsbDaliTransaction → UsbDali × E → UsbDali × E
    handle_usb packet none s = s
    handle_usb packet (some t) s =
        let frame = daliframe_new packet.address packet.command in
        if t.seq_num == packet.seqnum
        then if packet.type == 0x71
          then retire (cb.inband success frame 0xff packet.status t.arg s)
          else if packet.type == 0x72
          then retire (cb.inband response frame packet.command packet.status t.arg s)
          else s
        else s

    abbrev pub handle_packet : Option UsbDaliIn → UsbDali × E → UsbDali × E
    handle_packet none s = s
    handle_packet (some packet) s =
        if packet.direction == 0x11
        then handle_dali packet s
        else if packet.direction == 0x12
        then handle_usb packet s.0.transaction s
        else s

    abbrev pub receive_timeout_of : Option UsbDaliTransaction → UsbDali × E → UsbDali × E
    receive_timeout_of none s = s
    receive_timeout_of (some t) s = retire (cb.inband receive_timeout t.request 0xff 0xffff t.arg s)

    abbrev pub receive_error_of : Option UsbDaliTransaction → UsbDali × E → UsbDali × E
    receive_error_of none s = cb.outband receive_error none 0xffff s
    receive_error_of (some t) s = retire (cb.inband receive_error t.request 0xff 0xffff t.arg s)

    -- The `switch` of `usbdali_receive_callback`; the buffer holds `actual_length` bytes.
    unfoldable pub on_received : TransferStatus → List ℕ → UsbDali × E → UsbDali × E
    on_received completed buffer s =
        handle_packet (decode_in (unpack m in_format (some buffer) (some (length buffer)))) s
    on_received timed_out buffer s = receive_timeout_of s.0.transaction s
    on_received cancelled buffer s = s
    on_received _ buffer s = receive_error_of s.0.transaction s

    unfoldable pub usbdali_receive_callback :
        ℕ → TransferStatus → List ℕ → UsbDali × E → UsbDali × E
    usbdali_receive_callback transfer status buffer s =
        let (d, e) = on_received status buffer s in (finish_receive transfer d, e)

    -- `none` is the access through a NULL transaction.
    abbrev pub fail_send :
        UsbDaliError → Option UsbDaliTransaction → UsbDali × E → Option (UsbDali × E)
    fail_send err none s = none
    fail_send err (some t) s = some (retire (cb.inband err t.request 0xff 0xffff t.arg s))

    unfoldable pub on_sent : TransferStatus → UsbDali × E → Option (UsbDali × E)
    on_sent completed s = some s
    on_sent timed_out s = fail_send send_timeout s.0.transaction s
    on_sent cancelled s = some s
    on_sent _ s = fail_send send_error s.0.transaction s

    unfoldable pub usbdali_send_callback : ℕ → TransferStatus → UsbDali × E → Option (UsbDali × E)
    usbdali_send_callback transfer status s =
        Option.map (λ (d, e). (finish_send transfer d, e)) (on_sent status s)

-- `transaction->arg = NULL` where it is the given connection.
abbrev pub is_arg : ℕ → Option ℕ → Bool
is_arg arg none = false
is_arg arg (some a) = a == arg

abbrev pub clear_arg : ℕ → UsbDaliTransaction → UsbDaliTransaction
clear_arg arg t = if is_arg arg t.arg then record t { arg = none } else t

unfoldable pub usbdali_cancel : UsbDali → ℕ → UsbDali
usbdali_cancel d arg = record d {
  transaction = Option.map (clear_arg arg) d.transaction;
  queue = map (clear_arg arg) d.queue;
}
