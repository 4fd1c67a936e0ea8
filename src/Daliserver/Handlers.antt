-- ===== src/Daliserver/Handlers.antt =====
-- What the callbacks of lib/usb.c do in the program of src/daliserver.c: a property of the driver and
-- the server holds after them if the handlers and the end of a transaction keep it.
use mathlib.Core.Path.{subst}
use daliserver.Common.{
  refl, ℕ, ◌≡◌, Option, none, some, List, ◌==◌, Bool-cases, inl, inr, length, some_inj,
}
use daliserver.Frame.{DaliFrame, daliframe_new, daliframe_enew}
use daliserver.Pack.{Machine, unpack}
use daliserver.Usb.{
  UsbDaliError, UsbDaliTransaction, UsbDali, UsbDaliIn, LibUsb, TransferStatus, completed,
  timed_out, cancelled, retire, handle_dali, handle_usb, handle_packet, receive_timeout_of,
  receive_error_of, on_received, on_sent, fail_send, decode_in, in_format,
}
use daliserver.Net.{Server, Sockets}
use daliserver.Daliserver.{dali_inband_handler, broadcast_frame, dali_outband_handler, callbacks}

abbrev pub World : Type 0
World = UsbDali × Server

module _ (net : Sockets) (lib : LibUsb) (m : Machine) (Q : World → Type 0)
    (Q-retire : (s : World) → Q s → Q (record s.0 { transaction = none }, s.1))
    (Q-inband : (err : UsbDaliError) (frame : DaliFrame) (value status : ℕ) (t : UsbDaliTransaction)
        (s : World)
      → s.0.transaction ≡ some t
      → Q s
      → Q (dali_inband_handler net err frame value status t.arg s))
    (Q-outband : (frame : DaliFrame) (s : World)
      → Q s
      → Q (broadcast_frame net (some frame) s)) where
  dali-Q : (p : UsbDaliIn) (s : World) → Q s → Q (handle_dali lib m (callbacks net) p s)
  unfolding dali_outband_handler
  dali-Q p s h =
      let short = Q-outband (daliframe_new p.address p.command) s h in
      let long = Q-outband (daliframe_enew p.ecommand p.address p.command) s h in
      elim (Bool-cases (p.type == 0x73)) [
        | inl e ↦ rw e short
        | inr e ↦ rw e (elim (Bool-cases (p.type == 0x74)) [ inl f ↦ rw f long | inr f ↦ rw f h ])
      ]

  retired-Q :
      (err : UsbDaliError) (frame : DaliFrame) (value status : ℕ) (t : UsbDaliTransaction)
      (s : World)
      → s.0.transaction ≡ some t
      → Q s
      → Q (retire lib m (callbacks net) (dali_inband_handler net err frame value status t.arg s))
  retired-Q err frame value status t s e h =
      Q-retire (dali_inband_handler net err frame value status t.arg s)
        (Q-inband err frame value status t s e h)

  usb-Q :
      (p : UsbDaliIn) (tx : Option UsbDaliTransaction) (s : World)
      → s.0.transaction ≡ tx
      → Q s
      → Q (handle_usb lib m (callbacks net) p tx s)
  usb-Q p none s e h = h
  usb-Q p (some t) s held h =
      let frame = daliframe_new p.address p.command in
      elim (Bool-cases (t.seq_num == p.seqnum)) [
        | inr e ↦ rw e h
        | inl e ↦ rw e (elim (Bool-cases (p.type == 0x71)) [
          | inl f ↦ rw f (retired-Q UsbDaliError.success frame 0xff p.status t s held h)
          | inr f ↦ rw f (elim (Bool-cases (p.type == 0x72)) [
            | inl g ↦ rw g (retired-Q UsbDaliError.response frame p.command p.status t s held h)
            | inr g ↦ rw g h
          ])
        ])
      ]

  packet-Q : (p : Option UsbDaliIn) (s : World) → Q s → Q (handle_packet lib m (callbacks net) p s)
  packet-Q none s h = h
  packet-Q (some p) s h = elim (Bool-cases (p.direction == 0x11)) [
    | inl e ↦ rw e (dali-Q p s h)
    | inr e ↦ rw e (elim (Bool-cases (p.direction == 0x12)) [
      | inl f ↦ rw f (usb-Q p s.0.transaction s refl h)
      | inr f ↦ rw f h
    ])
  ]

  timeout-Q :
      (tx : Option UsbDaliTransaction) (s : World)
      → s.0.transaction ≡ tx
      → Q s
      → Q (receive_timeout_of lib m (callbacks net) tx s)
  timeout-Q none s e h = h
  timeout-Q (some t) s e h = retired-Q UsbDaliError.receive_timeout t.request 0xff 0xffff t s e h

  error-Q :
      (tx : Option UsbDaliTransaction) (s : World)
      → s.0.transaction ≡ tx
      → Q s
      → Q (receive_error_of lib m (callbacks net) tx s)
  unfolding dali_outband_handler
  error-Q none s e h = h
  error-Q (some t) s e h = retired-Q UsbDaliError.receive_error t.request 0xff 0xffff t s e h

  pub received-Q :
      (status : TransferStatus) (buffer : List ℕ) (s : World)
      → Q s
      → Q (on_received lib m (callbacks net) status buffer s)
  unfolding on_received
  received-Q completed buffer s h =
      packet-Q (decode_in (unpack m in_format (some buffer) (some (length buffer)))) s h
  received-Q timed_out buffer s h = timeout-Q s.0.transaction s refl h
  received-Q cancelled buffer s h = h
  received-Q _ buffer s h = error-Q s.0.transaction s refl h

  fail-Q :
      (err : UsbDaliError) (tx : Option UsbDaliTransaction) (s r : World)
      → s.0.transaction ≡ tx
      → fail_send lib m (callbacks net) err tx s ≡ some r
      → Q s
      → Q r
  fail-Q err none s r e f h = cc
  fail-Q err (some t) s r e f h =
      subst Q (some_inj _ r f) (retired-Q err t.request 0xff 0xffff t s e h)

  pub sent-Q :
      (status : TransferStatus) (s r : World)
      → on_sent lib m (callbacks net) status s ≡ some r
      → Q s
      → Q r
  unfolding on_sent
  sent-Q completed s r e h = subst Q (some_inj s r e) h
  sent-Q cancelled s r e h = subst Q (some_inj s r e) h
  sent-Q timed_out s r e h = fail-Q UsbDaliError.send_timeout s.0.transaction s r refl e h
  sent-Q _ s r e h = fail-Q UsbDaliError.send_error s.0.transaction s r refl e h
