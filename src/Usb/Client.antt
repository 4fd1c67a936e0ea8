-- ===== src/Usb/Client.antt =====
-- The contract of the client that lib/usb.c calls back, and what one callback does to the driver.
use mathlib.Core.Option
use daliserver.Common.{
  ℕ, suc, ◌≡◌, refl, sym, ap, ◌∙◌, true, Option, none, some, List, [], ◌∷◌, map, arith, length,
  ◌==◌, is_some, Bool-cases, ◌⊎◌, inl, inr,
}
use daliserver.Frame.{DaliFrame, daliframe_new, daliframe_enew}
use daliserver.Pack.{Machine, unpack}
use daliserver.Usb.{
  decode_in, in_format, handle_usb, handle_dali, handle_packet, receive_timeout_of,
  receive_error_of, fail_send, UsbDaliIn, success, response, receive_timeout, receive_error,
  send_timeout, send_error, UsbDaliError, UsbDaliTransaction, TransferStatus, completed, error,
  timed_out, cancelled, stall, no_device, overflow, UsbDali, LibUsb, Callbacks, clear_arg,
  on_received, on_sent, usbdali_cancel,
}
use daliserver.Usb.Live.{live, active_seq, Inv}

-- A transaction but for the connection that waits for it.
abbrev pub strip : UsbDaliTransaction → UsbDaliTransaction
strip t = record t { arg = none }

-- What a callback may do to the driver: forget connections, and nothing else.
pub record Keeps (d d' : UsbDali) : Type 0 where
  pub recv : d'.recv_transfer ≡ d.recv_transfer
  pub send : d'.send_transfer ≡ d.send_transfer
  pub active : Option.map strip d'.transaction ≡ Option.map strip d.transaction
  pub size : d'.queue_size ≡ d.queue_size
  pub waiting : map strip d'.queue ≡ map strip d.queue
  pub seq : d'.seq_num ≡ d.seq_num
  pub down : d'.shutdown ≡ d.shutdown
  pub asked : d'.calls ≡ d.calls

pub Keeps-refl : (d : UsbDali) → Keeps d d
Keeps-refl d = ground arith

pub length-strip : (q : List UsbDaliTransaction) → length (map strip q) ≡ length q
length-strip [] = refl
length-strip (t ∷ q) = ap suc (length-strip q)

is_some-strip : (o : Option UsbDaliTransaction) → is_some (Option.map strip o) ≡ is_some o
is_some-strip none = refl
is_some-strip (some t) = refl

active_seq-strip : (o : Option UsbDaliTransaction) → active_seq (Option.map strip o) ≡ active_seq o
active_seq-strip none = refl
active_seq-strip (some t) = refl

pub Keeps-length : (d d' : UsbDali) → Keeps d d' → length d'.queue ≡ length d.queue
Keeps-length d d' k =
    sym (length-strip d'.queue) ∙ ap (λ q. length q) k.waiting ∙ length-strip d.queue

pub Keeps-is_some : (d d' : UsbDali) → Keeps d d' → is_some d'.transaction ≡ is_some d.transaction
Keeps-is_some d d' k =
    sym (is_some-strip d'.transaction) ∙ ap (λ o. is_some o) k.active ∙ is_some-strip d.transaction

pub Keeps-active_seq :
    (d d' : UsbDali) → Keeps d d' → active_seq d'.transaction ≡ active_seq d.transaction
Keeps-active_seq d d' k =
    sym (active_seq-strip d'.transaction) ∙ ap active_seq k.active ∙ active_seq-strip d.transaction

pub Keeps-Inv : (lib : LibUsb) (d d' : UsbDali) → Keeps d d' → Inv lib d → Inv lib d'
Keeps-Inv lib d d' k v = record {
  in_flight = ap (live lib) k.asked ∙ v.in_flight ∙ ground arith;
  alone = ground arith;
  owned = ground (arith, Keeps-is_some d d' k);
  bounded = omega (arith, Keeps-length d d' k, k.size, v.bounded);
  seq_fits = ground arith;
  active_fits = omega (arith, Keeps-active_seq d d' k, v.active_fits);
}

strip-clear :
    (arg : ℕ) (q : List UsbDaliTransaction) → map strip (map (clear_arg arg) q) ≡ map strip q
strip-clear arg [] = refl
strip-clear arg (t ∷ q) = ground (arith, strip-clear arg q)

-- `usbdali_cancel` is such a change.
pub cancel-Keeps : (d : UsbDali) (arg : ℕ) → Keeps d (usbdali_cancel d arg)
unfolding usbdali_cancel
cancel-Keeps d arg = ground (arith, strip-clear arg d.queue)

-- The contract of the client's callbacks.
pub record IsClient {E : Type 0} (cb : Callbacks E) : Type 0 where
  pub inband_keeps :
      (err : UsbDaliError) (frame : DaliFrame) (response status : ℕ) (arg : Option ℕ)
      (s : UsbDali × E)
      → Keeps s.0 (cb.inband err frame response status arg s).0
  pub outband_keeps :
      (err : UsbDaliError) (frame : Option DaliFrame) (status : ℕ) (s : UsbDali × E)
      → Keeps s.0 (cb.outband err frame status s).0

-- What a callback of a transfer does before it frees the transfer: it keeps the driver, or it
-- gives up the active transaction.
abbrev pub Outcome : UsbDali → UsbDali → Type 0
Outcome d d' = Keeps d d' ⊎ ((k : UsbDali) × Keeps d k × (d' ≡ record k { transaction = none }))

module _ {E : Type 0} (m : Machine) (lib : LibUsb) (cb : Callbacks E) (client : IsClient cb) where
  usb-Outcome :
      (p : UsbDaliIn) (tx : Option UsbDaliTransaction) (s : UsbDali × E)
      → Outcome s.0 (handle_usb lib m cb p tx s).0
  usb-Outcome p none s = inl (Keeps-refl s.0)
  usb-Outcome p (some t) s =
      let frame = daliframe_new p.address p.command in
      let quiet = client.inband_keeps success frame 0xff p.status t.arg s in
      let answer = client.inband_keeps response frame p.command p.status t.arg s in
      elim (Bool-cases (t.seq_num == p.seqnum)) [
        | inr e ↦ rw e (inl (Keeps-refl s.0))
        | inl e ↦ rw e (elim (Bool-cases (p.type == 0x71)) [
          | inl f ↦ rw f (inr (_, quiet, refl))
          | inr f ↦ rw f (elim (Bool-cases (p.type == 0x72)) [
            | inl g ↦ rw g (inr (_, answer, refl))
            | inr g ↦ rw g (inl (Keeps-refl s.0))
          ])
        ])
      ]

  dali-Outcome : (p : UsbDaliIn) (s : UsbDali × E) → Keeps s.0 (handle_dali lib m cb p s).0
  dali-Outcome p s =
      let short =
        client.outband_keeps success (some (daliframe_new p.address p.command)) p.status s in
      let long =
        client.outband_keeps success (some (daliframe_enew p.ecommand p.address p.command)) p.status
          s in
      elim (Bool-cases (p.type == 0x73)) [
        | inl e ↦ rw e short
        | inr e ↦ rw e (elim (Bool-cases (p.type == 0x74)) [
          | inl f ↦ rw f long
          | inr f ↦ rw f (Keeps-refl s.0)
        ])
      ]

  packet-Outcome :
      (p : Option UsbDaliIn) (s : UsbDali × E) → Outcome s.0 (handle_packet lib m cb p s).0
  packet-Outcome none s = inl (Keeps-refl s.0)
  packet-Outcome (some p) s = elim (Bool-cases (p.direction == 0x11)) [
    | inl e ↦ rw e (inl (dali-Outcome p s))
    | inr e ↦ rw e (elim (Bool-cases (p.direction == 0x12)) [
      | inl f ↦ rw f (usb-Outcome p s.0.transaction s)
      | inr f ↦ rw f (inl (Keeps-refl s.0))
    ])
  ]

  timeout-Outcome :
      (tx : Option UsbDaliTransaction) (s : UsbDali × E)
      → Outcome s.0 (receive_timeout_of lib m cb tx s).0
  timeout-Outcome none s = inl (Keeps-refl s.0)
  timeout-Outcome (some t) s =
      inr (_, client.inband_keeps receive_timeout t.request 0xff 0xffff t.arg s, refl)

  error-Outcome :
      (tx : Option UsbDaliTransaction) (s : UsbDali × E)
      → Outcome s.0 (receive_error_of lib m cb tx s).0
  error-Outcome none s = inl (client.outband_keeps receive_error none 0xffff s)
  error-Outcome (some t) s =
      inr (_, client.inband_keeps receive_error t.request 0xff 0xffff t.arg s, refl)

  pub received-Outcome :
      (status : TransferStatus) (buffer : List ℕ) (s : UsbDali × E)
      → Outcome s.0 (on_received lib m cb status buffer s).0
  unfolding on_received
  received-Outcome completed buffer s =
      packet-Outcome (decode_in (unpack m in_format (some buffer) (some (length buffer)))) s
  received-Outcome timed_out buffer s = timeout-Outcome s.0.transaction s
  received-Outcome cancelled buffer s = inl (Keeps-refl s.0)
  received-Outcome error buffer s = error-Outcome s.0.transaction s
  received-Outcome stall buffer s = error-Outcome s.0.transaction s
  received-Outcome no_device buffer s = error-Outcome s.0.transaction s
  received-Outcome overflow buffer s = error-Outcome s.0.transaction s

  fail-Outcome :
      (err : UsbDaliError) (tx : Option UsbDaliTransaction) (s : UsbDali × E)
      → is_some tx ≡ true
      → (r : UsbDali × E) × (fail_send lib m cb err tx s ≡ some r) × Outcome s.0 r.0
  fail-Outcome err none s h = cc
  fail-Outcome err (some t) s h =
      (_, refl, inr (_, client.inband_keeps err t.request 0xff 0xffff t.arg s, refl))

  -- With a transaction there, the callback of a send has an outcome; the NULL is not read.
  pub sent-Outcome :
      (status : TransferStatus) (s : UsbDali × E)
      → is_some s.0.transaction ≡ true
      → (r : UsbDali × E) × (on_sent lib m cb status s ≡ some r) × Outcome s.0 r.0
  unfolding on_sent
  sent-Outcome completed s h = (s, refl, inl (Keeps-refl s.0))
  sent-Outcome cancelled s h = (s, refl, inl (Keeps-refl s.0))
  sent-Outcome timed_out s h = fail-Outcome send_timeout s.0.transaction s h
  sent-Outcome error s h = fail-Outcome send_error s.0.transaction s h
  sent-Outcome stall s h = fail-Outcome send_error s.0.transaction s h
  sent-Outcome no_device s h = fail-Outcome send_error s.0.transaction s h
  sent-Outcome overflow s h = fail-Outcome send_error s.0.transaction s h
