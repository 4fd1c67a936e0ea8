-- ===== src/Usb/Retired.antt =====
-- How lib/usb.c gives up the active request when a transfer ends.
use daliserver.Common.{
  ℕ, ◌≡◌, refl, sym, ap, ◌∙◌, Bool, true, false, ◌&&◌, ◌||◌, Option, none, some, List, [], arith,
  length, ◌==◌, some_inj, ◌⊎◌, inl, inr,
}
use daliserver.Pack.{Machine, unpack}
use daliserver.Usb.{
  UsbDaliTransaction, UsbDaliError, send_timeout, send_error, fail_send, receive_timeout_of,
  receive_error_of, TransferStatus, completed, cancelled, timed_out, error, stall, no_device,
  overflow, UsbDali, LibUsb, UsbDaliIn, handle_packet, on_received, on_sent, decode_in, in_format,
}
use daliserver.Usb.Answers.{Answers, recorder}

-- A packet that answers the transaction.
abbrev is_answer : UsbDaliTransaction → Option UsbDaliIn → Bool
is_answer t none = false
is_answer t (some p) =
    p.direction == 0x12 && t.seq_num == p.seqnum && (p.type == 0x71 || p.type == 0x72)

-- The end of a receive that ends the active transaction, if there is one: an answer, or a failure.
abbrev pub is_final : Machine → Option UsbDaliTransaction → TransferStatus → List ℕ → Bool
is_final m none status buffer = true
is_final m (some t) completed buffer =
    is_answer t (decode_in (unpack m in_format (some buffer) (some (length buffer))))
is_final m (some t) cancelled buffer = false
is_final m (some t) _ buffer = true

abbrev pub retired : UsbDali → UsbDali
retired d = record d { transaction = none }

module _ (lib : LibUsb) (m : Machine) where
  nothing-retires : (d : UsbDali) → d.transaction ≡ none → d ≡ retired d
  nothing-retires d e = ap (λ t. record d { transaction = t }) e

  packet-retires :
      (p : UsbDaliIn) (t : UsbDaliTransaction) (d : UsbDali) (answers : Answers)
      → d.transaction ≡ some t
      → is_answer t (some p) ≡ true
      → (handle_packet lib m recorder (some p) (d, answers)).0 ≡ retired d
  packet-retires p t d answers e h = rw e (ground arith)

  quiet-retires :
      (p : Option UsbDaliIn) (d : UsbDali) (answers : Answers)
      → d.transaction ≡ none
      → (handle_packet lib m recorder p (d, answers)).0 ≡ d
  quiet-retires none d answers e = refl
  quiet-retires (some p) d answers e = rw e (ground arith)

  answer-retires :
      (p : Option UsbDaliIn) (t : UsbDaliTransaction) (d : UsbDali) (answers : Answers)
      → d.transaction ≡ some t
      → is_answer t p ≡ true
      → (handle_packet lib m recorder p (d, answers)).0 ≡ retired d
  answer-retires none t d answers e h = cc
  answer-retires (some p) t d answers e h = packet-retires p t d answers e h

  timeout-retires :
      (tx : Option UsbDaliTransaction) (d : UsbDali) (answers : Answers)
      → d.transaction ≡ tx
      → (receive_timeout_of lib m recorder tx (d, answers)).0 ≡ retired d
  timeout-retires none d answers e = nothing-retires d e
  timeout-retires (some t) d answers e = refl

  error-retires :
      (tx : Option UsbDaliTransaction) (d : UsbDali) (answers : Answers)
      → d.transaction ≡ tx
      → (receive_error_of lib m recorder tx (d, answers)).0 ≡ retired d
  error-retires none d answers e = nothing-retires d e
  error-retires (some t) d answers e = refl

  pub received-retires :
      (status : TransferStatus) (buffer : List ℕ) (d : UsbDali) (answers : Answers)
      (tx : Option UsbDaliTransaction)
      → d.transaction ≡ tx
      → is_final m tx status buffer ≡ true
      → (on_received lib m recorder status buffer (d, answers)).0 ≡ retired d
  unfolding on_received
  received-retires completed buffer d answers none e h =
      quiet-retires (decode_in (unpack m in_format (some buffer) (some (length buffer)))) d answers
        e
      ∙ nothing-retires d e
  received-retires completed buffer d answers (some t) e h =
      answer-retires (decode_in (unpack m in_format (some buffer) (some (length buffer)))) t d
        answers e h
  received-retires cancelled buffer d answers none e h = nothing-retires d e
  received-retires cancelled buffer d answers (some t) e h = cc
  received-retires timed_out buffer d answers tx e h = timeout-retires d.transaction d answers refl
  received-retires error buffer d answers tx e h = error-retires d.transaction d answers refl
  received-retires stall buffer d answers tx e h = error-retires d.transaction d answers refl
  received-retires no_device buffer d answers tx e h = error-retires d.transaction d answers refl
  received-retires overflow buffer d answers tx e h = error-retires d.transaction d answers refl

  fail-retires :
      (err : UsbDaliError) (tx : Option UsbDaliTransaction) (d : UsbDali) (answers : Answers)
      (r : UsbDali × Answers)
      → fail_send lib m recorder err tx (d, answers) ≡ some r
      → r.0 ≡ retired d
  fail-retires err none d answers r e = cc
  fail-retires err (some t) d answers r e =
      sym (ap (λ (x : UsbDali × Answers). x.0) (some_inj _ _ e))

  pub sent-retires :
      (status : TransferStatus) (d : UsbDali) (answers : Answers) (r : UsbDali × Answers)
      → on_sent lib m recorder status (d, answers) ≡ some r
      → (r.0 ≡ d) ⊎ (r.0 ≡ retired d)
  unfolding on_sent
  sent-retires completed d answers r e =
      inl (sym (ap (λ (x : UsbDali × Answers). x.0) (some_inj _ _ e)))
  sent-retires cancelled d answers r e =
      inl (sym (ap (λ (x : UsbDali × Answers). x.0) (some_inj _ _ e)))
  sent-retires timed_out d answers r e = inr (fail-retires send_timeout d.transaction d answers r e)
  sent-retires error d answers r e = inr (fail-retires send_error d.transaction d answers r e)
  sent-retires stall d answers r e = inr (fail-retires send_error d.transaction d answers r e)
  sent-retires no_device d answers r e = inr (fail-retires send_error d.transaction d answers r e)
  sent-retires overflow d answers r e = inr (fail-retires send_error d.transaction d answers r e)

pub timeout_final :
    (m : Machine) (tx : Option UsbDaliTransaction) → is_final m tx timed_out [] ≡ true
timeout_final m none = refl
timeout_final m (some t) = refl
