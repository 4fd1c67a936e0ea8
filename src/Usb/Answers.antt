-- ===== src/Usb/Answers.antt =====
-- The answers that lib/usb.c gives: each accepted request is answered once, in the order of
-- acceptance.
use daliserver.Common.{
  ℕ, ◌≡◌, refl, sym, ap, ◌∙◌, Bool, true, false, Option, none, some, List, [], ◌∷◌, ◌++◌, map,
  arith, length, take, drop, ltb, some_inj, if◌then◌else◌,
}
use mathlib.Core.List.{append_assoc, map-append}
use mathlib.Core.Option
use daliserver.Frame.{DaliFrame}
use daliserver.Pack.{Machine, unpack}
use daliserver.Usb.{
  free_transfers, UsbDaliError, success, queue_full, UsbDaliTransaction, TransferStatus, completed,
  error, timed_out, cancelled, stall, no_device, overflow, UsbDali, LibUsb, Callbacks, UsbDaliIn,
  usbdali_next, usbdali_cancel, is_arg, usbdali_queue, initial, send_timeout, send_error,
  on_received, on_sent, finish_receive, finish_send, usbdali_receive_callback, next_unless_shutdown,
  usbdali_send_callback, handle_usb, handle_packet, decode_in, in_format, receive_timeout_of,
  receive_error_of, fail_send,
}
use daliserver.Usb.Requests.{
  Request, active_of, request_of, outstanding, next-outstanding, queue-outstanding,
  cancel-outstanding, forget,
}

-- A client that writes down whom it was asked to answer.
abbrev pub Answers : Type 0
Answers = List (Option ℕ)

abbrev pub recorder : Callbacks Answers
recorder = record {
  inband = λ err frame response status arg (d, answers). (d, answers ++ arg ∷ []);
  outband = λ err frame status s. s;
}

abbrev pub args : UsbDali → Answers
args d = map (λ (r : Request). r.1) (outstanding d)

-- Those answered, then those still waiting.
abbrev pub total : UsbDali × Answers → Answers
total (d, answers) = answers ++ args d

-- A connection, or none in place of one that is cancelled.
abbrev pub unless : ℕ → Option ℕ → Option ℕ
unless arg a = if is_arg arg a then none else a

map-forget :
    (arg : ℕ) (requests : List Request)
    → map (λ (r : Request). r.1) (map (forget arg) requests)
      ≡ map (unless arg) (map (λ (r : Request). r.1) requests)
map-forget arg [] = refl
map-forget arg ((frame, a) ∷ requests) = ap (λ l. unless arg a ∷ l) (map-forget arg requests)

cancel-args : (d : UsbDali) (arg : ℕ) → args (usbdali_cancel d arg) ≡ map (unless arg) (args d)
cancel-args d arg =
    ap (map (λ (r : Request). r.1)) (cancel-outstanding d arg).0 ∙ map-forget arg (outstanding d)

drop-append : (xs ys : Answers) → drop (length xs) (xs ++ ys) ≡ ys
drop-append [] ys = refl
drop-append (x ∷ xs) ys = drop-append xs ys

take-prefix : (xs ys : Answers) → take (length xs) (xs ++ ys) ≡ xs
take-prefix [] ys = refl
take-prefix (x ∷ xs) ys = ap (λ l. x ∷ l) (take-prefix xs ys)

cancel-total :
    (d : UsbDali) (answers asked : Answers) (arg : ℕ)
    → answers ++ args d ≡ asked
    → answers ++ args (usbdali_cancel d arg)
      ≡ take (length answers) asked ++ map (unless arg) (drop (length answers) asked)
cancel-total d answers asked arg h =
    ap (λ l. answers ++ l) (cancel-args d arg)
    ∙ sym (
        ap (λ l. l ++ map (unless arg) (drop (length answers) (answers ++ args d)))
          (take-prefix answers (args d))
        ∙ ap (λ l. answers ++ map (unless arg) l) (drop-append answers (args d)))
    ∙ ap (λ l. take (length answers) l ++ map (unless arg) (drop (length answers) l)) h

answer-total :
    (d : UsbDali) (answers : Answers) (t : UsbDaliTransaction)
    → d.transaction ≡ some t
    → total (record d { transaction = none }, answers ++ t.arg ∷ []) ≡ total (d, answers)
answer-total d answers t e =
    append_assoc answers (t.arg ∷ []) (map (λ (r : Request). r.1) (map request_of d.queue))
    ∙ ap (λ tx. answers ++ map (λ (r : Request). r.1) (active_of tx ++ map request_of d.queue))
        (sym e)

module _ (lib : LibUsb) (m : Machine) where
  usb-total :
      (p : UsbDaliIn) (tx : Option UsbDaliTransaction) (d : UsbDali) (e : Answers)
      → d.transaction ≡ tx
      → total (handle_usb lib m recorder p tx (d, e)) ≡ total (d, e)
  usb-total p none d e h = refl
  usb-total p (some t) d e h = ground (arith, answer-total d e t)

  packet-total :
      (p : Option UsbDaliIn) (s : UsbDali × Answers)
      → total (handle_packet lib m recorder p s) ≡ total s
  packet-total none s = refl
  packet-total (some p) (d, e) = ground (arith, usb-total p d.transaction d e refl)

  timeout-total :
      (tx : Option UsbDaliTransaction) (d : UsbDali) (e : Answers)
      → d.transaction ≡ tx
      → total (receive_timeout_of lib m recorder tx (d, e)) ≡ total (d, e)
  timeout-total none d e h = refl
  timeout-total (some t) d e h = answer-total d e t h

  error-total :
      (tx : Option UsbDaliTransaction) (d : UsbDali) (e : Answers)
      → d.transaction ≡ tx
      → total (receive_error_of lib m recorder tx (d, e)) ≡ total (d, e)
  error-total none d e h = refl
  error-total (some t) d e h = answer-total d e t h

  received-total :
      (status : TransferStatus) (buffer : List ℕ) (s : UsbDali × Answers)
      → total (on_received lib m recorder status buffer s) ≡ total s
  unfolding on_received
  received-total completed buffer s =
      packet-total (decode_in (unpack m in_format (some buffer) (some (length buffer)))) s
  received-total cancelled buffer s = refl
  received-total timed_out buffer (d, e) = timeout-total d.transaction d e refl
  received-total error buffer (d, e) = error-total d.transaction d e refl
  received-total stall buffer (d, e) = error-total d.transaction d e refl
  received-total no_device buffer (d, e) = error-total d.transaction d e refl
  received-total overflow buffer (d, e) = error-total d.transaction d e refl

  fail-total :
      (err : UsbDaliError) (tx : Option UsbDaliTransaction) (d : UsbDali) (e : Answers)
      (r : UsbDali × Answers)
      → d.transaction ≡ tx
      → fail_send lib m recorder err tx (d, e) ≡ some r
      → total r ≡ total (d, e)
  fail-total err none d e r h p = cc
  fail-total err (some t) d e r h p = ap total (sym (some_inj _ _ p)) ∙ answer-total d e t h

  sent-total :
      (status : TransferStatus) (s r : UsbDali × Answers)
      → on_sent lib m recorder status s ≡ some r
      → total r ≡ total s
  unfolding on_sent
  sent-total completed s r p = ap total (sym (some_inj _ _ p))
  sent-total cancelled s r p = ap total (sym (some_inj _ _ p))
  sent-total timed_out (d, e) r p = fail-total send_timeout d.transaction d e r refl p
  sent-total error (d, e) r p = fail-total send_error d.transaction d e r refl p
  sent-total stall (d, e) r p = fail-total send_error d.transaction d e r refl p
  sent-total no_device (d, e) r p = fail-total send_error d.transaction d e r refl p
  sent-total overflow (d, e) r p = fail-total send_error d.transaction d e r refl p

  next_unless_shutdown-args : (d : UsbDali) → args (next_unless_shutdown lib m d) ≡ args d
  next_unless_shutdown-args d = go d.shutdown
    where
      go : (b : Bool) → args (if b then d else usbdali_next lib m d) ≡ args d
      go true = refl
      go false = ap (map (λ (r : Request). r.1)) (next-outstanding lib m d)

  -- A run with the connections whose requests were accepted, in order. Transfers may end at any
  -- time and with any status and contents; requests may be refused. A cancellation takes the
  -- connection out of the requests that are not answered.
  pub data Run : Answers → UsbDali × Answers → Type 0 where
    start : Run [] (usbdali_next lib m (initial lib m), [])
    request :
        {asked : Answers} {s : UsbDali × Answers} (frame : DaliFrame) (arg : Option ℕ)
        → Run asked s
        → Run
            (if ltb (length s.0.queue) s.0.queue_size then asked ++ arg ∷ [] else asked)
            ((usbdali_queue lib m s.0 frame arg).0, s.1)
    forgotten :
        {asked : Answers} {s : UsbDali × Answers} (arg : ℕ)
        → Run asked s
        → Run
            (take (length s.1) asked ++ map (unless arg) (drop (length s.1) asked))
            (usbdali_cancel s.0 arg, s.1)
    received :
        {asked : Answers} {s : UsbDali × Answers} (t : ℕ) (status : TransferStatus)
        (buffer : List ℕ)
        → Run asked s
        → Run asked (usbdali_receive_callback lib m recorder t status buffer s)
    sent :
        {asked : Answers} {s r : UsbDali × Answers} (t : ℕ) (status : TransferStatus)
        → Run asked s
        → usbdali_send_callback lib m recorder t status s ≡ some r
        → Run asked r

  queue-total :
      (d : UsbDali) (e asked : Answers) (frame : DaliFrame) (arg : Option ℕ)
      → total (d, e) ≡ asked
      → total ((usbdali_queue lib m d frame arg).0, e)
        ≡ (if ltb (length d.queue) d.queue_size then asked ++ arg ∷ [] else asked)
  queue-total d e asked frame arg h =
      go (ltb (length d.queue) d.queue_size) (queue-outstanding lib m d frame arg)
    where
      go :
          (b : Bool)
          → (if b
              then ((usbdali_queue lib m d frame arg).1 ≡ success)
                × (outstanding (usbdali_queue lib m d frame arg).0
                    ≡ outstanding d ++ (frame, arg) ∷ [])
              else ((usbdali_queue lib m d frame arg).1 ≡ queue_full)
                × ((usbdali_queue lib m d frame arg).0 ≡ d))
          → total ((usbdali_queue lib m d frame arg).0, e)
            ≡ (if b then asked ++ arg ∷ [] else asked)
      go false (_, same) = ap (λ x. total (x, e)) same ∙ h
      go true (_, more) =
          ap (λ r. e ++ map (λ (r : Request). r.1) r) more
          ∙ ap (λ l. e ++ l) (map-append (λ (r : Request). r.1) (outstanding d) ((frame, arg) ∷ []))
          ∙ sym (append_assoc e (args d) (arg ∷ []))
          ∙ ap (λ l. l ++ arg ∷ []) h

  pub sent_step :
      (t : ℕ) (status : TransferStatus) (s r : UsbDali × Answers) {asked : Answers}
      → total s ≡ asked
      → usbdali_send_callback lib m recorder t status s ≡ some r
      → total r ≡ asked
  unfolding usbdali_send_callback finish_send
  sent_step t status s r {asked} h p = finish (on_sent lib m recorder status s) refl p
    where
      finish :
          (o : Option (UsbDali × Answers))
          → on_sent lib m recorder status s ≡ o
          → Option.map (λ (d, e). (finish_send lib m t d, e)) o ≡ some r
          → total r ≡ asked
      finish none e q = cc
      finish (some u) e q =
          ap total (sym (some_inj (finish_send lib m t u.0, u.1) r q))
          ∙ ap (λ l. u.1 ++ l)
              (next_unless_shutdown-args (record u.0 {
                send_transfer = none;
                calls = free_transfers lib m t u.0.send_transfer u.0.calls;
              }))
          ∙ sent-total status s u e
          ∙ h

  pub received_step :
      (t : ℕ) (status : TransferStatus) (buffer : List ℕ) (s : UsbDali × Answers) {asked : Answers}
      → total s ≡ asked
      → total (usbdali_receive_callback lib m recorder t status buffer s) ≡ asked
  unfolding usbdali_receive_callback finish_receive
  received_step t status buffer s h =
      ap (λ l. (on_received lib m recorder status buffer s).1 ++ l)
        (next_unless_shutdown-args (record (on_received lib m recorder status buffer s).0 {
          recv_transfer = none;
          calls =
              free_transfers lib m t (on_received lib m recorder status buffer s).0.recv_transfer
                (on_received lib m recorder status buffer s).0.calls;
        }))
      ∙ received-total status buffer s
      ∙ h

  -- In every run of requests, cancellations and ends of transfers, with a client whose callbacks
  -- cancel nothing themselves: the answers given so far, followed by the connections of the requests
  -- that are active or queued, are the connections of the accepted requests in the order of
  -- acceptance, where a cancellation has taken its connection out of those that were not answered at
  -- the time.
  pub Run-args : {asked : Answers} {s : UsbDali × Answers} → Run asked s → s.1 ++ args s.0 ≡ asked
  Run-args start = ap (map (λ (r : Request). r.1)) (next-outstanding lib m (initial lib m))
  Run-args (request {asked} {s} frame arg run) = queue-total s.0 s.1 asked frame arg (Run-args run)
  Run-args (forgotten {asked} {s} arg run) = cancel-total s.0 s.1 asked arg (Run-args run)
  Run-args (received {s = s} t status buffer run) = received_step t status buffer s (Run-args run)
  Run-args (sent {s = s} {r = r} t status run p) = sent_step t status s r (Run-args run) p
