-- ===== src/Usb/Steps.antt =====
-- The driver of lib/usb.c as a step relation: requests and cancellations of the client, and the
-- callbacks of the transfers that are in flight. Its invariant, and what follows from it.
use mathlib.Core.Path.{subst}
use daliserver.Common.{
  ℕ, ◌≤◌, ◌≡◌, refl, sym, ap, ◌∙◌, Bool, true, false, Option, none, some, List, [], ◌∷◌, ◌++◌,
  arith, length, length-append, ltb, some_inj, if◌then◌else◌, Bool-cases, ◌⊎◌, inl, inr,
}
use daliserver.Frame.{DaliFrame}
use daliserver.Pack.{Machine}
use daliserver.Usb.{
  next_unless_shutdown, free_transfers, UsbDaliTransaction, TransferStatus, UsbDali, LibUsb,
  Callbacks, usbdali_next, usbdali_queue, initial, on_received, finish_receive, finish_send,
  usbdali_receive_callback, usbdali_send_callback, usbdali_cancel, Call,
}
use daliserver.Usb.Client.{
  Keeps, Keeps-length, Keeps-active_seq, Keeps-Inv, cancel-Keeps, IsClient, Outcome,
  received-Outcome, sent-Outcome,
}
use daliserver.Usb.Live.{
  Transfer, inward, outward, live, recorded, active_seq, Inv, IsBusy, next-Inv, next-IsBusy,
}

-- What an outcome leaves as it was.
pub record Facts (d d' : UsbDali) : Type 0 where
  pub recv : d'.recv_transfer ≡ d.recv_transfer
  pub send : d'.send_transfer ≡ d.send_transfer
  pub size : d'.queue_size ≡ d.queue_size
  pub waiting : length d'.queue ≡ length d.queue
  pub seq : d'.seq_num ≡ d.seq_num
  pub down : d'.shutdown ≡ d.shutdown
  pub asked : d'.calls ≡ d.calls
  pub active : active_seq d'.transaction ≤ active_seq d.transaction

Keeps-Facts : (d d' : UsbDali) → Keeps d d' → Facts d d'
Keeps-Facts d d' k = ground (arith, Keeps-length d d' k, Keeps-active_seq d d' k)

pub Outcome-Facts : (d d' : UsbDali) → Outcome d d' → Facts d d'
Outcome-Facts d d' (inl k) = Keeps-Facts d d' k
Outcome-Facts d d' (inr (k, keeps, e)) = ground (arith, Keeps-Facts d k keeps)

module _ (lib : LibUsb) (m : Machine)
    (accepts : (calls : List Call) → lib.accepts calls ≡ true) where
  received-Inv :
      (t : ℕ) (d d' : UsbDali)
      → Inv lib d
      → d.recv_transfer ≡ some t
      → Facts d d'
      → Inv lib (record d' {
        recv_transfer = none;
        calls = free_transfers lib m t d'.recv_transfer d'.calls;
      })
  received-Inv t d d' v e f = ground (arith, ap (live lib) f.asked, v.in_flight)

  sent-Inv :
      (t : ℕ) (d d' : UsbDali)
      → Inv lib d
      → d.send_transfer ≡ some t
      → Facts d d'
      → Inv lib (record d' {
        send_transfer = none;
        calls = free_transfers lib m t d'.send_transfer d'.calls;
      })
  sent-Inv t d d' v e f = ground (arith, ap (live lib) f.asked, v.in_flight)

abbrev pub Has : Transfer → List Transfer → Type 0
Has x [] = ⊥
Has x (y ∷ ys) = (y ≡ x) ⊎ Has x ys

pub recv_of_Has : (d : UsbDali) (t : ℕ) → Has (inward t) (recorded d) → d.recv_transfer ≡ some t
recv_of_Has d t h = ground arith

pub send_of_Has : (d : UsbDali) (t : ℕ) → Has (outward t) (recorded d) → d.send_transfer ≡ some t
send_of_Has d t h = ground arith

-- The invariant, with a transfer out unless the driver is shutting down.
pub record IsRunning (lib : LibUsb) (d : UsbDali) : Type 0 where
  pub inv : Inv lib d
  pub busy : d.shutdown ≡ false → IsBusy d

module _ (lib : LibUsb) (m : Machine) {E : Type 0} (cb : Callbacks E) where
  -- What can happen to the driver. `none` from the callback of a send is no step: it is a crash.
  pub data Step : UsbDali × E → UsbDali × E → Type 0 where
    request :
        (s : UsbDali × E) (frame : DaliFrame) (arg : Option ℕ)
        → Step s ((usbdali_queue lib m s.0 frame arg).0, s.1)
    forget : (s : UsbDali × E) (arg : ℕ) → Step s (usbdali_cancel s.0 arg, s.1)
    received :
        (s : UsbDali × E) (t : ℕ) (status : TransferStatus) (buffer : List ℕ)
        → Has (inward t) (live lib s.0.calls)
        → Step s (usbdali_receive_callback lib m cb t status buffer s)
    sent :
        (s r : UsbDali × E) (t : ℕ) (status : TransferStatus)
        → Has (outward t) (live lib s.0.calls)
        → usbdali_send_callback lib m cb t status s ≡ some r
        → Step s r
    client : (s : UsbDali × E) (e : E) → Step s (s.0, e)

  pub data Reach (start : E) : UsbDali × E → Type 0 where
    here : Reach start (usbdali_next lib m (initial lib m), start)
    step : {s r : UsbDali × E} → Reach start s → Step s r → Reach start r

module _ (lib : LibUsb) (m : Machine) (accepts : (calls : List Call) → lib.accepts calls ≡ true)
    {E : Type 0} (cb : Callbacks E) (keeps : IsClient cb) where
  queue-IsRunning :
      (d : UsbDali) (frame : DaliFrame) (arg : Option ℕ)
      → IsRunning lib d
      → IsRunning lib (usbdali_queue lib m d frame arg).0
  unfolding usbdali_queue
  queue-IsRunning d frame arg v = elim (Bool-cases (ltb (length d.queue) d.queue_size)) [
    | inr e ↦ rw e v
    | inl e ↦
        let t : UsbDaliTransaction = record { seq_num = 0; request = frame; arg = arg } in
        let d' : UsbDali = record d { queue = d.queue ++ t ∷ [] } in
        let v' : Inv lib d' = ground (arith, length-append d.queue (t ∷ [])) in
        rw e
          (record { inv = next-Inv lib m accepts d' v'; busy = λ _. next-IsBusy lib m accepts d' })
  ]

  finish-IsRunning : (d : UsbDali) → Inv lib d → IsRunning lib (next_unless_shutdown lib m d)
  finish-IsRunning d v = go d.shutdown refl
    where
      go : (b : Bool) → d.shutdown ≡ b → IsRunning lib (if b then d else usbdali_next lib m d)
      go true e = record { inv = v; busy = λ h. cc }
      go false e = record {
        inv = next-Inv lib m accepts d v;
        busy = λ _. next-IsBusy lib m accepts d;
      }

  received-IsRunning :
      (s : UsbDali × E) (t : ℕ) (status : TransferStatus) (buffer : List ℕ)
      → Inv lib s.0
      → s.0.recv_transfer ≡ some t
      → IsRunning lib (usbdali_receive_callback lib m cb t status buffer s).0
  unfolding usbdali_receive_callback finish_receive
  received-IsRunning s t status buffer v e =
      let o = received-Outcome m lib cb keeps status buffer s in
      let d' = (on_received lib m cb status buffer s).0 in
      finish-IsRunning _ (received-Inv lib m accepts t s.0 d' v e (Outcome-Facts s.0 d' o))

  pub sent_returns :
      (s : UsbDali × E) (t : ℕ) (status : TransferStatus)
      → Inv lib s.0
      → s.0.send_transfer ≡ some t
      → (r : UsbDali × E) × (usbdali_send_callback lib m cb t status s ≡ some r) × IsRunning lib r.0
  unfolding usbdali_send_callback finish_send
  sent_returns s t status v e =
      let (r, p, o) = sent-Outcome m lib cb keeps status s (ground arith) in
      (
        (finish_send lib m t r.0, r.1),
        rw p,
        finish-IsRunning _ (sent-Inv lib m accepts t s.0 r.0 v e (Outcome-Facts s.0 r.0 o)),
      )

  cancel-IsRunning :
      (d : UsbDali) (arg : ℕ) → IsRunning lib d → IsRunning lib (usbdali_cancel d arg)
  cancel-IsRunning d arg v =
      let k = cancel-Keeps d arg in
      record { inv = Keeps-Inv lib d (usbdali_cancel d arg) k v.inv; busy = ground (arith, v.busy) }

  initial-Inv : Inv lib (initial lib m)
  initial-Inv = ground arith

  pub step-IsRunning :
      {s r : UsbDali × E} → Step lib m cb s r → IsRunning lib s.0 → IsRunning lib r.0
  step-IsRunning (request s frame arg) v = queue-IsRunning s.0 frame arg v
  step-IsRunning (forget s arg) v = cancel-IsRunning s.0 arg v
  step-IsRunning (received s t status buffer h) v =
      received-IsRunning s t status buffer v.inv
        (recv_of_Has s.0 t (subst (Has (inward t)) v.inv.in_flight h))
  step-IsRunning (sent s r t status h p) v =
      let (r', p', v') =
        sent_returns s t status v.inv
          (send_of_Has s.0 t (subst (Has (outward t)) v.inv.in_flight h)) in
      let same : r' ≡ r = some_inj r' r (sym p' ∙ p) in subst (λ x. IsRunning lib x.0) same v'
  step-IsRunning (client s e) v = v

  -- In every state that the driver reaches, exactly the transfers in its two fields are in flight,
  -- nothing is received while a command is sent, a command being sent has its transaction, the
  -- queue is within its size and the sequence numbers are bytes. Unless it shuts down, a transfer
  -- is out. This is for a libusb that accepts every submission and callbacks that keep the
  -- client's contract.
  pub Reach-IsRunning : {start : E} {s : UsbDali × E} → Reach lib m cb start s → IsRunning lib s.0
  Reach-IsRunning here = record {
    inv = next-Inv lib m accepts (initial lib m) initial-Inv;
    busy = λ _. next-IsBusy lib m accepts (initial lib m);
  }
  Reach-IsRunning (step r st) = step-IsRunning st (Reach-IsRunning r)

  -- With a libusb that accepts every submission, and callbacks that keep the contract of the client:
  -- in a reachable state the callback of a command in flight always returns, whatever the status,
  -- since the transaction that it reads is there. The state that it leaves satisfies the invariant.
  pub send_callback_returns :
      {start : E} {s : UsbDali × E} (t : ℕ) (status : TransferStatus)
      → Reach lib m cb start s
      → Has (outward t) (live lib s.0.calls)
      → (r : UsbDali × E) × (usbdali_send_callback lib m cb t status s ≡ some r) × IsRunning lib r.0
  send_callback_returns {s = s} t status reach h =
      let v = Reach-IsRunning reach in
      sent_returns s t status v.inv (send_of_Has s.0 t (subst (Has (outward t)) v.inv.in_flight h))
