-- ===== src/Usb/Settled.antt =====
-- Every request to lib/usb.c is answered after a bounded number of transfers.
use mathlib.Core.Path.{subst}
use mathlib.Core.List.{append-nil}
use daliserver.Common.{
  ℕ, suc, ◌+◌, ◌-◌, ◌*◌, ◌≤◌, ◌≡◌, refl, sym, ap, ◌∙◌, true, false, Option, none, some, List, [],
  ◌++◌, map, arith, length, is_some, inl, inr,
}
use daliserver.Pack.{Machine}
use daliserver.Usb.{
  TransferStatus, timed_out, UsbDali, LibUsb, Call, usbdali_receive_callback, usbdali_send_callback,
}
use daliserver.Usb.Client.{Keeps-refl, IsClient}
use daliserver.Usb.Live.{inward, outward, live}
use daliserver.Usb.Requests.{Request, outstanding}
use daliserver.Usb.Answers.{Answers, recorder, args, total, received_step, sent_step}
use daliserver.Usb.Steps.{
  Has, IsRunning, Step, Reach, Reach-IsRunning, step-IsRunning, sent_returns, recv_of_Has,
  send_of_Has,
}
use daliserver.Usb.Retired.{is_final, timeout_final}
use daliserver.Usb.Remaining.{
  remaining, received-IsUnder, sent-IsUnder, nothing-remaining, remaining-outstanding,
}

pub recorder-IsClient : IsClient recorder
recorder-IsClient = record {
  inband_keeps = λ err frame response status arg s. Keeps-refl s.0;
  outband_keeps = λ err frame status s. Keeps-refl s.0;
}

module _ (lib : LibUsb) (m : Machine) where
  -- Transfers that end one after another, with their number: a send in any way, a receive with the
  -- answer to the active request or with a failure, or with anything if no request is active.
  pub data Ended : ℕ → UsbDali × Answers → UsbDali × Answers → Type 0 where
    nothing : (s : UsbDali × Answers) → Ended 0 s s
    received :
        {n : ℕ} {s r : UsbDali × Answers} (t : ℕ) (status : TransferStatus) (buffer : List ℕ)
        → Has (inward t) (live lib s.0.calls)
        → is_final m s.0.transaction status buffer ≡ true
        → Ended n (usbdali_receive_callback lib m recorder t status buffer s) r
        → Ended (suc n) s r
    sent :
        {n : ℕ} {s u r : UsbDali × Answers} (t : ℕ) (status : TransferStatus)
        → Has (outward t) (live lib s.0.calls)
        → usbdali_send_callback lib m recorder t status s ≡ some u
        → Ended n u r
        → Ended (suc n) s r

  Ended-total : {n : ℕ} {s r : UsbDali × Answers} → Ended n s r → total r ≡ total s
  Ended-total (nothing s) = refl
  Ended-total (received {s = s} t status buffer h final ended) =
      Ended-total ended ∙ received_step lib m t status buffer s refl
  Ended-total (sent {s = s} {u = u} t status h p ended) =
      Ended-total ended ∙ sent_step lib m t status s u refl p

some_of : (o : Option ℕ) → is_some o ≡ true → (t : ℕ) × (o ≡ some t)
some_of none e = cc
some_of (some t) e = (t, refl)

module _ (lib : LibUsb) (m : Machine)
    (accepts : (calls : List Call) → lib.accepts calls ≡ true) where
  Ended-remaining :
      {n : ℕ} {s r : UsbDali × Answers}
      → Ended lib m n s r
      → IsRunning lib s.0
      → s.0.shutdown ≡ false
      → remaining r.0 ≤ remaining s.0 - n
  Ended-remaining (nothing s) v up = omega arith
  Ended-remaining (received {s = s} t status buffer h final ended) v up =
      let e = recv_of_Has s.0 t (subst (Has (inward t)) v.inv.in_flight h) in
      let (up', under) = received-IsUnder lib m t status buffer s v.inv e up final in
      let w =
        step-IsRunning lib m accepts recorder recorder-IsClient (Step.received s t status buffer h)
          v in
      omega (arith, under, Ended-remaining ended w up')
  Ended-remaining (sent {s = s} {u = u} t status h p ended) v up =
      let e = send_of_Has s.0 t (subst (Has (outward t)) v.inv.in_flight h) in
      let (up', under) = sent-IsUnder lib m t status s u v.inv e up p in
      let w =
        step-IsRunning lib m accepts recorder recorder-IsClient (Step.sent s u t status h p) v in
      omega (arith, under, Ended-remaining ended w up')

  send_ends :
      (s : UsbDali × Answers) (t : ℕ)
      → IsRunning lib s.0
      → s.0.send_transfer ≡ some t
      → (next : UsbDali × Answers) × Ended lib m 1 s next
  send_ends s t v e =
      let (u, p, w) = sent_returns lib m accepts recorder recorder-IsClient s t timed_out v.inv e in
      let quiet = v.inv.alone (ap is_some e) in
      let h : Has (outward t) (live lib s.0.calls) =
        subst (Has (outward t)) (sym v.inv.in_flight) (rw (quiet, e) (inl refl)) in
      (u, Ended.sent t timed_out h p (Ended.nothing u))

  receive_ends :
      (s : UsbDali × Answers) (t : ℕ)
      → IsRunning lib s.0
      → s.0.recv_transfer ≡ some t
      → (next : UsbDali × Answers) × Ended lib m 1 s next
  receive_ends s t v e =
      let h : Has (inward t) (live lib s.0.calls) =
        subst (Has (inward t)) (sym v.inv.in_flight) (rw e (inl refl)) in
      (
        usbdali_receive_callback lib m recorder t timed_out [] s,
        Ended.received t timed_out [] h (timeout_final m s.0.transaction) (Ended.nothing _),
      )

  one_ends :
      {s : UsbDali × Answers}
      → Reach lib m recorder [] s
      → s.0.shutdown ≡ false
      → (next : UsbDali × Answers) × Ended lib m 1 s next
  one_ends {s} reach up =
      let v = Reach-IsRunning lib m accepts recorder recorder-IsClient reach in
      elim (v.busy up) [
        | inl e ↦ let (t, f) = some_of s.0.send_transfer e in send_ends s t v f
        | inr e ↦ let (t, f) = some_of s.0.recv_transfer e in receive_ends s t v f
      ]

  -- From a state that the driver reaches, let transfers in flight end, with no new request in
  -- between: a send with any status, a receive with any status and contents if no request is
  -- active, and otherwise with an answer to the active request or a failure but no cancellation.
  -- After twice as many of these as there are requests and one more, every request that was active
  -- or queued is answered, each once and in order. In each such state there is a transfer in flight
  -- that can end in this way. This is for a libusb that accepts every submission.
  pub all_answered :
      {n : ℕ} {s r : UsbDali × Answers}
      → Reach lib m recorder [] s
      → s.0.shutdown ≡ false
      → Ended lib m n s r
      → 2 * length (outstanding s.0) + 1 ≤ n
      → ((next : UsbDali × Answers) × Ended lib m 1 s next)
        × (outstanding r.0 ≡ [])
        × (r.1 ≡ s.1 ++ args s.0)
  all_answered {n} {s} {r} reach up ended enough =
      let v = Reach-IsRunning lib m accepts recorder recorder-IsClient reach in
      let under = Ended-remaining ended v up in
      let bound = remaining-outstanding lib s.0 v.inv in
      let empty = nothing-remaining r.0 (omega (arith, under, bound)) in
      (
        one_ends reach up,
        empty,
        sym (append-nil r.1)
            ∙ ap (λ l. r.1 ++ map (λ (q : Request). q.1) l) (sym empty)
            ∙ Ended-total lib m ended,
      )
