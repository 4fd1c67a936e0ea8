-- ===== src/Usb/Remaining.antt =====
-- The number of transfers of lib/usb.c that have to end until every request is answered: it falls
-- whenever one ends with an answer or a failure.
use mathlib.Core.Path.{subst}
use mathlib.Core.Option
use daliserver.Common.{
  ℕ, suc, ◌+◌, ◌-◌, ◌*◌, ◌≤◌, ◌≡◌, refl, sym, ap, ◌∙◌, Bool, true, false, ◌||◌, Option, none, some,
  List, [], ◌∷◌, ◌++◌, map, arith, length, ltb, some_inj, if◌then◌else◌, is_some, ◌⊎◌, inl, inr,
}
use daliserver.Pack.{Machine}
use daliserver.Usb.{
  UsbDaliTransaction, TransferStatus, UsbDali, LibUsb, usbdali_next, usbdali_send, usbdali_receive,
  on_sent, finish_receive, finish_send, usbdali_receive_callback, usbdali_send_callback,
  next_unless_shutdown, free_transfers,
}
use daliserver.Usb.Packet.{pack-out_fields}
use daliserver.Usb.Live.{Inv}
use daliserver.Usb.Requests.{outstanding, active_of, request_of}
use daliserver.Usb.Answers.{Answers, recorder}
use daliserver.Usb.Retired.{is_final, retired, received-retires, sent-retires}

-- How many transfers have to end at most.
abbrev pub remaining : UsbDali → ℕ
remaining d =
    if is_some d.send_transfer
    then 2 * length d.queue + 2
    else if is_some d.transaction || ltb 0 (length d.queue)
    then 2 * length d.queue + 1
    else 0

none_remains :
    (d : UsbDali) → remaining d ≡ 0 → (is_some d.transaction ≡ false) × (length d.queue ≡ 0)
none_remains d e = ground arith

length-map_request :
    (queue : List UsbDaliTransaction) → length (map request_of queue) ≡ length queue
length-map_request [] = refl
length-map_request (t ∷ queue) = ap (λ n. suc n) (length-map_request queue)

pub remaining-outstanding :
    (lib : LibUsb) (d : UsbDali) → Inv lib d → remaining d ≤ 2 * length (outstanding d) + 1
remaining-outstanding lib d v = ground (arith, v.owned, length-map_request d.queue)

pub nothing-remaining : (d : UsbDali) → remaining d ≡ 0 → outstanding d ≡ []
nothing-remaining d e = go d.transaction d.queue (none_remains d e)
  where
    go :
        (tx : Option UsbDaliTransaction) (queue : List UsbDaliTransaction)
        → (is_some tx ≡ false) × (length queue ≡ 0)
        → active_of tx ++ map request_of queue ≡ []
    go none [] h = refl
    go none (t ∷ queue) (_, h) = absurd (omega arith)
    go (some t) queue (h, _) = cc

abbrev pub IsUnder : ℕ → UsbDali → Type 0
IsUnder n d = (d.shutdown ≡ false) × (remaining d ≤ n)

module _ (lib : LibUsb) (m : Machine) where
  idle-remaining :
      (d : UsbDali) (queue : List UsbDaliTransaction)
      → d.queue ≡ queue
      → d.send_transfer ≡ none
      → d.transaction ≡ none
      → d.recv_transfer ≡ none
      → remaining (usbdali_next lib m d) ≤ 2 * length d.queue
  unfolding usbdali_next usbdali_send usbdali_receive
  idle-remaining d [] e f g h = ground arith
  idle-remaining d (t ∷ queue) e f g h = ground (arith, pack-out_fields m d.seq_num t.request)

  active-remaining :
      (d : UsbDali)
      → d.send_transfer ≡ none
      → is_some d.transaction ≡ true
      → d.recv_transfer ≡ none
      → remaining (usbdali_next lib m d) ≤ 2 * length d.queue + 1
  unfolding usbdali_next usbdali_receive
  active-remaining d f g h = ground arith

  next-shutdown :
      (d : UsbDali) (queue : List UsbDaliTransaction)
      → d.queue ≡ queue
      → (usbdali_next lib m d).shutdown ≡ d.shutdown
  unfolding usbdali_next usbdali_send usbdali_receive
  next-shutdown d [] e = ground arith
  next-shutdown d (t ∷ queue) e = ground (arith, pack-out_fields m d.seq_num t.request)

  IsUnder-le : (n k : ℕ) (d : UsbDali) → n ≤ k → IsUnder n d → IsUnder k d
  IsUnder-le n k d h (up, under) = (up, omega arith)

  next-IsUnder :
      (n : ℕ) (d : UsbDali)
      → d.shutdown ≡ false
      → remaining (usbdali_next lib m d) ≤ n
      → IsUnder n (next_unless_shutdown lib m d)
  next-IsUnder n d up h =
      subst (IsUnder n) (sym (go d.shutdown up)) (next-shutdown d d.queue refl ∙ up, h)
    where
      go : (b : Bool) → b ≡ false → (if b then d else usbdali_next lib m d) ≡ usbdali_next lib m d
      go true e = cc
      go false e = refl

  receive-IsUnder :
      (t : ℕ) (d : UsbDali)
      → d.send_transfer ≡ none
      → d.transaction ≡ none
      → d.shutdown ≡ false
      → IsUnder (2 * length d.queue) (finish_receive lib m t d)
  unfolding finish_receive
  receive-IsUnder t d e f up =
      let d' = record d {
        recv_transfer = none;
        calls = free_transfers lib m t d.recv_transfer d.calls;
      } in
      next-IsUnder (2 * length d.queue) d' up (idle-remaining d' d.queue refl e f refl)

  -- The end of a receive that ends the transaction.
  pub received-IsUnder :
      (t : ℕ) (status : TransferStatus) (buffer : List ℕ) (s : UsbDali × Answers)
      → Inv lib s.0
      → s.0.recv_transfer ≡ some t
      → s.0.shutdown ≡ false
      → is_final m s.0.transaction status buffer ≡ true
      → IsUnder (remaining s.0 - 1) (usbdali_receive_callback lib m recorder t status buffer s).0
  unfolding usbdali_receive_callback
  received-IsUnder t status buffer (d, answers) v e up final =
      let idle : d.send_transfer ≡ none = ground (arith, v.alone) in
      let fewer : 2 * length d.queue ≤ remaining d - 1 = ground (arith, idle) in
      subst (λ x. IsUnder (remaining d - 1) (finish_receive lib m t x))
        (sym (received-retires lib m status buffer d answers d.transaction refl final))
        (IsUnder-le (2 * length d.queue) (remaining d - 1) (finish_receive lib m t (retired d))
          fewer (receive-IsUnder t (retired d) idle refl up))

  any-remaining :
      (d : UsbDali) (tx : Option UsbDaliTransaction)
      → d.transaction ≡ tx
      → d.send_transfer ≡ none
      → d.recv_transfer ≡ none
      → remaining (usbdali_next lib m d) ≤ 2 * length d.queue + 1
  any-remaining d none e f h = omega (arith, idle-remaining d d.queue refl f e h)
  any-remaining d (some t) e f h = active-remaining d f (ap is_some e) h

  send-IsUnder :
      (t : ℕ) (d : UsbDali)
      → d.recv_transfer ≡ none
      → d.shutdown ≡ false
      → IsUnder (2 * length d.queue + 1) (finish_send lib m t d)
  unfolding finish_send
  send-IsUnder t d e up =
      let d' = record d {
        send_transfer = none;
        calls = free_transfers lib m t d.send_transfer d.calls;
      } in
      next-IsUnder (2 * length d.queue + 1) d' up (any-remaining d' d.transaction refl refl e)

  -- The end of a send, however it ends.
  pub sent-IsUnder :
      (t : ℕ) (status : TransferStatus) (s r : UsbDali × Answers)
      → Inv lib s.0
      → s.0.send_transfer ≡ some t
      → s.0.shutdown ≡ false
      → usbdali_send_callback lib m recorder t status s ≡ some r
      → IsUnder (remaining s.0 - 1) r.0
  unfolding usbdali_send_callback
  sent-IsUnder t status (d, answers) r v e up p =
      finish (on_sent lib m recorder status (d, answers)) refl p
    where
      quiet : d.recv_transfer ≡ none
      quiet = v.alone (ap is_some e)

      fewer : 2 * length d.queue + 1 ≤ remaining d - 1
      fewer = rw e (omega arith)

      over :
          (x : UsbDali)
          → (x ≡ d) ⊎ (x ≡ retired d)
          → IsUnder (remaining d - 1) (finish_send lib m t x)
      over x (inl f) =
          subst (λ y. IsUnder (remaining d - 1) (finish_send lib m t y)) (sym f)
            (IsUnder-le (2 * length d.queue + 1) (remaining d - 1) (finish_send lib m t d) fewer
              (send-IsUnder t d quiet up))
      over x (inr f) =
          subst (λ y. IsUnder (remaining d - 1) (finish_send lib m t y)) (sym f)
            (IsUnder-le (2 * length d.queue + 1) (remaining d - 1) (finish_send lib m t (retired d))
              fewer (send-IsUnder t (retired d) quiet up))

      finish :
          (o : Option (UsbDali × Answers))
          → on_sent lib m recorder status (d, answers) ≡ o
          → Option.map (λ (d, e). (finish_send lib m t d, e)) o ≡ some r
          → IsUnder (remaining d - 1) r.0
      finish none f q = cc
      finish (some u) f q =
          subst (λ (x : UsbDali × Answers). IsUnder (remaining d - 1) x.0)
            (some_inj (finish_send lib m t u.0, u.1) r q)
            (over u.0 (sent-retires lib m status d answers u f))
