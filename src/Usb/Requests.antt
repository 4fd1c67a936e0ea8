-- ===== src/Usb/Requests.antt =====
-- The requests that lib/usb.c has accepted and not answered: the active one, then the queue.
use mathlib.Core.Option
use daliserver.Common.{
  ℕ, ◌+◌, ◌%◌, ◌<◌, ◌≡◌, ◌≢◌, refl, sym, ap, ◌∙◌, Option, none, some, List, [], ◌∷◌, ◌++◌, map,
  arith, length, ltb, if◌then◌else◌, inl, inr, Bool-cases,
}
use mathlib.Core.List.{append_assoc, map-append}
use mathlib.Core.Path.{subst}
use daliserver.Frame.{DaliFrame}
use daliserver.Pack.{Machine}
use daliserver.Usb.{
  success, queue_full, UsbDaliTransaction, UsbDali, LibUsb, usbdali_receive, usbdali_send,
  usbdali_next, usbdali_queue, clear_arg, is_arg, usbdali_cancel, submit_out, send_dequeued,
  list_dequeue,
}
use daliserver.Usb.Packet.{out_packet, pack-out_fields}

abbrev pub Request : Type 0
Request = DaliFrame × Option ℕ

abbrev pub request_of : UsbDaliTransaction → Request
request_of t = (t.request, t.arg)

abbrev pub active_of : Option UsbDaliTransaction → List Request
active_of none = []
active_of (some t) = request_of t ∷ []

abbrev pub outstanding : UsbDali → List Request
outstanding d = active_of d.transaction ++ map request_of d.queue

module _ (lib : LibUsb) (m : Machine) where
  receive-outstanding : (d : UsbDali) → outstanding (usbdali_receive lib m d) ≡ outstanding d
  unfolding usbdali_receive
  receive-outstanding d = ground arith

  send-outstanding :
      (d : UsbDali) (t : UsbDaliTransaction)
      → d.send_transfer ≡ none
      → d.transaction ≡ none
      → outstanding (usbdali_send lib m d t) ≡ request_of t ∷ map request_of d.queue
  unfolding usbdali_send
  send-outstanding d t e h = rw (e, h, pack-out_fields m d.seq_num t.request)

  dequeued-outstanding :
      (d : UsbDali) (q : List UsbDaliTransaction)
      → d.send_transfer ≡ none
      → d.transaction ≡ none
      → outstanding (send_dequeued lib m d (list_dequeue q)) ≡ map request_of q
  dequeued-outstanding d [] e h = receive-outstanding (record d { queue = [] }) ∙ rw h
  dequeued-outstanding d (t ∷ q) e h = send-outstanding (record d { queue = q }) t e h

  -- `usbdali_next` loses, adds and reorders no request.
  pub next-outstanding : (d : UsbDali) → outstanding (usbdali_next lib m d) ≡ outstanding d
  unfolding usbdali_next
  next-outstanding d = ground (arith, dequeued-outstanding d d.queue, receive-outstanding d)

  -- `usbdali_queue` appends the request behind all others if the queue has room, and otherwise
  -- reports a full queue and leaves the driver alone.
  pub queue-outstanding :
      (d : UsbDali) (frame : DaliFrame) (arg : Option ℕ)
      → let (d', result) = usbdali_queue lib m d frame arg in
        if ltb (length d.queue) d.queue_size
        then (result ≡ success) × (outstanding d' ≡ outstanding d ++ (frame, arg) ∷ [])
        else (result ≡ queue_full) × (d' ≡ d)
  unfolding usbdali_queue
  queue-outstanding d frame arg = elim (Bool-cases (ltb (length d.queue) d.queue_size)) [
    | inr e ↦ rw e (refl, refl)
    | inl e ↦
        let added : UsbDaliTransaction = record { seq_num = 0; request = frame; arg = arg } in
        rw e (
          refl,
          next-outstanding (record d { queue = d.queue ++ added ∷ [] })
              ∙ ap (λ r. active_of d.transaction ++ r) (map-append request_of d.queue (added ∷ []))
              ∙ sym (
                  append_assoc (active_of d.transaction) (map request_of d.queue)
                    ((frame, arg) ∷ [])),
        )
  ]

  -- A waiting command goes out when the driver is idle: the packet carries the next sequence number
  -- and the frame of the first request, which becomes the active one under that number; the next
  -- number is one more, modulo 256.
  pub next_sends :
      (d : UsbDali) (t : UsbDaliTransaction) (q : List UsbDaliTransaction)
      → d.send_transfer ≡ none
      → d.transaction ≡ none
      → d.recv_transfer ≡ none
      → d.queue ≡ t ∷ q
      → d.seq_num < 256
      → let d' = usbdali_next lib m d in
        let transfer = lib.alloc_transfer d.calls in
        (d'.calls ≡ submit_out transfer (out_packet d.seq_num t.request) ∷ d.calls)
        × (d'.send_transfer ≡ some transfer)
        × (d'.transaction ≡ some (record t { seq_num = d.seq_num }))
        × (d'.queue ≡ q)
        × (d'.seq_num ≡ (d.seq_num + 1) % 256)
  unfolding usbdali_next usbdali_send
  next_sends d t q idle free quiet waiting small =
      ground (arith, pack-out_fields m d.seq_num t.request)

abbrev pub forget : ℕ → Request → Request
forget arg (frame, a) = (frame, if is_arg arg a then none else a)

abbrev pub NoneNames : ℕ → List Request → Type 0
NoneNames arg [] = Unit
NoneNames arg ((frame, a) ∷ rest) = (a ≢ some arg) × NoneNames arg rest

forget-map :
    (arg : ℕ) (q : List UsbDaliTransaction)
    → map request_of (map (clear_arg arg) q) ≡ map (forget arg) (map request_of q)
forget-map arg [] = refl
forget-map arg (t ∷ q) = ground (arith, forget-map arg q)

forget-ne : (arg : ℕ) (a : Option ℕ) → (if is_arg arg a then none else a) ≢ some arg
forget-ne arg none h = cc
forget-ne arg (some a) h = ground arith

NoneNames-forget : (arg : ℕ) (r : List Request) → NoneNames arg (map (forget arg) r)
NoneNames-forget arg [] = tt
NoneNames-forget arg ((frame, a) ∷ r) = (forget-ne arg a, NoneNames-forget arg r)

cancel-map :
    (d : UsbDali) (arg : ℕ) → outstanding (usbdali_cancel d arg) ≡ map (forget arg) (outstanding d)
unfolding usbdali_cancel
cancel-map d arg = go d.transaction
  where
    go :
        (tx : Option UsbDaliTransaction)
        → active_of (Option.map (clear_arg arg) tx) ++ map request_of (map (clear_arg arg) d.queue)
          ≡ map (forget arg) (active_of tx ++ map request_of d.queue)
    go none = forget-map arg d.queue
    go (some t) = ground (arith, forget-map arg d.queue)

-- `usbdali_cancel` takes a connection out of every request that waits for it. It keeps the frames,
-- the order and the connections of the other requests, and afterwards no request names it.
pub cancel-outstanding :
    (d : UsbDali) (arg : ℕ)
    → (outstanding (usbdali_cancel d arg) ≡ map (forget arg) (outstanding d))
      × NoneNames arg (outstanding (usbdali_cancel d arg))
cancel-outstanding d arg =
    let e = cancel-map d arg in
    (e, subst (NoneNames arg) (sym e) (NoneNames-forget arg (outstanding d)))
