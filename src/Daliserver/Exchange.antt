-- ===== src/Daliserver/Exchange.antt =====
-- The steps of one command of a client through the driver and back: src/daliserver.c and lib/usb.c.
use daliserver.Common.{
  ℕ, ◌+◌, ◌*◌, ◌<◌, ◌≡◌, refl, ap, ◌∙◌, Bool, true, false, none, some, List, [], ◌∷◌, arith, ltb,
  ◌==◌, ==_refl, if◌then◌else◌,
}
use daliserver.Frame.{DaliFrame, daliframe_new}
use daliserver.Pack.{Machine}
use daliserver.Usb.{
  UsbDali, UsbDaliTransaction, LibUsb, Call, submit_in, submit_out, cancel_transfer, free_transfer,
  UsbDaliError, success, handle_packet, retire, cancelled, completed, usbdali_receive_callback,
  usbdali_send_callback, usbdali_queue, usbdali_next, usbdali_send, usbdali_receive, on_received,
  on_sent, finish_receive, finish_send,
}
use daliserver.Usb.Packet.{out_packet, pack-out_fields, received, decode-unpack}
use daliserver.Net.{Connection, Server, Sockets, written, idle, list_find}
use daliserver.Net.Broadcast.{TakeFrames, reply-writes}
use daliserver.Daliserver.{
  callbacks, net_dequeue_connection, frame_of, NetStatus, dali_inband_handler,
}

-- The driver while it has nothing to send: it receives by the transfer `t`.
abbrev pub listening : ℕ → ℕ → ℕ → List Call → UsbDali
listening t queue_size seq_num calls = record {
  recv_transfer = some t;
  send_transfer = none;
  transaction = none;
  queue_size = queue_size;
  queue = [];
  seq_num = seq_num;
  shutdown = false;
  calls = calls;
}

-- An answer with a value or without one, as the adapter sends it and as the client gets it.
abbrev pub answer : ℕ → Bool → (u e a v s1 s0 : ℕ) → List ℕ → List ℕ
answer seq has_value u e a v s1 s0 rest =
    received 0x12 (if has_value then 0x72 else 0x71) u e a v s1 s0 seq rest

abbrev pub reply : Bool → ℕ → List ℕ
reply true v = frame_of NetStatus.response v 0
reply false v = frame_of NetStatus.success 0 0

abbrev pub request : ℕ → DaliFrame → ℕ → UsbDaliTransaction
request seq_num frame conn = record { seq_num = seq_num; request = frame; arg = some conn }

module _ (net : Sockets) (lib : LibUsb) (m : Machine) (t size seq : ℕ) (calls : List Call)
    (frame : DaliFrame) (conn : ℕ) where
  -- The command is queued, and the receiving transfer is told to end.
  abbrev pub queued : UsbDali
  queued = record (listening t size seq (cancel_transfer t ∷ calls)) {
    queue = request 0 frame conn ∷ [];
  }

  abbrev pub out_transfer : ℕ
  out_transfer = lib.alloc_transfer (free_transfer t ∷ cancel_transfer t ∷ calls)

  -- The calls up to the one that sends the command.
  abbrev pub calls_sent : List Call
  calls_sent =
      submit_out out_transfer (out_packet seq frame) ∷ free_transfer t ∷ cancel_transfer t ∷ calls

  abbrev pub next_seq : ℕ
  next_seq = if seq == 0xff then 0 else seq + 1

  abbrev pub sending : UsbDali
  sending = record (listening t size next_seq calls_sent) {
    recv_transfer = none;
    send_transfer = some out_transfer;
    transaction = some (request seq frame conn);
  }

  pub queue_lem :
      ltb 0 size ≡ true
      → usbdali_queue lib m (listening t size seq calls) frame (some conn) ≡ (queued, success)
  unfolding usbdali_queue usbdali_next
  queue_lem room = rw room refl

  pub cancelled_lem :
      (sv : Server)
      → usbdali_receive_callback lib m (callbacks net) t cancelled [] (queued, sv) ≡ (sending, sv)
  unfolding usbdali_receive_callback on_received finish_receive usbdali_next usbdali_send
  cancelled_lem sv = rw (==_refl t) (rw (pack-out_fields m seq frame) refl)

  -- After the command is out: the driver receives the answer.
  abbrev pub in_transfer : ℕ
  in_transfer = lib.alloc_transfer (free_transfer out_transfer ∷ calls_sent)

  abbrev pub calls_asked : List Call
  calls_asked = submit_in in_transfer ∷ free_transfer out_transfer ∷ calls_sent

  abbrev pub asking : UsbDali
  asking = record (listening in_transfer size next_seq calls_asked) {
    transaction = some (request seq frame conn);
  }

  pub sent_lem :
      (sv : Server)
      → usbdali_send_callback lib m (callbacks net) out_transfer completed (sending, sv)
        ≡ some (asking, sv)
  unfolding usbdali_send_callback on_sent finish_send usbdali_next usbdali_receive
  sent_lem sv = rw (==_refl out_transfer) refl

  -- The driver is as before, with the next sequence number and another receiving transfer.
  abbrev pub calls_answered : List Call
  calls_answered = free_transfer in_transfer ∷ calls_asked

  abbrev pub done : UsbDali
  done =
      listening (lib.alloc_transfer calls_answered) size next_seq
        (submit_in (lib.alloc_transfer calls_answered) ∷ calls_answered)

  answer-decoded :
      (has_value : Bool) (u e a v s1 s0 : ℕ) (rest : List ℕ) (sv : Server)
      → s0 < 256
      → on_received lib m
          (callbacks net)
          completed
          (answer seq has_value u e a v s1 s0 rest)
          (asking, sv)
        ≡ retire lib m (callbacks net) (
            dali_inband_handler net
              (if has_value then UsbDaliError.response else success)
              (daliframe_new a v)
              (if has_value then v else 0xff)
              (s0 + s1 * 256)
              (some conn)
              (asking, sv))
  unfolding on_received
  answer-decoded has_value u e a v s1 s0 rest sv small =
      ap (λ p. handle_packet lib m (callbacks net) p (asking, sv))
        (decode-unpack m 0x12 (if has_value then 0x72 else 0x71) u e a v s1 s0 seq rest [] small
          (omega arith)).0
      ∙ go has_value
    where
      go :
          (b : Bool)
          → handle_packet lib m
              (callbacks net)
              (some (record {
                direction = 0x12;
                type = if b then 0x72 else 0x71;
                ecommand = e;
                address = a;
                command = v;
                status = s0 + s1 * 256;
                seqnum = seq;
              }))
              (asking, sv)
            ≡ retire lib m (callbacks net) (
                dali_inband_handler net
                  (if b then UsbDaliError.response else success)
                  (daliframe_new a v)
                  (if b then v else 0xff)
                  (s0 + s1 * 256)
                  (some conn)
                  (asking, sv))
      go true = rw (==_refl seq) refl
      go false = rw (==_refl seq) refl

  inband_lem :
      (has_value : Bool) (a v status : ℕ) (sv : Server) (c : Connection)
      → TakeFrames net 4
      → sv.framesize ≡ 4
      → list_find conn sv.connections ≡ some c
      → dali_inband_handler net
          (if has_value then UsbDaliError.response else success)
          (daliframe_new a v)
          (if has_value then v else 0xff)
          status
          (some conn)
          (asking, sv)
        ≡ (asking, written c (reply has_value v) (idle conn sv))
  unfolding dali_inband_handler
  inband_lem true a v status sv c takes size found =
      reply-writes net (net_dequeue_connection net) c conn (reply true v) asking sv found
        (omega arith) (rw size (takes sv.actions c.socket (reply true v) (omega arith)))
  inband_lem false a v status sv c takes size found =
      reply-writes net (net_dequeue_connection net) c conn (reply false v) asking sv found
        (omega arith) (rw size (takes sv.actions c.socket (reply false v) (omega arith)))

  finish_lem : finish_receive lib m in_transfer (record asking { transaction = none }) ≡ done
  unfolding finish_receive usbdali_next usbdali_receive
  finish_lem = rw (==_refl in_transfer) refl

  pub answered_lem :
      (has_value : Bool) (u e a v s1 s0 : ℕ) (rest : List ℕ) (sv : Server) (c : Connection)
      → s0 < 256
      → TakeFrames net 4
      → sv.framesize ≡ 4
      → list_find conn sv.connections ≡ some c
      → usbdali_receive_callback lib m
          (callbacks net)
          in_transfer
          completed
          (answer seq has_value u e a v s1 s0 rest)
          (asking, sv)
        ≡ (done, written c (reply has_value v) (idle conn sv))
  unfolding usbdali_receive_callback
  answered_lem has_value u e a v s1 s0 rest sv c small takes size found =
      ap (λ (s : UsbDali × Server). (finish_receive lib m in_transfer s.0, s.1))
        (answer-decoded has_value u e a v s1 s0 rest sv small
          ∙ ap (retire lib m (callbacks net))
              (inband_lem has_value a v (s0 + s1 * 256) sv c takes size found))
      ∙ ap (λ d. (d, written c (reply has_value v) (idle conn sv))) finish_lem
