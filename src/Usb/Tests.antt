-- ===== src/Usb/Tests.antt =====
-- Runs of lib/usb.c: a request that is sent and answered, and a libusb that refuses.
use daliserver.Common.{
  not, is_some, ℕ, ◌+◌, ◌*◌, ◌%◌, ◌≤◌, ◌≡◌, refl, true, false, none, some, List, [], ◌∷◌, ◌++◌,
  arith, length, ltb, inl, if◌then◌else◌,
}
use daliserver.Frame.{DaliFrame, daliframe_new}
use daliserver.Pack.{Machine, pack, unpack}
use daliserver.Usb.{
  UsbDali, LibUsb, success, queue_full, completed, cancelled, timed_out, finish_send, on_sent,
  submit_out, initial, decode_in, in_format, usbdali_receive, usbdali_send, finish_receive,
  on_received, usbdali_next, usbdali_queue, usbdali_cancel, usbdali_receive_callback,
  usbdali_send_callback,
}
use daliserver.Usb.Packet.{out_packet, received, decode-unpack}
use daliserver.Usb.Live.{outward, live, recorded}
use daliserver.Usb.Settled.{recorder-IsClient, Ended, all_answered}
use daliserver.Usb.Steps.{Step, Reach, Has, IsRunning, Reach-IsRunning, send_callback_returns}
use daliserver.Usb.Requests.{outstanding, queue-outstanding, next_sends}
use daliserver.Usb.Answers.{Answers, recorder, args, Run, Run-args}
use daliserver.Usb.Close.{usbdali_close, send_ends, outcome, close_ends}
use daliserver.Usb.Open.{Opened}
use daliserver.Usb.Stall.{queue_all, receive_refused_stalls}

abbrev machine : Machine
machine = record { system_little = true; float_bits = λ b. b }

abbrev accepting : LibUsb
accepting = record { alloc_transfer = λ calls. length calls + 1; accepts = λ calls. true }

abbrev refusing : LibUsb
refusing = record { alloc_transfer = λ calls. length calls + 1; accepts = λ calls. false }

abbrev lamp_off : DaliFrame
lamp_off = daliframe_new 0xff 0x00

abbrev first : UsbDali × Answers
first = (usbdali_next accepting machine (initial accepting machine), [])

abbrev asked : UsbDali × Answers
asked = ((usbdali_queue accepting machine first.0 lamp_off (some 7)).0, [])

abbrev sending : UsbDali × Answers
sending = usbdali_receive_callback accepting machine recorder 1 cancelled [] asked

Reach-sending : Reach accepting machine recorder [] sending
unfolding usbdali_next usbdali_queue usbdali_receive usbdali_receive_callback
Reach-sending =
    Reach.step (Reach.step Reach.here (Step.request first lamp_off (some 7)))
      (Step.received asked 1 cancelled [] (inl refl))

Reach-IsRunning_example : IsRunning accepting sending.0
Reach-IsRunning_example =
    Reach-IsRunning accepting machine (λ calls. refl) recorder recorder-IsClient Reach-sending

sending-outward : Has (outward 4) (live accepting sending.0.calls)
unfolding usbdali_next usbdali_queue usbdali_receive usbdali_receive_callback usbdali_send
    finish_receive on_received pack
sending-outward = inl refl

send_callback_returns_example :
    (r : UsbDali × Answers) × (usbdali_send_callback accepting machine recorder 4 timed_out sending
      ≡ some r)
    × IsRunning accepting r.0
send_callback_returns_example =
    send_callback_returns accepting machine (λ calls. refl) recorder recorder-IsClient 4 timed_out
      Reach-sending sending-outward

abbrev waiting : UsbDali
waiting = record (initial accepting machine) {
  queue = record { seq_num = 0; request = lamp_off; arg = some 7 } ∷ [];
}

next_sends_example :
    let d' = usbdali_next accepting machine waiting in
    (d'.calls ≡ submit_out 1 (out_packet 1 lamp_off) ∷ [])
    × (d'.send_transfer ≡ some 1)
    × (d'.transaction ≡ some (record { seq_num = 1; request = lamp_off; arg = some 7 }))
    × (d'.queue ≡ [])
    × (d'.seq_num ≡ (1 + 1) % 256)
next_sends_example =
    next_sends accepting machine waiting (record { seq_num = 0; request = lamp_off; arg = some 7 })
      [] refl refl refl refl (omega arith)

queue-outstanding_example :
    let (d', result) = usbdali_queue accepting machine waiting lamp_off none in
    if ltb (length waiting.queue) waiting.queue_size
    then (result ≡ success) × (outstanding d' ≡ outstanding waiting ++ (lamp_off, none) ∷ [])
    else (result ≡ queue_full) × (d' ≡ waiting)
queue-outstanding_example = queue-outstanding accepting machine waiting lamp_off none

-- Two requests, the connection of the second is cancelled, and the first one is sent.
Run-asked : Run accepting machine (some 7 ∷ none ∷ []) (
    usbdali_receive_callback accepting machine recorder 1 cancelled []
      (usbdali_cancel (usbdali_queue accepting machine asked.0 lamp_off (some 8)).0 8, []))
unfolding usbdali_next usbdali_queue usbdali_receive
Run-asked =
    Run.received 1 cancelled []
      (Run.forgotten 8 (Run.request lamp_off (some 8) (Run.request lamp_off (some 7) Run.start)))

Run-args_example :
    let s =
      usbdali_receive_callback accepting machine recorder 1 cancelled []
        (usbdali_cancel (usbdali_queue accepting machine asked.0 lamp_off (some 8)).0 8, []) in
    s.1 ++ args s.0 ≡ some 7 ∷ none ∷ []
Run-args_example = Run-args accepting machine Run-asked

receive_refused_stalls_example :
    let start = usbdali_receive refusing machine (initial refusing machine) in
    let d' = queue_all refusing machine ((lamp_off, some 7) ∷ []) start in
    (live refusing d'.calls ≡ []) × (d'.send_transfer ≡ none)
receive_refused_stalls_example =
    receive_refused_stalls refusing machine (initial refusing machine) ((lamp_off, some 7) ∷ [])
      refl refl refl refl

abbrev two_bytes : List ℕ
two_bytes = 0x12 ∷ 0x72 ∷ []

decode-unpack_example :
    (decode_in (
        unpack machine in_format
          (some (received 0x12 0x72 0 0 0xff 0x93 0x12 0x34 0x1d []))
          (some (length (received 0x12 0x72 0 0 0xff 0x93 0x12 0x34 0x1d []))))
      ≡ some (record {
        direction = 0x12;
        type = 0x72;
        ecommand = 0;
        address = 0xff;
        command = 0x93;
        status = 0x1234;
        seqnum = 0x1d;
      }))
    × (decode_in (unpack machine in_format (some two_bytes) (some (length two_bytes))) ≡ none)
decode-unpack_example =
    decode-unpack machine 0x12 0x72 0 0 0xff 0x93 0x12 0x34 0x1d [] two_bytes (omega arith)
      (omega arith)

first-receives : first.0.recv_transfer ≡ some 1
unfolding usbdali_next usbdali_receive
first-receives = refl

Reach-first : Reach accepting machine recorder [] first
Reach-first = Reach.here

sending-sends : sending.0.send_transfer ≡ some 4
unfolding usbdali_next usbdali_queue usbdali_receive usbdali_receive_callback usbdali_send
    finish_receive on_received pack
sending-sends = refl

abbrev device : Opened
device = record {
  free_context = true;
  endpoint_in = 0x81;
  endpoint_out = 0x02;
  detached = true;
  driver = usbdali_next accepting machine (initial accepting machine);
}

close_ends_example :
    (outcome accepting
        (usbdali_close accepting machine recorder device [] (send_ends 4 cancelled ∷ []) sending)
      ≡ some ([], sending.1))
    × (outcome accepting (usbdali_close accepting machine recorder device [] [] sending)
        ≡ some (recorded sending.0, sending.1))
    × (is_some (
          outcome accepting (
            usbdali_close accepting machine recorder device []
              (send_ends 4 timed_out ∷ [])
              sending))
        ≡ not (is_some sending.0.transaction))
close_ends_example =
    close_ends accepting machine (λ calls. refl) recorder recorder-IsClient true device [] 4 []
      sending Reach-sending sending-sends

-- The command goes out, the adapter answers it, and the receive after that times out.
ended : (r : UsbDali × Answers) × Ended accepting machine 3 sending r
unfolding usbdali_next usbdali_queue usbdali_receive usbdali_receive_callback usbdali_send
    usbdali_send_callback finish_receive finish_send on_received on_sent pack unpack
ended = (
  _,
  Ended.sent 4 completed (inl refl) refl (
      Ended.received 6 completed (received 0x12 0x72 0 0 0xff 0x93 0 0 1 []) (inl refl) refl
        (Ended.received 8 timed_out [] (inl refl) refl (Ended.nothing _))),
)

sending-up : sending.0.shutdown ≡ false
unfolding usbdali_next usbdali_queue usbdali_receive usbdali_receive_callback usbdali_send
    finish_receive on_received pack
sending-up = refl

sending-enough : 2 * length (outstanding sending.0) + 1 ≤ 3
unfolding usbdali_next usbdali_queue usbdali_receive usbdali_receive_callback usbdali_send
    finish_receive on_received pack
sending-enough = omega arith

all_answered_example :
    ((next : UsbDali × Answers) × Ended accepting machine 1 sending next)
    × (outstanding ended.0.0 ≡ [])
    × (ended.0.1 ≡ sending.1 ++ args sending.0)
all_answered_example =
    all_answered accepting machine (λ calls. refl) Reach-sending sending-up ended.1 sending-enough
