-- ===== src/Daliserver/Tests.antt =====
-- Runs of the program of src/daliserver.c: sockets that take every write, and an adapter that takes
-- every transfer.
use daliserver.Common.{
  ◌+◌, ◌≡◌, refl, arith, ◌&&◌, true, false, some, [], ◌∷◌, ◌++◌, length, ltb, if◌then◌else◌,
}
use daliserver.Common.Int.{pos}
use daliserver.Frame.{daliframe_new}
use daliserver.Pack.{Machine, pack, unpack}
use daliserver.Usb.{
  usbdali_queue, usbdali_receive, usbdali_send, finish_receive, finish_send, on_received, on_sent,
  LibUsb, UsbDali, cancelled, completed, initial, usbdali_next, submit_in, submit_out,
  free_transfer, cancel_transfer, usbdali_receive_callback, usbdali_send_callback,
}
use daliserver.Usb.Packet.{out_packet}
use daliserver.Daliserver.Exchange.{listening, answer}
use daliserver.Daliserver.Answered.{command_answered}
use daliserver.Daliserver.Heard.{heard, news, heard_broadcast}
use daliserver.Usb.Client.{IsClient}
use daliserver.Usb.Requests.{outstanding}
use daliserver.Net.{
  Sockets, Server, Connection, write, register, connection_reply, set_waiting, connection_ready,
  list_find, server_close, server_listener_ready,
}
use daliserver.Net.Broadcast.{TakeFrames, AreDistinct}
use daliserver.Daliserver.{
  callbacks, net_dequeue_connection, net_frame_handler, dali_inband_handler, reply_frame,
}
use daliserver.Daliserver.Contract.{callbacks-IsClient}
use daliserver.Daliserver.Frames.{is_send, frame-outstanding}
use daliserver.Daliserver.Handlers.{World}
use daliserver.Daliserver.Ownership.{IsOwned}
use daliserver.Daliserver.World.{opened, WorldStep, WorldReach, WorldReach-IsOwned}
use daliserver.Net.Written.{all_written}
use daliserver.Daliserver.Protocol.{is_frame, WorldReach-written}
use daliserver.Daliserver.Shutdown.{AreAnonymous, server_close-AreAnonymous}
use daliserver.Daliserver.Safe.{IsClean}
use daliserver.Daliserver.Expected.{ExpectedReach, ExpectedReach-IsClean}

abbrev taking : Sockets
taking = λ actions socket buffer. pos (length buffer)

abbrev machine : Machine
machine = record { system_little = true; float_bits = λ b. b }

abbrev accepting : LibUsb
accepting = record { alloc_transfer = λ calls. length calls + 1; accepts = λ calls. true }

callbacks-IsClient_example : IsClient (callbacks taking)
callbacks-IsClient_example = callbacks-IsClient taking

abbrev first : World
first = (usbdali_next accepting machine (initial accepting machine), opened)

frame-outstanding_example :
    let (d', sv') = net_frame_handler taking accepting machine 100 (2 ∷ 0 ∷ 254 ∷ 5 ∷ []) first in
    (sv' ≡ opened)
    × (if is_send 2 0 && ltb (length first.0.queue) first.0.queue_size
        then outstanding d' ≡ outstanding first.0 ++ (daliframe_new 254 5, some 100) ∷ []
        else d' ≡ first.0)
frame-outstanding_example =
    frame-outstanding taking accepting machine 100 2 0 254 5 [] first.0 opened

-- A client connects and asks for a command, and the receive before it is cancelled.
requested : (s : World) × WorldReach taking accepting machine s
requested = (
  _,
  WorldReach.step
      (WorldReach.step
        (WorldReach.step WorldReach.start (WorldStep.accepted (some 5) true 100 first))
        (WorldStep.ready 100 (pos 4) (2 ∷ 0 ∷ 254 ∷ 5 ∷ []) _))
      (WorldStep.received 1 cancelled [] _),
)

WorldReach-IsOwned_example : IsOwned requested.0
WorldReach-IsOwned_example = WorldReach-IsOwned taking accepting machine requested.1

-- The command goes out and is answered.
answered : (s : World) × WorldReach taking accepting machine s
unfolding list_find server_listener_ready connection_ready net_frame_handler usbdali_next
    usbdali_queue usbdali_receive usbdali_receive_callback usbdali_send usbdali_send_callback
    finish_receive finish_send on_received on_sent pack unpack
answered = (
  _,
  WorldReach.step
      (WorldReach.step
        (WorldReach.step
          (WorldReach.step
            (WorldReach.step WorldReach.start (WorldStep.accepted (some 5) true 100 first))
            (WorldStep.ready 100 (pos 4) (2 ∷ 0 ∷ 254 ∷ 5 ∷ []) _))
          (WorldStep.received 1 cancelled [] _))
        (WorldStep.sent 4 completed _ _ refl))
      (WorldStep.received 6 completed (answer 1 true 0 0 254 60 0 138 []) _),
)

answered_once : answered.0.1.actions ≡ write 5 (2 ∷ 1 ∷ 60 ∷ 0 ∷ []) ∷ register 5 ∷ []
unfolding answered list_find server_listener_ready connection_ready net_frame_handler usbdali_next
    usbdali_queue usbdali_receive usbdali_receive_callback usbdali_send usbdali_send_callback
    finish_receive finish_send on_received on_sent pack unpack dali_inband_handler connection_reply
    reply_frame
answered_once = refl

WorldReach-written_example : all_written is_frame answered.0.1.actions ≡ true
WorldReach-written_example = WorldReach-written taking accepting machine answered.1

taking-TakeFrames : TakeFrames taking 4
taking-TakeFrames actions socket buffer h = ground arith

expected : (s : World) × ExpectedReach taking taking-TakeFrames accepting machine s
unfolding list_find server_listener_ready
expected = (
  _,
  ExpectedReach.step
      (ExpectedReach.step
        (ExpectedReach.step ExpectedReach.start (WorldStep.accepted (some 5) true 100 first) tt)
        (WorldStep.ready 100 (pos 4) (2 ∷ 0 ∷ 254 ∷ 5 ∷ []) _) refl)
      (WorldStep.received 1 cancelled [] _) tt,
)

ExpectedReach-IsClean_example : IsClean expected.0.1
ExpectedReach-IsClean_example =
    ExpectedReach-IsClean taking taking-TakeFrames accepting machine expected.1

server_close-AreAnonymous_example :
    let r = server_close taking (net_dequeue_connection taking) 3 requested.0 in
    (r.1.connections ≡ []) × AreAnonymous (outstanding r.0) × (r.1.faulted ≡ requested.0.1.faulted)
server_close-AreAnonymous_example = server_close-AreAnonymous taking accepting machine 3 requested.1

abbrev client : Connection
client = record { address = 100; socket = 5; waiting = false }

abbrev joined : Server
joined = record opened { connections = client ∷ [] }

-- The value 60 for the command 5 to the address 254.
command_answered_example :
    let frame = daliframe_new 254 5 in
    let asked =
      connection_ready taking
        (net_dequeue_connection taking)
        (net_frame_handler taking accepting machine)
        100
        (pos 4)
        (2 ∷ 0 ∷ 254 ∷ 5 ∷ [])
        (listening 1 255 7 (submit_in 1 ∷ []), joined) in
    let sending =
      usbdali_receive_callback accepting machine (callbacks taking) 1 cancelled [] asked in
    let sent_calls =
      submit_out 4 (out_packet 7 frame) ∷ free_transfer 1 ∷ cancel_transfer 1 ∷ submit_in 1 ∷ [] in
    let done_calls = free_transfer 6 ∷ submit_in 6 ∷ free_transfer 4 ∷ sent_calls in
    (waiting : UsbDali × Server) × (usbdali_send_callback accepting machine
        (callbacks taking)
        4
        completed
        sending
      ≡ some waiting)
    × (usbdali_receive_callback accepting machine
          (callbacks taking)
          6
          completed
          (answer 7 true 0 0 254 60 0 138 [])
          waiting
        ≡ (
          listening 8 255 8 (submit_in 8 ∷ done_calls),
          record joined {
            connections = set_waiting 100 false joined.connections;
            actions = write 5 (2 ∷ 1 ∷ 60 ∷ 0 ∷ []) ∷ joined.actions;
          },
        ))
unfolding list_find
command_answered_example =
    command_answered taking accepting machine 1 255 7 (submit_in 1 ∷ []) 100 254 5 (pos 4) [] true 0
      0 254 60 0 138 [] joined client (omega arith) taking-TakeFrames refl (refl) refl (omega arith)

abbrev busy_client : Connection
busy_client = record { address = 200; socket = 6; waiting = true }

abbrev both : Server
both = record opened { connections = busy_client ∷ client ∷ [] }

both-AreDistinct : AreDistinct both.connections
both-AreDistinct = ((ground arith, tt), (tt, tt))

-- Another device sends the command 5 to the address 254; one of the two clients waits.
heard_broadcast_example :
    usbdali_receive_callback accepting machine
      (callbacks taking)
      1
      completed
      (heard false 0 0 254 5 0 138 0 [])
      (listening 1 255 7 (submit_in 1 ∷ []), both)
    ≡ (
      listening 3 255 7 (submit_in 3 ∷ free_transfer 1 ∷ submit_in 1 ∷ []),
      record both { actions = write 5 (news 254 5) ∷ both.actions },
    )
heard_broadcast_example =
    heard_broadcast taking accepting machine false 0 0 254 5 0 138 0 1 []
      (listening 1 255 7 (submit_in 1 ∷ [])) both taking-TakeFrames refl both-AreDistinct
      (omega arith) refl refl refl refl
