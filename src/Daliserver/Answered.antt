-- ===== src/Daliserver/Answered.antt =====
-- One command of a client through the whole program: src/daliserver.c, lib/net.c and lib/usb.c.
use daliserver.Common.{
  ℕ, ◌+◌, ◌<◌, ◌≡◌, ap, ◌∙◌, Bool, true, false, some, List, [], ◌∷◌, arith, ltb, ◌==◌,
  if◌then◌else◌,
}
use daliserver.Common.Int.{ℤ}
use daliserver.Frame.{daliframe_new}
use daliserver.Pack.{Machine}
use daliserver.Usb.{
  UsbDali, LibUsb, Call, submit_in, submit_out, cancel_transfer, free_transfer, UsbDaliError,
  cancelled, completed, usbdali_receive_callback, usbdali_send_callback,
}
use daliserver.Usb.Packet.{out_packet}
use daliserver.Net.{
  Connection, Server, Sockets, write, list_find, set_waiting, is_short, connection_ready,
}
use daliserver.Net.Broadcast.{TakeFrames}
use daliserver.Net.Waiting.{waiting_twice, found-waiting}
use daliserver.Daliserver.{callbacks, net_dequeue_connection, net_frame_handler}
use daliserver.Daliserver.Exchange.{
  listening, answer, reply, queued, asking, out_transfer, done, queue_lem, cancelled_lem, sent_lem,
  answered_lem,
}

module _ (net : Sockets) (lib : LibUsb) (m : Machine) (t size seq : ℕ) (calls : List Call)
    (conn address command : ℕ) where
  asked_lem :
      (rdbytes : ℤ) (rest : List ℕ) (sv : Server) (c : Connection)
      → 0 < size
      → is_short rdbytes sv.framesize ≡ false
      → list_find conn sv.connections ≡ some c
      → connection_ready net
          (net_dequeue_connection net)
          (net_frame_handler net lib m)
          conn
          rdbytes
          (2 ∷ 0 ∷ address ∷ command ∷ rest)
          (listening t size seq calls, sv)
        ≡ (
          queued net lib m t size seq calls (daliframe_new address command) conn,
          record sv { connections = set_waiting conn true sv.connections },
        )
  unfolding connection_ready net_frame_handler
  asked_lem rdbytes rest sv c room whole found =
      let some_room : ltb 0 size ≡ true = ground arith in
      let queue =
        queue_lem net lib m t size seq calls (daliframe_new address command) conn some_room in
      rw found (
        rw whole (
          ap
            (λ (q : UsbDali × UsbDaliError).
              (q.0, record sv { connections = set_waiting conn true sv.connections }))
            queue))

  -- A client at a listed connection asks for a command, with sockets that take whole frames of four
  -- bytes, while the driver listens and its queue has room. The transfer that listens is cancelled,
  -- the packet of the command goes out, and the next transfer brings the answer of the adapter, with
  -- its sequence number: then the client gets the value, or that the command was sent, on its socket
  -- and nothing else is written; the client waits no more, and the driver listens again with the next
  -- sequence number.
  pub command_answered :
      (rdbytes : ℤ) (more : List ℕ) (has_value : Bool) (u e a v s1 s0 : ℕ) (rest : List ℕ)
      (sv : Server) (c : Connection)
      → 0 < size
      → TakeFrames net 4
      → sv.framesize ≡ 4
      → is_short rdbytes sv.framesize ≡ false
      → list_find conn sv.connections ≡ some c
      → s0 < 256
      → let frame = daliframe_new address command in
        let asked =
          connection_ready net
            (net_dequeue_connection net)
            (net_frame_handler net lib m)
            conn
            rdbytes
            (2 ∷ 0 ∷ address ∷ command ∷ more)
            (listening t size seq calls, sv) in
        let sending = usbdali_receive_callback lib m (callbacks net) t cancelled [] asked in
        let out = lib.alloc_transfer (free_transfer t ∷ cancel_transfer t ∷ calls) in
        let sent_calls =
          submit_out out (out_packet seq frame) ∷ free_transfer t ∷ cancel_transfer t ∷ calls in
        let next = lib.alloc_transfer (free_transfer out ∷ sent_calls) in
        let done_calls = free_transfer next ∷ submit_in next ∷ free_transfer out ∷ sent_calls in
        (waiting : UsbDali × Server) × (usbdali_send_callback lib m
            (callbacks net)
            out
            completed
            sending
          ≡ some waiting)
        × (usbdali_receive_callback lib m
              (callbacks net)
              next
              completed
              (answer seq has_value u e a v s1 s0 rest)
              waiting
            ≡ (
              listening
                  (lib.alloc_transfer done_calls)
                  size
                  (if seq == 0xff then 0 else seq + 1)
                  (submit_in (lib.alloc_transfer done_calls) ∷ done_calls),
              record sv {
                connections = set_waiting conn false sv.connections;
                actions = write c.socket (reply has_value v) ∷ sv.actions;
              },
            ))
  command_answered rdbytes more has_value u e a v s1 s0 rest sv c room takes four whole found
        small =
      let frame = daliframe_new address command in
      let sv' : Server = record sv { connections = set_waiting conn true sv.connections } in
      (
        (asking net lib m t size seq calls frame conn, sv'),
        ap
              (λ s.
                usbdali_send_callback lib m (callbacks net)
                  (out_transfer net lib m t size seq calls frame conn) completed s)
              (ap (usbdali_receive_callback lib m (callbacks net) t cancelled [])
                  (asked_lem rdbytes more sv c room whole found)
                ∙ cancelled_lem net lib m t size seq calls frame conn sv')
            ∙ sent_lem net lib m t size seq calls frame conn sv',
        answered_lem net lib m t size seq calls frame conn has_value u e a v s1 s0 rest sv'
              (record c { waiting = true }) small takes four
              (found-waiting conn c sv.connections found)
            ∙ ap
                (λ l. (
                  done net lib m t size seq calls frame conn,
                  record sv {
                    connections = l;
                    actions = write c.socket (reply has_value v) ∷ sv.actions;
                  },
                ))
                (waiting_twice conn sv.connections),
      )
