-- ===== src/Daliserver/Heard.antt =====
-- What the adapter hears on the bus on its way to the clients: lib/usb.c, src/daliserver.c and
-- lib/net.c.
use daliserver.Common.{
  ℕ, ◌+◌, ◌*◌, ◌<◌, ◌≡◌, ap, ◌∙◌, Bool, true, false, not, ◌||◌, none, some, List, [], ◌∷◌, arith,
  length, ltb, is_some, if◌then◌else◌, ==_refl,
}
use daliserver.Pack.{Machine}
use daliserver.Usb.{
  UsbDali, LibUsb, submit_in, free_transfer, completed, handle_packet, on_received, finish_receive,
  usbdali_receive_callback, usbdali_next, usbdali_receive,
}
use daliserver.Usb.Packet.{received, decode-unpack}
use daliserver.Net.{Server, Sockets, server_broadcast}
use daliserver.Net.Broadcast.{TakeFrames, AreDistinct, sent, broadcast-sent}
use daliserver.Daliserver.{
  callbacks, net_dequeue_connection, frame_of, NetStatus, dali_outband_handler,
}

-- A command of another device, with an extended command or without one.
abbrev pub heard : Bool → (u e a c s1 s0 n : ℕ) → List ℕ → List ℕ
heard extended u e a c s1 s0 n rest =
    received 0x11 (if extended then 0x74 else 0x73) u e a c s1 s0 n rest

abbrev pub news : ℕ → ℕ → List ℕ
news a c = frame_of NetStatus.broadcast a c

module _ (net : Sockets) (lib : LibUsb) (m : Machine) where
  outband_lem :
      (extended : Bool) (e a c status n : ℕ) (d : UsbDali) (sv : Server)
      → TakeFrames net 4
      → sv.framesize ≡ 4
      → AreDistinct sv.connections
      → handle_packet lib m
          (callbacks net)
          (some (record {
            direction = 0x11;
            type = if extended then 0x74 else 0x73;
            ecommand = e;
            address = a;
            command = c;
            status = status;
            seqnum = n;
          }))
          (d, sv)
        ≡ (d, record sv { actions = sent (news a c) sv.connections sv.actions })
  unfolding dali_outband_handler
  outband_lem extended e a c status n d sv takes four distinct = go extended
    where
      written :
          server_broadcast net (net_dequeue_connection net) (news a c) (d, sv)
          ≡ (d, record sv { actions = sent (news a c) sv.connections sv.actions })
      written =
          broadcast-sent net (net_dequeue_connection net) (news a c) d sv (rw four takes)
            (omega (arith, four)) (omega arith) distinct

      go :
          (b : Bool)
          → handle_packet lib m
              (callbacks net)
              (some (record {
                direction = 0x11;
                type = if b then 0x74 else 0x73;
                ecommand = e;
                address = a;
                command = c;
                status = status;
                seqnum = n;
              }))
              (d, sv)
            ≡ (d, record sv { actions = sent (news a c) sv.connections sv.actions })
      go true = written
      go false = written

  finish_lem :
      (t : ℕ) (d : UsbDali)
      → d.recv_transfer ≡ some t
      → d.send_transfer ≡ none
      → d.shutdown ≡ false
      → is_some d.transaction || not (ltb 0 (length d.queue)) ≡ true
      → let next = lib.alloc_transfer (free_transfer t ∷ d.calls) in
        finish_receive lib m t d
        ≡ record d { recv_transfer = some next; calls = submit_in next ∷ free_transfer t ∷ d.calls }
  unfolding finish_receive usbdali_next usbdali_receive
  finish_lem t d e f up quiet = ground (arith, ==_refl t)

  -- The adapter hears a command of another device, while the driver receives, either for the answer
  -- to a request or with no request in the queue, with sockets that take whole frames of four bytes
  -- and connections with different addresses. Then each client that does not wait for an answer gets
  -- a frame with the address and the command, in the order of the list, and nothing else is written;
  -- no freed memory is accessed. The driver receives again, its requests are as before.
  pub heard_broadcast :
      (extended : Bool) (u e a c s1 s0 n t : ℕ) (rest : List ℕ) (d : UsbDali) (sv : Server)
      → TakeFrames net 4
      → sv.framesize ≡ 4
      → AreDistinct sv.connections
      → s0 < 256
      → d.recv_transfer ≡ some t
      → d.send_transfer ≡ none
      → d.shutdown ≡ false
      → is_some d.transaction || not (ltb 0 (length d.queue)) ≡ true
      → let next = lib.alloc_transfer (free_transfer t ∷ d.calls) in
        usbdali_receive_callback lib m
          (callbacks net)
          t
          completed
          (heard extended u e a c s1 s0 n rest)
          (d, sv)
        ≡ (
          record d {
            recv_transfer = some next;
            calls = submit_in next ∷ free_transfer t ∷ d.calls;
          },
          record sv { actions = sent (news a c) sv.connections sv.actions },
        )
  unfolding usbdali_receive_callback on_received
  heard_broadcast extended u e a c s1 s0 n t rest d sv takes four distinct small on off up quiet =
      let end : UsbDali × Server → UsbDali × Server = λ s. (finish_receive lib m t s.0, s.1) in
      let with_news : UsbDali → UsbDali × Server =
        λ x. (x, record sv { actions = sent (news a c) sv.connections sv.actions }) in
      ap (λ p. end (handle_packet lib m (callbacks net) p (d, sv)))
        (decode-unpack m 0x11 (if extended then 0x74 else 0x73) u e a c s1 s0 n rest [] small
          (omega arith)).0
      ∙ ap end (outband_lem extended e a c (s0 + s1 * 256) n d sv takes four distinct)
      ∙ ap with_news (finish_lem t d on off up quiet)
