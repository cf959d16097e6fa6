-- ===== src/Tests/Datagrams.antt =====
-- The theorems on moves of streams and on datagrams.
use text.Mathlib.Text.{◌==◌ as ◌=s=◌}
use socket_wrapper.Prelude.{
  ◌*◌, ◌^◌, ◌≡◌, ◌⊎◌, refl, take, ltb, length, inr, arith, lt→ltb, [], ◌∷◌, if◌then◌else◌,
}
use socket_wrapper.Prelude.Int.{pos}
use socket_wrapper.BaseTypes.{ipv4}
use socket_wrapper.Exception.{socket_read, socket_receive_buffer_too_small}
use socket_wrapper.Exec.{◌>>◌}
use socket_wrapper.Kernel.{got, wrote}
use socket_wrapper.Stream.{Stream}
use socket_wrapper.Stream.Ownership.{move_assign, destroy, move_assign-destroy}
use socket_wrapper.UdpDatagram.{UdpDatagram, Datagrams, read}
use socket_wrapper.UdpDatagram.Read.{DatagramEnds, read-DatagramEnds, Throws}
use socket_wrapper.UdpDatagram.Ownership.{Sizes, room, move_construct-read, move-destroy}
use socket_wrapper.UdpDatagram.Ownership
use socket_wrapper.Tests.Sim.{sim, start, socket}

abbrev other_stream : Stream
other_stream = record { stream_file_descriptor = pos 7; stop_all_operations_event_fd = pos 8 }

move_assign-destroy_example :
    (destroy sim (move_assign other_stream socket).0
        >> destroy sim (move_assign other_stream socket).1)
      start
    ≡ destroy sim socket start
move_assign-destroy_example = move_assign-destroy sim other_stream socket start

abbrev sim_datagrams : Datagrams sim
sim_datagrams = record {
  socket = λ v w. (pos 3, w);
  set_reuse_port = λ fd w. (pos 0, w);
  bind4 = λ fd address port w. (pos 0, w);
  bind6 = λ fd port w. (pos 0, w);
  recvmsg = λ fd msg w. (
    record {
      result = got (take (room msg.msg_iov) w.incoming);
      truncated = ltb (room msg.msg_iov) (length w.incoming);
    },
    w,
  );
  sendto = λ fd bytes address port w. (wrote 1, w);
  inet_addr = λ s.
      if s =s= "224.0.0.0"
      then 224 * 2 ^ 24
      else if s =s= "240.0.0.0"
      then 240 * 2 ^ 24
      else 225 * 2 ^ 24;
  set_reuse_addr = λ fd w. (pos 0, w);
  add_membership = λ fd address w. (pos 0, w);
}

abbrev datagram : UdpDatagram
datagram = record {
  buffer = 0 ∷ 0 ∷ 0 ∷ [];
  socket_fd = pos 3;
  ip_version = ipv4;
  stop_all_operations_event_fd = pos 4;
}

abbrev other_datagram : UdpDatagram
other_datagram = record datagram { socket_fd = pos 9 }

read-DatagramEnds_example :
    DatagramEnds sim sim_datagrams
      (pos 100)
      datagram
      start
      (read sim sim_datagrams (pos 100) (datagram, start)).0
read-DatagramEnds_example = read-DatagramEnds sim sim_datagrams (pos 100) datagram start

abbrev sim_sizes : Sizes sim sim_datagrams
sim_sizes = record {
  next = λ fd w. w.incoming;
  truncates = λ fd msg w h. inr (take (room msg.msg_iov) w.incoming, refl, lt→ltb _ _ h);
}

move_construct-read_example :
    Throws sim sim_datagrams socket_read
      (read sim sim_datagrams (pos 100) ((Ownership.move_construct ipv4 datagram).0, start)).0
    ⊎ Throws sim sim_datagrams socket_receive_buffer_too_small
        (read sim sim_datagrams (pos 100) ((Ownership.move_construct ipv4 datagram).0, start)).0
move_construct-read_example =
    move_construct-read sim sim_datagrams sim_sizes ipv4 datagram (pos 100) start refl
      (λ e. ground (arith, e)) (omega arith)
