-- ===== src/Tests/Pipes.antt =====
-- The theorem on the two ends of a pipe.
use socket_wrapper.Prelude.{
  ℕ, ◌≡◌, refl, sym, ap, ◌∙◌, ◌==◌, not, List, [], ◌∷◌, ◌++◌, arith, length, length-take, min, take,
  drop, take-append-drop, append_assoc,
}
use socket_wrapper.Prelude.Int.{pos, minus_one}
use socket_wrapper.Exec.{ok}
use socket_wrapper.Kernel.{Kernel, IsBounded, History, Sent, got, wrote}
use socket_wrapper.Stream.{Stream, write}
use socket_wrapper.BufferedStream.{read}
use socket_wrapper.BufferedStream.Supply.{Supply}
use socket_wrapper.BufferedStream.Pipe.{Pipe, write-read}
use socket_wrapper.Tests.Sim.{buffer, buffer-IsValid, socket, poll_result, announced, delivered}

-- The bytes that were received, and those that are on their way. A read or a write transfers three
-- bytes at most.
record Channel : Type 0 where
  received : List ℕ
  under_way : List ℕ

abbrev one_byte : Channel
one_byte = record { received = []; under_way = 5 ∷ [] }

abbrev channel : Kernel
channel = record {
  World = Channel;
  errno = λ w. pos 11;
  poll = λ fds timeout w. (poll_result w.under_way, w);
  pollin = λ revents. not (revents == 0);
  read = λ fd n w. (
    got (take (min n 3) w.under_way),
    record {
      received = w.received ++ take (min n 3) w.under_way;
      under_way = drop (min n 3) w.under_way;
    },
  );
  write = λ fd bytes w. (
    wrote (min (length bytes) 3),
    record w { under_way = w.under_way ++ take (min (length bytes) 3) bytes },
  );
  close = λ fd w. (pos 0, w);
  sleep_ms = λ ms w. (tt, w);
  eventfd = λ w. (pos 9, w);
  write_u64 = λ fd v w. (wrote 8, w);
  read_u64 = λ fd w. (tt, w);
}

channel-IsBounded : IsBounded channel
channel-IsBounded = record {
  read_bounded = λ fd n w. omega (arith, length-take (min n 3) w.under_way);
  write_bounded = λ fd bytes w. omega arith;
}

abbrev channel_history : History channel
channel_history = record {
  received = λ fd w. w.received;
  received_read = λ fd n w. refl;
  received_poll = λ fd fds timeout w. refl;
  received_write_u64 = λ fd g v w. refl;
}

abbrev channel_log : Sent channel
channel_log = record {
  sent = λ fd w. w.received ++ w.under_way;
  sent_write =
      λ fd bytes w. sym (append_assoc w.received w.under_way (take (min (length bytes) 3) bytes));
  sent_sleep = λ fd ms w. refl;
}

abbrev channel_supply : Supply channel socket
channel_supply = record {
  left = λ w. length w.under_way;
  announced = λ timeout w h. ((announced w.under_way h).0, (announced w.under_way h).1, refl);
  delivered = λ n w h k.
      let (byte, bytes, e, fewer) = delivered n w.under_way h k in (byte, bytes, ap got e, fewer);
}

abbrev other_end : Stream
other_end = record { stream_file_descriptor = pos 6; stop_all_operations_event_fd = pos 7 }

abbrev channel_pipe : Pipe channel channel_history channel_log other_end socket
channel_pipe = record {
  under_way = λ w. w.under_way;
  conserved = λ w. refl;
  supply = channel_supply;
  supply_left = λ w. refl;
  received_write = λ bytes w. refl;
  received_sleep = λ ms w. refl;
  sent_poll = λ fds timeout w. refl;
  sent_read = λ fd n w.
      append_assoc w.received (take (min n 3) w.under_way) (drop (min n 3) w.under_way)
      ∙ ap (λ l. w.received ++ l) (take-append-drop (min n 3) w.under_way);
}

-- Five bytes go in two pieces; two bytes are in the buffer and one is on its way.
write-read_example :
    (read channel 8 minus_one
      (buffer, (write channel other_end (1 ∷ 2 ∷ 3 ∷ 4 ∷ 5 ∷ []) 2 one_byte).1)).0
    ≡ ok (7 ∷ 8 ∷ 5 ∷ 1 ∷ 2 ∷ 3 ∷ 4 ∷ 5 ∷ [])
unfolding write
write-read_example =
    write-read channel channel-IsBounded channel_history channel_log other_end socket channel_pipe
      (1 ∷ 2 ∷ 3 ∷ 4 ∷ 5 ∷ []) 2 minus_one buffer one_byte buffer-IsValid refl (omega arith) refl
