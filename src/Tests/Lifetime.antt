-- ===== src/Tests/Lifetime.antt =====
-- The theorems on the worker thread of a ConditionalBufferedStream.
use socket_wrapper.Prelude.{refl, ◌==◌, Bool, true, false, [], ◌∷◌, some, if◌then◌else◌}
use socket_wrapper.Prelude.Int.{pos, int_eq}
use socket_wrapper.Exception.{socket_ok}
use socket_wrapper.Kernel.{Kernel, got, wrote, write_failed}
use socket_wrapper.BufferedStream.{create}
use socket_wrapper.Threads.{running}
use socket_wrapper.ConditionalBufferedStream.{
  ConditionalBufferedStream, BufferEventHandler, delimiter_condition,
}
use socket_wrapper.ConditionalBufferedStream.Lifetime.{
  Quiet, in_read, left_of, DestroyEnds, destroy, destroy-DestroyEnds,
}
use socket_wrapper.Tests.Sim.{socket}

-- Whether the stream's event descriptor was posted, and whether that of the handler was closed.
pub record Descriptors : Type 0 where
  pub asked : Bool
  pub shut : Bool

-- A peer that sends nothing.
abbrev silent : Kernel
silent = record {
  World = Descriptors;
  errno = λ w. pos 9;
  poll = λ fds timeout w. (
    record { status = pos 1; revents = λ i. if i == 0 then 0 else (if w.asked then 1 else 0) },
    w,
  );
  pollin = λ revents. true;
  read = λ fd n w. (got [], w);
  write = λ fd bytes w. (wrote 0, w);
  close = λ fd w. (pos 0, if int_eq fd (pos 5) then record w { shut = true } else w);
  sleep_ms = λ ms w. (tt, w);
  eventfd = λ w. (pos 9, w);
  write_u64 = λ fd v w.
      if int_eq fd (pos 5)
      then ((if w.shut then write_failed else wrote 8), w)
      else (wrote 8, record w { asked = true });
  read_u64 = λ fd w. (tt, w);
}

abbrev handler : BufferEventHandler
handler = record { condition = delimiter_condition 10; fd = pos 5 }

abbrev object : ConditionalBufferedStream
object = record {
  last_ex = socket_ok;
  stream = create socket 8;
  termination_requested = false;
  buffer_event_handlers = handler ∷ [];
  received_data_per_condition = λ fd. some [];
}

abbrev quiet : Quiet silent object.stream.stream (pos 5)
unfolding create
quiet = record {
  requested = λ w. w.asked;
  posted = λ n w h. refl;
  polled = λ w asked. (refl, refl, rw (asked) refl);
  shut = λ w. w.shut;
  closes = λ w. refl;
  stays = λ n w closed. closed;
  refuses = λ w closed. (rw (closed) refl, closed);
}

abbrev open_descriptors : Descriptors
open_descriptors = record { asked = false; shut = false }

destroy-DestroyEnds_example : DestroyEnds silent handler object quiet in_read open_descriptors (
    destroy silent
      (left_of silent handler 0 in_read)
      (record { object = object; worker = running }, open_descriptors))
unfolding create
destroy-DestroyEnds_example =
    destroy-DestroyEnds silent handler object quiet 0 in_read open_descriptors refl refl
