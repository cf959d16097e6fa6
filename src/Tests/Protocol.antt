-- ===== src/Tests/Protocol.antt =====
-- The theorems on the semaphore and on the end of the worker.
use socket_wrapper.Prelude.{ℕ, ◌≡◌, refl, false, List, [], ◌∷◌, some}
use socket_wrapper.Prelude.Int.{pos, minus_one}
use socket_wrapper.Exception.{SocketException, socket_ok, socket_closed}
use socket_wrapper.Exception.{socket as exception}
use socket_wrapper.Exec.{ok, throws}
use socket_wrapper.BufferedStream.{create}
use socket_wrapper.ConditionalBufferedStream.{
  ConditionalBufferedStream, BufferEventHandler, set_queue, delimiter_condition, catch_worker,
}
use socket_wrapper.ConditionalBufferedStream.Calls.{wait_and_read}
use socket_wrapper.ConditionalBufferedStream.Reads.{default_exception}
use socket_wrapper.ConditionalBufferedStream.Wakeups.{wait_times, failure_wakes_one}
use socket_wrapper.Tests.Sim.{sim, sim_counter, Sim, start, socket}

abbrev pub lines : BufferEventHandler
lines = record { condition = delimiter_condition 10; fd = pos 5 }

abbrev pub object : ConditionalBufferedStream
object = record {
  last_ex = socket_ok;
  stream = create socket 8;
  termination_requested = false;
  buffer_event_handlers = lines ∷ [];
  received_data_per_condition = λ fd. some [];
}

abbrev pub line : List ℕ
line = 1 ∷ 10 ∷ []

abbrev queued : ConditionalBufferedStream
queued = record object {
  received_data_per_condition = set_queue (pos 5) (line ∷ []) (λ fd. some []);
}

abbrev gone : SocketException
gone = record { exception_type = socket_closed; c_error = pos 0; processed_bytes = minus_one }

failure_wakes_one_example :
    (failed : ConditionalBufferedStream × Sim) × (after : ConditionalBufferedStream × Sim)
    × (w' : Sim) × (catch_worker sim (exception gone) (queued, record start { posts = 1 })
        ≡ (ok tt, failed))
    × (wait_times sim 1 (pos 5) failed ≡ (ok (line ∷ []), after))
    × (wait_and_read sim (pos 5) after ≡ (throws (default_exception socket_closed), (after.0, w')))
    × (w'.posts ≡ 0)
failure_wakes_one_example =
    failure_wakes_one sim lines (sim_counter (pos 5)) gone (line ∷ []) queued
      (record start { posts = 1 }) refl refl refl (λ e. cc) (λ e. cc)
