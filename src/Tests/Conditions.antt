-- ===== src/Tests/Conditions.antt =====
-- The theorems on conditional buffered streams.
use socket_wrapper.Prelude.{refl, ◌≡◌, false, [], ◌∷◌, arith, none}
use socket_wrapper.Prelude.Int.{pos, minus_one}
use socket_wrapper.Exception.{SocketException, socket_ok, socket_closed, out_of_range}
use socket_wrapper.Exception.{socket as exception}
use socket_wrapper.Exec.{ok, throws, terminated}
use socket_wrapper.ConditionalBufferedStream.{
  ConditionalBufferedStream, BufferEventHandler, delimiter_condition, catch_worker, worker_round,
  process_data_send_signals, set_queue,
}
use socket_wrapper.ConditionalBufferedStream.Calls.{read}
use socket_wrapper.ConditionalBufferedStream.Segments.{segments}
use socket_wrapper.ConditionalBufferedStream.Process.{
  State, SegmentEnds, process_data_send_signals-SegmentEnds,
}
use socket_wrapper.ConditionalBufferedStream.Worker.{WorkerEnds, worker_round-WorkerEnds}
use socket_wrapper.ConditionalBufferedStream.Handlers.{process_stale}
use socket_wrapper.ConditionalBufferedStream.Reads.{read_times, Left, next_read, read_times-drains}
use socket_wrapper.ConditionalBufferedStream.Calls.{read_blocking}
use socket_wrapper.ConditionalBufferedStream.Blocking.{BlockingEnds, read_blocking-BlockingEnds}
use socket_wrapper.ConditionalBufferedStream.Ending.{
  Stops, catch_worker-Stops, catch_worker-Unposted, Unposted,
}
use socket_wrapper.ConditionalBufferedStream.Consumed.{ProcessEnds}
use socket_wrapper.ConditionalBufferedStream.Total.{process_data_send_signals-ProcessEnds}
use socket_wrapper.Tests.Sim.{
  sim, mute, sim-IsBounded, sim_history, sim_semaphore, start, buffer, buffer-IsValid,
}

-- A handler for lines, and the object that has it, with two bytes in its buffer.
abbrev lines : BufferEventHandler
lines = record { condition = delimiter_condition 10; fd = pos 5 }

abbrev object : ConditionalBufferedStream
object = record {
  last_ex = socket_ok;
  stream = buffer;
  termination_requested = false;
  buffer_event_handlers = lines ∷ [];
  received_data_per_condition = λ fd. none;
}

process_data_send_signals-SegmentEnds_example :
    SegmentEnds sim sim_history lines
      (sim_semaphore (pos 5))
      object
      start
      (segments (delimiter_condition 10) (7 ∷ 8 ∷ []))
      (process_data_send_signals sim (7 ∷ 8 ∷ []) (object, start))
process_data_send_signals-SegmentEnds_example =
    process_data_send_signals-SegmentEnds sim sim_history lines (sim_semaphore (pos 5)) object start
      buffer-IsValid refl

worker_round-WorkerEnds_example :
    WorkerEnds sim sim-IsBounded sim_history lines
      (sim_semaphore (pos 5))
      10
      refl
      object
      start
      (worker_round sim (object, start))
worker_round-WorkerEnds_example =
    worker_round-WorkerEnds sim sim-IsBounded sim_history lines (sim_semaphore (pos 5)) 10 refl
      object start buffer-IsValid refl (omega arith)

-- Two handlers that want the two bytes.
abbrev pair : BufferEventHandler
pair = record { condition = λ bytes. pos 2; fd = pos 5 }

abbrev greedy : ConditionalBufferedStream
greedy = record object { buffer_event_handlers = pair ∷ pair ∷ [] }

process_data_send_signals-ProcessEnds_example :
    ProcessEnds sim greedy (process_data_send_signals sim (7 ∷ 8 ∷ []) (greedy, start))
process_data_send_signals-ProcessEnds_example =
    process_data_send_signals-ProcessEnds sim (7 ∷ 8 ∷ []) greedy start buffer-IsValid

process_stale_example :
    ((process_data_send_signals sim (7 ∷ 8 ∷ []) (greedy, start)).0 ≡ throws out_of_range)
    × ((st : State sim) → catch_worker sim out_of_range st ≡ (terminated, st))
process_stale_example =
    process_stale sim sim_history pair pair (sim_semaphore (pos 5)) 7 (8 ∷ []) greedy start
      buffer-IsValid refl refl refl (omega arith) (omega arith)

abbrev queued : ConditionalBufferedStream
queued = record object {
  last_ex = socket_closed;
  received_data_per_condition = set_queue (pos 5) ((1 ∷ 10 ∷ []) ∷ (2 ∷ 10 ∷ []) ∷ []) (λ fd. none);
}

read_times-drains_example :
    (c' : ConditionalBufferedStream) × (read_times sim 1 (pos 5) (queued, start)
      ≡ (ok ((1 ∷ 10 ∷ []) ∷ []), (c', start)))
    × Left sim (pos 5) ((2 ∷ 10 ∷ []) ∷ []) queued c'
    × ((read sim (pos 5) (c', start)).0 ≡ next_read sim socket_closed ((2 ∷ 10 ∷ []) ∷ []))
read_times-drains_example =
    read_times-drains sim (pos 5) ((1 ∷ 10 ∷ []) ∷ []) ((2 ∷ 10 ∷ []) ∷ []) queued start refl

read_blocking-BlockingEnds_example :
    BlockingEnds sim
      (pos 5)
      (pos 100)
      queued
      start
      (read_blocking sim (pos 5) (pos 100) (queued, start))
read_blocking-BlockingEnds_example = read_blocking-BlockingEnds sim (pos 5) (pos 100) queued start

abbrev gone : SocketException
gone = record { exception_type = socket_closed; c_error = pos 0; processed_bytes = minus_one }

catch_worker-Stops_example :
    Stops sim lines object start
      (λ w. w.posts)
      (exception gone)
      (catch_worker sim (exception gone) (object, start))
catch_worker-Stops_example =
    catch_worker-Stops sim lines object start (exception gone) (sim_semaphore (pos 5)) refl

catch_worker-Unposted_example :
    Unposted mute lines object start
      (exception gone)
      (catch_worker mute (exception gone) (object, start))
catch_worker-Unposted_example =
    catch_worker-Unposted mute lines object start (exception gone) [] refl refl
