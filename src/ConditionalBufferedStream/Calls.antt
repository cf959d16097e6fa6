-- ===== src/ConditionalBufferedStream/Calls.antt =====
-- What other threads call on a ConditionalBufferedStream: its reads, write and stopReads.
use socket_wrapper.Prelude.{ℕ, true, List, [], ◌∷◌, Option, none, some, if◌then◌else◌}
use socket_wrapper.Prelude.Int.{ℤ, pos, minus_one, int_eq}
use socket_wrapper.Exception.{
  type_eq, out_of_range, socket_ok, socket_invalid_condition, socket_poll, socket_read_timeout,
  socket_termination_request,
}
use socket_wrapper.Exec.{ok, pure, raise, gets, call, ◌>>=◌, ◌>>◌, on_second, throw_socket}
use socket_wrapper.Kernel.{Kernel}
use socket_wrapper.Stream.{throw_errno}
use socket_wrapper.BufferedStream.{BufferedStream}
use socket_wrapper.BufferedStream
use socket_wrapper.ConditionalBufferedStream.{set_queue, Action, with_stream}

module _ (K : Kernel) where
  open K use {World, poll, pollin, close, read_u64}

  -- `read`, at the queue of its condition.
  unfoldable pub read_queue : ℤ → Option (List (List ℕ)) → Action K (List ℕ)
  read_queue condition_fd none (c, w) = throw_socket socket_invalid_condition minus_one (c, w)
  read_queue condition_fd (some (segment ∷ segments)) (c, w) = (
    ok segment,
    (
      record c {
        received_data_per_condition = set_queue condition_fd segments c.received_data_per_condition;
      },
      w,
    ),
  )
  read_queue condition_fd (some []) (c, w) =
      if type_eq c.last_ex socket_ok
      then raise out_of_range (c, w)
      else throw_socket c.last_ex minus_one (c, w)

  unfoldable pub read : ℤ → Action K (List ℕ)
  unfolding read_queue
  read condition_fd (c, w) =
      read_queue condition_fd (c.received_data_per_condition condition_fd) (c, w)

  -- The end of `readBlocking`: the read of the semaphore, which waits, and the read of the queue.
  abbrev pub wait_and_read : ℤ → Action K (List ℕ)
  wait_and_read condition_fd = do on_second (call (read_u64 condition_fd)); read condition_fd

  unfoldable pub read_blocking : ℤ → ℤ → Action K (List ℕ)
  unfolding read
  read_blocking condition_fd timeout_ms = do
    polled ← on_second (call (poll (condition_fd ∷ []) timeout_ms))
    stopped ← gets (λ st. st.0.termination_requested)
    if int_eq polled.status (pos 0)
        then (if stopped
            then throw_socket socket_termination_request minus_one
            else on_second (throw_errno K socket_poll))
        else if pollin (polled.revents 0)
        then wait_and_read condition_fd
        else on_second (throw_errno K socket_read_timeout)

  -- `readBlockingStr`. A std::string is the list of its chars, as a vector is.
  abbrev read_blocking_str : ℤ → ℤ → Action K (List ℕ)
  read_blocking_str condition_fd timeout_ms = do
    bytes ← read_blocking condition_fd timeout_ms
    pure bytes

  unfoldable pub write : List ℕ → Action K (Unit {0})
  write bytes = with_stream K (BufferedStream.write K bytes)

  -- `write` of a std::string.
  abbrev write_str : List ℕ → Action K (Unit {0})
  write_str bytes = write bytes

  unfoldable pub stop_reads : Action K (Unit {0})
  stop_reads (c, w) =
      with_stream K (BufferedStream.stop_reads K) (record c { termination_requested = true }, w)
