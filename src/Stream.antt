-- ===== src/Stream.antt =====
-- include/socket_wrapper/Stream.h and src/Stream.cpp: the operations of one Stream on its
-- descriptor. Moves and destruction are in Stream/Ownership; the two mutexes are not in the state:
-- read holds one for each round, so that a descriptor has one reader at a time.
pub mod Read
pub mod Write
pub mod Keeps
pub mod Attempts
pub mod Ownership
use socket_wrapper.Prelude.{
  ℕ, zero, suc, ◌+◌, Bool, true, false, not, List, [], ◌∷◌, length, drop, ltb, ◌==◌, if◌then◌else◌,
}
use socket_wrapper.Prelude.Int.{ℤ, pos, minus_one, int_eq}
use socket_wrapper.Prelude.Size.{size_sub}
use socket_wrapper.Prelude.Memory.{blit}
use socket_wrapper.Exception.{
  ExceptionType, socket, socket_poll, socket_read, socket_closed, socket_termination_request,
  socket_read_timeout, socket_write, socket_write_partial, runtime_error,
}
use socket_wrapper.Exec.{
  Exec, pure, raise, diverge, gets, call, modify, continue, ◌>>=◌, ◌>>◌, on_second, throw_socket,
}
use socket_wrapper.Kernel.{Kernel, ReadResult, read_failed, got, WriteResult, write_failed, wrote}

pub record Stream : Type 0 where
  pub stream_file_descriptor : ℤ
  pub stop_all_operations_event_fd : ℤ

-- `std::numeric_limits<uint16_t>::max()`
abbrev pub semaphore_value : ℕ
semaphore_value = 65535

abbrev pub retry_interval_ms : ℕ
retry_interval_ms = 50

module _ (K : Kernel) where
  open K use {
    World, errno, poll, read as sys_read, write as sys_write, sleep_ms, eventfd, write_u64,
  }

  abbrev pub throw_errno : {A : Type 0} → ExceptionType → Exec World A
  throw_errno t w = throw_socket t (errno w) w

  -- The constructor.
  unfoldable pub create : ℤ → Exec World Stream
  create socket_fd = do
    event_fd ← call eventfd
    if int_eq event_fd minus_one
        then raise runtime_error
        else pure
            (record { stream_file_descriptor = socket_fd; stop_all_operations_event_fd = event_fd })

  -- The tests on the result of ::read.
  unfoldable pub check_read : ReadResult → Exec World (List ℕ)
  check_read read_failed = throw_errno socket_read
  check_read (got []) = throw_socket socket_closed (pos 0)
  check_read (got (b ∷ bytes)) = pure (b ∷ bytes)

  -- One round of the loop of `read`, where the buffer has room for `room` more bytes.
  unfoldable pub read_round : Stream → ℕ → ℤ → Exec World (List ℕ)
  unfolding check_read
  read_round s room timeout_ms = do
    polled ← call (poll (s.stream_file_descriptor ∷ s.stop_all_operations_event_fd ∷ []) timeout_ms)
    if int_eq polled.status minus_one
        then throw_errno socket_poll
        else if not (polled.revents 0 == 0)
        then (call (sys_read s.stream_file_descriptor room) >>= check_read)
        else if not (polled.revents 1 == 0)
        then throw_socket socket_termination_request (pos 0)
        else throw_socket socket_read_timeout (pos 0)

  -- The loop of `read`. The state is the array that `buffer` points into, at index `at`, and the
  -- world.
  unfoldable pub read_from : ℕ → Stream → ℕ → ℕ → ℕ → ℤ → ℕ → Exec (List ℕ × World) ℕ
  unfolding read_round
  read_from zero s at max_bytes min_bytes timeout_ms read_bytes = diverge
  read_from (suc fuel) s at max_bytes min_bytes timeout_ms read_bytes =
      elim (ltb read_bytes min_bytes) [
        | true ↦ do
          bytes ← on_second (read_round s (size_sub max_bytes read_bytes) timeout_ms)
          modify (λ st. (blit (at + read_bytes) bytes (st.0), st.1))
          read_from fuel s at max_bytes min_bytes timeout_ms (read_bytes + length bytes)
        | false ↦ pure read_bytes
      ]

  -- Each round reads a byte at least.
  unfoldable pub read : Stream → ℕ → ℕ → ℕ → ℤ → Exec (List ℕ × World) ℕ
  unfolding read_from
  read s at max_bytes_to_read min_bytes_to_read timeout_ms =
      read_from (suc min_bytes_to_read) s at max_bytes_to_read min_bytes_to_read timeout_ms 0

  -- `throw SocketException(SOCKET_WRITE_PARTIAL, errno, total_written_bytes)`
  abbrev throw_partial : {A : Type 0} → ℕ → Exec World A
  throw_partial total w =
      raise
        (socket (record {
          exception_type = socket_write_partial;
          c_error = errno w;
          processed_bytes = pos total;
        }))
        w

  -- The test on the result of ::write.
  check_write : WriteResult → Exec World ℕ
  check_write write_failed = throw_errno socket_write
  check_write (wrote n) = pure n

  -- The end of a round of the loop of `write`: it leaves the loop, or waits for the next attempt.
  retry : Bool → Exec World (Unit {0}) → Exec World (Unit {0})
  retry true next = pure tt
  retry false next = do call (sleep_ms retry_interval_ms); next

  -- The loop of `write` with the test behind it.
  unfoldable pub write_from : ℕ → Stream → List ℕ → ℕ → Exec World (Unit {0})
  unfolding check_write retry
  write_from zero s buffer total = if total == length buffer then pure tt else throw_partial total
  write_from (suc attempts) s buffer total = do
    n ← call (sys_write s.stream_file_descriptor (drop total buffer)) >>= check_write
    retry (total + n == length buffer) (write_from attempts s buffer (total + n))

  unfoldable pub write : Stream → List ℕ → ℕ → Exec World (Unit {0})
  unfolding write_from
  write s buffer attempts = write_from attempts s buffer 0

  -- The result of ::write is not looked at.
  unfoldable pub stop_reads : Stream → Exec World (Unit {0})
  stop_reads s = do call (write_u64 s.stop_all_operations_event_fd semaphore_value); pure tt
