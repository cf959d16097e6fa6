-- ===== src/ConditionalBufferedStream/Wakeups.antt =====
-- What callers that wait see after the worker has ended by an exception.
use socket_wrapper.Prelude.{
  ℕ, zero, suc, ◌+◌, ◌<◌, ◌≡◌, ◌≢◌, refl, ap, ◌∙◌, List, [], ◌∷◌, some, arith, length,
}
use socket_wrapper.Prelude.Int.{ℤ}
use socket_wrapper.Exception.{
  ExceptionType, SocketException, socket, socket_ok, socket_termination_request,
}
use socket_wrapper.Exec.{ok, throws, Exec, pure, ◌>>=◌}
use socket_wrapper.Kernel.{Kernel, wrote}
use socket_wrapper.ConditionalBufferedStream.{
  ConditionalBufferedStream, BufferEventHandler, catch_worker,
}
use socket_wrapper.ConditionalBufferedStream.Calls.{wait_and_read}
use socket_wrapper.ConditionalBufferedStream.Reads.{
  default_exception, drained, read_some, read_none,
}
use socket_wrapper.ConditionalBufferedStream.Ending.{
  catch_worker_posts, ne→type_eq_request, ne→type_eq_ok,
}

-- eventfd(2) with EFD_SEMAPHORE: a write of 1 adds one to the counter; a read waits until the counter
-- is positive and takes one off.
pub record Counter (K : Kernel) (fd : ℤ) : Type 0 where
  pub count : K.World → ℕ
  pub posts : (w : K.World) → (K.write_u64 fd 1 w).0 ≡ wrote 8
  pub count_post : (w : K.World) → count (K.write_u64 fd 1 w).1 ≡ count w + 1
  pub count_wait : (w : K.World) → 0 < count w → count (K.read_u64 fd w).1 + 1 ≡ count w

module _ (K : Kernel) where
  -- So many waiting reads in a row.
  pub wait_times : ℕ → ℤ → Exec (ConditionalBufferedStream × K.World) (List (List ℕ))
  wait_times zero fd = pure []
  wait_times (suc n) fd = do
    segment ← wait_and_read K fd
    segments ← wait_times n fd
    pure (segment ∷ segments)

  module _ (fd : ℤ) (counter : Counter K fd) where
    -- The queue is empty, the counter is `k`, and the type of the last exception has not changed.
    abbrev pub Drained :
        ℕ → ConditionalBufferedStream → ConditionalBufferedStream × K.World → Type 0
    Drained k c (c', w') =
        (c'.received_data_per_condition fd ≡ some [])
        × (c'.last_ex ≡ c.last_ex)
        × (counter.count w' ≡ k)

    wait_times-Drained :
        (segments : List (List ℕ)) (k : ℕ) (c : ConditionalBufferedStream) (w : K.World)
        → c.received_data_per_condition fd ≡ some segments
        → counter.count w ≡ length segments + k
        → (st : ConditionalBufferedStream × K.World) × (wait_times (length segments) fd (c, w)
            ≡ (ok segments, st))
          × Drained k c st
    unfolding wait_times
    wait_times-Drained [] k c w e n = ((c, w), refl, (e, refl, omega arith))
    wait_times-Drained (segment ∷ segments) k c w e n =
        let w' = (K.read_u64 fd w).1 in
        let (c', er, left) = read_some K fd segment segments c w' e in
        let (st, es, (empty, last, count)) =
          wait_times-Drained segments k c' w' left.0 (omega (arith, counter.count_wait w)) in
        (st, rw (er, es), (empty, last ∙ left.2, count))

  -- The worker has one handler, whose semaphore works and counts the queued segments, and fails with a
  -- SocketException that is neither a termination request nor SOCKET_OK. Then each waiting read gets
  -- one of the queued segments, in order; the next one throws an exception of the type of the failure;
  -- and after it the counter is 0, so that a caller who waits after that is not told of the failure.
  pub failure_wakes_one :
      (handler : BufferEventHandler) (counter : Counter K handler.fd) (ex : SocketException)
      (segments : List (List ℕ)) (c : ConditionalBufferedStream) (w : K.World)
      → c.buffer_event_handlers ≡ handler ∷ []
      → c.received_data_per_condition handler.fd ≡ some segments
      → counter.count w ≡ length segments
      → ex.exception_type ≢ socket_termination_request
      → ex.exception_type ≢ socket_ok
      → (failed : ConditionalBufferedStream × K.World) × (after : ConditionalBufferedStream
          × K.World)
        × (w' : K.World) × (catch_worker K (socket ex) (c, w) ≡ (ok tt, failed))
        × (wait_times (length segments) handler.fd failed ≡ (ok segments, after))
        × (wait_and_read K handler.fd after
            ≡ (throws (default_exception ex.exception_type), (after.0, w')))
        × (counter.count w' ≡ 0)
  failure_wakes_one handler counter ex segments c w one queued counted other real =
      let failed = record c { last_ex = ex.exception_type } in
      let v = (K.write_u64 handler.fd 1 w).1 in
      let (after, drains, (empty, last, count)) =
        wait_times-Drained handler.fd counter segments 1 failed v queued
          (omega (arith, counter.count_post w)) in
      let w' = (K.read_u64 handler.fd after.1).1 in
      (
        (failed, v),
        after,
        w',
        catch_worker_posts K handler c w ex (counter.posts w) one (ne→type_eq_request _ other),
        drains,
        read_none K handler.fd after.0 w' empty
            ∙ ap (λ e. (throws e, (after.0, w'))) (reported after.0.last_ex last),
        omega (arith, counter.count_wait after.1),
      )
    where
      reported :
          (t : ExceptionType)
          → t ≡ ex.exception_type
          → drained K t ≡ default_exception ex.exception_type
      reported t e = rw (e, ne→type_eq_ok ex.exception_type real) refl
