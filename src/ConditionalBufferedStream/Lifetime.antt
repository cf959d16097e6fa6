-- ===== src/ConditionalBufferedStream/Lifetime.antt =====
-- The worker thread of a ConditionalBufferedStream: start and the destructor.
use socket_wrapper.Prelude.{
  ℕ, suc, ◌<◌, ◌≡◌, ◌≢◌, ◌⊎◌, inl, inr, refl, sym, subst, ◌==◌, Bool, true, false, Bool-cases, List,
  [], ◌∷◌, arith, if◌then◌else◌,
}
use socket_wrapper.Prelude.Int.{ℤ, pos, minus_one, is_negative, int_eq, int_eq→eq, int_eq→ne}
use socket_wrapper.Exception.{SocketException, socket, socket_termination_request}
use socket_wrapper.Exec.{
  Outcome, ok, throws, terminated, Exec, pure, terminate, modify, gets, call, on_second, ◌>>=◌,
  ◌>>◌,
}
use socket_wrapper.Kernel.{Kernel, write_failed}
use socket_wrapper.Stream.{Stream, semaphore_value, check_read, read_round, read_from}
use socket_wrapper.Stream
use socket_wrapper.Stream.Ownership.{destroy as destroy_stream}
use socket_wrapper.BufferedStream.{BufferedStream, read_available}
use socket_wrapper.BufferedStream
use socket_wrapper.Threads.{Thread, no_thread, running, finished, joinable}
use socket_wrapper.ConditionalBufferedStream.{
  ConditionalBufferedStream, BufferEventHandler, with_stream, worker_round, after_round, post,
  process_data_send_signals, notify, catch_worker, conditional_buffer_worker,
}

-- The object with the member `worker`.
pub record Threaded : Type 0 where
  pub object : ConditionalBufferedStream
  pub worker : Thread

module _ (K : Kernel) where
  open K use {World, close}

  abbrev pub Action : Type 0
  Action = Exec (Threaded × World) (Unit {0})

  abbrev set_worker : Thread → Action
  set_worker worker = modify (λ (t, w). (record t { worker = worker }, w))

  -- What works on the object alone.
  abbrev on_object : Exec (ConditionalBufferedStream × World) (Unit {0}) → Action
  on_object m (t, w) =
      let (r, (object, w')) = m (t.object, w) in (r, (record t { object = object }, w'))

  -- The assignment to a std::thread that is joinable calls std::terminate.
  unfoldable pub start : Action
  start = do
    worker ← gets (λ (t, w). t.worker)
    if joinable worker then terminate else set_worker running

  -- What is left of the worker's thread before ::write of a post, in the processDataSendSignals of one
  -- handler that was called with the bytes that end in `bytes`: the post, the recursive call with
  -- `bytes`, and the loop.
  abbrev left_of_post :
      BufferEventHandler → List ℕ → ℕ → Exec (ConditionalBufferedStream × World) (Unit {0})
  left_of_post handler bytes rounds st =
      let (r, st') = (on_second (post K handler.fd) >> process_data_send_signals K bytes) st in
      after_round K (conditional_buffer_worker K rounds) r st'

  -- `worker.join()` in the destructor, where `left` is what is left of the worker's thread. Without a
  -- thread it throws, which the destructor may not.
  unfoldable pub join : Exec (ConditionalBufferedStream × World) (Unit {0}) → Action
  join left = do
    worker ← gets (λ (t, w). t.worker)
    elim worker [
      | no_thread ↦ terminate
      | running ↦ (on_object left >> set_worker no_thread)
      | finished ↦ set_worker no_thread
    ]

  -- `for (auto x : buffer_event_handlers) { ::close(x.fd); }`
  unfoldable pub close_all : List BufferEventHandler → Exec World (Unit {0})
  close_all [] = pure tt
  close_all (handler ∷ handlers) = do call (close handler.fd); close_all handlers

  -- The destructor, with that of the Stream after it; the array is in BufferedStream/Ownership.
  unfoldable pub destroy : Exec (ConditionalBufferedStream × World) (Unit {0}) → Action
  unfolding join
  destroy left = do
    c ← gets (λ (t, w). t.object)
    on_second (close_all c.buffer_event_handlers)
    on_object (with_stream K (BufferedStream.stop_reads K))
    join left
    on_second (destroy_stream K c.stream.stream)

  close_all-ok :
      (handlers : List BufferEventHandler) (w : K.World) → (close_all handlers w).0 ≡ ok tt
  unfolding close_all
  close_all-ok [] w = refl
  close_all-ok (handler ∷ handlers) w = close_all-ok handlers (K.close handler.fd w).1

-- Nothing more comes from the peer. Once the stream's event descriptor was posted, which is never
-- undone, poll succeeds and announces the post. Once the event descriptor of the handler was closed, a
-- write to it fails: its number is not used again.
pub record Quiet (K : Kernel) (s : Stream) (fd : ℤ) : Type 0 where
  pub requested : K.World → Bool
  pub posted :
      (n : ℕ) (w : K.World)
      → 0 < n
      → requested (K.write_u64 s.stop_all_operations_event_fd n w).1 ≡ true
  pub polled :
      (w : K.World)
      → requested w ≡ true
      → let p =
          K.poll (s.stream_file_descriptor ∷ s.stop_all_operations_event_fd ∷ []) minus_one w in
        (int_eq p.0.status minus_one ≡ false)
        × ((p.0.revents 0 == 0) ≡ true)
        × ((p.0.revents 1 == 0) ≡ false)
  pub shut : K.World → Bool
  pub closes : (w : K.World) → shut (K.close fd w).1 ≡ true
  pub stays :
      (n : ℕ) (w : K.World)
      → shut w ≡ true
      → shut (K.write_u64 s.stop_all_operations_event_fd n w).1 ≡ true
  pub refuses :
      (w : K.World)
      → shut w ≡ true
      → ((K.write_u64 fd 1 w).0 ≡ write_failed) × (shut (K.write_u64 fd 1 w).1 ≡ true)

abbrev stopped : SocketException
stopped = record {
  exception_type = socket_termination_request;
  c_error = pos 0;
  processed_bytes = minus_one;
}

-- Where the worker is when the destructor joins it: it was never started; it waits in a read, at the
-- head of a round; it is before ::write of a post, with these bytes left; or it has ended.
pub data Worker : Type 0 where
  not_started : Worker
  in_read : Worker
  before_post : List ℕ → Worker
  ended : Worker

abbrev pub thread_of : Worker → Thread
thread_of not_started = no_thread
thread_of in_read = running
thread_of (before_post bytes) = running
thread_of ended = finished

module _ (K : Kernel) (handler : BufferEventHandler) (rounds : ℕ) where
  -- What is left of its thread.
  abbrev pub left_of : Worker → Exec (ConditionalBufferedStream × K.World) (Unit {0})
  left_of not_started = pure tt
  left_of in_read = conditional_buffer_worker K (suc rounds)
  left_of (before_post bytes) = left_of_post K handler bytes rounds
  left_of ended = pure tt

module _ (K : Kernel) (handler : BufferEventHandler) (c : ConditionalBufferedStream)
    (quiet : Quiet K c.stream.stream handler.fd) where
  open quiet use {requested, posted, polled, shut, closes, stays, refuses}

  -- A round that begins after the post.
  worker_round-stopped :
      (w : K.World) → requested w ≡ true → (worker_round K (c, w)).0 ≡ throws (socket stopped)
  unfolding worker_round read_available Stream.read read_from read_round
  worker_round-stopped w asked =
      let (fine, nothing, request) = polled w asked in
      rw (fine, nothing, request, worker_round, read_available, Stream.read, read_from, read_round)

  -- One round is enough.
  conditional_buffer_worker-stopped :
      (rounds : ℕ) (w : K.World)
      → requested w ≡ true
      → ((conditional_buffer_worker K 1 (c, w)).0 ≡ ok tt)
        × (conditional_buffer_worker K (suc rounds) (c, w) ≡ conditional_buffer_worker K 1 (c, w))
  unfolding conditional_buffer_worker after_round
  conditional_buffer_worker-stopped rounds w asked =
      rw (worker_round-stopped w asked, conditional_buffer_worker, after_round) (refl, refl)

  -- What the destructor does before the join.
  abbrev pub after_stop : K.World → K.World
  after_stop w =
      (K.write_u64 c.stream.stream.stop_all_operations_event_fd semaphore_value
        (close_all K c.buffer_event_handlers w).1).1

  -- What it does after the join with what the worker left.
  abbrev pub Closes :
      ConditionalBufferedStream × K.World → Outcome (Unit {0}) × (Threaded × K.World) → Type 0
  Closes (c', v) st =
      let closed =
        K.close c.stream.stream.stream_file_descriptor
          (K.write_u64 c.stream.stream.stop_all_operations_event_fd semaphore_value v).1 in
      ((closed.0 ≡ pos 0) × (st ≡ (ok tt, (record { object = c'; worker = no_thread }, closed.1))))
      ⊎ ((closed.0 ≢ pos 0) × (st.0 ≡ terminated))

  -- How the destructor ends, by where the worker is.
  abbrev pub DestroyEnds : Worker → K.World → Outcome (Unit {0}) × (Threaded × K.World) → Type 0
  DestroyEnds not_started w st = st.0 ≡ terminated
  DestroyEnds in_read w st =
      let run = conditional_buffer_worker K 1 (c, after_stop w) in (run.0 ≡ ok tt) × Closes run.1 st
  DestroyEnds (before_post bytes) w st = st.0 ≡ terminated
  DestroyEnds ended w st = Closes (c, after_stop w) st

  notify_fails :
      (v : K.World)
      → (K.write_u64 handler.fd 1 v).0 ≡ write_failed
      → (notify K (handler ∷ []) v).0 ≡ terminated
  unfolding notify post
  notify_fails v fails = rw (fails, notify)

  shut_after : (w : K.World) → c.buffer_event_handlers ≡ handler ∷ [] → shut (after_stop w) ≡ true
  unfolding close_all
  shut_after w one =
      subst
        (λ l.
          shut
            (K.write_u64 c.stream.stream.stop_all_operations_event_fd semaphore_value
              (close_all K l w).1).1
          ≡ true)
        (sym one) (stays semaphore_value (K.close handler.fd w).1 (closes w))

  module _ (w : K.World) (valid : is_negative c.stream.stream.stream_file_descriptor ≡ false) where
    -- The thread was joined.
    joined-Closes :
        (left : Exec (ConditionalBufferedStream × K.World) (Unit {0})) (t : Thread)
        (c' : ConditionalBufferedStream) (v : K.World)
        → join K left (record { object = c; worker = t }, after_stop w)
          ≡ (ok tt, (record { object = c'; worker = no_thread }, v))
        → Closes (c', v) (destroy K left (record { object = c; worker = t }, w))
    unfolding destroy BufferedStream.stop_reads Stream.stop_reads destroy_stream
    joined-Closes left t c' v e = elim (Bool-cases (int_eq closed.0 (pos 0))) [
      | inl fine ↦
          rw (close_all-ok K c.buffer_event_handlers w, e, valid, fine, destroy, destroy_stream)
            (inl (int_eq→eq _ _ fine, refl))
      | inr fails ↦
          rw (close_all-ok K c.buffer_event_handlers w, e, valid, fails, destroy, destroy_stream)
            (inr (int_eq→ne _ _ fails, refl))
    ]
      where
        closed : ℤ × K.World
        closed =
            K.close c.stream.stream.stream_file_descriptor
              (K.write_u64 c.stream.stream.stop_all_operations_event_fd semaphore_value v).1

    join-terminates :
        (left : Exec (ConditionalBufferedStream × K.World) (Unit {0})) (t : Thread)
        → (join K left (record { object = c; worker = t }, after_stop w)).0 ≡ terminated
        → (destroy K left (record { object = c; worker = t }, w)).0 ≡ terminated
    unfolding destroy BufferedStream.stop_reads Stream.stop_reads
    join-terminates left t e = rw (close_all-ok K c.buffer_event_handlers w, e, destroy)

    asked : requested (after_stop w) ≡ true
    asked = posted semaphore_value (close_all K c.buffer_event_handlers w).1 (omega arith)

    left_of_post-terminates :
        (bytes : List ℕ) (rounds : ℕ) (v : K.World)
        → c.buffer_event_handlers ≡ handler ∷ []
        → shut v ≡ true
        → (left_of_post K handler bytes rounds (c, v)).0 ≡ terminated
    unfolding post after_round catch_worker
    left_of_post-terminates bytes rounds v one closed =
        let (fails, still) = refuses v closed in
        let (fails', _) = refuses (K.write_u64 handler.fd 1 v).1 still in
        let in_catch : (notify K c.buffer_event_handlers (K.write_u64 handler.fd 1 v).1).0
            ≡ terminated =
          subst (λ l. (notify K l (K.write_u64 handler.fd 1 v).1).0 ≡ terminated) (sym one)
            (notify_fails (K.write_u64 handler.fd 1 v).1 fails') in
        rw (fails, in_catch, post, after_round, catch_worker)

  -- Nothing more comes from the peer, so that poll, once the stream's event descriptor was posted,
  -- succeeds and announces that alone; a write to the handler's event descriptor fails once it was
  -- closed, since its number is not used again; there is one handler; the stream's descriptor is not negative. If the worker was never
  -- started, the destructor terminates the process. If it waits in a read, it ends in its next round,
  -- having found the post, and is joined. If it has ended, it is joined. In both cases the socket is
  -- closed last, in the world that the worker left, and the destructor returns if that succeeds and
  -- terminates the process if not. If the worker is about to post to the handler, the post fails, so does
  -- the one by which it would tell of that failure, and the process is terminated.
  pub destroy-DestroyEnds :
      (rounds : ℕ) (worker : Worker) (w : K.World)
      → is_negative c.stream.stream.stream_file_descriptor ≡ false
      → c.buffer_event_handlers ≡ handler ∷ []
      → DestroyEnds worker w (
          destroy K
            (left_of K handler rounds worker)
            (record { object = c; worker = thread_of worker }, w))
  unfolding join
  destroy-DestroyEnds rounds not_started w valid one =
      join-terminates w valid (pure tt) no_thread refl
  destroy-DestroyEnds rounds in_read w valid one =
      let (fine, same) = conditional_buffer_worker-stopped rounds (after_stop w) (asked w valid) in
      let run = conditional_buffer_worker K 1 (c, after_stop w) in
      (fine, joined-Closes w valid _ running run.1.0 run.1.1 (rw (same, fine, join) refl))
  destroy-DestroyEnds rounds (before_post bytes) w valid one =
      join-terminates w valid (left_of_post K handler bytes rounds) running (
        rw (
          left_of_post-terminates w valid bytes rounds (after_stop w) one (shut_after w one),
          join,
        ))
  destroy-DestroyEnds rounds ended w valid one =
      joined-Closes w valid (pure tt) finished c (after_stop w) refl
