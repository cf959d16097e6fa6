-- ===== src/ConditionalBufferedStream.antt =====
-- include/socket_wrapper/ConditionalBufferedStream.h and src/ConditionalBufferedStream.cpp. The
-- worker thread and the callers act on one object; each function below is one of their actions,
-- on the object and the world. The recursive mutexes make the accesses to the handlers and to the
-- queues atomic; they are not in the state.
pub mod Calls
pub mod Segments
pub mod Delivered
pub mod Process
pub mod Consumed
pub mod Total
pub mod Lines
pub mod Worker
pub mod Handlers
pub mod Reads
pub mod Blocking
pub mod Ending
pub mod Wakeups
pub mod Chunks
pub mod Abstract
pub mod Delivery
pub mod Lifetime
pub mod Interleaved
pub mod Run
use socket_wrapper.Prelude.{
  ℕ, zero, suc, ◌+◌, Bool, true, false, List, [], ◌∷◌, ◌++◌, Option, none, some, length, take, drop,
  ltb, ◌==◌, if◌then◌else◌,
}
use socket_wrapper.Prelude.Int.{ℤ, pos, minus_one, is_positive, int_eq, nat_abs, to_int}
use socket_wrapper.Prelude.Find.{find}
use socket_wrapper.Exception.{
  ExceptionType, SocketException, Exception, type_eq, socket, runtime_error, logic_error, socket_ok,
  socket_write, socket_termination_request,
}
use socket_wrapper.Exec.{
  Outcome, ok, throws, terminated, out_of_fuel, Exec, pure, raise, terminate, diverge, gets, call,
  ◌>>=◌, ◌>>◌, on_second,
}
use socket_wrapper.Kernel.{Kernel, WriteResult, write_failed, wrote}
use socket_wrapper.Stream.{throw_errno}
use socket_wrapper.BufferedStream.{BufferedStream, read_available, pop_from_buffer}
use socket_wrapper.BufferedStream

-- `buffer_event_condition`: the number of bytes to take, negative if they are to be discarded.
abbrev pub BufferEventCondition : Type 0
BufferEventCondition = List ℕ → ℤ

pub record BufferEventHandler : Type 0 where
  pub condition : BufferEventCondition
  pub fd : ℤ

-- `std::map<int, std::list<std::vector<char>>>`
abbrev pub Queues : Type 0
Queues = ℤ → Option (List (List ℕ))

pub record ConditionalBufferedStream : Type 0 where
  pub last_ex : ExceptionType
  pub stream : BufferedStream
  pub termination_requested : Bool
  pub buffer_event_handlers : List BufferEventHandler
  pub received_data_per_condition : Queues

-- The constructor.
pub create : BufferedStream → ConditionalBufferedStream
create stream = record {
  last_ex = socket_ok;
  stream = stream;
  termination_requested = false;
  buffer_event_handlers = [];
  received_data_per_condition = λ fd. none;
}

-- `received_data_per_condition[fd]`, which makes a missing queue an empty one.
abbrev pub queue : Queues → ℤ → List (List ℕ)
queue queues fd = elim (queues fd) [ none ↦ [] | some segments ↦ segments ]

-- `received_data_per_condition[fd] = segments`
abbrev pub set_queue : ℤ → List (List ℕ) → Queues → Queues
set_queue fd segments queues g = if int_eq fd g then some segments else queues g

-- `getDelimiterCondition`
unfoldable pub delimiter_condition : ℕ → BufferEventCondition
delimiter_condition delimiter bytes =
    let position = find delimiter bytes in
    if position == length bytes then pos 0 else to_int (position + 1)

module _ (K : Kernel) where
  open K use {World, eventfd, write_u64}

  abbrev pub Action : Type 0 → Type 0
  Action = Exec (ConditionalBufferedStream × World)

  -- Code on the BufferedStream of the object.
  abbrev pub with_stream : {A : Type 0} → Exec (BufferedStream × World) A → Action A
  with_stream m (c, w) =
      let (r, (stream, w')) = m (c.stream, w) in (r, (record c { stream = stream }, w'))

  -- `createEventfdOnCondition`
  pub create_eventfd_on_condition : BufferEventCondition → Action ℤ
  create_eventfd_on_condition condition = do
    fd ← on_second (call eventfd)
    if int_eq fd minus_one then raise runtime_error else (λ st.
        let (c, w) = st in
        (
          ok fd,
          (
            record c {
              buffer_event_handlers =
                  c.buffer_event_handlers ++ record { condition = condition; fd = fd } ∷ [];
              received_data_per_condition = set_queue fd [] c.received_data_per_condition;
            },
            w,
          ),
        ))

  -- The test on the result of ::write.
  abbrev check_post : WriteResult → Exec World (Unit {0})
  check_post write_failed = throw_errno K socket_write
  check_post (wrote n) = pure tt

  -- Posts the semaphore of a handler.
  unfoldable pub post : ℤ → Exec World (Unit {0})
  post fd = call (write_u64 fd 1) >>= check_post

  -- `received_data_per_condition[fd].push_back(segment)`
  abbrev pub push_back : ℤ → List ℕ → Action (Unit {0})
  push_back fd segment (c, w) =
      let queues = c.received_data_per_condition in
      (
        ok tt,
        (
          record c {
            received_data_per_condition = set_queue fd (queue queues fd ++ segment ∷ []) queues;
          },
          w,
        ),
      )

  -- What is done with a segment of a positive length, or of a negative one.
  pub deliver : Bool → ℤ → List ℕ → Action (Unit {0})
  unfolding post
  deliver true fd segment = do push_back fd segment; on_second (post fd)
  deliver false fd segment = pure tt

  -- The body of the loop of `processDataSendSignals` for one handler, where `next` is the recursive
  -- call.
  unfoldable pub handle :
      (List ℕ → Action (Unit {0})) → BufferEventHandler → List ℕ → Action (Unit {0})
  unfolding deliver
  handle next handler bytes =
      let n = handler.condition bytes in
      if ltb (length bytes) (nat_abs n)
      then raise logic_error
      else if nat_abs n == 0
      then pure tt
      else (do
        segment ← with_stream (pop_from_buffer K (nat_abs n))
        deliver (is_positive n) handler.fd segment
        next (drop (nat_abs n) bytes))

  -- That loop.
  unfoldable pub handle_all :
      (List ℕ → Action (Unit {0})) → List BufferEventHandler → List ℕ → Action (Unit {0})
  handle_all next [] bytes = pure tt
  handle_all next (handler ∷ handlers) bytes = do
    handle next handler bytes
    handle_all next handlers bytes

  -- The recursion of `processDataSendSignals`.
  unfoldable pub process_from : ℕ → List ℕ → Action (Unit {0})
  process_from zero bytes = diverge
  process_from (suc fuel) [] = pure tt
  process_from (suc fuel) (byte ∷ bytes) = do
    handlers ← gets (λ st. st.0.buffer_event_handlers)
    handle_all (process_from fuel) handlers (byte ∷ bytes)

  -- `processDataSendSignals`. Each recursive call has fewer bytes.
  unfoldable pub process_data_send_signals : List ℕ → Action (Unit {0})
  process_data_send_signals bytes = process_from (suc (length bytes)) bytes

  -- A round of the loop of `ConditionalBufferWorker`.
  unfoldable pub worker_round : Action (Unit {0})
  worker_round = do
    with_stream (read_available K minus_one)
    bytes ← gets (λ st. take st.0.stream.buffer_write_offset st.0.stream.stream_buffer)
    process_data_send_signals bytes

  -- The loop that notifies the handlers. A throw in it leaves the thread.
  unfoldable pub notify : List BufferEventHandler → Exec World (Unit {0})
  unfolding post
  notify [] w = (ok tt, w)
  notify (handler ∷ handlers) w =
      let (r, w') = post handler.fd w in elim r [ ok _ ↦ notify handlers w' | _ ↦ (terminated, w') ]

  -- `catch (SocketException& ex)`; any other exception leaves the thread, which calls
  -- std::terminate.
  unfoldable pub catch_worker : Exception → Action (Unit {0})
  unfolding notify
  catch_worker (socket ex) (c, w) =
      if type_eq ex.exception_type socket_termination_request
      then (ok tt, (c, w))
      else on_second (notify c.buffer_event_handlers) (record c { last_ex = ex.exception_type }, w)
  catch_worker _ st = (terminated, st)

  -- What follows a round: the next one, or the end of the thread.
  pub after_round : Action (Unit {0}) → Outcome (Unit {0}) → Action (Unit {0})
  unfolding catch_worker
  after_round next (ok _) = next
  after_round next (throws e) = catch_worker e
  after_round next terminated = terminate
  after_round next out_of_fuel = diverge

  -- `ConditionalBufferWorker`, for so many rounds; `out_of_fuel` says that it is still running.
  unfoldable pub conditional_buffer_worker : ℕ → Action (Unit {0})
  unfolding after_round
  conditional_buffer_worker zero st = (out_of_fuel, st)
  conditional_buffer_worker (suc rounds) st =
      let (r, st') = worker_round st in after_round (conditional_buffer_worker rounds) r st'
