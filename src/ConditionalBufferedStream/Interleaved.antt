-- ===== src/ConditionalBufferedStream/Interleaved.antt =====
-- The worker of src/ConditionalBufferedStream.cpp in small steps, with one handler: between any two of
-- them callers read and the world changes. A step is what runs under one lock, or one system call. The
-- ends by a semaphore that cannot be posted or by another exception are in Ending and Total.
pub mod Answers
pub mod Invariant
pub mod Moves
pub mod Posts
pub mod Failures
pub mod Whole
pub mod Refines
pub mod Sequential
pub mod Ended
use socket_wrapper.Prelude.{
  ℕ, suc, ◌<◌, ◌≤◌, ◌≡◌, ◌⊎◌, List, [], ◌∷◌, ◌++◌, length, drop, true, false,
}
use socket_wrapper.Prelude.Int.{ℤ, pos, negsuc, minus_one}
use socket_wrapper.Exception.{SocketException, socket, type_eq, socket_termination_request}
use socket_wrapper.Exec.{ok, throws}
use socket_wrapper.Kernel.{Kernel, History}
use socket_wrapper.BufferedStream.{BufferedStream, read_available, pop_from_buffer}
use socket_wrapper.BufferedStream.Contents.{contents}
use socket_wrapper.ConditionalBufferedStream.{
  ConditionalBufferedStream, BufferEventHandler, push_back, post,
}
use socket_wrapper.ConditionalBufferedStream.Calls.{read}
use socket_wrapper.ConditionalBufferedStream.Delivered.{Semaphore}

-- Where the worker is: before readAvailableDataIntoBuffer; in processDataSendSignals, which was called
-- with these bytes; there behind the lock, before ::write and the recursive call with these bytes; in
-- the catch block, before ::write; or at its end.
pub data Place : Type 0 where
  reading : Place
  cutting : List ℕ → Place
  posting : List ℕ → Place
  failing : Place
  stopped : Place

-- The segments that callers have taken are recorded.
pub record System (K : Kernel) : Type 0 where
  pub object : ConditionalBufferedStream
  pub world : K.World
  pub place : Place
  pub taken : List (List ℕ)

module _ (K : Kernel) (handler : BufferEventHandler) where
  -- One step of the worker.
  pub data WorkerStep (s t : System K) : Type 0 where
    fills :
        (n : ℕ) (stream : BufferedStream) (w' : K.World)
        → s.place ≡ reading
        → read_available K minus_one (s.object.stream, s.world) ≡ (ok n, (stream, w'))
        → t ≡ record s {
          object = record s.object { stream = stream };
          world = w';
          place = cutting (contents stream);
        }
        → WorkerStep s t
    cuts :
        (bytes segment : List ℕ) (n : ℕ) (stream : BufferedStream) (w' : K.World)
        → s.place ≡ cutting bytes
        → handler.condition bytes ≡ pos n
        → 0 < n
        → n ≤ length bytes
        → pop_from_buffer K n (s.object.stream, s.world) ≡ (ok segment, (stream, w'))
        → t ≡ record s {
          object = (push_back K handler.fd segment (record s.object { stream = stream }, w')).1.0;
          world = w';
          place = posting (drop n bytes);
        }
        → WorkerStep s t
    posts :
        (bytes : List ℕ) (w' : K.World)
        → s.place ≡ posting bytes
        → post K handler.fd s.world ≡ (ok tt, w')
        → t ≡ record s { world = w'; place = cutting bytes }
        → WorkerStep s t
    discards :
        (bytes segment : List ℕ) (n : ℕ) (stream : BufferedStream) (w' : K.World)
        → s.place ≡ cutting bytes
        → handler.condition bytes ≡ negsuc n
        → n < length bytes
        → pop_from_buffer K (suc n) (s.object.stream, s.world) ≡ (ok segment, (stream, w'))
        → t ≡ record s {
          object = record s.object { stream = stream };
          world = w';
          place = cutting (drop (suc n) bytes);
        }
        → WorkerStep s t
    rests :
        (bytes : List ℕ)
        → s.place ≡ cutting bytes
        → (bytes ≡ []) ⊎ (handler.condition bytes ≡ pos 0)
        → t ≡ record s { place = reading }
        → WorkerStep s t
    fails :
        (ex : SocketException) (stream : BufferedStream) (w' : K.World)
        → s.place ≡ reading
        → read_available K minus_one (s.object.stream, s.world) ≡ (throws (socket ex), (stream, w'))
        → type_eq ex.exception_type socket_termination_request ≡ false
        → t ≡ record s {
          object = record s.object { stream = stream; last_ex = ex.exception_type };
          world = w';
          place = failing;
        }
        → WorkerStep s t
    notifies :
        (w' : K.World)
        → s.place ≡ failing
        → post K handler.fd s.world ≡ (ok tt, w')
        → t ≡ record s { world = w'; place = stopped }
        → WorkerStep s t
    ends :
        (ex : SocketException) (stream : BufferedStream) (w' : K.World)
        → s.place ≡ reading
        → read_available K minus_one (s.object.stream, s.world) ≡ (throws (socket ex), (stream, w'))
        → type_eq ex.exception_type socket_termination_request ≡ true
        → t ≡ record s { object = record s.object { stream = stream }; world = w'; place = stopped }
        → WorkerStep s t

  pub data WorkerSteps (s : System K) : System K → Type 0 where
    here : WorkerSteps s s
    next : {t u : System K} → WorkerSteps s t → WorkerStep t u → WorkerSteps s u

module _ (K : Kernel) (history : History K) (handler : BufferEventHandler)
    (semaphore : Semaphore K handler.fd) where
  -- A step of the worker, a call of `read` by any caller, or something that touches neither the object
  -- nor its descriptor nor the semaphore.
  pub data Step (s t : System K) : Type 0 where
    works : WorkerStep K handler s t → Step s t
    takes :
        (segment : List ℕ) (c' : ConditionalBufferedStream) (w' : K.World)
        → read K handler.fd (s.object, s.world) ≡ (ok segment, (c', w'))
        → t ≡ record s { object = c'; world = w'; taken = s.taken ++ segment ∷ [] }
        → Step s t
    other :
        (w' : K.World)
        → history.received s.object.stream.stream.stream_file_descriptor w'
          ≡ history.received s.object.stream.stream.stream_file_descriptor s.world
        → semaphore.posted w' ≡ semaphore.posted s.world
        → t ≡ record s { world = w' }
        → Step s t

  pub data Reach (s : System K) : System K → Type 0 where
    start : Reach s s
    later : {t u : System K} → Reach s t → Step t u → Reach s u
