-- ===== src/ConditionalBufferedStream/Interleaved/Whole.antt =====
-- What holds between any two small steps of the worker.
use mathlib.Core.List.{flatten}
use socket_wrapper.Prelude.{
  ℕ, ◌^◌, ◌<◌, ◌≡◌, refl, sym, ap, ◌∙◌, List, [], ◌∷◌, arith, length, append-nil, subst,
}
use socket_wrapper.Prelude.Int.{ℤ}
use socket_wrapper.Kernel.{Kernel, IsBounded, History}
use socket_wrapper.BufferedStream.Contents.{contents, IsValid}
use socket_wrapper.ConditionalBufferedStream.{BufferEventHandler, queue, delimiter_condition}
use socket_wrapper.ConditionalBufferedStream.Delivered.{Semaphore}
use socket_wrapper.ConditionalBufferedStream.Interleaved.Answers.{answer-ne-negsuc}
use socket_wrapper.ConditionalBufferedStream.Calls.{read}
use socket_wrapper.ConditionalBufferedStream.Interleaved.{
  reading, cutting, System, WorkerStep, fills, cuts, posts, discards, rests, fails, notifies, ends,
  Step, works, takes, other, Reach, start, later,
}
use socket_wrapper.ConditionalBufferedStream.Interleaved.Invariant.{
  segments_of, IsWhole, at, copy_small,
}
use socket_wrapper.ConditionalBufferedStream.Interleaved.Moves.{
  fills-IsWhole, cuts-IsWhole, rests-IsWhole, takes-IsWhole,
}
use socket_wrapper.ConditionalBufferedStream.Interleaved.Posts.{posts-IsWhole, notifies-IsWhole}
use socket_wrapper.ConditionalBufferedStream.Interleaved.Failures.{fails-IsWhole, ends-IsWhole}
use socket_wrapper.Exception.{socket}

module _ (K : Kernel) (bounded : IsBounded K) (history : History K) (handler : BufferEventHandler)
    (semaphore : Semaphore K handler.fd) (d : ℕ)
    (splits : handler.condition ≡ delimiter_condition d) where
  module _ (base : List ℕ) (count : ℕ) (s : System K)
      (inv : IsWhole K bounded history handler semaphore d splits base count s) where
    WorkerStep-IsWhole :
        (t : System K)
        → WorkerStep K handler s t
        → IsWhole K bounded history handler semaphore d splits base count t
    WorkerStep-IsWhole t (fills n stream w' e h et) =
        subst (IsWhole K bounded history handler semaphore d splits base count) (sym et) (
          fills-IsWhole K bounded history handler semaphore d splits base count s inv n stream w' e
            h)
    WorkerStep-IsWhole t (cuts bytes segment n stream w' e answer some_bytes le h et) =
        subst (IsWhole K bounded history handler semaphore d splits base count) (sym et) (
          cuts-IsWhole K bounded history handler semaphore d splits base count s inv bytes segment n
            stream w' e answer some_bytes le h)
    WorkerStep-IsWhole t (posts bytes w' e h et) =
        subst (IsWhole K bounded history handler semaphore d splits base count) (sym et)
          (posts-IsWhole K bounded history handler semaphore d splits base count s inv bytes w' e h)
    WorkerStep-IsWhole t (discards bytes segment n stream w' e answer lt h et) = absurd (
        answer-ne-negsuc d bytes
          (copy_small K bounded history handler semaphore d splits base count s inv bytes
            (at K bounded history handler semaphore d splits base count s inv (cutting bytes) e).0)
          n (ap (λ (f : List ℕ → ℤ). f bytes) (sym splits) ∙ answer))
    WorkerStep-IsWhole t (rests bytes e done et) =
        subst (IsWhole K bounded history handler semaphore d splits base count) (sym et)
          (rests-IsWhole K bounded history handler semaphore d splits base count s inv bytes e done)
    WorkerStep-IsWhole t (fails ex stream w' e h other_type et) =
        subst (IsWhole K bounded history handler semaphore d splits base count) (sym et) (
          fails-IsWhole K bounded history handler semaphore d splits base count s inv (socket ex)
            stream w' e h ex.exception_type)
    WorkerStep-IsWhole t (notifies w' e h et) =
        subst (IsWhole K bounded history handler semaphore d splits base count) (sym et)
          (notifies-IsWhole K bounded history handler semaphore d splits base count s inv w' e h)
    WorkerStep-IsWhole t (ends ex stream w' e h asked et) =
        subst (IsWhole K bounded history handler semaphore d splits base count) (sym et) (
          ends-IsWhole K bounded history handler semaphore d splits base count s inv (socket ex)
            stream w' e h)

    Step-IsWhole :
        (t : System K)
        → Step K history handler semaphore s t
        → IsWhole K bounded history handler semaphore d splits base count t
    Step-IsWhole t (works step) = WorkerStep-IsWhole t step
    Step-IsWhole t (takes segment c' w' h et) =
        subst (IsWhole K bounded history handler semaphore d splits base count) (sym et) (
          takes-IsWhole K bounded history handler semaphore d splits base count s inv segment c' w'
            h)
    Step-IsWhole t (other w' read posted et) =
        subst (IsWhole K bounded history handler semaphore d splits base count) (sym et) (record {
          valid = inv.valid;
          one = inv.one;
          small = inv.small;
          lines = inv.lines;
          whole = inv.whole ∙ sym read;
          at_place = rw posted inv.at_place;
        })

  -- Since the descriptor had delivered `base` and the semaphore had `count` posts, after any number of
  -- steps.
  Reach-keeps :
      (base : List ℕ) (count : ℕ) {s t : System K}
      → IsWhole K bounded history handler semaphore d splits base count s
      → Reach K history handler semaphore s t
      → IsWhole K bounded history handler semaphore d splits base count t
  Reach-keeps base count inv start = inv
  Reach-keeps base count inv (later {t} {u} r step) =
      Step-IsWhole base count t (Reach-keeps base count inv r) u step

  -- The steps are the pieces of the worker's thread: a fill of the buffer, a cut of one segment
  -- into the queue, a post, a read that fails and the post for it; reads by callers between any
  -- two of them; and events that touch neither the object nor its descriptor nor the semaphore.
  -- The start is a valid, empty buffer smaller than 2 GiB, an empty queue, one handler, for a
  -- delimiter and with a semaphore that works, and a worker that is about to read. Then at every
  -- moment: the segments that were taken, those in the queue and the bytes in the buffer are, in
  -- this order, the bytes that have arrived since; each segment is one line with its delimiter at
  -- the end; the semaphore was posted once for each segment, but for the one that the worker is
  -- about to post, and once more at most when the worker has ended; and when the worker reads, and
  -- after a read has failed, the buffer holds no delimiter.
  pub Reach-IsWhole :
      (s t : System K)
      → IsValid s.object.stream
      → s.object.buffer_event_handlers ≡ handler ∷ []
      → s.object.stream.stream_buffer_size < 2 ^ 31
      → queue s.object.received_data_per_condition handler.fd ≡ []
      → contents s.object.stream ≡ []
      → s.place ≡ reading
      → s.taken ≡ []
      → Reach K history handler semaphore s t
      → IsWhole K bounded history handler semaphore d splits
          (history.received s.object.stream.stream.stream_file_descriptor s.world)
          (semaphore.posted s.world)
          t
  unfolding flatten
  Reach-IsWhole s t v one small no_segments no_bytes at_read none_taken r =
      let nothing : segments_of K bounded history handler semaphore d splits s ≡ [] =
        rw (none_taken, no_segments) refl in
      Reach-keeps (history.received s.object.stream.stream.stream_file_descriptor s.world)
        (semaphore.posted s.world)
        (record {
          valid = v;
          one = one;
          small = small;
          lines = rw nothing tt;
          whole = rw (nothing, no_bytes) (append-nil _);
          at_place = rw (at_read, no_bytes) (tt, omega (arith, ap length nothing));
        })
        r
