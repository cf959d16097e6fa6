-- ===== src/ConditionalBufferedStream/Interleaved/Refines.antt =====
-- The worker and the callers in small steps against a reference in one pass over the stream.
use mathlib.Core.List.{flatten}
use socket_wrapper.Prelude.{ℕ, ◌^◌, ◌<◌, ◌≡◌, sym, ap, ◌∙◌, List, [], ◌∷◌, ◌++◌, append-nil}
use socket_wrapper.Kernel.{Kernel, IsBounded, History}
use socket_wrapper.BufferedStream.Contents.{contents, IsValid}
use socket_wrapper.ConditionalBufferedStream.{BufferEventHandler, queue, delimiter_condition}
use socket_wrapper.ConditionalBufferedStream.Delivered.{Semaphore}
use socket_wrapper.ConditionalBufferedStream.Chunks.{
  split_lines, split_lines-rest, split_lines-append,
}
use socket_wrapper.ConditionalBufferedStream.Interleaved.{System, reading, Reach}
use socket_wrapper.ConditionalBufferedStream.Interleaved.Invariant.{reading-Lacks}
use socket_wrapper.ConditionalBufferedStream.Interleaved.Whole.{Reach-IsWhole}

module _ (K : Kernel) (bounded : IsBounded K) (history : History K) (handler : BufferEventHandler)
    (semaphore : Semaphore K handler.fd) (d : ℕ)
    (splits : handler.condition ≡ delimiter_condition d) where
  -- The steps are the pieces of the worker's thread and what may come between any two of them: reads by
  -- callers, and events that touch neither the object nor its descriptor nor the semaphore. The start
  -- is a valid, empty buffer smaller than 2 GiB, an empty queue, one handler, for a delimiter and with
  -- a semaphore that works, and a worker that is about to read. After any number of steps, compare
  -- with one pass that splits the bytes that have arrived since into lines: its lines are the
  -- segments that were taken, then those in the queue, then the lines that are still in the buffer,
  -- and its rest is theirs; and when the worker reads, the buffer holds just that rest.
  pub Reach-one_pass :
      (s t : System K)
      → IsValid s.object.stream
      → s.object.buffer_event_handlers ≡ handler ∷ []
      → s.object.stream.stream_buffer_size < 2 ^ 31
      → queue s.object.received_data_per_condition handler.fd ≡ []
      → contents s.object.stream ≡ []
      → s.place ≡ reading
      → s.taken ≡ []
      → Reach K history handler semaphore s t
      → let held = contents t.object.stream in
        let segments = t.taken ++ queue t.object.received_data_per_condition handler.fd in
        (new : List ℕ) × (history.received t.object.stream.stream.stream_file_descriptor t.world
          ≡ history.received s.object.stream.stream.stream_file_descriptor s.world ++ new)
        × (split_lines d [] new
            ≡ (segments ++ (split_lines d [] held).0, (split_lines d [] held).1))
        × (t.place ≡ reading → split_lines d [] new ≡ (segments, held))
  Reach-one_pass s t v one small no_segments no_bytes at_read none_taken r =
      let inv =
        Reach-IsWhole K bounded history handler semaphore d splits s t v one small no_segments
          no_bytes at_read none_taken r in
      let held = contents t.object.stream in
      let segments = t.taken ++ queue t.object.received_data_per_condition handler.fd in
      let split = split_lines-append d segments held inv.lines in
      (
        flatten segments ++ held,
        sym inv.whole,
        split,
        λ e.
            split
            ∙ ap (λ (l : List (List ℕ) × List ℕ). (segments ++ l.0, l.1))
                (split_lines-rest d [] held
                  (reading-Lacks K bounded history handler semaphore d splits _ _ t inv e))
            ∙ ap (λ l. (l, held)) (append-nil segments),
      )
