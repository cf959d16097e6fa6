-- ===== src/ConditionalBufferedStream/Abstract.antt =====
-- The worker and the callers together against a reference in one pass.
use socket_wrapper.Prelude.{ℕ, ◌^◌, ◌<◌, ◌≡◌, refl, sym, ◌∙◌, List, [], ◌∷◌, ◌++◌}
use socket_wrapper.Kernel.{Kernel, IsBounded, History}
use socket_wrapper.BufferedStream.Contents.{contents, IsValid}
use socket_wrapper.ConditionalBufferedStream.{
  ConditionalBufferedStream, BufferEventHandler, queue, delimiter_condition,
}
use socket_wrapper.ConditionalBufferedStream.Delivered.{Semaphore}
use socket_wrapper.ConditionalBufferedStream.Run.{works, takes, other, Reach, here, next}
use socket_wrapper.ConditionalBufferedStream.Reads.{read-Took}
use socket_wrapper.ConditionalBufferedStream.Interleaved.{
  System, WorkerStep, WorkerSteps, fills, cuts, posts, discards, rests, fails, notifies, ends,
  reading, start, later,
}
use socket_wrapper.ConditionalBufferedStream.Interleaved
use socket_wrapper.ConditionalBufferedStream.Interleaved.Sequential.{
  system, worker_round-WorkerSteps,
}
use socket_wrapper.ConditionalBufferedStream.Interleaved.Refines.{Reach-one_pass}
use socket_wrapper.ConditionalBufferedStream.Chunks.{split_lines}

module _ (K : Kernel) (bounded : IsBounded K) (history : History K) (handler : BufferEventHandler)
    (semaphore : Semaphore K handler.fd) (d : ℕ)
    (splits : handler.condition ≡ delimiter_condition d) where
  abbrev Small : System K → System K → Type 0
  Small = Interleaved.Reach K history handler semaphore

  abbrev at_rest : List (List ℕ) → ConditionalBufferedStream → K.World → System K
  at_rest taken c w = system K handler taken c w reading

  after_steps : {s t u : System K} → Small s t → WorkerSteps K handler t u → Small s u
  after_steps r Interleaved.here = r
  after_steps r (Interleaved.next steps step) = later (after_steps r steps) (Interleaved.works step)

  WorkerStep-handlers :
      {s t : System K}
      → WorkerStep K handler s t
      → t.object.buffer_event_handlers ≡ s.object.buffer_event_handlers
  WorkerStep-handlers (fills n stream w' e h et) = rw et refl
  WorkerStep-handlers (cuts bytes segment n stream w' e answer some_bytes le h et) = rw et refl
  WorkerStep-handlers (posts bytes w' e h et) = rw et refl
  WorkerStep-handlers (discards bytes segment n stream w' e answer lt h et) = rw et refl
  WorkerStep-handlers (rests bytes e done et) = rw et refl
  WorkerStep-handlers (fails ex stream w' e h other_type et) = rw et refl
  WorkerStep-handlers (notifies w' e h et) = rw et refl
  WorkerStep-handlers (ends ex stream w' e h asked et) = rw et refl

  WorkerSteps-handlers :
      {s t : System K}
      → WorkerSteps K handler s t
      → t.object.buffer_event_handlers ≡ s.object.buffer_event_handlers
  WorkerSteps-handlers Interleaved.here = refl
  WorkerSteps-handlers (Interleaved.next steps step) =
      WorkerStep-handlers step ∙ WorkerSteps-handlers steps

  -- A sequence of whole rounds, reads and other events is one of small steps.
  Reach-Small :
      (c : ConditionalBufferedStream) (w : K.World) {taken : List (List ℕ)}
      {c' : ConditionalBufferedStream} {w' : K.World}
      → c.buffer_event_handlers ≡ handler ∷ []
      → Reach K bounded history handler semaphore d splits [] c w taken c' w'
      → Small (at_rest [] c w) (at_rest taken c' w') × (c'.buffer_event_handlers ≡ handler ∷ [])
  Reach-Small c w one here = (start, one)
  Reach-Small c w one (next {taken'} {taken''} {c'} {c''} {w'} {w''} r (works e same)) =
      let (small, one') = Reach-Small c w one r in
      let steps = worker_round-WorkerSteps K handler taken' c' c'' w' w'' one' e in
      (rw same (after_steps small steps), WorkerSteps-handlers steps ∙ one')
  Reach-Small c w one (next {taken'} {taken''} {c'} {c''} {w'} {w''} r (takes segment e grown)) =
      let (small, one') = Reach-Small c w one r in
      let (_, _, eh, _) =
        read-Took K handler.fd segment c' c'' w' w'' (c'.received_data_per_condition handler.fd)
          refl e in
      (later small (Interleaved.takes segment c'' w'' e (rw grown refl)), eh ∙ one')
  Reach-Small c w one
        (next {taken'} {taken''} {c'} {c''} {w'} {w''} r (other ec read posted same)) =
      let (small, one') = Reach-Small c w one r in
      (later small (Interleaved.other w'' read posted (rw (ec, same) refl)), rw ec one')

  -- The steps are whole rounds of the worker, reads by callers, and events that touch neither the
  -- object nor its descriptor nor the semaphore. After every sequence of steps from a valid, empty
  -- buffer smaller than 2 GiB, an empty queue and one handler, for a delimiter and with a semaphore
  -- that works: the segments that were taken, then those still in the queue, and the bytes in the
  -- buffer, are what one pass over the bytes that have arrived since splits off and leaves.
  Reach-split_lines :
      (c : ConditionalBufferedStream) (w : K.World) {taken : List (List ℕ)}
      {c' : ConditionalBufferedStream} {w' : K.World}
      → IsValid c.stream
      → c.buffer_event_handlers ≡ handler ∷ []
      → c.stream.stream_buffer_size < 2 ^ 31
      → queue c.received_data_per_condition handler.fd ≡ []
      → contents c.stream ≡ []
      → Reach K bounded history handler semaphore d splits [] c w taken c' w'
      → (new : List ℕ) × (history.received c'.stream.stream.stream_file_descriptor w'
          ≡ history.received c.stream.stream.stream_file_descriptor w ++ new)
        × (◌≡◌ {A = List (List ℕ) × List ℕ}
            (taken ++ queue c'.received_data_per_condition handler.fd, contents c'.stream)
            (split_lines d [] new))
  Reach-split_lines c w {taken} {c'} {w'} v one small no_segments no_bytes r =
      let (new, read, _, whole) =
        Reach-one_pass K bounded history handler semaphore d splits (at_rest [] c w)
          (at_rest taken c' w') v one small no_segments no_bytes refl refl
          (Reach-Small c w one r).0 in
      (new, read, sym (whole refl))
