-- ===== src/ConditionalBufferedStream/Run.antt =====
-- The worker and the callers together: the interleavings of their steps, with a round of the worker
-- and a read of a queue as one step each.
use mathlib.Core.List.{flatten}
use socket_wrapper.Prelude.{
  ℕ, ◌+◌, ◌^◌, ◌<◌, ◌≡◌, sym, ap, ◌∙◌, List, [], ◌∷◌, ◌++◌, arith, length, append_assoc,
  length-append,
}
use socket_wrapper.Prelude.Find.{Lacks}
use socket_wrapper.Exec.{ok}
use socket_wrapper.Kernel.{Kernel, IsBounded, History}
use socket_wrapper.Stream.{Stream}
use socket_wrapper.BufferedStream.Contents.{contents, IsValid}
use socket_wrapper.ConditionalBufferedStream.{
  ConditionalBufferedStream, BufferEventHandler, queue, delimiter_condition, worker_round,
}
use socket_wrapper.ConditionalBufferedStream.Calls.{read}
use socket_wrapper.ConditionalBufferedStream.Delivered.{Semaphore}
use socket_wrapper.ConditionalBufferedStream.Lines.{AllLines, AllLines-append, flatten-append}
use socket_wrapper.ConditionalBufferedStream.Worker.{WorkerEnds}

module _ (K : Kernel) (bounded : IsBounded K) (history : History K) (handler : BufferEventHandler)
    (semaphore : Semaphore K handler.fd) (d : ℕ)
    (splits : handler.condition ≡ delimiter_condition d) where
  -- One step of the system, whose callers have taken the segments `taken` so far: a round of the
  -- worker, a call of `read`, or something that touches neither the object nor its descriptor nor
  -- the semaphore.
  pub data Step (taken : List (List ℕ)) (c : ConditionalBufferedStream) (w : K.World)
      (taken' : List (List ℕ)) (c' : ConditionalBufferedStream) (w' : K.World) : Type 0 where
    works : worker_round K (c, w) ≡ (ok tt, (c', w')) → taken' ≡ taken → Step taken c w taken' c' w'
    takes :
        (segment : List ℕ)
        → read K handler.fd (c, w) ≡ (ok segment, (c', w'))
        → taken' ≡ taken ++ segment ∷ []
        → Step taken c w taken' c' w'
    other :
        c' ≡ c
        → history.received c.stream.stream.stream_file_descriptor w'
          ≡ history.received c.stream.stream.stream_file_descriptor w
        → semaphore.posted w' ≡ semaphore.posted w
        → taken' ≡ taken
        → Step taken c w taken' c' w'

  -- The segments that were ever delivered.
  abbrev pub segments_of : List (List ℕ) → ConditionalBufferedStream → List (List ℕ)
  segments_of taken c = taken ++ queue c.received_data_per_condition handler.fd

  -- Since the descriptor had delivered `base` and the semaphore had `count` posts: the segments are
  -- lines, they and the buffer are what has arrived, and there was a post for each segment.
  pub record IsFramed (base : List ℕ) (count : ℕ) (taken : List (List ℕ))
      (c : ConditionalBufferedStream) (w : K.World) : Type 0 where
    pub valid : IsValid c.stream
    pub one : c.buffer_event_handlers ≡ handler ∷ []
    pub small : c.stream.stream_buffer_size < 2 ^ 31
    pub lines : AllLines d (segments_of taken c)
    pub whole :
        base ++ (flatten (segments_of taken c) ++ contents c.stream)
        ≡ history.received c.stream.stream.stream_file_descriptor w
    pub signals : semaphore.posted w ≡ count + length (segments_of taken c)
    pub rest_lacks : Lacks d (contents c.stream)

  module _ (base : List ℕ) (count : ℕ) where
    pub works-IsFramed :
        (taken : List (List ℕ)) (c c' : ConditionalBufferedStream) (w w' : K.World)
        → IsFramed base count taken c w
        → WorkerEnds K bounded history handler semaphore d splits c w (ok tt, (c', w'))
        → IsFramed base count taken c' w'
    works-IsFramed taken c c' w w' f (new, some_bytes, (delivered, g)) = record {
      valid = g.valid;
      one = g.handlers ∙ f.one;
      small = rw g.same.1 f.small;
      lines = rw grown (AllLines-append d (segments_of taken c) delivered f.lines g.lines);
      whole =
          ap (λ l. base ++ l) joined
          ∙ sym (append_assoc base (flatten (segments_of taken c) ++ contents c.stream) new)
          ∙ ap (λ l. l ++ new) f.whole
          ∙ sym g.read
          ∙ ap (λ (s : Stream). history.received s.stream_file_descriptor w') (sym g.same.0);
      signals = omega (
        arith,
        f.signals,
        g.signals,
        ap length grown,
        length-append (segments_of taken c) delivered,
      );
      rest_lacks = g.rest_lacks;
    }
      where
        grown : segments_of taken c' ≡ segments_of taken c ++ delivered
        grown =
            ap (λ l. taken ++ l) g.queued
            ∙ sym (append_assoc taken (queue c.received_data_per_condition handler.fd) delivered)

        joined :
            flatten (segments_of taken c') ++ contents c'.stream
            ≡ (flatten (segments_of taken c) ++ contents c.stream) ++ new
        joined =
            rw (grown, flatten-append (segments_of taken c) delivered)
              (append_assoc (flatten (segments_of taken c)) (flatten delivered) (contents c'.stream)
                ∙ ap (λ l. flatten (segments_of taken c) ++ l) g.whole
                ∙ sym (append_assoc (flatten (segments_of taken c)) (contents c.stream) new))

  -- Any number of steps.
  pub data Reach (taken : List (List ℕ)) (c : ConditionalBufferedStream) (w : K.World)
      : List (List ℕ) → ConditionalBufferedStream → K.World → Type 0 where
    here : Reach taken c w taken c w
    next :
        {taken' taken'' : List (List ℕ)} {c' c'' : ConditionalBufferedStream} {w' w'' : K.World}
        → Reach taken c w taken' c' w'
        → Step taken' c' w' taken'' c'' w''
        → Reach taken c w taken'' c'' w''
