-- ===== src/ConditionalBufferedStream/Worker.antt =====
-- A round of the worker thread, with one handler for a delimiter.
use mathlib.Core.List.{flatten}
use socket_wrapper.Prelude.{
  ℕ, ◌+◌, ◌^◌, ◌<◌, ◌≡◌, refl, sym, ap, ◌∙◌, List, [], ◌∷◌, ◌++◌, arith, length, append-nil, subst,
}
use socket_wrapper.Prelude.Int.{minus_one}
use socket_wrapper.Prelude.Find.{Lacks}
use socket_wrapper.Exec.{Outcome, ok, throws, terminated, out_of_fuel, continue}
use socket_wrapper.Kernel.{Kernel, IsBounded, History}
use socket_wrapper.Stream.Read.{IsReadError}
use socket_wrapper.BufferedStream.{BufferedStream, read_available}
use socket_wrapper.BufferedStream.Contents.{contents, IsValid, Same}
use socket_wrapper.BufferedStream.Fill.{FillEnds, read_available_keeps, read_available-FillEnds}
use socket_wrapper.BufferedStream.Pop.{length-contents}
use socket_wrapper.ConditionalBufferedStream.{
  ConditionalBufferedStream, BufferEventHandler, queue, delimiter_condition,
  process_data_send_signals, worker_round,
}
use socket_wrapper.ConditionalBufferedStream.Delivered.{Semaphore}
use socket_wrapper.ConditionalBufferedStream.Segments.{Segments, segments}
use socket_wrapper.ConditionalBufferedStream.Lines.{AllLines, Cuts, segments-Cuts}
use socket_wrapper.ConditionalBufferedStream.Process.{
  SegmentEnds, process_data_send_signals-SegmentEnds,
}

module _ (K : Kernel) (bounded : IsBounded K) (history : History K) (handler : BufferEventHandler)
    (semaphore : Semaphore K handler.fd) (d : ℕ)
    (splits : handler.condition ≡ delimiter_condition d) where
  -- The bytes that the object's descriptor has delivered.
  abbrev pub arrived : ConditionalBufferedStream → K.World → List ℕ
  arrived c = history.received c.stream.stream.stream_file_descriptor

  -- `new` was read, and the lines `delivered` were queued.
  pub record Framed (c : ConditionalBufferedStream) (w : K.World) (new : List ℕ)
      (delivered : List (List ℕ)) (c' : ConditionalBufferedStream) (w' : K.World) : Type 0 where
    pub valid : IsValid c'.stream
    pub same : Same c.stream c'.stream
    pub handlers : c'.buffer_event_handlers ≡ c.buffer_event_handlers
    pub last : c'.last_ex ≡ c.last_ex
    pub queued :
        queue c'.received_data_per_condition handler.fd
        ≡ queue c.received_data_per_condition handler.fd ++ delivered
    pub signals : semaphore.posted w' ≡ semaphore.posted w + length delivered
    pub read : arrived c w' ≡ arrived c w ++ new
    pub lines : AllLines d delivered
    pub whole : flatten delivered ++ contents c'.stream ≡ contents c.stream ++ new
    pub rest_lacks : Lacks d (contents c'.stream)

  -- Nothing was read and nothing has changed.
  pub record Kept (c : ConditionalBufferedStream) (w : K.World) (c' : ConditionalBufferedStream)
      (w' : K.World) : Type 0 where
    pub same : Same c.stream c'.stream
    pub handlers : c'.buffer_event_handlers ≡ c.buffer_event_handlers
    pub last : c'.last_ex ≡ c.last_ex
    pub queues : c'.received_data_per_condition ≡ c.received_data_per_condition
    pub read : arrived c w' ≡ arrived c w
    pub holds : contents c'.stream ≡ contents c.stream

  -- How a round ends: it goes on, or reading failed.
  abbrev pub WorkerEnds :
      ConditionalBufferedStream
      → K.World
      → Outcome (Unit {0}) × (ConditionalBufferedStream × K.World)
      → Type 0
  WorkerEnds c w (ok _, (c', w')) =
      (new : List ℕ) × (0 < length new)
      × ((delivered : List (List ℕ)) × Framed c w new delivered c' w')
  WorkerEnds c w (throws e, (c', w')) = IsReadError e × Kept c w c' w'
  WorkerEnds c w (terminated, st) = ⊥
  WorkerEnds c w (out_of_fuel, st) = ⊥

  after_process :
      (c c' : ConditionalBufferedStream) (w w' : K.World) (new : List ℕ)
      → contents c'.stream ≡ contents c.stream ++ new
      → Same c.stream c'.stream
      → c'.buffer_event_handlers ≡ c.buffer_event_handlers
      → c'.last_ex ≡ c.last_ex
      → c'.received_data_per_condition ≡ c.received_data_per_condition
      → semaphore.posted w' ≡ semaphore.posted w
      → arrived c w' ≡ arrived c w ++ new
      → (s : Segments) → Cuts d (contents c'.stream) s
      → (r : Outcome (Unit {0})) (st : ConditionalBufferedStream × K.World)
      → SegmentEnds K history handler semaphore c' w' s (r, st)
      → (r ≡ ok tt) × (arrived c st.1 ≡ arrived c w') × Framed c w new s.delivered st.0 st.1
  after_process c c' w w' new holds same hs last queues posted read s cuts r st (er, del) = (
    er ∙ rw cuts.sound,
    del.unread _,
    record {
      valid = del.valid;
      same = (del.same.0 ∙ same.0, del.same.1 ∙ same.1);
      handlers = del.handlers ∙ hs;
      last = del.last ∙ last;
      queued = del.queued ∙ ap (λ q. queue q handler.fd ++ s.delivered) queues;
      signals = omega (arith, del.signals, posted);
      read = del.unread _ ∙ read;
      lines = cuts.lines;
      whole = rw del.holds (cuts.whole ∙ holds);
      rest_lacks = rw del.holds cuts.rest_lacks;
    },
  )

  -- What a round does behind a read that returned.
  after_fill :
      (c : ConditionalBufferedStream) (w : K.World)
      → c.buffer_event_handlers ≡ handler ∷ []
      → c.stream.stream_buffer_size < 2 ^ 31
      → (n : ℕ) (stream : BufferedStream) (w' : K.World) → semaphore.posted w' ≡ semaphore.posted w
      → FillEnds K bounded history c.stream w (ok n, (stream, w'))
      → let st = process_data_send_signals K (contents stream) (record c { stream = stream }, w') in
        (new : List ℕ) × (0 < length new)
        × (st.0 ≡ ok tt)
        × (arrived c st.1.1 ≡ arrived c w')
        × ((delivered : List (List ℕ)) × Framed c w new delivered st.1.0 st.1.1)
  after_fill c w one small n stream w' posted (new, en, some_bytes, g) =
      let bytes = contents stream in
      let c' : ConditionalBufferedStream = record c { stream = stream } in
      let st = process_data_send_signals K bytes (c', w') in
      let few : length bytes < 2 ^ 31 =
        omega (arith, length-contents stream g.valid, g.valid.within, g.same.1) in
      let ends =
        after_process c c' w w' new g.holds g.same refl refl refl posted g.read
          (segments (delimiter_condition d) bytes) (segments-Cuts d bytes few) st.0 st.1
          (subst
            (λ condition.
              SegmentEnds K history handler semaphore c' w' (segments condition bytes) st)
            splits
            (process_data_send_signals-SegmentEnds K history handler semaphore c' w' g.valid
              one)) in
      (new, omega arith, ends.0, ends.1, (_, ends.2))

  after_read :
      (c : ConditionalBufferedStream) (w : K.World)
      → c.buffer_event_handlers ≡ handler ∷ []
      → c.stream.stream_buffer_size < 2 ^ 31
      → (r : Outcome ℕ) (stream : BufferedStream) (w' : K.World)
      → semaphore.posted w' ≡ semaphore.posted w
      → FillEnds K bounded history c.stream w (r, (stream, w'))
      → WorkerEnds c w (
          continue r
            (λ _ st. process_data_send_signals K (contents st.0.stream) st)
            (record c { stream = stream }, w'))
  after_read c w one small (ok n) stream w' posted fill =
      let st = process_data_send_signals K (contents stream) (record c { stream = stream }, w') in
      let (new, some_bytes, returned, unread, framed) =
        after_fill c w one small n stream w' posted fill in
      subst (λ r. WorkerEnds c w (r, st.1)) (sym returned) (new, some_bytes, framed)
  after_read c w one small (throws e) stream w' posted (kind, g) = (
    kind,
    record {
      same = g.same;
      handlers = refl;
      last = refl;
      queues = refl;
      read = g.read ∙ append-nil _;
      holds = g.holds ∙ append-nil _;
    },
  )
  after_read c w one small terminated stream w' posted h = elim h [ ]
  after_read c w one small out_of_fuel stream w' posted h = elim h [ ]

  -- A round of the worker, with one handler, for a delimiter and with a semaphore that works, and
  -- a valid buffer smaller than 2 GiB: it appends what was read to the buffer, moves every
  -- complete line, in order, into the handler's queue, posts the semaphore once for each line, and
  -- keeps in the buffer what follows the last delimiter. If reading fails, it throws that
  -- exception and no byte, segment or handler changes.
  pub worker_round-WorkerEnds :
      (c : ConditionalBufferedStream) (w : K.World)
      → IsValid c.stream
      → c.buffer_event_handlers ≡ handler ∷ []
      → c.stream.stream_buffer_size < 2 ^ 31
      → WorkerEnds c w (worker_round K (c, w))
  unfolding worker_round
  worker_round-WorkerEnds c w v one small =
      after_read c w one small (read_available K minus_one (c.stream, w)).0 _ _
        (read_available_keeps K semaphore.posted semaphore.polls semaphore.reads minus_one c.stream
          w)
        (read_available-FillEnds K bounded history minus_one c.stream w v)

  -- A round whose read returns: it returns too, and reads no more.
  pub worker_round_reads :
      (c : ConditionalBufferedStream) (w : K.World) (n : ℕ) (stream : BufferedStream) (w' : K.World)
      → IsValid c.stream
      → c.buffer_event_handlers ≡ handler ∷ []
      → c.stream.stream_buffer_size < 2 ^ 31
      → read_available K minus_one (c.stream, w) ≡ (ok n, (stream, w'))
      → (new : List ℕ) × (0 < length new)
        × ((worker_round K (c, w)).0 ≡ ok tt)
        × (arrived c (worker_round K (c, w)).1.1 ≡ arrived c w')
        × ((delivered : List (List ℕ)) × Framed c w new delivered
              (worker_round K (c, w)).1.0
              (worker_round K (c, w)).1.1)
  unfolding worker_round
  worker_round_reads c w n stream w' v one small e =
      rw (e, worker_round)
        (after_fill c w one small n stream w'
          (sym (ap (λ (st : Outcome ℕ × (BufferedStream × K.World)). semaphore.posted st.1.1) e)
            ∙ read_available_keeps K semaphore.posted semaphore.polls semaphore.reads minus_one
                c.stream w)
          (subst (FillEnds K bounded history c.stream w) e
            (read_available-FillEnds K bounded history minus_one c.stream w v)))
