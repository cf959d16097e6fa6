-- ===== src/ConditionalBufferedStream/Delivery.antt =====
-- The worker from the first byte that the peer sends to the end of the connection.
use mathlib.Core.List.{flatten}
use socket_wrapper.Prelude.{
  ℕ, zero, suc, ◌+◌, ◌^◌, ◌≤◌, ◌<◌, ◌≡◌, refl, sym, ap, ◌∙◌, List, [], ◌∷◌, ◌++◌, arith, length,
  append-nil, subst,
}
use socket_wrapper.Prelude.Int.{minus_one}
use socket_wrapper.Exception.{socket, socket_closed}
use socket_wrapper.Exec.{Outcome, ok, throws}
use socket_wrapper.Kernel.{Kernel, IsBounded, History}
use socket_wrapper.Stream.{Stream}
use socket_wrapper.BufferedStream.{BufferedStream}
use socket_wrapper.BufferedStream.Contents.{contents, IsValid}
use socket_wrapper.BufferedStream.Fill.{read_available_keeps}
use socket_wrapper.BufferedStream.Pop.{length-contents}
use socket_wrapper.ConditionalBufferedStream.{
  ConditionalBufferedStream, BufferEventHandler, queue, delimiter_condition, worker_round,
  after_round, conditional_buffer_worker,
}
use socket_wrapper.ConditionalBufferedStream.Delivered.{Semaphore}
use socket_wrapper.ConditionalBufferedStream.Worker.{
  WorkerEnds, worker_round-WorkerEnds, worker_round_reads,
}
use socket_wrapper.ConditionalBufferedStream.Ending.{catch_worker_posts}
use socket_wrapper.ConditionalBufferedStream.Run.{IsFramed, works-IsFramed}
use socket_wrapper.ConditionalBufferedStream.Chunks.{split_lines, split_lines-flatten}
use socket_wrapper.BufferedStream.Script.{
  Script, closed, read_available_some_bytes, read_available_end,
}

module _ (K : Kernel) (handler : BufferEventHandler) (semaphore : Semaphore K handler.fd) (d : ℕ)
    (sent : List ℕ) (count : ℕ) where
  -- The worker has ended, the peer's lines are in the queue, and each was posted, as was the end.
  abbrev pub Ended : Outcome (Unit {0}) × (ConditionalBufferedStream × K.World) → Type 0
  Ended (r, (c, w)) =
      (r ≡ ok tt)
      × (◌≡◌ {A = List (List ℕ) × List ℕ}
          (queue c.received_data_per_condition handler.fd, contents c.stream)
          (split_lines d [] sent))
      × (c.last_ex ≡ socket_closed)
      × (semaphore.posted w ≡ count + (length (split_lines d [] sent).0 + 1))

module _ (K : Kernel) (bounded : IsBounded K) (history : History K) (handler : BufferEventHandler)
    (semaphore : Semaphore K handler.fd) (d : ℕ)
    (splits : handler.condition ≡ delimiter_condition d) (s : Stream) (sent : List ℕ)
    (script : Script K history s sent) (size count : ℕ)
    (no_long : (p q : List ℕ) → p ++ q ≡ sent → length (split_lines d [] p).1 < size) where
  abbrev IsWhole : ConditionalBufferedStream → K.World → Type 0
  IsWhole = IsFramed K bounded history handler semaphore d splits [] count []

  -- The state of the worker between two rounds.
  record Between (c : ConditionalBufferedStream) (w : K.World) (left : List ℕ) : Type 0 where
    whole : IsWhole c w
    on_s : c.stream.stream ≡ s
    sized : c.stream.stream_buffer_size ≡ size
    left_over : history.received s.stream_file_descriptor w ++ left ≡ sent

  Between-received :
      (c : ConditionalBufferedStream) (w : K.World) (left : List ℕ)
      → Between c w left
      → ◌≡◌ {A = List (List ℕ) × List ℕ}
          (queue c.received_data_per_condition handler.fd, contents c.stream)
          (split_lines d [] (history.received s.stream_file_descriptor w))
  Between-received c w left b =
      sym (
        split_lines-flatten d (queue c.received_data_per_condition handler.fd) (contents c.stream)
          b.whole.lines b.whole.rest_lacks)
      ∙ ap (split_lines d [])
          (b.whole.whole ∙ ap (λ (x : Stream). history.received x.stream_file_descriptor w) b.on_s)

  -- The buffer is not full.
  Between-space :
      (c : ConditionalBufferedStream) (w : K.World) (left : List ℕ)
      → Between c w left
      → c.stream.buffer_write_offset < c.stream.stream_buffer_size
  Between-space c w left b = omega (
    arith,
    length-contents c.stream b.whole.valid,
    ap (λ (x : List (List ℕ) × List ℕ). length x.1) (Between-received c w left b),
    no_long (history.received s.stream_file_descriptor w) left b.left_over,
    b.sized,
  )

  last_round-Ended :
      (rounds : ℕ) (c : ConditionalBufferedStream) (w : K.World)
      → size < 2 ^ 31
      → Between c w []
      → Ended K handler semaphore d sent count (conditional_buffer_worker K (suc rounds) (c, w))
  unfolding conditional_buffer_worker after_round worker_round
  last_round-Ended rounds c w small b =
      let all : history.received s.stream_file_descriptor w ≡ sent =
        sym (append-nil _) ∙ b.left_over in
      let (stream, w', e) =
        read_available_end K history s sent script c.stream w b.whole.valid b.on_s
          (Between-space c w [] b) all in
      let c' : ConditionalBufferedStream = record c { stream = stream } in
      let thrown : worker_round K (c, w) ≡ (throws (socket closed), (c', w')) =
        rw (e, worker_round) refl in
      let (kind, kept) =
        subst (WorkerEnds K bounded history handler semaphore d splits c w) thrown (
          worker_round-WorkerEnds K bounded history handler semaphore d splits c w b.whole.valid
            b.whole.one (omega (arith, b.sized))) in
      let posted : semaphore.posted w' ≡ semaphore.posted w =
        sym (ap (λ (st : Outcome ℕ × (BufferedStream × K.World)). semaphore.posted st.1.1) e)
        ∙ read_available_keeps K semaphore.posted semaphore.polls semaphore.reads minus_one c.stream
            w in
      let cut = Between-received c w [] b ∙ ap (split_lines d []) all in
      let run : conditional_buffer_worker K (suc rounds) (c, w)
          ≡ (ok tt, (record c' { last_ex = socket_closed }, (K.write_u64 handler.fd 1 w').1)) =
        rw (thrown, conditional_buffer_worker, after_round)
          (catch_worker_posts K handler c' w' closed (semaphore.succeeds w') b.whole.one refl) in
      subst (Ended K handler semaphore d sent count) (sym run) (
        refl,
        ap (λ l. (queue c.received_data_per_condition handler.fd, l)) kept.holds ∙ cut,
        refl,
        omega (
          arith,
          semaphore.counts w',
          posted,
          b.whole.signals,
          ap (λ (x : List (List ℕ) × List ℕ). length x.0) cut,
        ),
      )

  next_round-Between :
      (c : ConditionalBufferedStream) (w : K.World) (x : ℕ) (later : List ℕ)
      → size < 2 ^ 31
      → Between c w (x ∷ later)
      → (rest : List ℕ) × (length rest < length (x ∷ later))
        × ((worker_round K (c, w)).0 ≡ ok tt)
        × Between (worker_round K (c, w)).1.0 (worker_round K (c, w)).1.1 rest
  next_round-Between c w x later small b =
      let (k, stream, w', rest, e, left, fewer) =
        read_available_some_bytes K history s sent script c.stream x later w b.whole.valid b.on_s
          (Between-space c w (x ∷ later) b) b.left_over in
      let (new, some_bytes, returned, unread, (delivered, framed)) =
        worker_round_reads K bounded history handler semaphore d splits c w k stream w'
          b.whole.valid b.whole.one (omega (arith, b.sized)) e in
      let st = (worker_round K (c, w)).1 in
      (
        rest,
        fewer,
        returned,
        record {
          whole =
              works-IsFramed K bounded history handler semaphore d splits [] count [] c st.0 w st.1
                b.whole (new, some_bytes, (delivered, framed));
          on_s = framed.same.0 ∙ b.on_s;
          sized = framed.same.1 ∙ b.sized;
          left_over =
              ap (λ l. l ++ rest)
                (subst
                  (λ (y : Stream).
                    history.received y.stream_file_descriptor st.1
                    ≡ history.received y.stream_file_descriptor w')
                  b.on_s unread)
              ∙ left;
        },
      )

  worker-Ended :
      (n : ℕ) (c : ConditionalBufferedStream) (w : K.World) (left : List ℕ)
      → size < 2 ^ 31
      → Between c w left
      → length left ≤ n
      → Ended K handler semaphore d sent count (conditional_buffer_worker K (suc n) (c, w))
  unfolding conditional_buffer_worker after_round
  worker-Ended n c w [] small b few = last_round-Ended n c w small b
  worker-Ended zero c w (x ∷ later) small b few = absurd (omega arith)
  worker-Ended (suc n) c w (x ∷ later) small b few =
      let (rest, fewer, returned, next) = next_round-Between c w x later small b in
      let st = (worker_round K (c, w)).1 in
      rw (returned, conditional_buffer_worker, after_round)
        (worker-Ended n st.0 st.1 rest small next (omega arith))

-- A worker with one handler, for a delimiter and with a semaphore that works, has a valid, empty
-- buffer smaller than 2 GiB and an empty queue, and nothing was received. The peer sends a stream of
-- bytes and closes the connection, no line of it fills the buffer before its delimiter comes, and
-- nobody asks for an end of reading. Then the worker's loop ends, within one round for each byte and
-- one more, whatever pieces the reads give: the queue holds the lines of the stream, in order and
-- each with its delimiter, the buffer what follows the last delimiter; SOCKET_CLOSED is recorded,
-- and the semaphore was posted once for each line and once for the end.
pub conditional_buffer_worker-Ended :
    (K : Kernel) (bounded : IsBounded K) (history : History K) (handler : BufferEventHandler)
    (semaphore : Semaphore K handler.fd) (d : ℕ)
    (splits : handler.condition ≡ delimiter_condition d) (s : Stream) (sent : List ℕ)
    (script : Script K history s sent) (c : ConditionalBufferedStream) (w : K.World)
    → IsValid c.stream
    → c.buffer_event_handlers ≡ handler ∷ []
    → c.stream.stream_buffer_size < 2 ^ 31
    → queue c.received_data_per_condition handler.fd ≡ []
    → contents c.stream ≡ []
    → c.stream.stream ≡ s
    → history.received s.stream_file_descriptor w ≡ []
    → (no_long : (p q : List ℕ)
        → p ++ q ≡ sent
        → length (split_lines d [] p).1 < c.stream.stream_buffer_size)
    → Ended K handler semaphore d sent
        (semaphore.posted w)
        (conditional_buffer_worker K (suc (length sent)) (c, w))
unfolding flatten
conditional_buffer_worker-Ended K bounded history handler semaphore d splits s sent script c w v one
      small no_segments no_bytes on_s nothing no_long =
    worker-Ended K bounded history handler semaphore d splits s sent script
      c.stream.stream_buffer_size (semaphore.posted w) no_long (length sent) c w sent small
      (record {
        whole = record {
          valid = v;
          one = one;
          small = small;
          lines = rw no_segments tt;
          whole =
              rw (no_segments, no_bytes)
                (sym nothing
                  ∙ ap (λ (x : Stream). history.received x.stream_file_descriptor w) (sym on_s));
          signals = omega (arith, ap length no_segments);
          rest_lacks = rw no_bytes tt;
        };
        on_s = on_s;
        sized = refl;
        left_over = ap (λ l. l ++ sent) nothing;
      })
      (omega arith)
