-- ===== src/ConditionalBufferedStream/Process.antt =====
-- processDataSendSignals with one handler.
use socket_wrapper.Prelude.{
  ℕ, zero, suc, ◌≤◌, ◌<◌, ◌≡◌, refl, sym, ap, ◌∙◌, inl, inr, Bool, true, false, List, [], ◌∷◌,
  arith, length, take, drop, length-drop, ltb, ltb→le, ◌==◌, Bool-cases, if◌then◌else◌, subst,
}
use socket_wrapper.Prelude.Int.{nat_abs, is_positive}
use socket_wrapper.Exception.{logic_error}
use socket_wrapper.Exec.{Outcome, ok, throws, terminated, out_of_fuel, continue, ◌>>=◌, ◌>>◌}
use socket_wrapper.Kernel.{Kernel, History}
use socket_wrapper.BufferedStream.{BufferedStream, pop_from_buffer}
use socket_wrapper.BufferedStream.Contents.{contents, IsValid, Same}
use socket_wrapper.BufferedStream.Pop.{PopEnds, popped, pop_from_buffer-PopEnds}
use socket_wrapper.ConditionalBufferedStream.{
  ConditionalBufferedStream, BufferEventHandler, with_stream, deliver, handle, handle_all,
  process_from, process_data_send_signals,
}
use socket_wrapper.ConditionalBufferedStream.Segments.{
  Segments, deliver_first, cut, segments_from, segments,
}
use socket_wrapper.ConditionalBufferedStream.Delivered.{
  Semaphore, Delivered, Delivered-none, Delivered-stream, Delivered-trans, sent_segment,
  after_deliver,
}

module _ (K : Kernel) where
  abbrev pub State : Type 0
  State = ConditionalBufferedStream × K.World

  -- A pop of as many bytes as there are, and what comes after it.
  pub after_pop :
      (n : ℕ) (c : ConditionalBufferedStream) (w : K.World)
      (next : List ℕ → State → Outcome (Unit {0}) × State) (P : Outcome (Unit {0}) × State → Type 0)
      → IsValid c.stream
      → n ≤ length (contents c.stream)
      → ((stream : BufferedStream)
          → IsValid stream
          → Same c.stream stream
          → contents stream ≡ drop n (contents c.stream)
          → P (next (take n (contents c.stream)) (record c { stream = stream }, w)))
      → P (
          continue
            (with_stream K (pop_from_buffer K n) (c, w)).0
            next
            (with_stream K (pop_from_buffer K n) (c, w)).1)
  after_pop n c w next P v le k =
      go (pop_from_buffer K n (c.stream, w)).0 (pop_from_buffer K n (c.stream, w)).1.0
        (pop_from_buffer K n (c.stream, w)).1.1 (pop_from_buffer-PopEnds K n c.stream w v)
    where
      go :
          (r : Outcome (List ℕ)) (stream : BufferedStream) (w' : K.World)
          → PopEnds n c.stream w (r, (stream, w'))
          → P (continue r next (record c { stream = stream }, w'))
      go r stream w' pop =
          let (valid, same, ew, _) = pop in
          let (er, ec) = popped n c.stream stream w w' r pop le in
          rw er (
            subst (λ v. P (next (take n (contents c.stream)) (record c { stream = stream }, v)))
              (sym ew) (k stream valid same ec))

  continue_pure :
      (r : Outcome (Unit {0})) (st : State) → continue r (λ _ s. (ok tt, s)) st ≡ (r, st)
  continue_pure (ok _) st = refl
  continue_pure (throws e) st = refl
  continue_pure terminated st = refl
  continue_pure out_of_fuel st = refl

module _ (K : Kernel) (history : History K) (handler : BufferEventHandler)
    (semaphore : Semaphore K handler.fd) where
  abbrev Delivers :
      ConditionalBufferedStream
      → K.World
      → List (List ℕ)
      → List ℕ
      → ConditionalBufferedStream
      → K.World
      → Type 0
  Delivers = Delivered K history handler.fd semaphore

  -- The run ends by logic_error if the condition asked for too much, and otherwise returns.
  abbrev pub ended : Bool → Outcome (Unit {0})
  ended faulty = if faulty then throws logic_error else ok tt

  abbrev pub SegmentEnds :
      ConditionalBufferedStream
      → K.World
      → Segments
      → Outcome (Unit {0}) × (ConditionalBufferedStream × K.World)
      → Type 0
  SegmentEnds c w s (r, (c', w')) = (r ≡ ended s.faulty) × Delivers c w s.delivered s.rest c' w'

  deliver_first-SegmentEnds :
      (positive : Bool) (segment rest : List ℕ) (s : Segments) (c c' : ConditionalBufferedStream)
      (w w' : K.World)
      → Delivers c w (sent_segment positive segment) rest c' w'
      → (st : Outcome (Unit {0}) × (ConditionalBufferedStream × K.World)) → SegmentEnds c' w' s st
      → SegmentEnds c w (deliver_first positive segment s) st
  deliver_first-SegmentEnds true segment rest s c c' w w' d st (e, later) =
      (e, Delivered-trans K history handler.fd semaphore d later)
  deliver_first-SegmentEnds false segment rest s c c' w w' d st (e, later) =
      (e, Delivered-trans K history handler.fd semaphore d later)

  module _
      (next : List ℕ
        → ConditionalBufferedStream × K.World
        → Outcome (Unit {0}) × (ConditionalBufferedStream × K.World))
      (later : List ℕ → Segments) (bytes : List ℕ)
      (next-ends : (c : ConditionalBufferedStream) (w : K.World) (n : ℕ)
        → 0 < n
        → n ≤ length bytes
        → IsValid c.stream
        → contents c.stream ≡ drop n bytes
        → c.buffer_event_handlers ≡ handler ∷ []
        → SegmentEnds c w (later (drop n bytes)) (next (drop n bytes) (c, w)))
      (c : ConditionalBufferedStream) (w : K.World) (v : IsValid c.stream)
      (holds : contents c.stream ≡ bytes) (one : c.buffer_event_handlers ≡ handler ∷ []) where
    abbrev round : Segments
    round = cut (handler.condition bytes) bytes later

    unchanged : Delivers c w [] bytes c w
    unchanged =
        subst (λ l. Delivers c w [] l c w) holds
          (Delivered-none K history handler.fd semaphore c w v)

    take_some :
        (n : ℕ) (positive : Bool)
        → 0 < n
        → n ≤ length bytes
        → SegmentEnds c w (deliver_first positive (take n bytes) (later (drop n bytes))) (
            (with_stream K (pop_from_buffer K n) >>= λ segment.
            deliver K positive handler.fd segment >> next (drop n bytes))
              (c, w))
    take_some n positive some_bytes le =
        after_pop K n c w (λ segment. deliver K positive handler.fd segment >> next (drop n bytes))
          Ends v (subst (λ l. n ≤ length l) (sym holds) le)
          λ stream valid same e.
            after_deliver K history handler.fd semaphore positive (take n (contents c.stream))
              (record c { stream = stream }) w (next (drop n bytes)) Ends valid
              λ c' w' d.
                deliver_first-SegmentEnds positive (take n bytes) (contents stream)
                  (later (drop n bytes)) c c' w w'
                  (subst
                    (λ l. Delivers c w (sent_segment positive (take n l)) (contents stream) c' w')
                    holds
                    (Delivered-trans K history handler.fd semaphore
                      (Delivered-stream K history handler.fd semaphore c w stream valid same) d))
                  (next (drop n bytes) (c', w'))
                  (next-ends c' w' n some_bytes le d.valid (d.holds ∙ e ∙ ap (drop n) holds)
                    (d.handlers ∙ one))
      where
        Ends : Outcome (Unit {0}) × (ConditionalBufferedStream × K.World) → Type 0
        Ends = SegmentEnds c w (deliver_first positive (take n bytes) (later (drop n bytes)))

    handle-SegmentEnds : SegmentEnds c w round (handle K next handler bytes (c, w))
    unfolding handle
    handle-SegmentEnds =
        elim (Bool-cases (ltb (length bytes) (nat_abs (handler.condition bytes)))) [
          | inl large ↦ rw (large, handle, cut) (refl, unchanged)
          | inr fits ↦ elim (Bool-cases (nat_abs (handler.condition bytes) == 0)) [
            | inl none_taken ↦ rw (fits, none_taken, handle, cut) (refl, unchanged)
            | inr some_taken ↦
                rw (fits, some_taken, handle, cut)
                  (take_some (nat_abs (handler.condition bytes))
                    (is_positive (handler.condition bytes)) (ground arith) (ltb→le _ _ fits))
          ]
        ]

  process_from-SegmentEnds :
      (fuel : ℕ) (bytes : List ℕ) (c : ConditionalBufferedStream) (w : K.World)
      → length bytes < fuel
      → IsValid c.stream
      → contents c.stream ≡ bytes
      → c.buffer_event_handlers ≡ handler ∷ []
      → SegmentEnds c w
          (segments_from fuel handler.condition bytes)
          (process_from K fuel bytes (c, w))
  unfolding process_from segments_from handle_all
  process_from-SegmentEnds zero bytes c w enough v holds one = absurd (omega arith)
  process_from-SegmentEnds (suc fuel) [] c w enough v holds one = (
    refl,
    subst (λ l. Delivers c w [] l c w) holds (Delivered-none K history handler.fd semaphore c w v),
  )
  process_from-SegmentEnds (suc fuel) (byte ∷ bytes) c w enough v holds one =
      subst
        (λ handlers.
          SegmentEnds c w (segments_from (suc fuel) handler.condition (byte ∷ bytes))
            (handle_all K (process_from K fuel) handlers (byte ∷ bytes) (c, w)))
        (sym one)
        (subst (SegmentEnds c w (segments_from (suc fuel) handler.condition (byte ∷ bytes)))
          (sym (continue_pure K (handle K (process_from K fuel) handler (byte ∷ bytes) (c, w)).0 _))
          (handle-SegmentEnds (process_from K fuel) (segments_from fuel handler.condition)
            (byte ∷ bytes)
            (λ c' w' n some_bytes le v' holds' one'.
              process_from-SegmentEnds fuel (drop n (byte ∷ bytes)) c' w'
                (omega (arith, length-drop n (byte ∷ bytes))) v' holds' one')
            c w v holds one))

  -- With one handler, whose semaphore works, and a valid buffer, processing the bytes in the
  -- buffer puts the segments that the condition cuts off one after another into the handler's
  -- queue, in order, posts its semaphore once for each, leaves the rest in the buffer and changes
  -- nothing else. It returns, or throws logic_error if the condition asked for more bytes than
  -- there are. It always ends.
  pub process_data_send_signals-SegmentEnds :
      (c : ConditionalBufferedStream) (w : K.World)
      → IsValid c.stream
      → c.buffer_event_handlers ≡ handler ∷ []
      → SegmentEnds c w
          (segments handler.condition (contents c.stream))
          (process_data_send_signals K (contents c.stream) (c, w))
  unfolding process_data_send_signals segments
  process_data_send_signals-SegmentEnds c w v one =
      process_from-SegmentEnds (suc (length (contents c.stream))) (contents c.stream) c w
        (omega arith) v refl one
