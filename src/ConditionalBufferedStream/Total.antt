-- ===== src/ConditionalBufferedStream/Total.antt =====
-- processDataSendSignals with any handlers: how it ends.
use socket_wrapper.Prelude.{
  ℕ, zero, suc, ◌<◌, ◌≡◌, refl, sym, ap, ◌∙◌, inl, inr, Bool, true, false, List, [], ◌∷◌, ◌++◌,
  arith, length, drop, take, length-drop, take-append-drop, ltb→le, ltb, ◌==◌, Bool-cases,
}
use socket_wrapper.Prelude.Int.{ℤ, nat_abs, is_positive}
use socket_wrapper.Exec.{Outcome, continue, ◌>>◌}
use socket_wrapper.Kernel.{Kernel, WriteResult, write_failed, wrote}
use socket_wrapper.BufferedStream.{BufferedStream, pop_from_buffer}
use socket_wrapper.BufferedStream.Contents.{contents, IsValid}
use socket_wrapper.BufferedStream.Pop.{PopEnds, pop_from_buffer-PopEnds}
use socket_wrapper.ConditionalBufferedStream.{
  ConditionalBufferedStream, BufferEventHandler, queue, set_queue, check_post, post, deliver,
  handle, handle_all, process_from, process_data_send_signals,
}
use socket_wrapper.ConditionalBufferedStream.Consumed.{
  Consumed, ProcessEnds, ProcessEnds-trans, ProcessEnds-bind, unchanged,
}

module _ (K : Kernel) where
  abbrev State : Type 0
  State = ConditionalBufferedStream × K.World

  checked :
      (c : ConditionalBufferedStream) (w : K.World) (r : WriteResult)
      → IsValid c.stream
      → ProcessEnds K c (let (o, w') = check_post K r w in (o, (c, w')))
  checked c w write_failed v = (refl, unchanged K c v)
  checked c w (wrote n) v = unchanged K c v

  deliver-ProcessEnds :
      (positive : Bool) (fd : ℤ) (segment : List ℕ) (c : ConditionalBufferedStream) (w : K.World)
      → IsValid c.stream
      → ProcessEnds K c (deliver K positive fd segment (c, w))
  unfolding deliver post
  deliver-ProcessEnds false fd segment c w v = unchanged K c v
  deliver-ProcessEnds true fd segment c w v =
      let queues = c.received_data_per_condition in
      let c' = record c {
        received_data_per_condition = set_queue fd (queue queues fd ++ segment ∷ []) queues;
      } in
      let posted = K.write_u64 fd 1 w in
      ProcessEnds-trans K c c' _ _
        (record {
          taken = [];
          splits = refl;
          valid = v;
          same = (refl, refl);
          handlers = refl;
          last = refl;
          requested = refl;
        })
        (checked c' posted.1 posted.0 v)

  after_pop :
      (n : ℕ) (c : ConditionalBufferedStream) (w : K.World)
      (next : List ℕ → State → Outcome (Unit {0}) × State) (r : Outcome (List ℕ))
      (stream : BufferedStream) (w' : K.World)
      → PopEnds n c.stream w (r, (stream, w'))
      → ((segment : List ℕ) (c' : ConditionalBufferedStream) (v : K.World)
          → IsValid c'.stream
          → ProcessEnds K c' (next segment (c', v)))
      → ProcessEnds K c (continue r next (record c { stream = stream }, w'))
  after_pop n c w next r stream w' (valid, same, ew, inl (le, er, ec)) k =
      let c' = record c { stream = stream } in
      let segment = take n (contents c.stream) in
      let popped : Consumed c c' = record {
        taken = segment;
        splits = sym (take-append-drop n (contents c.stream)) ∙ ap (λ l. segment ++ l) (sym ec);
        valid = valid;
        same = same;
        handlers = refl;
        last = refl;
        requested = refl;
      } in
      rw er (ProcessEnds-trans K c c' _ _ popped (k segment c' w' valid))
  after_pop n c w next r stream w' (valid, same, ew, inr (lt, er, eb)) k = rw er (
    tt,
    record {
      taken = [];
      splits = ap contents (sym eb);
      valid = valid;
      same = same;
      handlers = refl;
      last = refl;
      requested = refl;
    },
  )

  handle-ProcessEnds :
      (next : List ℕ → State → Outcome (Unit {0}) × State) (handler : BufferEventHandler)
      (bytes : List ℕ) (c : ConditionalBufferedStream) (w : K.World)
      → IsValid c.stream
      → ((fewer : List ℕ) (c' : ConditionalBufferedStream) (w' : K.World)
          → length fewer < length bytes
          → IsValid c'.stream
          → ProcessEnds K c' (next fewer (c', w')))
      → ProcessEnds K c (handle K next handler bytes (c, w))
  unfolding handle
  handle-ProcessEnds next handler bytes c w v k =
      let n = nat_abs (handler.condition bytes) in
      elim (Bool-cases (ltb (length bytes) n)) [
        | inl much ↦ rw (much, handle) (tt, unchanged K c v)
        | inr fits ↦ elim (Bool-cases (n == 0)) [
          | inl nothing ↦ rw (fits, nothing, handle) (unchanged K c v)
          | inr something ↦
              let (r, (stream, w')) = pop_from_buffer K n (c.stream, w) in
              rw (fits, something, handle)
                (after_pop n c w
                  (λ segment.
                    deliver K (is_positive (handler.condition bytes)) handler.fd segment
                    >> next (drop n bytes))
                  r stream w' (pop_from_buffer-PopEnds K n c.stream w v)
                  λ segment c' v' valid.
                    ProcessEnds-bind K c' _ _ (next (drop n bytes))
                      (deliver-ProcessEnds (is_positive (handler.condition bytes)) handler.fd
                        segment c' v' valid)
                      λ c'' w'' valid'.
                        k (drop n bytes) c'' w'' (shorter n bytes fits something) valid')
        ]
      ]
    where
      shorter :
          (n : ℕ) (bytes : List ℕ)
          → ltb (length bytes) n ≡ false
          → (n == 0) ≡ false
          → length (drop n bytes) < length bytes
      shorter n bytes fits something =
          ground (arith, length-drop n bytes, ltb→le (length bytes) n fits)

  handle_all-ProcessEnds :
      (next : List ℕ → State → Outcome (Unit {0}) × State) (handlers : List BufferEventHandler)
      (bytes : List ℕ) (c : ConditionalBufferedStream) (w : K.World)
      → IsValid c.stream
      → ((fewer : List ℕ) (c' : ConditionalBufferedStream) (w' : K.World)
          → length fewer < length bytes
          → IsValid c'.stream
          → ProcessEnds K c' (next fewer (c', w')))
      → ProcessEnds K c (handle_all K next handlers bytes (c, w))
  unfolding handle_all
  handle_all-ProcessEnds next [] bytes c w v k = unchanged K c v
  handle_all-ProcessEnds next (handler ∷ handlers) bytes c w v k =
      ProcessEnds-bind K c _ _ (handle_all K next handlers bytes)
        (handle-ProcessEnds next handler bytes c w v k)
        λ c' w' v'. handle_all-ProcessEnds next handlers bytes c' w' v' k

  process_from-ProcessEnds :
      (fuel : ℕ) (bytes : List ℕ) (c : ConditionalBufferedStream) (w : K.World)
      → length bytes < fuel
      → IsValid c.stream
      → ProcessEnds K c (process_from K fuel bytes (c, w))
  unfolding process_from
  process_from-ProcessEnds zero bytes c w h v = absurd (omega arith)
  process_from-ProcessEnds (suc fuel) [] c w h v = unchanged K c v
  process_from-ProcessEnds (suc fuel) (byte ∷ bytes) c w h v =
      handle_all-ProcessEnds (process_from K fuel) c.buffer_event_handlers (byte ∷ bytes) c w v
        λ fewer c' w' lt v'. process_from-ProcessEnds fuel fewer c' w' (omega arith) v'

  -- With any handlers and any conditions, on a valid buffer and any bytes: `processDataSendSignals`
  -- ends, within a depth of recursion that is the number of bytes and one more. It has taken bytes from the
  -- front of the buffer, in order, and the others stay; apart from that only the queues have changed.
  -- It returns, or throws logic_error, out_of_range or SOCKET_WRITE.
  pub process_data_send_signals-ProcessEnds :
      (bytes : List ℕ) (c : ConditionalBufferedStream) (w : K.World)
      → IsValid c.stream
      → ProcessEnds K c (process_data_send_signals K bytes (c, w))
  unfolding process_data_send_signals
  process_data_send_signals-ProcessEnds bytes c w v =
      process_from-ProcessEnds (suc (length bytes)) bytes c w (omega arith) v
