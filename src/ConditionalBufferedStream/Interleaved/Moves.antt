-- ===== src/ConditionalBufferedStream/Interleaved/Moves.antt =====
-- Fills, cuts, the end of a round and reads by callers keep the invariant.
use mathlib.Core.List.{flatten}
use socket_wrapper.Prelude.{
  ℕ, ◌<◌, ◌≤◌, ◌≡◌, refl, sym, ap, ◌∙◌, ◌⊎◌, inl, inr, List, [], ◌∷◌, ◌++◌, arith, length, take,
  drop, append_assoc, length-append, subst,
}
use socket_wrapper.Prelude.Int.{ℤ, pos, minus_one}
use socket_wrapper.Exec.{Outcome, ok}
use socket_wrapper.Kernel.{Kernel, IsBounded, History}
use socket_wrapper.Stream.{Stream}
use socket_wrapper.BufferedStream.{BufferedStream, read_available, pop_from_buffer}
use socket_wrapper.BufferedStream.Contents.{contents}
use socket_wrapper.BufferedStream.Fill.{FillEnds, read_available_keeps, read_available-FillEnds}
use socket_wrapper.BufferedStream.Pop.{PopEnds, pop_from_buffer-PopEnds}
use socket_wrapper.ConditionalBufferedStream.{
  ConditionalBufferedStream, BufferEventHandler, queue, push_back, delimiter_condition,
}
use socket_wrapper.ConditionalBufferedStream.Delivered.{Semaphore, queue-set_queue}
use socket_wrapper.ConditionalBufferedStream.Lines.{IsLine, AllLines-append}
use socket_wrapper.ConditionalBufferedStream.Interleaved.Answers.{
  answer_pos, answer_zero, cut_whole,
}
use socket_wrapper.ConditionalBufferedStream.Calls.{read}
use socket_wrapper.ConditionalBufferedStream.Reads.{read-Took}
use socket_wrapper.ConditionalBufferedStream.Interleaved.{reading, cutting, posting, System}
use socket_wrapper.ConditionalBufferedStream.Interleaved.Invariant.{
  segments_of, IsWhole, at, copy_small,
}

module _ (K : Kernel) (bounded : IsBounded K) (history : History K) (handler : BufferEventHandler)
    (semaphore : Semaphore K handler.fd) (d : ℕ)
    (splits : handler.condition ≡ delimiter_condition d) where
  module _ (base : List ℕ) (count : ℕ) (s : System K)
      (inv : IsWhole K bounded history handler semaphore d splits base count s) where
    pub fills-IsWhole :
        (n : ℕ) (stream : BufferedStream) (w' : K.World)
        → s.place ≡ reading
        → read_available K minus_one (s.object.stream, s.world) ≡ (ok n, (stream, w'))
        → IsWhole K bounded history handler semaphore d splits base count (record s {
          object = record s.object { stream = stream };
          world = w';
          place = cutting (contents stream);
        })
    fills-IsWhole n stream w' e read =
        let (new, en, some_bytes, g) =
          subst (FillEnds K bounded history s.object.stream s.world) read (
            read_available-FillEnds K bounded history minus_one s.object.stream s.world
              inv.valid) in
        let posted =
          sym (ap (λ (st : Outcome ℕ × (BufferedStream × K.World)). semaphore.posted st.1.1) read)
          ∙ read_available_keeps K semaphore.posted semaphore.polls semaphore.reads minus_one
              s.object.stream s.world in
        record {
          valid = g.valid;
          one = inv.one;
          small = omega (arith, g.same.1, inv.small);
          lines = inv.lines;
          whole =
              ap
                (λ l.
                  base
                  ++ (flatten (segments_of K bounded history handler semaphore d splits s) ++ l))
                g.holds
              ∙ ap (λ l. base ++ l)
                  (sym (
                    append_assoc
                      (flatten (segments_of K bounded history handler semaphore d splits s))
                      (contents s.object.stream) new))
              ∙ sym (
                  append_assoc base
                    (flatten (segments_of K bounded history handler semaphore d splits s)
                      ++ contents s.object.stream)
                    new)
              ∙ ap (λ l. l ++ new) inv.whole
              ∙ sym g.read
              ∙ ap (λ (x : Stream). history.received x.stream_file_descriptor w') (sym g.same.0);
          at_place = (
            refl,
            posted ∙ (at K bounded history handler semaphore d splits base count s inv reading e).1,
          );
        }

    pub cuts-IsWhole :
        (bytes segment : List ℕ) (n : ℕ) (stream : BufferedStream) (w' : K.World)
        → s.place ≡ cutting bytes
        → handler.condition bytes ≡ pos n
        → 0 < n
        → n ≤ length bytes
        → pop_from_buffer K n (s.object.stream, s.world) ≡ (ok segment, (stream, w'))
        → IsWhole K bounded history handler semaphore d splits base count (record s {
          object = (push_back K handler.fd segment (record s.object { stream = stream }, w')).1.0;
          world = w';
          place = posting (drop n bytes);
        })
    cuts-IsWhole bytes segment n stream w' e answer some_bytes le popped =
        let (copy, posted) =
          at K bounded history handler semaphore d splits base count s inv (cutting bytes) e in
        let (valid, same, ew, ends) =
          subst (PopEnds n s.object.stream s.world) popped
            (pop_from_buffer-PopEnds K n s.object.stream s.world inv.valid) in
        let old = contents s.object.stream in
        let (es, eh) : (segment ≡ take n old) × (contents stream ≡ drop n old) = elim ends [
          | inl (enough, er, rest) ↦ (cc er, rest)
          | inr (short, er, eb) ↦ absurd (omega (arith, le, short, ap length copy))
        ] in
        let line : IsLine d segment =
          rw (es, sym copy)
            (answer_pos d bytes
              (copy_small K bounded history handler semaphore d splits base count s inv bytes copy)
              n (ap (λ (f : List ℕ → ℤ). f bytes) (sym splits) ∙ answer) some_bytes) in
        let queued : segments_of K bounded history handler semaphore d splits t
            ≡ segments_of K bounded history handler semaphore d splits s ++ segment ∷ [] =
          ap (λ l. s.taken ++ l)
            (queue-set_queue K history handler.fd semaphore _ s.object.received_data_per_condition)
          ∙ sym (append_assoc s.taken _ (segment ∷ [])) in
        record {
          valid = valid;
          one = inv.one;
          small = omega (arith, same.1, inv.small);
          lines = rw queued (
              AllLines-append d (segments_of K bounded history handler semaphore d splits s)
                (segment ∷ []) inv.lines (line, tt));
          whole =
              rw (queued, es, eh)
                (ap (λ l. base ++ l)
                    (cut_whole (segments_of K bounded history handler semaphore d splits s) old n)
                  ∙ inv.whole
                  ∙ ap (history.received s.object.stream.stream.stream_file_descriptor) (sym ew)
                  ∙ ap (λ (x : Stream). history.received x.stream_file_descriptor w') (sym same.0));
          at_place = (
            ap (drop n) copy ∙ sym eh,
            omega (
              arith,
              posted,
              ap length queued,
              length-append (segments_of K bounded history handler semaphore d splits s)
                  (segment ∷ []),
              ap semaphore.posted ew,
            ),
          );
        }
      where
        t : System K
        t = record s {
          object = (push_back K handler.fd segment (record s.object { stream = stream }, w')).1.0;
          world = w';
          place = posting (drop n bytes);
        }

    pub rests-IsWhole :
        (bytes : List ℕ)
        → s.place ≡ cutting bytes
        → (bytes ≡ []) ⊎ (handler.condition bytes ≡ pos 0)
        → IsWhole K bounded history handler semaphore d splits base count
            (record s { place = reading })
    rests-IsWhole bytes e done =
        let (copy, posted) =
          at K bounded history handler semaphore d splits base count s inv (cutting bytes) e in
        record {
          valid = inv.valid;
          one = inv.one;
          small = inv.small;
          lines = inv.lines;
          whole = inv.whole;
          at_place = (
            elim done [
              | inl empty ↦ rw (sym copy ∙ empty) tt
              | inr answer ↦ rw (sym copy) (
                  answer_zero d bytes
                    (copy_small K bounded history handler semaphore d splits base count s inv bytes
                      copy)
                    (ap (λ (f : List ℕ → ℤ). f bytes) (sym splits) ∙ answer))
            ],
            posted,
          );
        }

    pub takes-IsWhole :
        (segment : List ℕ) (c' : ConditionalBufferedStream) (w' : K.World)
        → read K handler.fd (s.object, s.world) ≡ (ok segment, (c', w'))
        → IsWhole K bounded history handler semaphore d splits base count
            (record s { object = c'; world = w'; taken = s.taken ++ segment ∷ [] })
    takes-IsWhole segment c' w' h =
        let (head, es, eh, ew) =
          read-Took K handler.fd segment s.object c' s.world w'
            (s.object.received_data_per_condition handler.fd) refl h in
        let same : (s.taken ++ segment ∷ []) ++ queue c'.received_data_per_condition handler.fd
            ≡ segments_of K bounded history handler semaphore d splits s =
          append_assoc s.taken (segment ∷ []) (queue c'.received_data_per_condition handler.fd)
          ∙ ap (λ l. s.taken ++ l) (sym head) in
        record {
          valid = rw es inv.valid;
          one = eh ∙ inv.one;
          small = rw es inv.small;
          lines = rw same inv.lines;
          whole = rw (same, es, ew) inv.whole;
          at_place = rw (same, es, ew) inv.at_place;
        }
