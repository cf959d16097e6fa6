-- ===== src/BufferedStream/FillTo.antt =====
-- The loop that fills the buffer until it holds as many bytes as are wanted.
use socket_wrapper.Prelude.{
  ℕ, zero, suc, ◌+◌, ◌≤◌, ◌<◌, ◌≡◌, refl, sym, ap, ◌∙◌, inl, inr, List, [], ◌++◌, arith, append-nil,
  append_assoc, length-append, ltb, ltb→lt, ltb→le, Bool-cases,
}
use socket_wrapper.Prelude.Int.{ℤ}
use socket_wrapper.Exec.{Outcome, ok, throws, terminated, out_of_fuel, continue}
use socket_wrapper.Kernel.{Kernel, IsBounded, History}
use socket_wrapper.Stream.{Stream}
use socket_wrapper.Stream.Read.{IsReadError}
use socket_wrapper.BufferedStream.{BufferedStream, read_available, fill_to}
use socket_wrapper.BufferedStream.Contents.{contents, IsValid}
use socket_wrapper.BufferedStream.Fill.{received, Grown, FillEnds, read_available-FillEnds}

module _ (K : Kernel) (bounded : IsBounded K) (history : History K) where
  abbrev pub Grows : BufferedStream → K.World → List ℕ → BufferedStream → K.World → Type 0
  Grows = Grown K bounded history

  -- No growth, and two after one another.
  pub Grown-none : (b : BufferedStream) (w : K.World) → IsValid b → Grows b w [] b w
  Grown-none b w v = record {
    valid = v;
    same = (refl, refl);
    holds = sym (append-nil _);
    offset = omega arith;
    read = sym (append-nil _);
  }

  pub Grown-trans :
      {b b' b'' : BufferedStream} {w w' w'' : K.World} {first second : List ℕ}
      → Grows b w first b' w'
      → Grows b' w' second b'' w''
      → Grows b w (first ++ second) b'' w''
  Grown-trans {b} {b'} {b''} {w} {w'} {w''} {first} {second} g h = record {
    valid = h.valid;
    same = (h.same.0 ∙ g.same.0, h.same.1 ∙ g.same.1);
    holds = h.holds ∙ ap (λ l. l ++ second) g.holds ∙ append_assoc (contents b) first second;
    offset = omega (arith, g.offset, h.offset, length-append first second);
    read =
        sym (at_stream w'')
        ∙ h.read
        ∙ ap (λ l. l ++ second) (at_stream w' ∙ g.read)
        ∙ append_assoc (received K bounded history b w) first second;
  }
    where
      at_stream : (v : K.World) → received K bounded history b' v ≡ received K bounded history b v
      at_stream v = ap (λ (s : Stream). history.received s.stream_file_descriptor v) g.same.0

  -- How `fill_to` ends.
  abbrev pub FillToEnds :
      ℕ → BufferedStream → K.World → Outcome (Unit {0}) × (BufferedStream × K.World) → Type 0
  FillToEnds wanted b w (ok _, (b', w')) =
      (new : List ℕ) × Grows b w new b' w' × (wanted ≤ b'.buffer_write_offset)
  FillToEnds wanted b w (throws e, (b', w')) =
      IsReadError e × ((new : List ℕ) × Grows b w new b' w')
  FillToEnds wanted b w (terminated, st) = ⊥
  FillToEnds wanted b w (out_of_fuel, st) = ⊥

  -- What was read before counts too.
  FillToEnds-trans :
      (wanted : ℕ) {b b' : BufferedStream} {w w' : K.World} {first : List ℕ}
      → Grows b w first b' w'
      → (st : Outcome (Unit {0}) × (BufferedStream × K.World)) → FillToEnds wanted b' w' st
      → FillToEnds wanted b w st
  FillToEnds-trans wanted {first = first} g (ok _, (b'', w'')) (new, h, enough) =
      (first ++ new, Grown-trans g h, enough)
  FillToEnds-trans wanted {first = first} g (throws e, (b'', w'')) (kind, (new, h)) =
      (kind, (first ++ new, Grown-trans g h))
  FillToEnds-trans wanted g (terminated, st) h = h
  FillToEnds-trans wanted g (out_of_fuel, st) h = h

  after_fill :
      (wanted : ℕ) (b : BufferedStream) (w : K.World)
      → (next : BufferedStream × K.World → Outcome (Unit {0}) × (BufferedStream × K.World))
      → ((b' : BufferedStream) (w' : K.World)
          → IsValid b'
          → b.buffer_write_offset < b'.buffer_write_offset
          → FillToEnds wanted b' w' (next (b', w')))
      → (r : Outcome ℕ) (st : BufferedStream × K.World) → FillEnds K bounded history b w (r, st)
      → FillToEnds wanted b w (continue r (λ _. next) st)
  after_fill wanted b w next rest (ok n) (b', w') (new, en, some_bytes, g) =
      FillToEnds-trans wanted g (next (b', w')) (rest b' w' g.valid (omega (arith, g.offset)))
  after_fill wanted b w next rest (throws e) (b', w') (kind, g) = (kind, ([], g))
  after_fill wanted b w next rest terminated st h = elim h [ ]
  after_fill wanted b w next rest out_of_fuel st h = elim h [ ]

  pub fill_to-FillToEnds :
      (fuel wanted : ℕ) (timeout : ℤ) (b : BufferedStream) (w : K.World)
      → IsValid b
      → 0 < fuel
      → wanted < fuel + b.buffer_write_offset
      → FillToEnds wanted b w (fill_to K fuel wanted timeout (b, w))
  unfolding fill_to
  fill_to-FillToEnds zero wanted timeout b w v pos_fuel enough = absurd (omega arith)
  fill_to-FillToEnds (suc fuel) wanted timeout b w v pos_fuel enough =
      elim (Bool-cases (ltb b.buffer_write_offset wanted)) [
        | inl more ↦
            rw (more, fill_to)
              (after_fill wanted b w (fill_to K fuel wanted timeout)
                (λ b' w' v' grew.
                  fill_to-FillToEnds fuel wanted timeout b' w' v'
                    (omega (arith, ltb→lt b.buffer_write_offset wanted more)) (omega arith))
                (read_available K timeout (b, w)).0 (read_available K timeout (b, w)).1
                (read_available-FillEnds K bounded history timeout b w v))
        | inr done ↦ rw (done, fill_to) ([], Grown-none b w v, ltb→le _ _ done)
      ]
