-- ===== src/BufferedStream/Read.antt =====
-- The two functions `read`: what they return and what stays in the buffer.
use socket_wrapper.Prelude.{
  ℕ, suc, min, ◌+◌, ◌≤◌, ◌<◌, ◌≡◌, refl, sym, ap, ◌∙◌, ◌⊎◌, inl, inr, List, [], ◌++◌, arith, length,
  take, take-append-drop, length-append, length-take_le, subst, ltb, ltb→lt, ltb→le, Bool-cases,
}
use socket_wrapper.Prelude.Int.{ℤ}
use socket_wrapper.Exception.{logic_error}
use socket_wrapper.Exec.{Outcome, ok, throws, terminated, out_of_fuel, continue, Exec, ◌>>=◌}
use socket_wrapper.Kernel.{Kernel, IsBounded, History}
use socket_wrapper.Stream.Read.{IsReadError}
use socket_wrapper.BufferedStream.{
  BufferedStream, read_available, pop_from_buffer, fill_to, read, read_into,
}
use socket_wrapper.BufferedStream.Contents.{contents, IsValid, Same}
use socket_wrapper.BufferedStream.Fill.{received, FillEnds, read_available-FillEnds}
use socket_wrapper.BufferedStream.FillTo.{Grows, Grown-trans, FillToEnds, fill_to-FillToEnds}
use socket_wrapper.BufferedStream.Pop.{PopEnds, popped, length-contents, pop_from_buffer-PopEnds}

module _ (K : Kernel) (bounded : IsBounded K) (history : History K) where
  -- `result` was taken from the front of what `b` held and what was read in the meantime, `new`;
  -- `b'` holds the rest.
  pub record Taken (b : BufferedStream) (w : K.World) (new result : List ℕ) (b' : BufferedStream)
      (w' : K.World) : Type 0 where
    pub valid : IsValid b'
    pub same : Same b b'
    pub splits : contents b ++ new ≡ result ++ contents b'
    pub read : received K bounded history b w' ≡ received K bounded history b w ++ new

  -- A pop after growth.
  Taken-pop :
      (n : ℕ) (b b' : BufferedStream) (w w' : K.World) (new : List ℕ)
      → Grows K bounded history b w new b' w'
      → n ≤ b'.buffer_write_offset
      → (r : Outcome (List ℕ)) (b'' : BufferedStream) (w'' : K.World)
      → PopEnds n b' w' (r, (b'', w''))
      → (result : List ℕ) × (r ≡ ok result) × (length result ≡ n) × Taken b w new result b'' w''
  Taken-pop n b b' w w' new g le r b'' w'' pop =
      let (valid, same, ew, _) = pop in
      let (er, ec) = popped n b' b'' w' w'' r pop (omega (arith, length-contents b' g.valid)) in
      (
        take n (contents b'),
        er,
        length-take_le n (contents b') (omega (arith, length-contents b' g.valid)),
        record {
          valid = valid;
          same = (same.0 ∙ g.same.0, same.1 ∙ g.same.1);
          splits =
              sym g.holds
              ∙ sym (take-append-drop n (contents b'))
              ∙ ap (λ l. take n (contents b') ++ l) (sym ec);
          read = ap (received K bounded history b) ew ∙ g.read;
        },
      )

  abbrev pub VectorEnds :
      ℕ → BufferedStream → K.World → Outcome (List ℕ) × (BufferedStream × K.World) → Type 0
  VectorEnds n b w (ok result, (b', w')) =
      (n ≤ b.stream_buffer_size)
      × (length result ≡ n)
      × ((new : List ℕ) × Taken b w new result b' w')
  VectorEnds n b w (throws e, (b', w')) =
      ((b.stream_buffer_size < n) × (e ≡ logic_error) × (b' ≡ b) × (w' ≡ w))
      ⊎ ((n ≤ b.stream_buffer_size)
          × IsReadError e
          × ((new : List ℕ) × Grows K bounded history b w new b' w'))
  VectorEnds n b w (terminated, st) = ⊥
  VectorEnds n b w (out_of_fuel, st) = ⊥

  pop-VectorEnds :
      (n : ℕ) (b b' : BufferedStream) (w w' : K.World) (new : List ℕ)
      → n ≤ b.stream_buffer_size
      → Grows K bounded history b w new b' w'
      → n ≤ b'.buffer_write_offset
      → VectorEnds n b w (pop_from_buffer K n (b', w'))
  pop-VectorEnds n b b' w w' new fits g le =
      let (r, (b'', w'')) = pop_from_buffer K n (b', w') in
      let (result, e, len, taken) =
        Taken-pop n b b' w w' new g le r b'' w'' (pop_from_buffer-PopEnds K n b' w' g.valid) in
      subst (λ (o : Outcome (List ℕ)). VectorEnds n b w (o, (b'', w''))) (sym e)
        (fits, len, (new, taken))

  after_fill_to :
      (n : ℕ) (b : BufferedStream) (w : K.World)
      → n ≤ b.stream_buffer_size
      → (r : Outcome (Unit {0})) (st : BufferedStream × K.World)
      → FillToEnds K bounded history n b w (r, st)
      → VectorEnds n b w (continue r (λ _. pop_from_buffer K n) st)
  after_fill_to n b w fits (ok _) (b', w') (new, g, le) = pop-VectorEnds n b b' w w' new fits g le
  after_fill_to n b w fits (throws e) (b', w') (kind, grown) = inr (fits, kind, grown)
  after_fill_to n b w fits terminated st h = elim h [ ]
  after_fill_to n b w fits out_of_fuel st h = elim h [ ]

  -- On a valid buffer, `read` into a vector returns exactly as many bytes as were asked for, the
  -- first of what the buffer held and the stream then delivered, and the buffer holds the rest: no
  -- byte is lost, repeated or reordered. It throws logic_error at once, changing nothing, when the
  -- buffer is too small; when reading fails, the buffer keeps all bytes that were read. It always
  -- ends.
  pub read-VectorEnds :
      (n : ℕ) (timeout : ℤ) (b : BufferedStream) (w : K.World)
      → IsValid b
      → VectorEnds n b w (read K n timeout (b, w))
  unfolding read
  read-VectorEnds n timeout b w v = elim (Bool-cases (ltb b.stream_buffer_size n)) [
    | inl large ↦ rw (large, read) (inl (ltb→lt _ _ large, refl, refl, refl))
    | inr fits ↦
        rw (fits, read)
          (after_fill_to n b w (ltb→le _ _ fits) (fill_to K (suc n) n timeout (b, w)).0
            (fill_to K (suc n) n timeout (b, w)).1
            (fill_to-FillToEnds K bounded history (suc n) n timeout b w v (omega arith)
              (omega arith)))
  ]

  abbrev pub IntoEnds :
      (max_bytes min_bytes : ℕ)
      → BufferedStream
      → K.World
      → Outcome (List ℕ) × (BufferedStream × K.World)
      → Type 0
  IntoEnds max_bytes min_bytes b w (ok result, (b', w')) =
      (new : List ℕ) × (0 < length new)
      × (min_bytes ≤ b.buffer_write_offset + length new)
      × (length result ≡ min (b.buffer_write_offset + length new) max_bytes)
      × Taken b w new result b' w'
  IntoEnds max_bytes min_bytes b w (throws e, (b', w')) =
      IsReadError e × ((new : List ℕ) × Grows K bounded history b w new b' w')
  IntoEnds max_bytes min_bytes b w (terminated, st) = ⊥
  IntoEnds max_bytes min_bytes b w (out_of_fuel, st) = ⊥

  pop-IntoEnds :
      (max_bytes min_bytes : ℕ) (b b' : BufferedStream) (w w' : K.World) (new : List ℕ)
      → Grows K bounded history b w new b' w'
      → 0 < length new
      → min_bytes ≤ b'.buffer_write_offset
      → IntoEnds max_bytes min_bytes b w
          (pop_from_buffer K (min b'.buffer_write_offset max_bytes) (b', w'))
  pop-IntoEnds max_bytes min_bytes b b' w w' new g some_bytes le =
      let n = min b'.buffer_write_offset max_bytes in
      let (r, (b'', w'')) = pop_from_buffer K n (b', w') in
      let (result, e, len, taken) =
        Taken-pop n b b' w w' new g (omega arith) r b'' w''
          (pop_from_buffer-PopEnds K n b' w' g.valid) in
      subst (λ (o : Outcome (List ℕ)). IntoEnds max_bytes min_bytes b w (o, (b'', w''))) (sym e)
        (new, some_bytes, omega (arith, g.offset), omega (arith, len, g.offset), taken)

  -- The rest of `read_into`, once the buffer has been filled.
  take_some : ℕ → Exec (BufferedStream × K.World) (List ℕ)
  take_some max_bytes (b, w) = pop_from_buffer K (min b.buffer_write_offset max_bytes) (b, w)

  after_into :
      (max_bytes min_bytes : ℕ) (b b' : BufferedStream) (w w' : K.World) (first : List ℕ)
      → Grows K bounded history b w first b' w'
      → 0 < length first
      → (r : Outcome (Unit {0})) (st : BufferedStream × K.World)
      → FillToEnds K bounded history min_bytes b' w' (r, st)
      → IntoEnds max_bytes min_bytes b w (continue r (λ _. take_some max_bytes) st)
  unfolding take_some
  after_into max_bytes min_bytes b b' w w' first g some_bytes (ok _) (b'', w'') (second, h, le) =
      pop-IntoEnds max_bytes min_bytes b b'' w w'' (first ++ second)
        (Grown-trans K bounded history g h) (omega (arith, length-append first second)) le
  after_into max_bytes min_bytes b b' w w' first g some_bytes (throws e) (b'', w'')
        (kind, (second, h)) =
      (kind, (first ++ second, Grown-trans K bounded history g h))
  after_into max_bytes min_bytes b b' w w' first g some_bytes terminated st h = elim h [ ]
  after_into max_bytes min_bytes b b' w w' first g some_bytes out_of_fuel st h = elim h [ ]

  after_first :
      (max_bytes min_bytes : ℕ) (timeout : ℤ) (b : BufferedStream) (w : K.World)
      → (r : Outcome ℕ) (st : BufferedStream × K.World) → FillEnds K bounded history b w (r, st)
      → IntoEnds max_bytes min_bytes b w (
          continue r
            (λ _. fill_to K (suc min_bytes) min_bytes timeout >>= λ _. take_some max_bytes)
            st)
  after_first max_bytes min_bytes timeout b w (ok n) (b', w') (first, en, some_bytes, g) =
      after_into max_bytes min_bytes b b' w w' first g (omega arith)
        (fill_to K (suc min_bytes) min_bytes timeout (b', w')).0
        (fill_to K (suc min_bytes) min_bytes timeout (b', w')).1
        (fill_to-FillToEnds K bounded history (suc min_bytes) min_bytes timeout b' w' g.valid
          (omega arith) (omega arith))
  after_first max_bytes min_bytes timeout b w (throws e) (b', w') (kind, g) = (kind, ([], g))
  after_first max_bytes min_bytes timeout b w terminated st h = elim h [ ]
  after_first max_bytes min_bytes timeout b w out_of_fuel st h = elim h [ ]

  -- `read` into an array always reads from the stream first, a byte at least, and goes on until the
  -- buffer holds the minimum asked for. It puts as many bytes into the array as there are, up to the
  -- maximum, from the front of what the buffer held and the stream delivered; the buffer holds the
  -- rest. When reading fails, the buffer keeps all bytes that were read. It always ends.
  pub read_into-IntoEnds :
      (max_bytes min_bytes : ℕ) (timeout : ℤ) (b : BufferedStream) (w : K.World)
      → IsValid b
      → IntoEnds max_bytes min_bytes b w (read_into K max_bytes min_bytes timeout (b, w))
  unfolding read_into take_some
  read_into-IntoEnds max_bytes min_bytes timeout b w v =
      after_first max_bytes min_bytes timeout b w (read_available K timeout (b, w)).0
        (read_available K timeout (b, w)).1
        (read_available-FillEnds K bounded history timeout b w v)
