-- ===== src/BufferedStream/Delimiter.antt =====
-- readUntilDelimiter: the pieces into which it splits the stream.
use socket_wrapper.Prelude.{
  ℕ, zero, suc, ◌+◌, ◌-◌, ◌≤◌, ◌<◌, ◌≡◌, refl, sym, ap, ◌∙◌, ◌⊎◌, inl, inr, Bool, true, false, List,
  [], ◌∷◌, ◌++◌, arith, length, take, drop, length-append, take-take-le, ltb, ltb→le, ◌==◌,
  Bool-cases, subst,
}
use socket_wrapper.Prelude.Int.{minus_one}
use socket_wrapper.Prelude.Find.{find, Lacks, Split, find-Split}
use socket_wrapper.Exception.{logic_error}
use socket_wrapper.Exec.{Outcome, ok, throws, terminated, out_of_fuel, continue, Exec}
use socket_wrapper.Kernel.{Kernel, IsBounded, History}
use socket_wrapper.Stream.Read.{IsReadError}
use socket_wrapper.BufferedStream.{
  BufferedStream, read_available, found_or, search_then, read_until_from, read_until_delimiter,
}
use socket_wrapper.BufferedStream.Contents.{contents, IsValid, Same}
use socket_wrapper.BufferedStream.Fill.{received, FillEnds, read_available-FillEnds}
use socket_wrapper.BufferedStream.FillTo.{Grows, Grown-none, Grown-trans}
use socket_wrapper.BufferedStream.Pop.{dropped, dropped-IsValid, contents-dropped, length-contents}

module _ (K : Kernel) (bounded : IsBounded K) (history : History K) (c : ℕ) where
  -- How `readUntilDelimiter` ends.
  abbrev pub UntilEnds :
      BufferedStream → K.World → Outcome (List ℕ) × (BufferedStream × K.World) → Type 0
  UntilEnds b w (ok result, (b', w')) =
      (new : List ℕ) × (0 < length new)
      × Lacks c result
      × (contents b ++ new ≡ result ++ (c ∷ contents b'))
      × (received K bounded history b w' ≡ received K bounded history b w ++ new)
      × IsValid b'
      × Same b b'
  UntilEnds b w (throws e, (b', w')) =
      (new : List ℕ) × Grows K bounded history b w new b' w'
      × (IsReadError e
          ⊎ ((e ≡ logic_error)
              × (b'.buffer_write_offset ≡ b.stream_buffer_size)
              × ((new ≡ []) ⊎ Lacks c (contents b'))))
  UntilEnds b w (terminated, st) = ⊥
  UntilEnds b w (out_of_fuel, st) = ⊥

  found_or-UntilEnds :
      (b b' : BufferedStream) (w w' : K.World) (new : List ℕ)
      → Grows K bounded history b w new b' w'
      → 0 < length new
      → (position : ℕ) → Split c (contents b') position
      → (next : Exec (BufferedStream × K.World) (List ℕ))
      → (Lacks c (contents b') → UntilEnds b w (next (b', w')))
      → (missing : Bool) → (position == b'.buffer_write_offset) ≡ missing
      → UntilEnds b w (found_or K missing position next (b', w'))
  unfolding found_or
  found_or-UntilEnds b b' w w' new g some_bytes position (inl (e, lacks)) next rest true test =
      rest lacks
  found_or-UntilEnds b b' w w' new g some_bytes position (inl (e, lacks)) next rest false test =
      absurd (ground (arith, length-contents b' g.valid))
  found_or-UntilEnds b b' w w' new g some_bytes position (inr (lt, lacks, e, line)) next rest true
        test =
      absurd (ground (arith, length-contents b' g.valid))
  found_or-UntilEnds b b' w w' new g some_bytes position (inr (lt, lacks, e, line)) next rest false
        test =
      (
        new,
        some_bytes,
        subst (Lacks c) front lacks,
        sym g.holds ∙ e ∙ rw (front, rest_lem) refl,
        g.read,
        dropped-IsValid (position + 1) b' g.valid le,
        g.same,
      )
    where
      le : position + 1 ≤ b'.buffer_write_offset
      le = omega (arith, length-contents b' g.valid)

      front : take position (contents b') ≡ take position b'.stream_buffer
      front =
          take-take-le position b'.buffer_write_offset b'.stream_buffer
            (omega (arith, length-contents b' g.valid))

      rest_lem : drop (suc position) (contents b') ≡ contents (dropped (position + 1) b')
      rest_lem =
          let same : suc position ≡ position + 1 = omega arith in
          ap (λ k. drop k (contents b')) same ∙ sym (contents-dropped (position + 1) b' g.valid le)

  after_fill :
      (b b' : BufferedStream) (w w' : K.World) (before : List ℕ)
      → Grows K bounded history b w before b' w'
      → (next : Exec (BufferedStream × K.World) (List ℕ))
      → ((b'' : BufferedStream) (w'' : K.World) (new : List ℕ)
          → Grows K bounded history b w new b'' w''
          → b'.buffer_write_offset < b''.buffer_write_offset
          → Lacks c (contents b'')
          → UntilEnds b w (next (b'', w'')))
      → (r : Outcome ℕ) (st : BufferedStream × K.World) → FillEnds K bounded history b' w' (r, st)
      → UntilEnds b w (continue r (λ _. search_then K c next) st)
  unfolding search_then
  after_fill b b' w w' before g next rest (ok n) (b'', w'') (read, en, some_bytes, h) =
      let both = Grown-trans K bounded history g h in
      found_or-UntilEnds b b'' w w'' (before ++ read) both
        (omega (arith, length-append before read)) (find c (contents b''))
        (find-Split c (contents b'')) next
        (rest b'' w'' (before ++ read) both (omega (arith, h.offset)))
        (find c (contents b'') == b''.buffer_write_offset) refl
  after_fill b b' w w' before g next rest (throws e) (b'', w'') (kind, h) =
      (before ++ [], Grown-trans K bounded history g h, inl kind)
  after_fill b b' w w' before g next rest terminated st h = elim h [ ]
  after_fill b b' w w' before g next rest out_of_fuel st h = elim h [ ]

  read_until_from-UntilEnds :
      (fuel : ℕ) (b b' : BufferedStream) (w w' : K.World) (new : List ℕ)
      → Grows K bounded history b w new b' w'
      → ((new ≡ []) ⊎ Lacks c (contents b'))
      → b'.stream_buffer_size < fuel + b'.buffer_write_offset
      → UntilEnds b w (read_until_from K fuel c (b', w'))
  unfolding read_until_from
  read_until_from-UntilEnds zero b b' w w' new g lacks enough = absurd (omega (arith, g.valid))
  read_until_from-UntilEnds (suc fuel) b b' w w' new g lacks enough =
      elim (Bool-cases (ltb b'.buffer_write_offset b'.stream_buffer_size)) [
        | inl more ↦
            rw (more, read_until_from)
              (after_fill b b' w w' new g (read_until_from K fuel c)
                (λ b'' w'' new' h grew lacks'.
                  read_until_from-UntilEnds fuel b b'' w w'' new' h (inr lacks')
                    (omega (arith, g.same.1, h.same.1)))
                (read_available K minus_one (b', w')).0 (read_available K minus_one (b', w')).1
                (read_available-FillEnds K bounded history minus_one b' w' g.valid))
        | inr full ↦
            rw (full, read_until_from)
              (
                new,
                g,
                inr (
                  refl,
                  omega (
                    arith,
                    g.valid,
                    g.same.1,
                    ltb→le b'.buffer_write_offset b'.stream_buffer_size full,
                  ),
                  lacks,
                ),
              )
      ]

  -- `readUntilDelimiter` reads a byte at least and returns the bytes before the first delimiter in
  -- what the buffer held and the stream then delivered; the delimiter is dropped and the buffer holds
  -- what follows it. Otherwise it keeps all bytes that were read, and throws because reading failed,
  -- or logic_error when the buffer is full; then the buffer lacks the delimiter or was full before.
  -- It always ends.
  pub read_until_delimiter-UntilEnds :
      (b : BufferedStream) (w : K.World)
      → IsValid b
      → UntilEnds b w (read_until_delimiter K c (b, w))
  unfolding read_until_delimiter
  read_until_delimiter-UntilEnds b w v =
      read_until_from-UntilEnds (suc (b.stream_buffer_size - b.buffer_write_offset)) b b w w []
        (Grown-none K bounded history b w v) (inl refl) (omega (arith, v))
