-- ===== src/Stream/Read.antt =====
-- Stream::read: how it ends, and where the bytes go that the operating system hands over.
use socket_wrapper.Prelude.{
  ℕ, zero, suc, ◌+◌, ◌≤◌, ◌<◌, ◌≡◌, refl, sym, ap, ◌∙◌, inl, inr, Bool, true, false, List, [], ◌∷◌,
  ◌++◌, arith, length, length-append, append-nil, append_assoc, ltb, ltb→lt, ltb→le, Bool-cases,
}
use socket_wrapper.Prelude.Int.{ℤ}
use socket_wrapper.Prelude.Size.{size_modulus, size_sub, size_sub_le}
use socket_wrapper.Prelude.Memory.{blit, blit-blit, blit_none}
use socket_wrapper.Exception.{
  ExceptionType, Exception, socket, socket_poll, socket_read, socket_closed,
  socket_termination_request, socket_read_timeout,
}
use socket_wrapper.Exec.{Outcome, ok, throws, terminated, out_of_fuel, continue}
use socket_wrapper.Kernel.{Kernel, IsBounded, History, ReadResult, read_failed, got, bytes_of}
use socket_wrapper.Stream.{Stream, check_read, read_round, read_from, read}

abbrev pub is_read_error : ExceptionType → Bool
is_read_error socket_poll = true
is_read_error socket_read = true
is_read_error socket_closed = true
is_read_error socket_termination_request = true
is_read_error socket_read_timeout = true
is_read_error _ = false

abbrev pub IsReadError : Exception → Type 0
IsReadError (socket e) = is_read_error e.exception_type ≡ true
IsReadError _ = ⊥

module _ (K : Kernel) (bounded : IsBounded K) (history : History K) (s : Stream) where
  abbrev received : K.World → List ℕ
  received = history.received s.stream_file_descriptor

  -- How a round ends that began in the world `w`.
  abbrev pub RoundEnds : ℕ → K.World → Outcome (List ℕ) × K.World → Type 0
  RoundEnds room w (ok bytes, w') =
      (0 < length bytes) × (length bytes ≤ room) × (received w' ≡ received w ++ bytes)
  RoundEnds room w (throws e, w') = IsReadError e × (received w' ≡ received w)
  RoundEnds room w (terminated, w') = ⊥
  RoundEnds room w (out_of_fuel, w') = ⊥

  check_read-RoundEnds :
      (room : ℕ) (w w' : K.World) (r : ReadResult)
      → length (bytes_of r) ≤ room
      → received w' ≡ received w ++ bytes_of r
      → RoundEnds room w (check_read K r w')
  unfolding check_read
  check_read-RoundEnds room w w' read_failed h e = (refl, e ∙ append-nil _)
  check_read-RoundEnds room w w' (got []) h e = (refl, e ∙ append-nil _)
  check_read-RoundEnds room w w' (got (b ∷ bytes)) h e = (omega arith, h, e)

  pub read_round-RoundEnds :
      (room : ℕ) (timeout : ℤ) (w : K.World) → RoundEnds room w (read_round K s room timeout w)
  unfolding read_round
  read_round-RoundEnds room timeout w =
      let fds = s.stream_file_descriptor ∷ s.stop_all_operations_event_fd ∷ [] in
      let w' = (K.poll fds timeout w).1 in
      let r = K.read s.stream_file_descriptor room w' in
      ground (
        arith,
        history.received_poll s.stream_file_descriptor fds timeout w,
        check_read-RoundEnds room w r.1 r.0 (bounded.read_bounded _ room w') (
            history.received_read _ room w'
            ∙ ap (λ l. l ++ bytes_of r.0)
                (history.received_poll s.stream_file_descriptor fds timeout w)),
      )

  -- How `read` ends that began with the array `array` and in the world `w`, having put `bytes`
  -- into the array.
  abbrev pub Ended : ℕ → List ℕ → Outcome ℕ → Type 0
  Ended min_bytes bytes (ok n) = (n ≡ length bytes) × (min_bytes ≤ n)
  Ended min_bytes bytes (throws e) = IsReadError e × (length bytes < min_bytes)
  Ended min_bytes bytes terminated = ⊥
  Ended min_bytes bytes out_of_fuel = ⊥

  abbrev pub ReadEnds :
      (at max_bytes min_bytes : ℕ) (array : List ℕ) (w : K.World)
      → Outcome ℕ × (List ℕ × K.World)
      → Type 0
  ReadEnds at max_bytes min_bytes array w (r, (array', w')) =
      (bytes : List ℕ) × (length bytes ≤ max_bytes)
      × (array' ≡ blit at bytes array)
      × (received w' ≡ received w ++ bytes)
      × Ended min_bytes bytes r

  module _ (at max_bytes min_bytes : ℕ) (timeout : ℤ) (array : List ℕ) (w : K.World)
      (small : max_bytes < size_modulus) (fits : at + max_bytes ≤ length array) where
    abbrev Reads : Outcome ℕ × (List ℕ × K.World) → Type 0
    Reads = ReadEnds at max_bytes min_bytes array w

    -- What follows a round that began once `bytes` had been put into the array.
    after_round :
        (n room : ℕ) (bytes array' : List ℕ) (w' : K.World)
        → n ≡ length bytes
        → n < min_bytes
        → n + room ≤ max_bytes
        → array' ≡ blit at bytes array
        → received w' ≡ received w ++ bytes
        → (next : List ℕ → List ℕ × K.World → Outcome ℕ × (List ℕ × K.World))
        → ((more : List ℕ) (w'' : K.World)
            → 0 < length more
            → n + length more ≡ length (bytes ++ more)
            → n + length more ≤ max_bytes
            → blit (at + n) more array' ≡ blit at (bytes ++ more) array
            → received w'' ≡ received w ++ (bytes ++ more)
            → Reads (next more (blit (at + n) more array', w'')))
        → (r : Outcome (List ℕ)) (w'' : K.World) → RoundEnds room w' (r, w'')
        → Reads (continue r (λ more st. next more (blit (at + n) more st.0, st.1)) (array', w''))
    after_round n room bytes array' w' en lt fit ea er next rest (ok more) w'' (some_bytes, le, e) =
        rest more w'' some_bytes (omega (arith, length-append bytes more)) (omega arith)
          (rw ea (blit-blit at (at + n) bytes more array (omega arith) (omega arith)))
          (rw (e, er, append_assoc))
    after_round n room bytes array' w' en lt fit ea er next rest (throws x) w'' (kind, e) =
        (bytes, omega arith, ea, e ∙ er, (kind, omega arith))
    after_round n room bytes array' w' en lt fit ea er next rest terminated w'' h = elim h [ ]
    after_round n room bytes array' w' en lt fit ea er next rest out_of_fuel w'' h = elim h [ ]

    -- The loop, once it has put `bytes` into the array.
    read_from-ReadEnds :
        (fuel n : ℕ) (bytes array' : List ℕ) (w' : K.World)
        → n ≡ length bytes
        → n ≤ max_bytes
        → 0 < fuel
        → min_bytes < fuel + n
        → array' ≡ blit at bytes array
        → received w' ≡ received w ++ bytes
        → Reads (read_from K fuel s at max_bytes min_bytes timeout n (array', w'))
    unfolding read_from
    read_from-ReadEnds zero n bytes array' w' en le pos_fuel enough ea er = absurd (omega arith)
    read_from-ReadEnds (suc fuel) n bytes array' w' en le pos_fuel enough ea er =
        elim (Bool-cases (ltb n min_bytes)) [
          | inl more ↦
              rw (more, read_from)
                (after_round n room bytes array' w' en (ltb→lt _ _ more)
                  (omega (arith, size_sub_le max_bytes n le small)) ea er
                  (λ next. read_from K fuel s at max_bytes min_bytes timeout (n + length next))
                  (λ next w'' grown en' le' ea' er'.
                    read_from-ReadEnds fuel (n + length next) (bytes ++ next) _ w'' en' le'
                      (omega (arith, ltb→lt n min_bytes more)) (omega arith) ea' er')
                  (read_round K s room timeout w').0 (read_round K s room timeout w').1
                  (read_round-RoundEnds room timeout w'))
          | inr done ↦ rw (done, read_from) (bytes, omega arith, ea, er, (en, ltb→le _ _ done))
        ]
      where
        room : ℕ
        room = size_sub max_bytes n

    -- For a place and a maximum that lie within the array and a size_t: `read` puts the bytes that
    -- it took from the descriptor, in their order, into the array at that place, at most as many
    -- as the maximum, and nothing else changes in the array. It returns their number, which is the
    -- minimum asked for at least, or it throws one of its five exceptions before it has that many.
    -- It always ends.
    pub read-ReadEnds : Reads (read K s at max_bytes min_bytes timeout (array, w))
    unfolding read
    read-ReadEnds =
        read_from-ReadEnds (suc min_bytes) 0 [] array w refl (omega arith) (omega arith)
          (omega arith) (sym (blit_none at array)) (sym (append-nil _))
