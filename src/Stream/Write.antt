-- ===== src/Stream/Write.antt =====
-- Stream::write: what has been sent when it ends.
use socket_wrapper.Prelude.{
  ℕ, zero, suc, ◌+◌, ◌≤◌, ◌<◌, ◌≡◌, ◌≢◌, subst, refl, sym, ap, ◌∙◌, ◌⊎◌, inl, inr, Bool, true,
  false, List, ◌++◌, arith, length, take, drop, length-drop, take-add, take_all, append-nil,
  append_assoc, ◌==◌, Bool-cases,
}
use socket_wrapper.Prelude.Int.{pos, minus_one}
use socket_wrapper.Exception.{Exception, socket, socket_write, socket_write_partial}
use socket_wrapper.Exec.{Outcome, ok, throws, terminated, out_of_fuel, Exec}
use socket_wrapper.Kernel.{
  Kernel, IsBounded, Sent, WriteResult, write_failed, wrote, count_of, WriteResult-cases,
}
use socket_wrapper.Stream.{Stream, retry, write_from, write, retry_interval_ms}

module _ (K : Kernel) (bounded : IsBounded K) (log : Sent K) (s : Stream) where
  abbrev sent : K.World → List ℕ
  sent = log.sent s.stream_file_descriptor

  -- So many calls of ::write have been made, they have sent so many bytes of the buffer, which was not
  -- all of it, and each was followed by a pause.
  pub data Tried (buffer : List ℕ) (w : K.World) : ℕ → ℕ → K.World → Type 0 where
    start : Tried buffer w 0 0 w
    more :
        (k n m : ℕ) (v v' : K.World)
        → Tried buffer w k n v
        → K.write s.stream_file_descriptor (drop n buffer) v ≡ (wrote m, v')
        → n + m ≢ length buffer
        → Tried buffer w (suc k) (n + m) (K.sleep_ms retry_interval_ms v').1

  -- Why `write` threw once `n` bytes had been sent: a call of ::write failed, or the attempts are used
  -- up.
  abbrev pub IsWriteError : ℕ → List ℕ → K.World → ℕ → K.World → Exception → Type 0
  IsWriteError attempts buffer w n w' (socket e) =
      ((e.exception_type ≡ socket_write)
        × (e.processed_bytes ≡ minus_one)
        × ((k : ℕ) × (v : K.World) × (k < attempts)
            × Tried buffer w k n v
            × (K.write s.stream_file_descriptor (drop n buffer) v ≡ (write_failed, w'))))
      ⊎ ((e.exception_type ≡ socket_write_partial)
          × (e.processed_bytes ≡ pos n)
          × (n < length buffer)
          × Tried buffer w attempts n w')
  IsWriteError attempts buffer w n w' _ = ⊥

  -- How `write` ends that began in the world `w`.
  abbrev pub WriteEnds : ℕ → List ℕ → K.World → Outcome (Unit {0}) × K.World → Type 0
  WriteEnds attempts buffer w (ok _, w') = sent w' ≡ sent w ++ buffer
  WriteEnds attempts buffer w (throws e, w') =
      (n : ℕ) × (n ≤ length buffer)
      × (sent w' ≡ sent w ++ take n buffer)
      × IsWriteError attempts buffer w n w' e
  WriteEnds attempts buffer w (terminated, w') = ⊥
  WriteEnds attempts buffer w (out_of_fuel, w') = ⊥

  module _ (all : ℕ) (buffer : List ℕ) (w : K.World) where
    retry-WriteEnds :
        (b : Bool) (next : Exec K.World (Unit {0})) (w' : K.World)
        → (b ≡ true → sent w' ≡ sent w ++ buffer)
        → (b ≡ false → WriteEnds all buffer w (next (K.sleep_ms retry_interval_ms w').1))
        → WriteEnds all buffer w (retry K b next w')
    unfolding retry
    retry-WriteEnds true next w' done again = done refl
    retry-WriteEnds false next w' done again = again refl

    write_from-WriteEnds :
        (attempts used total : ℕ) (w' : K.World)
        → used + attempts ≡ all
        → Tried buffer w used total w'
        → total ≤ length buffer
        → sent w' ≡ sent w ++ take total buffer
        → WriteEnds all buffer w (write_from K attempts s buffer total w')
    unfolding write_from
    write_from-WriteEnds zero used total w' au tried le e =
        elim (Bool-cases (total == length buffer)) [
          | inl done ↦ rw done (e ∙ ap (λ l. sent w ++ l) (take_all total buffer (ground arith)))
          | inr unfinished ↦ rw unfinished (
            total,
            le,
            e,
            inr (
              refl,
              refl,
              ground arith,
              subst (λ k. Tried buffer w k total w') (omega (arith, au)) tried,
            ),
          )
        ]
    write_from-WriteEnds (suc attempts) used total w' au tried le e =
        let fd = s.stream_file_descriptor in
        let r = K.write fd (drop total buffer) w' in
        elim (WriteResult-cases r.0) [
          | inl fails ↦
              rw (fails, write_from)
                (
                  total,
                  le,
                  log.sent_write fd (drop total buffer) w' ∙ nothing r.0 fails ∙ e,
                  inl (refl, refl, (used, w', omega (arith, au), tried, ap (λ x. (x, r.1)) fails)),
                )
          | inr (n, took) ↦
              rw (took, write_from)
                (retry-WriteEnds (total + n == length buffer) _ r.1
                  (λ done.
                    grown n took
                    ∙ ap (λ l. sent w ++ l) (take_all (total + n) buffer (ground arith)))
                  (λ unfinished.
                    write_from-WriteEnds attempts (suc used) (total + n)
                      (K.sleep_ms retry_interval_ms r.1).1 (omega (arith, au))
                      (more used total n w' r.1 tried (ap (λ x. (x, r.1)) took)
                        (λ done. ground (arith, unfinished, done)))
                      (within n took) (log.sent_sleep fd retry_interval_ms r.1 ∙ grown n took)))
        ]
      where
        nothing :
            (r : WriteResult)
            → r ≡ write_failed
            → sent w' ++ take (count_of r) (drop total buffer) ≡ sent w'
        nothing r fails = rw fails (append-nil _)

        within :
            (n : ℕ)
            → (K.write s.stream_file_descriptor (drop total buffer) w').0 ≡ wrote n
            → total + n ≤ length buffer
        within n took = omega (
          arith,
          length-drop total buffer,
          bounded.write_bounded s.stream_file_descriptor (drop total buffer) w',
          ap count_of took,
        )

        grown :
            (n : ℕ)
            → (K.write s.stream_file_descriptor (drop total buffer) w').0 ≡ wrote n
            → sent (K.write s.stream_file_descriptor (drop total buffer) w').1
              ≡ sent w ++ take (total + n) buffer
        grown n took =
            log.sent_write _ (drop total buffer) w'
            ∙ rw (took, e, append_assoc)
                (ap (λ l. sent w ++ l) (take-add total n (total + n) buffer refl))

    -- Of what `write` was given it sends a beginning, in order, and it returns when everything is sent.
    -- When it throws SOCKET_WRITE, the last of its calls of ::write, which are no more than its attempts,
    -- has failed. When it throws SOCKET_WRITE_PARTIAL, it has made as many calls as it has attempts,
    -- none of which failed, and the exception tells how many bytes they sent, which are fewer than it
    -- was given. It throws nothing else.
    pub write-WriteEnds : WriteEnds all buffer w (write K s buffer all w)
    unfolding write
    write-WriteEnds =
        write_from-WriteEnds all 0 0 w (omega arith) start (omega arith) (sym (append-nil _))
