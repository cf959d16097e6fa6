-- ===== src/Stream/Keeps.antt =====
-- What poll and read leave alone, reading from a stream leaves alone; so too with writing.
use socket_wrapper.Prelude.{
  Bool, true, false, drop, ◌==◌, ℕ, zero, suc, ◌+◌, ◌≡◌, refl, ◌∙◌, inl, inr, List, [], ◌∷◌, arith,
  length, ltb, Bool-cases,
}
use socket_wrapper.Prelude.Int.{ℤ}
use socket_wrapper.Prelude.Size.{size_sub}
use socket_wrapper.Exec.{Exec, Outcome, ok, throws, terminated, out_of_fuel, continue}
use socket_wrapper.Kernel.{Kernel, ReadResult, read_failed, got, WriteResult, write_failed, wrote}
use socket_wrapper.Stream.{
  Stream, check_read, read_round, read_from, read, retry_interval_ms, check_write, retry,
  write_from, write,
}

module _ (K : Kernel) {A : Type 0} (f : K.World → A)
    (keep_poll : (fds : List ℤ) (timeout : ℤ) (w : K.World) → f (K.poll fds timeout w).1 ≡ f w)
    (keep_read : (fd : ℤ) (n : ℕ) (w : K.World) → f (K.read fd n w).1 ≡ f w) where
  check_read_keeps : (r : ReadResult) (w : K.World) → f (check_read K r w).1 ≡ f w
  unfolding check_read
  check_read_keeps read_failed w = refl
  check_read_keeps (got []) w = refl
  check_read_keeps (got (b ∷ bytes)) w = refl

  read_round_keeps :
      (s : Stream) (room : ℕ) (timeout : ℤ) (w : K.World)
      → f (read_round K s room timeout w).1 ≡ f w
  unfolding read_round
  read_round_keeps s room timeout w =
      let fds = s.stream_file_descriptor ∷ s.stop_all_operations_event_fd ∷ [] in
      let w' = (K.poll fds timeout w).1 in
      let r = K.read s.stream_file_descriptor room w' in
      ground (
        arith,
        keep_poll fds timeout w,
        keep_read s.stream_file_descriptor room w',
        check_read_keeps r.0 r.1,
      )

  after_round :
      (w : K.World) (next : List ℕ → List ℕ × K.World → Outcome ℕ × (List ℕ × K.World))
      → ((bytes array : List ℕ) (w' : K.World) → f w' ≡ f w → f (next bytes (array, w')).1.1 ≡ f w)
      → (r : Outcome (List ℕ)) (array : List ℕ) (w' : K.World) → f w' ≡ f w
      → f (continue r next (array, w')).1.1 ≡ f w
  after_round w next k (ok bytes) array w' e = k bytes array w' e
  after_round w next k (throws x) array w' e = e
  after_round w next k terminated array w' e = e
  after_round w next k out_of_fuel array w' e = e

  read_from_keeps :
      (fuel : ℕ) (s : Stream) (at max_bytes min_bytes : ℕ) (timeout : ℤ) (n : ℕ) (array : List ℕ)
      (w : K.World)
      → f (read_from K fuel s at max_bytes min_bytes timeout n (array, w)).1.1 ≡ f w
  unfolding read_from
  read_from_keeps zero s at max_bytes min_bytes timeout n array w = refl
  read_from_keeps (suc fuel) s at max_bytes min_bytes timeout n array w =
      elim (Bool-cases (ltb n min_bytes)) [
        | inl more ↦
            rw (more, read_from)
              (after_round w _
                (λ bytes array' w' e.
                  read_from_keeps fuel s at max_bytes min_bytes timeout (n + length bytes) _ w' ∙ e)
                (read_round K s (size_sub max_bytes n) timeout w).0 array _
                (read_round_keeps s (size_sub max_bytes n) timeout w))
        | inr done ↦ rw (done, read_from)
      ]

  pub read_keeps :
      (s : Stream) (at max_bytes min_bytes : ℕ) (timeout : ℤ) (array : List ℕ) (w : K.World)
      → f (read K s at max_bytes min_bytes timeout (array, w)).1.1 ≡ f w
  unfolding read
  read_keeps s at max_bytes min_bytes timeout array w =
      read_from_keeps (suc min_bytes) s at max_bytes min_bytes timeout 0 array w

module _ (K : Kernel) {A : Type 0} (f : K.World → A) (s : Stream) (buffer : List ℕ)
    (keep_write : (bytes : List ℕ) (w : K.World)
      → f (K.write s.stream_file_descriptor bytes w).1 ≡ f w)
    (keep_sleep : (ms : ℕ) (w : K.World) → f (K.sleep_ms ms w).1 ≡ f w) where
  retry_keeps :
      (done : Bool) (next : Exec K.World (Unit {0})) (w : K.World)
      → ((v : K.World) → f (next v).1 ≡ f v)
      → f (retry K done next w).1 ≡ f w
  unfolding retry
  retry_keeps true next w k = refl
  retry_keeps false next w k = k (K.sleep_ms retry_interval_ms w).1 ∙ keep_sleep retry_interval_ms w

  after_write :
      (r : WriteResult) (total : ℕ) (w : K.World) (next : ℕ → Exec K.World (Unit {0}))
      → ((n : ℕ) (v : K.World) → f (next n v).1 ≡ f v)
      → let checked = check_write K r w in f (continue checked.0 next checked.1).1 ≡ f w
  unfolding check_write
  after_write write_failed total w next k = refl
  after_write (wrote n) total w next k = k n w

  write_from_keeps :
      (attempts total : ℕ) (w : K.World) → f (write_from K attempts s buffer total w).1 ≡ f w
  unfolding write_from
  write_from_keeps zero total w = elim (Bool-cases (total == length buffer)) [
    | inl done ↦ rw (done, write_from)
    | inr more ↦ rw (more, write_from)
  ]
  write_from_keeps (suc attempts) total w =
      let r = K.write s.stream_file_descriptor (drop total buffer) w in
      after_write r.0 total r.1 _ (λ n v.
        retry_keeps (total + n == length buffer) _ v (write_from_keeps attempts (total + n)))
      ∙ keep_write (drop total buffer) w

  pub write_keeps : (attempts : ℕ) (w : K.World) → f (write K s buffer attempts w).1 ≡ f w
  unfolding write
  write_keeps attempts w = write_from_keeps attempts 0 w
