-- ===== src/Stream/Attempts.antt =====
-- Stream::write: how often it calls the operating system.
use socket_wrapper.Prelude.{
  ℕ, zero, suc, min, ◌+◌, ◌*◌, ◌≤◌, ◌≡◌, inl, inr, List, length, drop, arith, ◌==◌, Bool-cases,
}
use socket_wrapper.Prelude.Int.{ℤ}
use socket_wrapper.Exec.{continue}
use socket_wrapper.Kernel.{Kernel, WriteResult, write_failed, wrote}
use socket_wrapper.Stream.{Stream, retry_interval_ms, check_write, retry, write_from, write}

-- The number of calls of ::write and the milliseconds that were slept.
pub record Meter (K : Kernel) : Type 0 where
  pub calls : K.World → ℕ
  pub slept : K.World → ℕ
  pub calls_write :
      (fd : ℤ) (bytes : List ℕ) (w : K.World) → calls (K.write fd bytes w).1 ≡ calls w + 1
  pub calls_sleep : (ms : ℕ) (w : K.World) → calls (K.sleep_ms ms w).1 ≡ calls w
  pub slept_write : (fd : ℤ) (bytes : List ℕ) (w : K.World) → slept (K.write fd bytes w).1 ≡ slept w
  pub slept_sleep : (ms : ℕ) (w : K.World) → slept (K.sleep_ms ms w).1 ≡ slept w + ms

module _ (K : Kernel) (meter : Meter K) (s : Stream) (buffer : List ℕ) where
  -- From `w` to `w'` there were no more calls than attempts, one if there was an attempt, and a pause for each call at most.
  abbrev pub Within : ℕ → K.World → K.World → Type 0
  Within attempts w w' =
      (calls_made : ℕ) × (calls_made ≤ attempts)
      × (min attempts 1 ≤ calls_made)
      × (meter.calls w' ≡ meter.calls w + calls_made)
      × (meter.slept w' ≤ meter.slept w + retry_interval_ms * calls_made)

  after_write :
      (attempts total : ℕ) (w w' : K.World) (r : WriteResult)
      → meter.calls w' ≡ meter.calls w + 1
      → meter.slept w' ≡ meter.slept w
      → ((m : ℕ) (v : K.World) → Within attempts v (write_from K attempts s buffer m v).1)
      → Within
          (suc attempts)
          w
          (continue
            (check_write K r w').0
            (λ n. retry K (total + n == length buffer) (write_from K attempts s buffer (total + n)))
            (check_write K r w').1).1
  unfolding check_write retry
  after_write attempts total w w' write_failed ec es next =
      (1, omega arith, omega arith, ec, omega arith)
  after_write attempts total w w' (wrote n) ec es next =
      elim (Bool-cases (total + n == length buffer)) [
        | inl done ↦ rw (done, retry) (1, omega arith, omega arith, ec, omega arith)
        | inr more ↦
            let v = (K.sleep_ms retry_interval_ms w').1 in
            let (k, le, some_calls, calls, slept) = next (total + n) v in
            rw (more, retry)
              (
                k + 1,
                omega arith,
                omega arith,
                omega (arith, meter.calls_sleep retry_interval_ms w'),
                omega (arith, meter.slept_sleep retry_interval_ms w'),
              )
      ]

  write_from-Within :
      (attempts total : ℕ) (w : K.World)
      → Within attempts w (write_from K attempts s buffer total w).1
  unfolding write_from
  write_from-Within zero total w = elim (Bool-cases (total == length buffer)) [
    | inl done ↦ rw (done, write_from) (0, omega arith, omega arith, omega arith, omega arith)
    | inr short ↦ rw (short, write_from) (0, omega arith, omega arith, omega arith, omega arith)
  ]
  write_from-Within (suc attempts) total w =
      after_write attempts total w _ _
        (meter.calls_write s.stream_file_descriptor (drop total buffer) w)
        (meter.slept_write s.stream_file_descriptor (drop total buffer) w)
        (write_from-Within attempts)

  -- `write` calls ::write at most as often as it has attempts, and sleeps 50 ms at most for each call;
  -- with an attempt it calls ::write at least once, also when there is nothing to send.
  pub write-Within :
      (attempts : ℕ) (w : K.World) → Within attempts w (write K s buffer attempts w).1
  unfolding write
  write-Within attempts w = write_from-Within attempts 0 w
