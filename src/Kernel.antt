-- ===== src/Kernel.antt =====
-- The calls of the operating system on descriptors, which are parameters of the model. A call maps
-- the state of the world, where other threads and the peers act too, to its result and the next state.
use socket_wrapper.Prelude.{ℕ, ◌≤◌, ◌≡◌, refl, ◌⊎◌, inl, inr, Bool, List, [], ◌++◌, length, take}
use socket_wrapper.Prelude.Int.{ℤ}

-- The status that poll returns, and `revents` of each entry of its array; every caller sets
-- `events` to POLLIN.
pub record PollResult : Type 0 where
  pub status : ℤ
  pub revents : ℕ → ℕ

-- A result of -1, or the bytes that were put into the buffer.
pub data ReadResult : Type 0 where
  read_failed : ReadResult
  got : List ℕ → ReadResult

-- A result of -1, or the number of bytes that were taken.
pub data WriteResult : Type 0 where
  write_failed : WriteResult
  wrote : ℕ → WriteResult

abbrev pub bytes_of : ReadResult → List ℕ
bytes_of read_failed = []
bytes_of (got bytes) = bytes

abbrev pub count_of : WriteResult → ℕ
count_of write_failed = 0
count_of (wrote n) = n

pub record Kernel : Type 1 where
  pub World : Type 0
  pub errno : World → ℤ
  pub poll : List ℤ → ℤ → World → PollResult × World
  -- `revents & POLLIN`
  pub pollin : ℕ → Bool
  pub read : ℤ → ℕ → World → ReadResult × World
  pub write : ℤ → List ℕ → World → WriteResult × World
  pub close : ℤ → World → ℤ × World
  pub sleep_ms : ℕ → World → Unit {0} × World
  -- `eventfd(0, EFD_SEMAPHORE)`, and write and read with a uint64_t as the buffer
  pub eventfd : World → ℤ × World
  pub write_u64 : ℤ → ℕ → World → WriteResult × World
  pub read_u64 : ℤ → World → Unit {0} × World

-- POSIX: read and write transfer no more than they were asked to.
pub record IsBounded (K : Kernel) : Type 0 where
  pub read_bounded : (fd : ℤ) (n : ℕ) (w : K.World) → length (bytes_of (K.read fd n w).0) ≤ n
  pub write_bounded :
      (fd : ℤ) (bytes : List ℕ) (w : K.World) → count_of (K.write fd bytes w).0 ≤ length bytes

-- The bytes that read has handed over on a descriptor so far: only a read on it adds to them.
pub record History (K : Kernel) : Type 0 where
  pub received : ℤ → K.World → List ℕ
  pub received_read :
      (fd : ℤ) (n : ℕ) (w : K.World)
      → received fd (K.read fd n w).1 ≡ received fd w ++ bytes_of (K.read fd n w).0
  pub received_poll :
      (fd : ℤ) (fds : List ℤ) (timeout : ℤ) (w : K.World)
      → received fd (K.poll fds timeout w).1 ≡ received fd w
  pub received_write_u64 :
      (fd g : ℤ) (v : ℕ) (w : K.World) → received fd (K.write_u64 g v w).1 ≡ received fd w

-- The bytes that write has taken on a descriptor so far: a write on it adds those that it counts.
pub record Sent (K : Kernel) : Type 0 where
  pub sent : ℤ → K.World → List ℕ
  pub sent_write :
      (fd : ℤ) (bytes : List ℕ) (w : K.World)
      → sent fd (K.write fd bytes w).1 ≡ sent fd w ++ take (count_of (K.write fd bytes w).0) bytes
  pub sent_sleep : (fd : ℤ) (ms : ℕ) (w : K.World) → sent fd (K.sleep_ms ms w).1 ≡ sent fd w

pub WriteResult-cases : (r : WriteResult) → (r ≡ write_failed) ⊎ ((n : ℕ) × (r ≡ wrote n))
WriteResult-cases write_failed = inl refl
WriteResult-cases (wrote n) = inr (n, refl)
