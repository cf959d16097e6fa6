-- ===== src/ConditionalBufferedStream/Blocking.antt =====
-- readBlocking.
use socket_wrapper.Prelude.{
  ℕ, ◌≡◌, ◌≢◌, ◌⊎◌, refl, inl, inr, true, false, List, [], ◌∷◌, Option, none, some, Bool-cases,
}
use socket_wrapper.Prelude.Int.{ℤ, pos, int_eq, int_eq→eq, int_eq→ne}
use socket_wrapper.Exception.{
  ExceptionType, SocketException, socket, socket_poll, socket_read_timeout,
  socket_termination_request, socket_invalid_condition,
}
use socket_wrapper.Exec.{Outcome, ok, throws}
use socket_wrapper.Kernel.{Kernel, PollResult}
use socket_wrapper.ConditionalBufferedStream.{ConditionalBufferedStream}
use socket_wrapper.ConditionalBufferedStream.Calls.{read, read_blocking}
use socket_wrapper.ConditionalBufferedStream.Reads.{
  Left, read_some, read_none, read_missing, drained, default_exception,
}

module _ (K : Kernel) (fd timeout : ℤ) (c : ConditionalBufferedStream) (w : K.World) where
  -- What is left of the object and the world.
  abbrev State : Type 0
  State = ConditionalBufferedStream × K.World

  -- What the read takes from the queue, if the condition has one, in the world `v`.
  abbrev pub TakesEnds : Option (List (List ℕ)) → K.World → Outcome (List ℕ) × State → Type 0
  TakesEnds none v st = st ≡ (throws (default_exception socket_invalid_condition), (c, v))
  TakesEnds (some []) v st = st ≡ (throws (drained K c.last_ex), (c, v))
  TakesEnds (some (segment ∷ rest)) v st =
      (c' : ConditionalBufferedStream) × (st ≡ (ok segment, (c', v))) × Left K fd rest c c'

  -- It threw this and nothing changed after poll.
  abbrev pub Refuses : ExceptionType → Outcome (List ℕ) × State → Type 0
  Refuses t st =
      (ex : SocketException) × (ex.exception_type ≡ t)
      × (st ≡ (throws (socket ex), (c, (K.poll (fd ∷ []) timeout w).1)))

  -- How `readBlocking` ends, by what poll answered.
  abbrev pub BlockingEnds : Outcome (List ℕ) × State → Type 0
  BlockingEnds st =
      let polled = K.poll (fd ∷ []) timeout w in
      ((polled.0.status ≡ pos 0)
        × (((c.termination_requested ≡ true) × Refuses socket_termination_request st)
            ⊎ ((c.termination_requested ≡ false) × Refuses socket_poll st)))
      ⊎ ((polled.0.status ≢ pos 0)
          × (((K.pollin (polled.0.revents 0) ≡ false) × Refuses socket_read_timeout st)
              ⊎ ((K.pollin (polled.0.revents 0) ≡ true)
                  × TakesEnds (c.received_data_per_condition fd) (K.read_u64 fd polled.1).1 st)))

  takes-TakesEnds :
      (queued : Option (List (List ℕ))) (v : K.World)
      → c.received_data_per_condition fd ≡ queued
      → TakesEnds queued v (read K fd (c, v))
  takes-TakesEnds none v e = read_missing K fd c v e
  takes-TakesEnds (some []) v e = read_none K fd c v e
  takes-TakesEnds (some (segment ∷ rest)) v e = read_some K fd segment rest c v e

  -- `readBlocking`, whatever is queued. When poll reports a timeout, it takes nothing and throws
  -- SOCKET_TERMINATION_REQUEST if stopReads was called and SOCKET_POLL if not; when poll does
  -- not and sets no POLLIN, as when it fails, it takes nothing and throws SOCKET_READ_TIMEOUT. Otherwise it reads the
  -- semaphore once and then the queue: it takes the first segment and leaves the rest; with an empty
  -- queue it throws out_of_range if last_ex is SOCKET_OK and an exception of the type last_ex if not,
  -- and without a queue SOCKET_INVALID_CONDITION.
  pub read_blocking-BlockingEnds : BlockingEnds (read_blocking K fd timeout (c, w))
  unfolding read_blocking
  read_blocking-BlockingEnds = elim (Bool-cases (int_eq polled.0.status (pos 0))) [
    | inl late ↦ elim (Bool-cases c.termination_requested) [
      | inl stopped ↦
          rw (late, stopped, read_blocking) (inl (int_eq→eq _ _ late, inl (refl, (_, refl, refl))))
      | inr going ↦
          rw (late, going, read_blocking) (inl (int_eq→eq _ _ late, inr (refl, (_, refl, refl))))
    ]
    | inr answered ↦ elim (Bool-cases (K.pollin (polled.0.revents 0))) [
      | inr idle ↦
          rw (answered, idle, read_blocking)
            (inr (int_eq→ne _ _ answered, inl (refl, (_, refl, refl))))
      | inl ready ↦
          rw (answered, ready, read_blocking)
            (inr (
              int_eq→ne _ _ answered,
              inr (refl, takes-TakesEnds (c.received_data_per_condition fd) _ refl),
            ))
    ]
  ]
    where
      polled : PollResult × K.World
      polled = K.poll (fd ∷ []) timeout w
