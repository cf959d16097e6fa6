-- ===== src/ConditionalBufferedStream/Ending.antt =====
-- How the worker ends, by the exception that a round of it threw.
use socket_wrapper.Prelude.{
  ℕ, ◌+◌, ◌≡◌, ◌≢◌, refl, sym, ◌⊎◌, inl, inr, List, [], ◌∷◌, false, true, arith, Bool-cases, subst,
}
use socket_wrapper.Exception.{
  ExceptionType, SocketException, Exception, type_eq, socket, socket_ok, socket_termination_request,
}
use socket_wrapper.Exec.{Outcome, ok, terminated}
use socket_wrapper.Kernel.{Kernel, write_failed, wrote}
use socket_wrapper.ConditionalBufferedStream.{
  ConditionalBufferedStream, BufferEventHandler, notify, catch_worker,
}
use socket_wrapper.ConditionalBufferedStream.Delivered.{Semaphore}

pub type_eq_request :
    (t : ExceptionType)
    → type_eq t socket_termination_request ≡ true
    → t ≡ socket_termination_request
type_eq_request t h = ground arith

pub ne→type_eq_request :
    (t : ExceptionType)
    → t ≢ socket_termination_request
    → type_eq t socket_termination_request ≡ false
ne→type_eq_request t h = ground arith

pub ne→type_eq_ok : (t : ExceptionType) → t ≢ socket_ok → type_eq t socket_ok ≡ false
ne→type_eq_ok t h = ground arith

not_request :
    (t : ExceptionType)
    → type_eq t socket_termination_request ≡ false
    → t ≢ socket_termination_request
not_request t h e = cc (rw e at h)

module _ (K : Kernel) (handler : BufferEventHandler) (c : ConditionalBufferedStream)
    (w : K.World) where
  -- The catch block where the handler's semaphore works.
  abbrev pub Stops :
      (K.World → ℕ)
      → Exception
      → Outcome (Unit {0}) × (ConditionalBufferedStream × K.World)
      → Type 0
  Stops posted (socket ex) (r, (c', w')) =
      ((ex.exception_type ≡ socket_termination_request) × (r ≡ ok tt) × (c' ≡ c) × (w' ≡ w))
      ⊎ ((ex.exception_type ≢ socket_termination_request)
          × (r ≡ ok tt)
          × (c' ≡ record c { last_ex = ex.exception_type })
          × (posted w' ≡ posted w + 1))
  Stops posted e (r, st) = r ≡ terminated

  pub catch_worker_posts :
      (ex : SocketException)
      → (K.write_u64 handler.fd 1 w).0 ≡ wrote 8
      → c.buffer_event_handlers ≡ handler ∷ []
      → type_eq ex.exception_type socket_termination_request ≡ false
      → catch_worker K (socket ex) (c, w)
        ≡ (ok tt, (record c { last_ex = ex.exception_type }, (K.write_u64 handler.fd 1 w).1))
  unfolding catch_worker notify
  catch_worker_posts ex succeeds one other = rw (other, catch_worker) (rw notified refl)
    where
      notified : notify K c.buffer_event_handlers w ≡ (ok tt, (K.write_u64 handler.fd 1 w).1)
      notified =
          subst (λ handlers. notify K handlers w ≡ (ok tt, (K.write_u64 handler.fd 1 w).1))
            (sym one) (ground (arith, succeeds))

  -- The worker's catch block, with one handler whose semaphore works. On a termination request the
  -- worker ends and does nothing more: it posts no semaphore, so that a caller who waits for one is
  -- not woken. On another SocketException it ends, having recorded the type and posted the semaphore
  -- once. Any other exception terminates the process.
  pub catch_worker-Stops :
      (e : Exception) (semaphore : Semaphore K handler.fd)
      → c.buffer_event_handlers ≡ handler ∷ []
      → Stops semaphore.posted e (catch_worker K e (c, w))
  unfolding catch_worker
  catch_worker-Stops (socket ex) semaphore one =
      elim (Bool-cases (type_eq ex.exception_type socket_termination_request)) [
        | inl request ↦
            rw (request, catch_worker)
              (inl (type_eq_request ex.exception_type request, refl, refl, refl))
        | inr other ↦
            rw (catch_worker_posts ex (semaphore.succeeds w) one other)
              (inr (not_request ex.exception_type other, refl, refl, semaphore.counts w))
      ]
  catch_worker-Stops _ semaphore one = refl

  -- The catch block where the first semaphore cannot be posted.
  abbrev pub Unposted :
      Exception → Outcome (Unit {0}) × (ConditionalBufferedStream × K.World) → Type 0
  Unposted (socket ex) st =
      ((ex.exception_type ≡ socket_termination_request) × (st ≡ (ok tt, (c, w))))
      ⊎ ((ex.exception_type ≢ socket_termination_request) × (st.0 ≡ terminated))
  Unposted e st = st.0 ≡ terminated

  -- When the semaphore of the first handler cannot be posted, as after the destructor has closed
  -- the descriptors: on a termination request the worker ends in its catch block and changes nothing,
  -- and every other exception terminates the process there.
  pub catch_worker-Unposted :
      (e : Exception) (handlers : List BufferEventHandler)
      → c.buffer_event_handlers ≡ handler ∷ handlers
      → (K.write_u64 handler.fd 1 w).0 ≡ write_failed
      → Unposted e (catch_worker K e (c, w))
  unfolding catch_worker notify
  catch_worker-Unposted (socket ex) handlers some_handlers fails =
      elim (Bool-cases (type_eq ex.exception_type socket_termination_request)) [
        | inl request ↦
            rw (request, catch_worker) (inl (type_eq_request ex.exception_type request, refl))
        | inr other ↦
            rw (other, catch_worker)
              (inr (
                not_request ex.exception_type other,
                subst (λ l. (notify K l w).0 ≡ terminated) (sym some_handlers) (rw (fails, notify)),
              ))
      ]
  catch_worker-Unposted _ handlers some_handlers fails = refl
