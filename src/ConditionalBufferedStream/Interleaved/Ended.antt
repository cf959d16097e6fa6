-- ===== src/ConditionalBufferedStream/Interleaved/Ended.antt =====
-- The worker's thread, from its start to its end, against its small steps.
use socket_wrapper.Prelude.{
  ℕ, zero, suc, ◌^◌, ◌<◌, ◌≡◌, refl, sym, ap, ◌∙◌, inl, inr, Bool-cases, List, [], ◌∷◌, arith,
  subst,
}
use socket_wrapper.Prelude.Int.{minus_one}
use socket_wrapper.Exception.{Exception, socket, type_eq, socket_termination_request}
use socket_wrapper.Exec.{Outcome, ok, throws, terminated, out_of_fuel}
use socket_wrapper.Kernel.{Kernel, IsBounded, History}
use socket_wrapper.BufferedStream.{BufferedStream, read_available}
use socket_wrapper.BufferedStream.Contents.{IsValid}
use socket_wrapper.BufferedStream.Fill.{FillEnds, read_available-FillEnds}
use socket_wrapper.ConditionalBufferedStream.{
  ConditionalBufferedStream, BufferEventHandler, delimiter_condition, post, worker_round,
  catch_worker, after_round, conditional_buffer_worker,
}
use socket_wrapper.ConditionalBufferedStream.Delivered.{Semaphore}
use socket_wrapper.ConditionalBufferedStream.Worker.{worker_round_reads}
use socket_wrapper.ConditionalBufferedStream.Ending.{catch_worker_posts}
use socket_wrapper.ConditionalBufferedStream.Interleaved.{
  reading, stopped, System, WorkerSteps, here, next, fails, notifies, ends,
}
use socket_wrapper.ConditionalBufferedStream.Interleaved.Sequential.{
  system, WorkerSteps-trans, worker_round-WorkerSteps,
}

module _ (K : Kernel) (bounded : IsBounded K) (history : History K) (handler : BufferEventHandler)
    (semaphore : Semaphore K handler.fd) (d : ℕ)
    (splits : handler.condition ≡ delimiter_condition d) (taken : List (List ℕ)) where
  abbrev State : Type 0
  State = ConditionalBufferedStream × K.World

  abbrev at_rest : ConditionalBufferedStream → K.World → System K
  at_rest c w = system K handler taken c w reading

  -- If it returns, the steps of the worker alone lead to its end.
  abbrev Ends : System K → Outcome (Unit {0}) × State → Type 0
  Ends s st = st.0 ≡ ok tt → WorkerSteps K handler s (system K handler taken st.1.0 st.1.1 stopped)

  catch_worker-Ends :
      (c : ConditionalBufferedStream) (w w' : K.World) (stream : BufferedStream) (x : Exception)
      → c.buffer_event_handlers ≡ handler ∷ []
      → read_available K minus_one (c.stream, w) ≡ (throws x, (stream, w'))
      → Ends (at_rest c w) (catch_worker K x (record c { stream = stream }, w'))
  unfolding catch_worker post
  catch_worker-Ends c w w' stream (socket ex) one e =
      elim (Bool-cases (type_eq ex.exception_type socket_termination_request)) [
        | inl asked ↦
            rw (asked, catch_worker) (λ h. next here (ends ex stream w' refl e asked refl))
        | inr other_type ↦
            rw
              (catch_worker_posts K handler (record c { stream = stream }) w' ex
                (semaphore.succeeds w') one other_type)
              (λ h. next (next here (fails ex stream w' refl e other_type refl)) (
                notifies (K.write_u64 handler.fd 1 w').1 refl
                  (rw (semaphore.succeeds w', post) refl) refl))
      ]
  catch_worker-Ends c w w' stream _ one e = λ h. cc h

  module _ (rounds : ℕ)
      (later : (c : ConditionalBufferedStream) (w : K.World)
        → IsValid c.stream
        → c.buffer_event_handlers ≡ handler ∷ []
        → c.stream.stream_buffer_size < 2 ^ 31
        → Ends (at_rest c w) (conditional_buffer_worker K rounds (c, w)))
      (c : ConditionalBufferedStream) (w : K.World) (v : IsValid c.stream)
      (one : c.buffer_event_handlers ≡ handler ∷ [])
      (small : c.stream.stream_buffer_size < 2 ^ 31) where
    after_read-Ends :
        (r : Outcome ℕ) (stream : BufferedStream) (w' : K.World)
        → read_available K minus_one (c.stream, w) ≡ (r, (stream, w'))
        → FillEnds K bounded history c.stream w (r, (stream, w'))
        → Ends (at_rest c w) (conditional_buffer_worker K (suc rounds) (c, w))
    unfolding conditional_buffer_worker after_round worker_round
    after_read-Ends (ok n) stream w' e fill =
        let st = worker_round K (c, w) in
        let (_, _, returned, _, (_, f)) =
          worker_round_reads K bounded history handler semaphore d splits c w n stream w' v one
            small e in
        subst (λ r. Ends (at_rest c w) (after_round K (conditional_buffer_worker K rounds) r st.1))
          (sym returned)
          (λ h.
            WorkerSteps-trans
              (worker_round-WorkerSteps K handler taken c st.1.0 w st.1.1 one
                (ap (λ r. (r, st.1)) returned))
              (later st.1.0 st.1.1 f.valid (f.handlers ∙ one) (omega (arith, f.same.1, small)) h))
    after_read-Ends (throws x) stream w' e fill =
        rw (e, conditional_buffer_worker, worker_round, after_round)
          (catch_worker-Ends c w w' stream x one e)
    after_read-Ends terminated stream w' e fill = elim fill [ ]
    after_read-Ends out_of_fuel stream w' e fill = elim fill [ ]

  worker-Ends :
      (rounds : ℕ) (c : ConditionalBufferedStream) (w : K.World)
      → IsValid c.stream
      → c.buffer_event_handlers ≡ handler ∷ []
      → c.stream.stream_buffer_size < 2 ^ 31
      → Ends (at_rest c w) (conditional_buffer_worker K rounds (c, w))
  unfolding conditional_buffer_worker
  worker-Ends zero c w v one small = λ h. cc h
  worker-Ends (suc rounds) c w v one small =
      after_read-Ends rounds (worker-Ends rounds) c w v one small _ _ _ refl
        (read_available-FillEnds K bounded history minus_one c.stream w v)

  -- With one handler, for a delimiter and with a semaphore that works, and a valid buffer smaller than
  -- 2 GiB: a run of `ConditionalBufferWorker` that returns, whatever ended it, is a sequence of the
  -- small steps. It leads from the place before the first read to the end of the thread, with the
  -- object and the world that the function gives.
  pub conditional_buffer_worker-WorkerSteps :
      (rounds : ℕ) (c c' : ConditionalBufferedStream) (w w' : K.World)
      → IsValid c.stream
      → c.buffer_event_handlers ≡ handler ∷ []
      → c.stream.stream_buffer_size < 2 ^ 31
      → conditional_buffer_worker K rounds (c, w) ≡ (ok tt, (c', w'))
      → WorkerSteps K handler
          (system K handler taken c w reading)
          (system K handler taken c' w' stopped)
  conditional_buffer_worker-WorkerSteps rounds c c' w w' v one small e =
      subst
        (λ (st : State).
          WorkerSteps K handler (at_rest c w) (system K handler taken st.0 st.1 stopped))
        (ap (λ (st : Outcome (Unit {0}) × State). st.1) e)
        (worker-Ends rounds c w v one small (ap (λ (st : Outcome (Unit {0}) × State). st.0) e))
