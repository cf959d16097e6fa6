-- ===== src/ConditionalBufferedStream/Interleaved/Sequential.antt =====
-- The worker's functions against its small steps, when nothing comes between these.
use socket_wrapper.Prelude.{
  ℕ, zero, suc, ◌<◌, ◌≤◌, ◌≡◌, refl, sym, ap, ◌==◌, inl, inr, List, [], ◌∷◌, arith, length, drop,
  true, false, Bool-cases, ltb, ltb→le, subst,
}
use socket_wrapper.Prelude.Int.{ℤ, pos, negsuc, minus_one, nat_abs, is_positive}
use socket_wrapper.Exec.{Outcome, ok, throws, terminated, out_of_fuel, continue, ◌>>◌}
use socket_wrapper.Kernel.{Kernel}
use socket_wrapper.BufferedStream.{BufferedStream, read_available, pop_from_buffer}
use socket_wrapper.BufferedStream.Contents.{contents}
use socket_wrapper.ConditionalBufferedStream.{
  ConditionalBufferedStream, BufferEventHandler, push_back, post, deliver, handle, handle_all,
  process_from, process_data_send_signals, worker_round,
}
use socket_wrapper.ConditionalBufferedStream.Interleaved.{
  Place, reading, cutting, posting, System, fills, cuts, posts, discards, rests, WorkerSteps, here,
  next,
}

some_bytes_wanted : (n : ℕ) → (suc n == 0) ≡ false
some_bytes_wanted n = ground arith

is_positive_pos : (n : ℕ) → is_positive (pos (suc n)) ≡ true
is_positive_pos n = ground arith

pub WorkerSteps-trans :
    {K : Kernel} {handler : BufferEventHandler} {s t u : System K}
    → WorkerSteps K handler s t
    → WorkerSteps K handler t u
    → WorkerSteps K handler s u
WorkerSteps-trans r here = r
WorkerSteps-trans r (next q step) = next (WorkerSteps-trans r q) step

module _ (K : Kernel) (handler : BufferEventHandler) (taken : List (List ℕ)) where
  abbrev Result : Type 0
  Result = Outcome (Unit {0}) × (ConditionalBufferedStream × K.World)

  abbrev pub system : ConditionalBufferedStream → K.World → Place → System K
  system c w place = record { object = c; world = w; place = place; taken = taken }

  -- From this place the steps of the worker alone lead to the end of `processDataSendSignals`.
  abbrev Leads : ConditionalBufferedStream → K.World → Place → Result → Type 0
  Leads c w place st =
      st.0 ≡ ok tt → WorkerSteps K handler (system c w place) (system st.1.0 st.1.1 reading)

  module _ (again : List ℕ → ConditionalBufferedStream × K.World → Result)
      (again-Leads : (bytes : List ℕ) (c : ConditionalBufferedStream) (w : K.World)
        → c.buffer_event_handlers ≡ handler ∷ []
        → Leads c w (cutting bytes) (again bytes (c, w))) where
    after_post :
        (bytes : List ℕ) (c : ConditionalBufferedStream) (w w' : K.World) (r : Outcome (Unit {0}))
        → c.buffer_event_handlers ≡ handler ∷ []
        → post K handler.fd w ≡ (r, w')
        → Leads c w (posting bytes) (continue r (λ _. again bytes) (c, w'))
    after_post bytes c w w' (ok _) one e h =
        WorkerSteps-trans (next here (posts bytes w' refl e refl)) (again-Leads bytes c w' one h)
    after_post bytes c w w' (throws x) one e h = cc h
    after_post bytes c w w' terminated one e h = cc h
    after_post bytes c w w' out_of_fuel one e h = cc h

    after_cut :
        (bytes : List ℕ) (n : ℕ) (c : ConditionalBufferedStream) (w w' : K.World)
        (stream : BufferedStream) (r : Outcome (List ℕ))
        → c.buffer_event_handlers ≡ handler ∷ []
        → handler.condition bytes ≡ pos n
        → 0 < n
        → n ≤ length bytes
        → pop_from_buffer K n (c.stream, w) ≡ (r, (stream, w'))
        → Leads c w (cutting bytes) (
            continue r
              (λ segment. deliver K true handler.fd segment >> again (drop n bytes))
              (record c { stream = stream }, w'))
    unfolding deliver
    after_cut bytes n c w w' stream (ok segment) one answer some_bytes le e h =
        let c' = (push_back K handler.fd segment (record c { stream = stream }, w')).1.0 in
        WorkerSteps-trans
          (next here (cuts bytes segment n stream w' refl answer some_bytes le e refl))
          (after_post (drop n bytes) c' w' (post K handler.fd w').1 (post K handler.fd w').0 one
            refl h)
    after_cut bytes n c w w' stream (throws x) one answer some_bytes le e h = cc h
    after_cut bytes n c w w' stream terminated one answer some_bytes le e h = cc h
    after_cut bytes n c w w' stream out_of_fuel one answer some_bytes le e h = cc h

    after_discard :
        (bytes : List ℕ) (n : ℕ) (c : ConditionalBufferedStream) (w w' : K.World)
        (stream : BufferedStream) (r : Outcome (List ℕ))
        → c.buffer_event_handlers ≡ handler ∷ []
        → handler.condition bytes ≡ negsuc n
        → n < length bytes
        → pop_from_buffer K (suc n) (c.stream, w) ≡ (r, (stream, w'))
        → Leads c w (cutting bytes) (
            continue r
              (λ segment. deliver K false handler.fd segment >> again (drop (suc n) bytes))
              (record c { stream = stream }, w'))
    unfolding deliver
    after_discard bytes n c w w' stream (ok segment) one answer lt e h =
        WorkerSteps-trans (next here (discards bytes segment n stream w' refl answer lt e refl))
          (again-Leads (drop (suc n) bytes) (record c { stream = stream }) w' one h)
    after_discard bytes n c w w' stream (throws x) one answer lt e h = cc h
    after_discard bytes n c w w' stream terminated one answer lt e h = cc h
    after_discard bytes n c w w' stream out_of_fuel one answer lt e h = cc h

    handle-Leads :
        (bytes : List ℕ) (answer : ℤ) (c : ConditionalBufferedStream) (w : K.World)
        → c.buffer_event_handlers ≡ handler ∷ []
        → handler.condition bytes ≡ answer
        → ltb (length bytes) (nat_abs answer) ≡ false
        → Leads c w (cutting bytes) (handle K again handler bytes (c, w))
    unfolding handle
    handle-Leads bytes (pos zero) c w one e le =
        rw (e, le, handle) (λ h. next here (rests bytes refl (inr e) refl))
    handle-Leads bytes (pos (suc n)) c w one e le =
        let popped = pop_from_buffer K (suc n) (c.stream, w) in
        rw (e, le, some_bytes_wanted n, is_positive_pos n, handle)
          (after_cut bytes (suc n) c w popped.1.1 popped.1.0 popped.0 one e (omega arith)
            (ltb→le _ _ le) refl)
    handle-Leads bytes (negsuc n) c w one e le =
        let popped = pop_from_buffer K (suc n) (c.stream, w) in
        rw (e, le, some_bytes_wanted n, handle)
          (after_discard bytes n c w popped.1.1 popped.1.0 popped.0 one e
            (omega (arith, ltb→le _ _ le)) refl)

    handled :
        (bytes : List ℕ) (c : ConditionalBufferedStream) (w : K.World)
        → c.buffer_event_handlers ≡ handler ∷ []
        → Leads c w (cutting bytes) (handle K again handler bytes (c, w))
    unfolding handle
    handled bytes c w one =
        elim (Bool-cases (ltb (length bytes) (nat_abs (handler.condition bytes)))) [
          | inl too_much ↦ rw (too_much, handle) (λ h. cc h)
          | inr le ↦ handle-Leads bytes (handler.condition bytes) c w one refl le
        ]

    after_handle :
        (c : ConditionalBufferedStream) (w : K.World) (place : Place) (r : Outcome (Unit {0}))
        (st : ConditionalBufferedStream × K.World)
        → Leads c w place (r, st)
        → Leads c w place (continue r (λ _ x. (ok tt, x)) st)
    after_handle c w place (ok _) st leads h = leads refl
    after_handle c w place (throws x) st leads h = cc h
    after_handle c w place terminated st leads h = cc h
    after_handle c w place out_of_fuel st leads h = cc h

    handle_all-Leads :
        (bytes : List ℕ) (c : ConditionalBufferedStream) (w : K.World)
        → c.buffer_event_handlers ≡ handler ∷ []
        → Leads c w (cutting bytes) (handle_all K again (handler ∷ []) bytes (c, w))
    unfolding handle_all
    handle_all-Leads bytes c w one = after_handle c w (cutting bytes) _ _ (handled bytes c w one)

  process_from-Leads :
      (fuel : ℕ) (bytes : List ℕ) (c : ConditionalBufferedStream) (w : K.World)
      → c.buffer_event_handlers ≡ handler ∷ []
      → Leads c w (cutting bytes) (process_from K fuel bytes (c, w))
  unfolding process_from
  process_from-Leads zero bytes c w one h = cc h
  process_from-Leads (suc fuel) [] c w one h = next here (rests [] refl (inl refl) refl)
  process_from-Leads (suc fuel) (byte ∷ bytes) c w one h =
      subst
        (λ handlers.
          Leads c w (cutting (byte ∷ bytes))
            (handle_all K (process_from K fuel) handlers (byte ∷ bytes) (c, w)))
        (sym one)
        (handle_all-Leads (process_from K fuel)
          (λ later c' w' one'. process_from-Leads fuel later c' w' one') (byte ∷ bytes) c w one)
        h

  after_fill :
      (c : ConditionalBufferedStream) (w w' : K.World) (stream : BufferedStream) (r : Outcome ℕ)
      → c.buffer_event_handlers ≡ handler ∷ []
      → read_available K minus_one (c.stream, w) ≡ (r, (stream, w'))
      → Leads c w reading (
          continue r
            (λ _ st. process_data_send_signals K (contents st.0.stream) st)
            (record c { stream = stream }, w'))
  unfolding process_data_send_signals
  after_fill c w w' stream (ok n) one e h =
      WorkerSteps-trans (next here (fills n stream w' refl e refl)) (
        process_from-Leads (suc (length (contents stream))) (contents stream)
          (record c { stream = stream }) w' one h)
  after_fill c w w' stream (throws x) one e h = cc h
  after_fill c w w' stream terminated one e h = cc h
  after_fill c w w' stream out_of_fuel one e h = cc h

  -- With one handler, a round of the worker's loop that returns is a sequence of the small steps: it
  -- leads from the place before the read back there, with the object and the world that the function
  -- gives.
  pub worker_round-WorkerSteps :
      (c c' : ConditionalBufferedStream) (w w' : K.World)
      → c.buffer_event_handlers ≡ handler ∷ []
      → worker_round K (c, w) ≡ (ok tt, (c', w'))
      → WorkerSteps K handler (system c w reading) (system c' w' reading)
  unfolding worker_round
  worker_round-WorkerSteps c c' w w' one e =
      let read = read_available K minus_one (c.stream, w) in
      let leads = after_fill c w read.1.1 read.1.0 read.0 one refl (ap (λ (st : Result). st.0) e) in
      subst
        (λ (st : ConditionalBufferedStream × K.World).
          WorkerSteps K handler (system c w reading) (system st.0 st.1 reading))
        (ap (λ (st : Result). st.1) e) leads
