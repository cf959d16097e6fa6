-- ===== src/Listener/Accept.antt =====
-- Acceptance of clients, and its end.
use socket_wrapper.Prelude.{
  ℕ, zero, suc, ◌+◌, ◌<◌, ap, subst, ◌≡◌, ◌≢◌, ◌==◌, refl, ◌⊎◌, inl, inr, true, false, arith,
  Bool-cases,
}
use socket_wrapper.Prelude.Int.{ℤ, is_negative, int_eq, int_eq→eq, int_eq→ne, minus_one}
use socket_wrapper.Exception.{
  ExceptionType, SocketException, Exception, foreign, logic_error, out_of_range, invalid_argument,
  socket, runtime_error, socket_poll, socket_accept, socket_termination_request,
}
use socket_wrapper.Exec.{Outcome, ok, throws, terminated, out_of_fuel, continue, Exec, ◌>>◌}
use socket_wrapper.Kernel.{Kernel, PollResult}
use socket_wrapper.Network.{Network}
use socket_wrapper.Stream.{Stream}
use socket_wrapper.Stream
use socket_wrapper.Listener.{
  Listener, poll_fds, accept, handle_client, handle_incoming_streams, stop_accepting,
  print_exception,
}

module _ (K : Kernel) (N : Network K) where
  -- The second call of `stopAccepting` does nothing: the descriptor is closed once, though the
  -- destructor calls it again.
  pub stop_accepting_twice :
      (l : Listener) (w : K.World)
      → (stop_accepting K N >> stop_accepting K N) (l, w) ≡ stop_accepting K N (l, w)
  unfolding stop_accepting
  stop_accepting_twice l w = ground arith

  -- How the loop of `handleIncomingStreams` runs that began in the world `w`.
  module _ (on_incoming_stream : Stream → Exec K.World (Unit {0})) (l : Listener)
      (w : K.World) where
    abbrev polls : K.World → PollResult × K.World
    polls v = K.poll (poll_fds K N l) minus_one v

    -- What comes of the round, by how the callback ended: an exception that is derived from
    -- std::exception is caught.
    abbrev pub CallbackEnds : Outcome (Unit {0}) → Outcome (Unit {0}) → Type 0
    CallbackEnds (throws foreign) r = r ≡ terminated
    CallbackEnds (throws e) r = r ≡ ok tt
    CallbackEnds ended r = r ≡ ended

    -- How the round of a client ends that poll announced in the world `v`: accept fails, eventfd fails,
    -- or the callback is called with the client's Stream.
    abbrev pub Serves : K.World → Outcome (Unit {0}) × K.World → Type 0
    Serves v st =
        let accepted = N.accept l.listener_socket_fd v in
        let event = K.eventfd accepted.1 in
        let run =
          on_incoming_stream
            (record { stream_file_descriptor = accepted.0; stop_all_operations_event_fd = event.0 })
            event.1 in
        ((is_negative accepted.0 ≡ true) × (st ≡ (ok tt, accepted.1)))
        ⊎ ((is_negative accepted.0 ≡ false) × (event.0 ≡ minus_one) × (st ≡ (ok tt, event.1)))
        ⊎ ((is_negative accepted.0 ≡ false)
            × (event.0 ≢ minus_one)
            × (st.1 ≡ run.1)
            × CallbackEnds run.0 st.0)

    -- Poll succeeded and announced a client.
    abbrev pub Announces : K.World → Type 0
    Announces v = ((polls v).0.status ≢ minus_one) × ((polls v).0.revents 0 ≢ 0)

    -- So many rounds have been made: poll failed, a client was served, or nothing was announced.
    pub data Rounds : ℕ → K.World → Type 0 where
      start : Rounds 0 w
      ignored :
          (k : ℕ) (v : K.World)
          → Rounds k v
          → (polls v).0.status ≡ minus_one
          → Rounds (suc k) (polls v).1
      served :
          (k : ℕ) (v v' : K.World)
          → Rounds k v
          → Announces v
          → Serves (polls v).1 (ok tt, v')
          → Rounds (suc k) v'
      quiet :
          (k : ℕ) (v : K.World)
          → Rounds k v
          → (polls v).0.status ≢ minus_one
          → (polls v).0.revents 0 ≡ 0
          → (polls v).0.revents 1 ≡ 0
          → Rounds (suc k) (polls v).1

    -- How the loop has ended after so many rounds at most.
    abbrev pub LoopEnds : ℕ → Outcome (Unit {0}) × K.World → Type 0
    LoopEnds rounds (ok _, w') =
        (k : ℕ) × (v : K.World) × (k < rounds)
        × Rounds k v
        × ((polls v).0.status ≢ minus_one)
        × ((polls v).0.revents 0 ≡ 0)
        × ((polls v).0.revents 1 ≢ 0)
        × (w' ≡ (polls v).1)
    LoopEnds rounds (throws e, w') = ⊥
    LoopEnds rounds (terminated, w') =
        (k : ℕ) × (v : K.World) × (k < rounds)
        × Rounds k v
        × Announces v
        × Serves (polls v).1 (terminated, w')
    LoopEnds rounds (out_of_fuel, w') =
        Rounds rounds w'
        ⊎ ((k : ℕ) × (v : K.World) × (k < rounds)
            × Rounds k v
            × Announces v
            × Serves (polls v).1 (out_of_fuel, w'))

    print_exception-CallbackEnds : (r : Outcome (Unit {0})) → CallbackEnds r (print_exception K N r)
    print_exception-CallbackEnds (ok _) = refl
    print_exception-CallbackEnds (throws foreign) = refl
    print_exception-CallbackEnds (throws (socket x)) = refl
    print_exception-CallbackEnds (throws runtime_error) = refl
    print_exception-CallbackEnds (throws logic_error) = refl
    print_exception-CallbackEnds (throws out_of_range) = refl
    print_exception-CallbackEnds (throws invalid_argument) = refl
    print_exception-CallbackEnds terminated = refl
    print_exception-CallbackEnds out_of_fuel = refl

    handle_client-Serves : (v : K.World) → Serves v (handle_client K N on_incoming_stream l v)
    unfolding handle_client Stream.create
    handle_client-Serves v =
        let accepted = N.accept l.listener_socket_fd v in
        elim (Bool-cases (is_negative accepted.0)) [
          | inl failed ↦ rw (failed, handle_client) (inl (refl, refl))
          | inr fine ↦ elim (Bool-cases (int_eq (K.eventfd accepted.1).0 minus_one)) [
            | inl none_left ↦
                rw (fine, none_left, handle_client, Stream.create)
                  (inr (inl (refl, int_eq→eq _ _ none_left, refl)))
            | inr made ↦
                rw (fine, made, handle_client, Stream.create)
                  (inr (inr (refl, int_eq→ne _ _ made, refl, print_exception-CallbackEnds _)))
          ]
        ]

    CallbackEnds-ne-throws :
        (ended r : Outcome (Unit {0})) (e : Exception) → CallbackEnds ended r → r ≢ throws e
    CallbackEnds-ne-throws (ok _) r e h t = cc (h, t)
    CallbackEnds-ne-throws (throws foreign) r e h t = cc (h, t)
    CallbackEnds-ne-throws (throws (socket x)) r e h t = cc (h, t)
    CallbackEnds-ne-throws (throws runtime_error) r e h t = cc (h, t)
    CallbackEnds-ne-throws (throws logic_error) r e h t = cc (h, t)
    CallbackEnds-ne-throws (throws out_of_range) r e h t = cc (h, t)
    CallbackEnds-ne-throws (throws invalid_argument) r e h t = cc (h, t)
    CallbackEnds-ne-throws terminated r e h t = cc (h, t)
    CallbackEnds-ne-throws out_of_fuel r e h t = cc (h, t)

    Serves-ne-throws : (v v' : K.World) (e : Exception) → Serves v (throws e, v') → ⊥
    Serves-ne-throws v v' e (inl (failed, h)) =
        cc (ap (λ (st : Outcome (Unit {0}) × K.World). st.0) h)
    Serves-ne-throws v v' e (inr (inl (fine, none_left, h))) =
        cc (ap (λ (st : Outcome (Unit {0}) × K.World). st.0) h)
    Serves-ne-throws v v' e (inr (inr (fine, made, same, h))) =
        CallbackEnds-ne-throws _ (throws e) e h refl

    module _ (all k : ℕ) (v : K.World) (few : k < all) (made : Rounds k v)
        (next : Exec K.World (Unit {0}))
        (later : (v' : K.World) → Rounds (suc k) v' → LoopEnds all (next v')) where
      after_client :
          (r : Outcome (Unit {0})) (v' : K.World)
          → Announces v
          → Serves (polls v).1 (r, v')
          → LoopEnds all (continue r (λ _. next) v')
      after_client (ok _) v' client e = later v' (served k v v' made client e)
      after_client (throws x) v' client e = absurd (Serves-ne-throws (polls v).1 v' x e)
      after_client terminated v' client e = (k, v, few, made, client, e)
      after_client out_of_fuel v' client e = inr (k, v, few, made, client, e)

    loop-LoopEnds :
        (rounds all k : ℕ) (v : K.World)
        → k + rounds ≡ all
        → Rounds k v
        → LoopEnds all (handle_incoming_streams K N rounds on_incoming_stream l v)
    unfolding handle_incoming_streams
    loop-LoopEnds zero all k v e made = inl (subst (λ n. Rounds n v) (omega (arith, e)) made)
    loop-LoopEnds (suc rounds) all k v e made =
        let later : (v' : K.World)
            → Rounds (suc k) v'
            → LoopEnds all (handle_incoming_streams K N rounds on_incoming_stream l v') =
          λ v' made'. loop-LoopEnds rounds all (suc k) v' (omega (arith, e)) made' in
        let few : k < all = omega (arith, e) in
        elim (Bool-cases (int_eq (polls v).0.status minus_one)) [
          | inl failed ↦
              rw (failed, handle_incoming_streams)
                (later (polls v).1 (ignored k v made (int_eq→eq _ _ failed)))
          | inr fine ↦ elim (Bool-cases ((polls v).0.revents 0 == 0)) [
            | inr client ↦
                rw (fine, client, handle_incoming_streams)
                  (after_client all k v few made
                    (handle_incoming_streams K N rounds on_incoming_stream l) later
                    (handle_client K N on_incoming_stream l (polls v).1).0
                    (handle_client K N on_incoming_stream l (polls v).1).1
                    (int_eq→ne _ _ fine, ground arith) (handle_client-Serves (polls v).1))
            | inl nobody ↦ elim (Bool-cases ((polls v).0.revents 1 == 0)) [
              | inl idle ↦
                  rw (fine, nobody, idle, handle_incoming_streams)
                    (later (polls v).1
                      (quiet k v made (int_eq→ne _ _ fine) (ground arith) (ground arith)))
              | inr request ↦
                  rw (fine, nobody, request, handle_incoming_streams)
                    (k, v, few, made, int_eq→ne _ _ fine, ground arith, ground arith, refl)
            ]
          ]
        ]

    -- The loop of `handleIncomingStreams` never ends by an exception, whatever poll and accept answer
    -- and whatever the callback does. In the round of a client that poll announced, accept fails, or
    -- eventfd does, or the callback is called with the client's Stream; when it throws an exception that
    -- is derived from std::exception the loop goes on, and when it throws another one the process is
    -- terminated. When the loop has returned, its last poll succeeded and announced a termination
    -- request and no client. If the process was terminated, it was by the round of a client. Otherwise
    -- the loop has made all the rounds it was given, or the callback in such a round never returns. In
    -- all rounds before, poll failed, a client was served or nothing was announced.
    pub handle_incoming_streams-LoopEnds :
        (rounds : ℕ) → LoopEnds rounds (handle_incoming_streams K N rounds on_incoming_stream l w)
    handle_incoming_streams-LoopEnds rounds = loop-LoopEnds rounds rounds 0 w (omega arith) start

  -- The exception of this type, with errno.
  abbrev at_errno : ExceptionType → K.World → SocketException
  at_errno t v = record { exception_type = t; c_error = K.errno v; processed_bytes = minus_one }

  -- How `accept` ends with the client that waits.
  abbrev pub ClientEnds : ℤ × K.World → Outcome Stream → Type 0
  ClientEnds accepted r =
      let event = K.eventfd accepted.1 in
      ((is_negative accepted.0 ≡ true) × (r ≡ throws (socket (at_errno socket_accept accepted.1))))
      ⊎ ((is_negative accepted.0 ≡ false) × (event.0 ≡ minus_one) × (r ≡ throws runtime_error))
      ⊎ ((is_negative accepted.0 ≡ false)
          × (event.0 ≢ minus_one)
          × (r
              ≡ ok (record {
                stream_file_descriptor = accepted.0;
                stop_all_operations_event_fd = event.0;
              })))

  -- How `accept` ends that began in the world `w`, by what poll, accept and eventfd answer.
  abbrev pub AcceptEnds : ℤ → Listener → K.World → Outcome Stream → Type 0
  AcceptEnds timeout l w r =
      let polled = K.poll (poll_fds K N l) timeout w in
      ((polled.0.status ≡ minus_one) × (r ≡ throws (socket (at_errno socket_poll polled.1))))
      ⊎ ((polled.0.status ≢ minus_one)
          × (((polled.0.revents 0 ≢ 0) × ClientEnds (N.accept l.listener_socket_fd polled.1) r)
              ⊎ ((polled.0.revents 0 ≡ 0)
                  × (polled.0.revents 1 ≢ 0)
                  × (r ≡ throws (socket (at_errno socket_termination_request polled.1))))
              ⊎ ((polled.0.revents 0 ≡ 0)
                  × (polled.0.revents 1 ≡ 0)
                  × (r ≡ throws (socket (at_errno socket_accept polled.1))))))
