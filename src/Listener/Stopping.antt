-- ===== src/Listener/Stopping.antt =====
-- stopAccepting of a ListenerBase whose thread is in its loop, and what may follow it.
use socket_wrapper.Prelude.{
  ℕ, zero, suc, ◌+◌, ◌-◌, ◌<◌, ◌≤◌, ◌≡◌, ◌≢◌, refl, ◌∙◌, ap, ◌==◌, ◌⊎◌, inl, inr, Bool, true, false,
  arith, Bool-cases,
}
use socket_wrapper.Prelude.Int.{is_negative, int_eq, minus_one}
use socket_wrapper.Exception.{
  Exception, socket, runtime_error, logic_error, out_of_range, invalid_argument, foreign,
}
use socket_wrapper.Exec.{Outcome, ok, throws, terminated, Exec, ◌>>◌}
use socket_wrapper.Kernel.{Kernel}
use socket_wrapper.Network.{Network}
use socket_wrapper.Stream.{Stream, semaphore_value}
use socket_wrapper.Stream
use socket_wrapper.Listener.{
  Listener, poll_fds, handle_client, print_exception, try_print, handle_incoming_streams,
}
use socket_wrapper.Threads.{no_thread, running}
use socket_wrapper.Listener.Base.{ListenerBase, start_accepting, join, stop_accepting, destroy}

-- So many more times at most poll will fail or announce a client: each failure of poll uses up one of
-- them, and so does each call of accept, whether it succeeds or fails. This is what is asked of the
-- environment: it does not fail without end, as accept does that finds no free descriptor. The rest
-- is poll(2) and eventfd(2): once the end descriptor has been posted, which is never undone, a poll
-- that succeeds announces a client or the post.
pub record Clients (K : Kernel) (N : Network K) (l : Listener) : Type 0 where
  pub to_come : K.World → ℕ
  pub requested : K.World → Bool
  pub posted :
      (n : ℕ) (w : K.World)
      → 0 < n
      → (requested (K.write_u64 l.listener_end_fd n w).1 ≡ true)
        × (to_come (K.write_u64 l.listener_end_fd n w).1 ≡ to_come w)
  pub polled :
      (w : K.World)
      → requested w ≡ true
      → let p = K.poll (poll_fds K N l) minus_one w in
        (requested p.1 ≡ true)
        × (((int_eq p.0.status minus_one ≡ true) × (to_come p.1 + 1 ≡ to_come w))
            ⊎ ((int_eq p.0.status minus_one ≡ false)
                × (to_come p.1 ≡ to_come w)
                × ((((p.0.revents 0 == 0) ≡ false) × (0 < to_come w))
                    ⊎ (((p.0.revents 0 == 0) ≡ true) × ((p.0.revents 1 == 0) ≡ false)))))
  pub accepted :
      (w : K.World)
      → 0 < to_come w
      → let a = N.accept l.listener_socket_fd w in
        (requested a.1 ≡ requested w) × (to_come a.1 + 1 ≡ to_come w)
  pub opened :
      (w : K.World)
      → (requested (K.eventfd w).1 ≡ requested w) × (to_come (K.eventfd w).1 ≡ to_come w)

-- The world when a thread that is in its loop has seen the post that `stopAccepting` makes in `w`.
abbrev pub after_loop :
    (K : Kernel) (N : Network K) (on_incoming_stream : Stream → Exec K.World (Unit {0}))
    (l : Listener)
    → ℕ
    → K.World
    → K.World
after_loop K N on_incoming_stream l rounds w =
    (handle_incoming_streams K N rounds on_incoming_stream l
      (K.write_u64 l.listener_end_fd semaphore_value w).1).1

printed :
    (K : Kernel) (N : Network K) (e : Exception)
    → e ≢ foreign
    → print_exception K N (throws e) ≡ ok tt
printed K N (socket x) h = refl
printed K N runtime_error h = refl
printed K N logic_error h = refl
printed K N out_of_range h = refl
printed K N invalid_argument h = refl
printed K N foreign h = absurd (h refl)

module _ (K : Kernel) (N : Network K) (l : Listener) (clients : Clients K N l) where
  open clients use {to_come, requested, posted, polled, accepted, opened}

  -- The callback returns or throws a std::exception, and makes no client and takes back no post.
  abbrev pub Returns : (Stream → Exec K.World (Unit {0})) → Type 0
  Returns on_incoming_stream =
      (s : Stream) (w : K.World)
      → (((on_incoming_stream s w).0 ≡ ok tt)
          ⊎ ((e : Exception) × (e ≢ foreign) × ((on_incoming_stream s w).0 ≡ throws e)))
        × (requested (on_incoming_stream s w).1 ≡ requested w)
        × (to_come (on_incoming_stream s w).1 ≡ to_come w)

  module _ (on_incoming_stream : Stream → Exec K.World (Unit {0}))
      (returns : Returns on_incoming_stream) where
    -- It returned, and so many clients are to come.
    abbrev Left : ℕ → Outcome (Unit {0}) × K.World → Type 0
    Left n st = (st.0 ≡ ok tt) × (requested st.1 ≡ true) × (to_come st.1 ≡ n)

    try_print-Left :
        (s : Stream) (w : K.World)
        → requested w ≡ true
        → Left (to_come w) (try_print K N (on_incoming_stream s) w)
    try_print-Left s w asked =
        let (ended, still, left) = returns s w in
        (
          elim ended [
            | inl fine ↦ ap (print_exception K N) fine
            | inr (e, standard, thrown) ↦ ap (print_exception K N) thrown ∙ printed K N e standard
          ],
          still ∙ asked,
          left,
        )

    handle_client-Left :
        (n : ℕ) (w : K.World)
        → requested w ≡ true
        → to_come w ≡ n + 1
        → Left n (handle_client K N on_incoming_stream l w)
    unfolding handle_client Stream.create
    handle_client-Left n w asked some =
        let a = N.accept l.listener_socket_fd w in
        let (still, fewer) = accepted w (omega arith) in
        let (still', same) = opened a.1 in
        elim (Bool-cases (is_negative a.0)) [
          | inl failed ↦ rw (failed, handle_client) (refl, still ∙ asked, omega arith)
          | inr fine ↦ elim (Bool-cases (int_eq (K.eventfd a.1).0 minus_one)) [
            | inl none_left ↦
                rw (fine, none_left, handle_client, Stream.create)
                  (refl, still' ∙ still ∙ asked, omega arith)
            | inr made ↦
                let (r, q, t) =
                  try_print-Left
                    (record {
                      stream_file_descriptor = a.0;
                      stop_all_operations_event_fd = (K.eventfd a.1).0;
                    })
                    (K.eventfd a.1).1 (still' ∙ still ∙ asked) in
                rw (fine, made, handle_client, Stream.create) (r, q, t ∙ omega arith)
          ]
        ]

    -- The loop has ended.
    abbrev Ended : Outcome (Unit {0}) × K.World → Type 0
    Ended st = st.0 ≡ ok tt

    continue-Ended :
        (n : ℕ) (m next : Exec K.World (Unit {0})) (w : K.World)
        → Left n (m w)
        → ((v : K.World) → requested v ≡ true → to_come v ≡ n → Ended (next v))
        → Ended ((m >> next) w)
    continue-Ended n m next w (fine, still, left) k = rw (fine) (k (m w).1 still left)

    handle_incoming_streams-Ended :
        (n : ℕ) (w : K.World)
        → requested w ≡ true
        → to_come w ≤ n
        → Ended (handle_incoming_streams K N (suc n) on_incoming_stream l w)
    unfolding handle_incoming_streams
    handle_incoming_streams-Ended zero w asked few =
        let (still, answered) = polled w asked in
        elim answered [
          | inl (failed, fewer) ↦ absurd (omega arith)
          | inr (fine, same, inr (nobody, request)) ↦
              rw (fine, nobody, request, handle_incoming_streams) refl
          | inr (fine, same, inl (client, some)) ↦ absurd (omega arith)
        ]
    handle_incoming_streams-Ended (suc n) w asked few =
        let p = K.poll (poll_fds K N l) minus_one w in
        let (still, answered) = polled w asked in
        elim answered [
          | inl (failed, fewer) ↦
              rw (failed, handle_incoming_streams)
                (handle_incoming_streams-Ended n p.1 still (omega arith))
          | inr (fine, same, inr (nobody, request)) ↦
              rw (fine, nobody, request, handle_incoming_streams) refl
          | inr (fine, same, inl (client, some)) ↦
              rw (fine, client, handle_incoming_streams)
                (continue-Ended (to_come w - 1) (handle_client K N on_incoming_stream l)
                  (handle_incoming_streams K N (suc n) on_incoming_stream l) p.1
                  (handle_client-Left (to_come w - 1) p.1 still (omega (arith, some, same)))
                  (λ v asked_v few_v. handle_incoming_streams-Ended n v asked_v (omega arith)))
        ]

    -- The thread is in its loop, the callback always returns or throws a std::exception, and poll and
    -- accept, which may fail, do not do so without end: there is a bound on the failures of poll and
    -- the calls of accept that are to come, which the callback does not change. Then `stopAccepting` returns, within one round for each of
    -- these and one more. The thread has then ended and was joined, before the listening socket was
    -- closed.
    pub stop_accepting_returns :
        (w : K.World)
        → l.stopped_accepting ≡ false
        → let rounds = suc (to_come w) in
          stop_accepting K N on_incoming_stream rounds
            (record { listener = l; handle_incoming_streams_task = running }, w)
          ≡ (
            ok tt,
            (
              record {
                listener = record l { stopped_accepting = true };
                handle_incoming_streams_task = no_thread;
              },
              (K.close l.listener_socket_fd (after_loop K N on_incoming_stream l rounds w)).1,
            ),
          )
    unfolding stop_accepting join
    stop_accepting_returns w open_yet =
        let (asked, same) = posted semaphore_value w (omega arith) in
        simp (
          open_yet,
          stop_accepting,
          join,
          handle_incoming_streams-Ended (to_come w) _ asked (omega (arith, same)),
        )

module _ (K : Kernel) (N : Network K) (on_incoming_stream : Stream → Exec K.World (Unit {0})) where
  -- After accepting was stopped, the destructor does nothing. But `startAccepting` then starts a
  -- thread again, which no call joins: whatever this thread has done to the world in the meantime,
  -- the destructor terminates the process.
  pub start_accepting_stopped :
      (rounds : ℕ) (b : ListenerBase) (w : K.World)
      → b.listener.stopped_accepting ≡ true
      → b.handle_incoming_streams_task ≡ no_thread
      → let restarted = record b { handle_incoming_streams_task = running } in
        (destroy K N on_incoming_stream rounds (b, w) ≡ (ok tt, (b, w)))
        × (start_accepting K N on_incoming_stream (b, w) ≡ (ok tt, (restarted, w)))
        × ((v : K.World)
            → destroy K N on_incoming_stream rounds (restarted, v) ≡ (terminated, (restarted, v)))
  unfolding destroy stop_accepting start_accepting
  start_accepting_stopped rounds b w stopped none_left = (
    simp (stopped, none_left, destroy, stop_accepting),
    simp (none_left, start_accepting),
    λ v. simp (stopped, destroy, stop_accepting),
  )
