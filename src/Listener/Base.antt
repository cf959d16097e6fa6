-- ===== src/Listener/Base.antt =====
-- ListenerBase of include/socket_wrapper/Listener.h and src/Listener.cpp: its thread, which accepts
-- clients, and the calls of its owner.
use socket_wrapper.Prelude.{ℕ, true, if◌then◌else◌}
use socket_wrapper.Exec.{Exec, pure, terminate, modify, gets, call, on_second, ◌>>=◌, ◌>>◌}
use socket_wrapper.Kernel.{Kernel}
use socket_wrapper.Network.{Network}
use socket_wrapper.Stream.{Stream, semaphore_value}
use socket_wrapper.Threads.{Thread, no_thread, running, finished, joinable}
use socket_wrapper.Listener.{Listener, handle_incoming_streams}

pub record ListenerBase : Type 0 where
  pub listener : Listener
  pub handle_incoming_streams_task : Thread

module _ (K : Kernel) (N : Network K) (on_incoming_stream : Stream → Exec K.World (Unit {0})) where
  open K use {World, close, write_u64}

  abbrev pub Action : Type 0
  Action = Exec (ListenerBase × World) (Unit {0})

  abbrev set_task : Thread → Action
  set_task task = modify (λ (b, w). (record b { handle_incoming_streams_task = task }, w))

  -- The assignment to a std::thread that is joinable calls std::terminate.
  unfoldable pub start_accepting : Action
  start_accepting = do
    task ← gets (λ (b, w). b.handle_incoming_streams_task)
    if joinable task then terminate else set_task running

  -- `join`, when the thread has so many rounds of its loop left at most.
  unfoldable pub join : ℕ → Action
  join rounds = do
    b ← gets (λ (b, w). b)
    elim b.handle_incoming_streams_task [
      | no_thread ↦ pure tt
      | running ↦
          (on_second (handle_incoming_streams K N rounds on_incoming_stream b.listener)
            >> set_task no_thread)
      | finished ↦ set_task no_thread
    ]

  -- `ListenerBase::stopAccepting`
  unfoldable pub stop_accepting : ℕ → Action
  unfolding join
  stop_accepting rounds = do
    l ← gets (λ (b, w). b.listener)
    if l.stopped_accepting then pure tt else (do
      on_second (call (write_u64 l.listener_end_fd semaphore_value))
      join rounds
      on_second (call (close l.listener_socket_fd))
      modify
          (λ (b, w). (record b { listener = record b.listener { stopped_accepting = true } }, w)))

  -- The destructor, and that of its std::thread after it.
  unfoldable pub destroy : ℕ → Action
  unfolding stop_accepting
  destroy rounds = do
    stop_accepting rounds
    task ← gets (λ (b, w). b.handle_incoming_streams_task)
    if joinable task then terminate else pure tt
