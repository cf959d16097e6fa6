-- ===== src/Tests/Listeners.antt =====
-- The theorems on listeners.
use socket_wrapper.Prelude.{
  ℕ, ◌-◌, ◌<◌, ◌≡◌, refl, ◌==◌, inl, inr, Bool, true, false, arith, Bool-cases, if◌then◌else◌, [],
}
use socket_wrapper.Prelude.Int.{pos, minus_one}
use socket_wrapper.BaseTypes.{ipv4}
use socket_wrapper.Exception.{logic_error}
use socket_wrapper.Exec.{ok, terminated, raise}
use socket_wrapper.Kernel.{Kernel, PollResult, got, wrote}
use socket_wrapper.Network.{Network}
use socket_wrapper.Listener.{Listener, create, accept, handle_incoming_streams, handle_client}
use socket_wrapper.Stream
use socket_wrapper.Listener.Create.{CreateEnds, create-CreateEnds}
use socket_wrapper.Listener.Accept.{LoopEnds, handle_incoming_streams-LoopEnds}
use socket_wrapper.Threads.{no_thread, running}
use socket_wrapper.Listener.Base.{ListenerBase, start_accepting, stop_accepting, destroy}
use socket_wrapper.Listener.Stopping.{
  Clients, after_loop, stop_accepting_returns, start_accepting_stopped,
}
use socket_wrapper.Tests.Sim.{sim, sim_network, sim_descriptors, start}

abbrev listener : Listener
listener = record { listener_socket_fd = pos 3; listener_end_fd = pos 4; stopped_accepting = false }

create-CreateEnds_example :
    CreateEnds sim sim_network sim_descriptors
      (pos 23)
      ipv4
      true
      start
      (create sim sim_network (pos 23) ipv4 true start)
create-CreateEnds_example =
    create-CreateEnds sim sim_network sim_descriptors (pos 23) ipv4 true start

-- A machine to which some clients will still connect.
record Host : Type 0 where
  to_come : ℕ
  asked : Bool

abbrev host_poll : Host → PollResult
host_poll w = record {
  status = pos 1;
  revents = λ i. if i == 0 then w.to_come else (if w.asked then 1 else 0);
}

abbrev host : Kernel
host = record {
  World = Host;
  errno = λ w. pos 11;
  poll = λ fds timeout w. (host_poll w, w);
  pollin = λ revents. true;
  read = λ fd n w. (got [], w);
  write = λ fd bytes w. (wrote 0, w);
  close = λ fd w. (pos 0, w);
  sleep_ms = λ ms w. (tt, w);
  eventfd = λ w. (pos 9, w);
  write_u64 = λ fd v w. (wrote 8, record w { asked = true });
  read_u64 = λ fd w. (tt, w);
}

abbrev host_network : Network host
host_network = record {
  socket = λ v w. (pos 3, w);
  set_reuse_addr = λ fd w. (pos 0, w);
  set_reuse_port = λ fd w. (pos 0, w);
  bind_any = λ fd v port w. (pos 0, w);
  listen = λ fd n w. (pos 0, w);
  accept =
      λ fd w. (if w.to_come == 2 then minus_one else pos 8, record w { to_come = w.to_come - 1 });
}

some_client : (n : ℕ) → (n == 0) ≡ false → 0 < n
some_client n e = ground arith

abbrev host_clients : Clients host host_network listener
host_clients = record {
  to_come = λ w. w.to_come;
  requested = λ w. w.asked;
  posted = λ n w h. (refl, refl);
  polled = λ w asked. elim (Bool-cases (w.to_come == 0)) [
    | inl nobody ↦ (asked, inr (refl, refl, inr (nobody, rw (asked) refl)))
    | inr client ↦ (asked, inr (refl, refl, inl (client, some_client w.to_come client)))
  ];
  accepted = λ w h. (refl, omega arith);
  opened = λ w. (refl, refl);
}

abbrev two_to_come : Host
two_to_come = record { to_come = 2; asked = false }

-- Two clients, for the first of whom accept fails and for the other the callback throws, and then the
-- request.
handle_incoming_streams-LoopEnds_example :
    LoopEnds host host_network
      (λ s. raise logic_error)
      listener
      (record two_to_come { asked = true })
      3
      (ok tt, record { to_come = 0; asked = true })
unfolding handle_incoming_streams handle_client Stream.create
handle_incoming_streams-LoopEnds_example =
    handle_incoming_streams-LoopEnds host host_network (λ s. raise logic_error) listener
      (record two_to_come { asked = true }) 3

abbrev accepting : ListenerBase
accepting = record { listener = listener; handle_incoming_streams_task = running }

abbrev stopped : ListenerBase
stopped = record {
  listener = record listener { stopped_accepting = true };
  handle_incoming_streams_task = no_thread;
}

-- Two clients connect before the loop ends: accept fails for the first, and the callback throws for
-- the other.
stop_accepting_returns_example :
    stop_accepting host host_network (λ s. raise logic_error) 3 (accepting, two_to_come) ≡ (
      ok tt,
      (
        stopped,
        (host.close
            (pos 3)
            (after_loop host host_network (λ s. raise logic_error) listener 3 two_to_come)).1,
      ),
    )
stop_accepting_returns_example =
    stop_accepting_returns host host_network listener host_clients (λ s. raise logic_error)
      (λ s w. (inr (logic_error, (λ e. cc e), refl), refl, refl)) two_to_come refl

start_accepting_stopped_example :
    let restarted = record stopped { handle_incoming_streams_task = running } in
    (destroy host host_network (λ s. raise logic_error) 3 (stopped, two_to_come)
      ≡ (ok tt, (stopped, two_to_come)))
    × (start_accepting host host_network (λ s. raise logic_error) (stopped, two_to_come)
        ≡ (ok tt, (restarted, two_to_come)))
    × ((v : Host)
        → destroy host host_network (λ s. raise logic_error) 3 (restarted, v)
          ≡ (terminated, (restarted, v)))
start_accepting_stopped_example =
    start_accepting_stopped host host_network (λ s. raise logic_error) 3 stopped two_to_come refl
      refl
