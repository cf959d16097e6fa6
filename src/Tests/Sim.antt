-- ===== src/Tests/Sim.antt =====
-- A small operating system for the tests: one socket, whose peer has sent `incoming`, and one
-- counter for all event descriptors. A read or a write transfers three bytes at most.
use socket_wrapper.Prelude.{
  Bool, true, false, ℕ, ◌+◌, ◌-◌, ◌<◌, suc, refl, not, List, [], ◌∷◌, ◌++◌, arith, length,
  length-take, take, drop, min, ◌==◌, if◌then◌else◌,
}
use socket_wrapper.Prelude.Int.{ℤ, pos, int_eq, int_eq_refl}
use socket_wrapper.Network.{Network, Descriptors}
use socket_wrapper.Kernel.{Kernel, PollResult, got, wrote, write_failed, IsBounded, History, Sent}
use socket_wrapper.Stream.{Stream}
use socket_wrapper.BufferedStream.{BufferedStream}
use socket_wrapper.BufferedStream.Contents.{IsValid}
use socket_wrapper.ConditionalBufferedStream.Delivered.{Semaphore}
use socket_wrapper.ConditionalBufferedStream.Wakeups.{Counter}
use socket_wrapper.BufferedStream.Supply.{Supply}
use socket_wrapper.Prelude.{◌≡◌, ap, length-drop}
use socket_wrapper.Prelude.Int.{minus_one}

pub record Sim : Type 0 where
  pub incoming : List ℕ
  pub taken : List ℕ
  pub outgoing : List ℕ
  pub posts : ℕ
  pub opened : Bool
  pub listeners : ℤ → Bool

abbrev pub poll_result : List ℕ → PollResult
poll_result [] = record { status = pos 0; revents = λ i. 0 }
poll_result (byte ∷ bytes) = record { status = pos 1; revents = λ i. if i == 0 then 1 else 0 }

abbrev pub sim : Kernel
sim = record {
  World = Sim;
  errno = λ w. pos 11;
  poll = λ fds timeout w. (poll_result w.incoming, w);
  pollin = λ revents. not (revents == 0);
  read = λ fd n w. (
    got (take (min n 3) w.incoming),
    record w { incoming = drop (min n 3) w.incoming; taken = w.taken ++ take (min n 3) w.incoming },
  );
  write = λ fd bytes w. (
    wrote (min (length bytes) 3),
    record w { outgoing = w.outgoing ++ take (min (length bytes) 3) bytes },
  );
  close = λ fd w. (pos 0, w);
  sleep_ms = λ ms w. (tt, w);
  eventfd = λ w. (pos 4, w);
  write_u64 = λ fd v w. (wrote 8, record w { posts = w.posts + v });
  read_u64 = λ fd w. (tt, record w { posts = w.posts - 1 });
}

-- The same without event descriptors to write to.
abbrev pub mute : Kernel
mute = record sim { write_u64 = λ fd v w. (write_failed, w) }

pub sim-IsBounded : IsBounded sim
sim-IsBounded = record {
  read_bounded = λ fd n w. omega (arith, length-take (min n 3) w.incoming);
  write_bounded = λ fd bytes w. omega arith;
}

abbrev pub sim_history : History sim
sim_history = record {
  received = λ fd w. w.taken;
  received_read = λ fd n w. refl;
  received_poll = λ fd fds timeout w. refl;
  received_write_u64 = λ fd g v w. refl;
}

abbrev pub sim_sent : Sent sim
sim_sent = record {
  sent = λ fd w. w.outgoing;
  sent_write = λ fd bytes w. refl;
  sent_sleep = λ fd ms w. refl;
}

abbrev pub sim_semaphore : (fd : ℤ) → Semaphore sim fd
sim_semaphore fd = record {
  posted = λ w. w.posts;
  succeeds = λ w. refl;
  counts = λ w. refl;
  polls = λ fds timeout w. refl;
  reads = λ g n w. refl;
}

-- The only socket is the descriptor 3.
abbrev pub sim_network : Network sim
sim_network = record {
  socket = λ v w. (pos 3, record w { opened = true });
  set_reuse_addr = λ fd w. (pos 0, w);
  set_reuse_port = λ fd w. (pos 0, w);
  bind_any = λ fd v port w. (pos 0, w);
  listen =
      λ fd n w. (pos 0, record w { listeners = λ g. if int_eq fd g then true else w.listeners g });
  accept = λ fd w. (pos 3, w);
}

abbrev pub sim_descriptors : Descriptors sim sim_network
sim_descriptors = record {
  is_open = λ fd w. if int_eq fd (pos 3) then w.opened else false;
  is_listening = λ fd w. w.listeners fd;
  open_socket = λ v w h. refl;
  open_reuse_addr = λ g fd w. refl;
  open_reuse_port = λ g fd w. refl;
  open_bind = λ g fd v port w. refl;
  open_listen = λ g fd n w. refl;
  listening = λ fd n w h. rw (int_eq_refl fd) refl;
}

-- The peer has sent two lines, which end in 10, and the beginning of a third.
abbrev pub start : Sim
start = record {
  incoming = 1 ∷ 10 ∷ 2 ∷ 3 ∷ 10 ∷ 4 ∷ [];
  taken = [];
  outgoing = [];
  posts = 0;
  opened = false;
  listeners = λ fd. false;
}

abbrev pub socket : Stream
socket = record { stream_file_descriptor = pos 3; stop_all_operations_event_fd = pos 4 }

-- Eight bytes, the first two of which have been read.
abbrev pub buffer : BufferedStream
buffer = record {
  stream = socket;
  stream_buffer_size = 8;
  stream_buffer = 7 ∷ 8 ∷ 0 ∷ 0 ∷ 0 ∷ 0 ∷ 0 ∷ 0 ∷ [];
  buffer_write_offset = 2;
}

pub buffer-IsValid : IsValid buffer
buffer-IsValid = record { sized = refl; within = omega arith; small = omega arith }

-- The same with no byte left to read into.
abbrev pub full_buffer : BufferedStream
full_buffer = record buffer { buffer_write_offset = 8 }

pub full_buffer-IsValid : IsValid full_buffer
full_buffer-IsValid = record { sized = refl; within = omega arith; small = omega arith }

abbrev pub sim_counter : (fd : ℤ) → Counter sim fd
sim_counter fd = record {
  count = λ w. w.posts;
  posts = λ w. refl;
  count_post = λ w. refl;
  count_wait = λ w h. omega arith;
}

pub announced :
    (bytes : List ℕ)
    → 0 < length bytes
    → (int_eq (poll_result bytes).status minus_one ≡ false)
      × (((poll_result bytes).revents 0 == 0) ≡ false)
announced [] h = absurd (omega arith)
announced (byte ∷ bytes) h = (refl, refl)

taken_off :
    (m k byte : ℕ) (bytes : List ℕ)
    → m ≡ suc k
    → (take m (byte ∷ bytes) ≡ byte ∷ take k bytes)
      × (length (drop m (byte ∷ bytes)) + length (byte ∷ take k bytes) ≡ length (byte ∷ bytes))
taken_off m k byte bytes e =
    (rw e refl, rw e (omega (arith, length-drop k bytes, length-take k bytes)))

pub delivered :
    (n : ℕ) (incoming : List ℕ)
    → 0 < n
    → 0 < length incoming
    → (byte : ℕ) × (bytes : List ℕ) × (take (min n 3) incoming ≡ byte ∷ bytes)
      × (length (drop (min n 3) incoming) + length (byte ∷ bytes) ≡ length incoming)
delivered n [] h k = absurd (omega arith)
delivered n (byte ∷ bytes) h k =
    let off = taken_off (min n 3) (min n 3 - 1) byte bytes (omega arith) in
    (byte, take (min n 3 - 1) bytes, off.0, off.1)

abbrev pub sim_supply : Supply sim socket
sim_supply = record {
  left = λ w. length w.incoming;
  announced = λ timeout w h. ((announced w.incoming h).0, (announced w.incoming h).1, refl);
  delivered = λ n w h k.
      let (byte, bytes, e, fewer) = delivered n w.incoming h k in (byte, bytes, ap got e, fewer);
}
