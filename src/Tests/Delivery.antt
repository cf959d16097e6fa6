-- ===== src/Tests/Delivery.antt =====
-- The theorem on the worker and the whole stream of a peer.
use socket_wrapper.Prelude.{
  ℕ, zero, suc, ◌+◌, ◌<◌, ◌≡◌, refl, sym, ap, ◌∙◌, ◌==◌, List, [], ◌∷◌, ◌++◌, arith, length,
  length-take, min, take, drop, take-append-drop, take-append_self, drop-append_self, append-nil,
  some, if◌then◌else◌, subst, true, false, take_all,
}
use socket_wrapper.Prelude.Int.{pos}
use socket_wrapper.Exception.{socket_ok}
use socket_wrapper.Kernel.{Kernel, IsBounded, History, got, wrote}
use socket_wrapper.BufferedStream.{create}
use socket_wrapper.BufferedStream.Contents.{create-IsValid}
use socket_wrapper.ConditionalBufferedStream.{
  ConditionalBufferedStream, BufferEventHandler, delimiter_condition, conditional_buffer_worker,
}
use socket_wrapper.ConditionalBufferedStream.Delivered.{Semaphore}
use socket_wrapper.ConditionalBufferedStream.Chunks.{split_lines}
use socket_wrapper.BufferedStream.Script.{Script}
use socket_wrapper.ConditionalBufferedStream.Delivery.{Ended, conditional_buffer_worker-Ended}
use socket_wrapper.Tests.Sim.{socket}

-- A peer that sends two lines and the beginning of a third, and closes the connection.
abbrev sent : List ℕ
sent = 1 ∷ 10 ∷ 2 ∷ 3 ∷ 10 ∷ 4 ∷ []

record Peer : Type 0 where
  taken : List ℕ
  posts : ℕ

abbrev ready : Peer
ready = record { taken = []; posts = 0 }

-- A read gives three bytes at most.
abbrev next_bytes : ℕ → Peer → List ℕ
next_bytes n w = take (min n 3) (drop (length w.taken) sent)

abbrev peer : Kernel
peer = record {
  World = Peer;
  errno = λ w. pos 11;
  poll = λ fds timeout w. (record { status = pos 1; revents = λ i. if i == 0 then 1 else 0 }, w);
  pollin = λ revents. true;
  read = λ fd n w. (got (next_bytes n w), record w { taken = w.taken ++ next_bytes n w });
  write = λ fd bytes w. (wrote 0, w);
  close = λ fd w. (pos 0, w);
  sleep_ms = λ ms w. (tt, w);
  eventfd = λ w. (pos 9, w);
  write_u64 = λ fd v w. (wrote 8, record w { posts = w.posts + v });
  read_u64 = λ fd w. (tt, w);
}

peer-IsBounded : IsBounded peer
peer-IsBounded = record {
  read_bounded = λ fd n w. omega (arith, length-take (min n 3) (drop (length w.taken) sent));
  write_bounded = λ fd bytes w. omega arith;
}

abbrev peer_history : History peer
peer_history = record {
  received = λ fd w. w.taken;
  received_read = λ fd n w. refl;
  received_poll = λ fd fds timeout w. refl;
  received_write_u64 = λ fd g v w. refl;
}

abbrev peer_semaphore : Semaphore peer (pos 5)
peer_semaphore = record {
  posted = λ w. w.posts;
  succeeds = λ w. refl;
  counts = λ w. refl;
  polls = λ fds timeout w. refl;
  reads = λ g n w. refl;
}

-- What is left behind the bytes that were taken.
left : (taken rest : List ℕ) → taken ++ rest ≡ sent → drop (length taken) sent ≡ rest
left taken rest e = ap (drop (length taken)) (sym e) ∙ drop-append_self taken rest

first_of :
    (m x : ℕ) (later : List ℕ)
    → 0 < m
    → (byte : ℕ) × (bytes : List ℕ) × (rest : List ℕ) × (take m (x ∷ later) ≡ byte ∷ bytes)
      × ((byte ∷ bytes) ++ rest ≡ x ∷ later)
first_of zero x later h = absurd (omega arith)
first_of (suc m) x later h =
    (x, take m later, drop m later, refl, ap (λ l. x ∷ l) (take-append-drop m later))

abbrev nothing : List ℕ
nothing = []

take_nil : (m : ℕ) → take m nothing ≡ nothing
take_nil zero = refl
take_nil (suc m) = refl

abbrev peer_script : Script peer peer_history socket sent
peer_script = record {
  announced = λ w. (refl, refl);
  delivers = λ n x later w some e.
      let (byte, bytes, rest, first, joined) = first_of (min n 3) x later (omega arith) in
      (
        byte,
        bytes,
        rest,
        ap got (ap (take (min n 3)) (left w.taken (x ∷ later) e) ∙ first),
        joined,
      );
  closes = λ n w some e.
      ap got (ap (take (min n 3)) (left w.taken [] (append-nil w.taken ∙ e)) ∙ take_nil (min n 3));
}

-- The lines are shorter than the buffer, which is smaller than the stream.
short : (k : ℕ) → length (split_lines 10 [] (take k sent)).1 < 4
unfolding split_lines
short zero = omega arith
short (suc zero) = omega arith
short (suc (suc zero)) = omega arith
short (suc (suc (suc zero))) = omega arith
short (suc (suc (suc (suc zero)))) = omega arith
short (suc (suc (suc (suc (suc zero))))) = omega arith
short (suc (suc (suc (suc (suc (suc k)))))) =
    subst (λ l. length (split_lines 10 [] l).1 < 4)
      (sym (take_all (suc (suc (suc (suc (suc (suc k)))))) sent (omega arith))) (omega arith)

no_long : (p q : List ℕ) → p ++ q ≡ sent → length (split_lines 10 [] p).1 < 4
no_long p q e =
    subst (λ l. length (split_lines 10 [] l).1 < 4)
      (ap (take (length p)) (sym e) ∙ take-append_self p q) (short (length p))

abbrev lines : BufferEventHandler
lines = record { condition = delimiter_condition 10; fd = pos 5 }

abbrev object : ConditionalBufferedStream
object = record {
  last_ex = socket_ok;
  stream = create socket 4;
  termination_requested = false;
  buffer_event_handlers = lines ∷ [];
  received_data_per_condition = λ fd. some [];
}

conditional_buffer_worker-Ended_example :
    Ended peer lines peer_semaphore 10 sent 0
      (conditional_buffer_worker peer (suc (length sent)) (object, ready))
unfolding create
conditional_buffer_worker-Ended_example =
    conditional_buffer_worker-Ended peer peer-IsBounded peer_history lines peer_semaphore 10 refl
      socket sent peer_script object ready (create-IsValid socket 4 (omega arith)).0 refl
      (omega arith) refl (create-IsValid socket 4 (omega arith)).1 refl refl no_long
