-- ===== src/Tests/Sessions.antt =====
-- The theorems on requests to a BufferedStream, and on its ownership.
use socket_wrapper.Prelude.{ℕ, ◌≡◌, refl, List, [], ◌∷◌, ◌++◌, arith, length, some}
use socket_wrapper.Prelude.Int.{pos, minus_one}
use socket_wrapper.Exec.{ok, ◌>>◌}
use socket_wrapper.BufferedStream.{read}
use socket_wrapper.BufferedStream.Read.{Taken}
use socket_wrapper.BufferedStream.Session.{Request, exactly, between, until, session, session-Taken}
use socket_wrapper.BufferedStream.Supply.{read_returns}
use socket_wrapper.BufferedStream.Ownership.{
  Owner, move_construct, destroy, move_construct_destroyed,
}
use socket_wrapper.Prelude.{◌+◌, min, replicate, length-append, length-replicate}
use socket_wrapper.Kernel.{Kernel, wrote}
use socket_wrapper.Stream.{write}
use socket_wrapper.Stream.Attempts.{Meter, Within, write-Within}
use socket_wrapper.Tests.Sim.{
  sim, sim-IsBounded, sim_history, sim_supply, Sim, start, socket, buffer, buffer-IsValid,
}

abbrev requests : List Request
requests = until 10 ∷ exactly 2 (pos 100) ∷ between 4 1 (pos 100) ∷ until 99 ∷ []

session-Taken_example :
    let (taken, (b', w')) = session sim requests (buffer, start) in
    (new : List ℕ) × Taken sim sim-IsBounded sim_history buffer start new taken b' w'
session-Taken_example =
    session-Taken sim sim-IsBounded sim_history requests buffer start buffer-IsValid

read_returns_example :
    (bytes : List ℕ) × ((read sim 7 minus_one (buffer, start)).0 ≡ ok bytes) × (length bytes ≡ 7)
read_returns_example =
    read_returns sim sim-IsBounded sim_history socket sim_supply 7 minus_one buffer start
      buffer-IsValid refl (omega arith) (omega arith)

abbrev owner : Owner
owner = record { object = buffer; address = some 64 }

abbrev free : ℕ → Sim → Unit {0} × Sim
free address w = (tt, record w { outgoing = w.outgoing ++ address ∷ [] })

move_construct_destroyed_example :
    ((destroy sim free (move_construct owner).0 >> destroy sim free (move_construct owner).1) start
      ≡ destroy sim free owner start)
    × ((destroy sim free (move_construct owner).1 >> destroy sim free (move_construct owner).0)
          start
        ≡ destroy sim free owner start)
move_construct_destroyed_example = move_construct_destroyed sim free owner start

-- A write that counts itself where posts are counted, and sleeps where bytes arrive.
abbrev metered : Kernel
metered = record sim {
  write = λ fd bytes w. (wrote (min (length bytes) 3), record w { posts = w.posts + 1 });
  sleep_ms = λ ms w. (tt, record w { taken = replicate ms 0 ++ w.taken });
}

abbrev meter : Meter metered
meter = record {
  calls = λ w. w.posts;
  slept = λ w. length w.taken;
  calls_write = λ fd bytes w. refl;
  calls_sleep = λ ms w. refl;
  slept_write = λ fd bytes w. refl;
  slept_sleep =
      λ ms w. omega (arith, length-append (replicate ms 0) w.taken, length-replicate {A = ℕ} ms 0);
}

write-Within_example :
    Within metered meter socket
      (1 ∷ 2 ∷ 3 ∷ 4 ∷ [])
      2
      start
      (write metered socket (1 ∷ 2 ∷ 3 ∷ 4 ∷ []) 2 start).1
write-Within_example = write-Within metered meter socket (1 ∷ 2 ∷ 3 ∷ 4 ∷ []) 2 start
