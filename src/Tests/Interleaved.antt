-- ===== src/Tests/Interleaved.antt =====
-- The theorems on the small steps of the worker.
use socket_wrapper.Prelude.{ℕ, ◌≡◌, refl, List, [], ◌∷◌, ◌++◌, arith, some}
use socket_wrapper.Prelude.Int.{pos}
use socket_wrapper.Prelude.Find.{find}
use socket_wrapper.Prelude.Size.{size_sub}
use socket_wrapper.Stream
use socket_wrapper.BufferedStream.{BufferedStream, create, read_available, pop_from_buffer}
use socket_wrapper.BufferedStream.Contents.{create-IsValid}
use socket_wrapper.Stream.{read_from, read_round, check_read}
use socket_wrapper.ConditionalBufferedStream.{
  ConditionalBufferedStream, set_queue, post, worker_round, process_data_send_signals, process_from,
  handle_all, handle, delimiter_condition,
}
use socket_wrapper.ConditionalBufferedStream.Calls
use socket_wrapper.ConditionalBufferedStream.Interleaved.{
  reading, cutting, posting, stopped, System, WorkerStep, fills, cuts, posts, WorkerSteps, Step,
  works, takes, Reach, start, later,
}
use socket_wrapper.ConditionalBufferedStream.Interleaved.Invariant.{IsWhole}
use socket_wrapper.ConditionalBufferedStream.Interleaved.Whole.{Reach-IsWhole}
use socket_wrapper.ConditionalBufferedStream.Chunks.{split_lines}
use socket_wrapper.ConditionalBufferedStream.Interleaved.Refines.{Reach-one_pass}
use socket_wrapper.ConditionalBufferedStream.Interleaved.Sequential.{system}
use socket_wrapper.ConditionalBufferedStream.Interleaved.Ended.{
  conditional_buffer_worker-WorkerSteps,
}
use socket_wrapper.ConditionalBufferedStream.{conditional_buffer_worker, catch_worker, notify}
use socket_wrapper.Exec.{ok}
use socket_wrapper.Exception.{socket_read_timeout}
use socket_wrapper.Tests.Sim.{sim, sim-IsBounded, sim_history, sim_semaphore, Sim, socket}
use socket_wrapper.Tests.Sim.{start as world}
use socket_wrapper.Tests.Protocol.{lines, object, line}

abbrev Moves : System sim → System sim → Type 0
Moves = Step sim sim_history lines (sim_semaphore (pos 5))

abbrev idle : System sim
idle = record { object = object; world = world; place = reading; taken = [] }

-- The worker reads three bytes, the first two of which are a line.
abbrev held : BufferedStream
held = record object.stream {
  stream_buffer = 1 ∷ 10 ∷ 2 ∷ 0 ∷ 0 ∷ 0 ∷ 0 ∷ 0 ∷ [];
  buffer_write_offset = 3;
}

abbrev arrived : Sim
arrived = record world { incoming = 3 ∷ 10 ∷ 4 ∷ []; taken = 1 ∷ 10 ∷ 2 ∷ [] }

abbrev filled : System sim
filled = record idle {
  object = record object { stream = held };
  world = arrived;
  place = cutting (1 ∷ 10 ∷ 2 ∷ []);
}

-- The rest of the buffer keeps the bytes that were moved to its front.
abbrev rest : BufferedStream
rest = record held { stream_buffer = 2 ∷ 10 ∷ 2 ∷ 0 ∷ 0 ∷ 0 ∷ 0 ∷ 0 ∷ []; buffer_write_offset = 1 }

abbrev cut : System sim
cut = record filled {
  object = record object {
    stream = rest;
    received_data_per_condition = set_queue (pos 5) (line ∷ []) (λ fd. some []);
  };
  place = posting (2 ∷ []);
}

abbrev emptied : ConditionalBufferedStream
emptied = record cut.object {
  received_data_per_condition = set_queue (pos 5) [] cut.object.received_data_per_condition;
}

-- A caller takes the line before the worker has posted it.
abbrev early : System sim
early = record cut { object = emptied; taken = line ∷ [] }

abbrev posted : System sim
posted = record early { world = record arrived { posts = 1 }; place = cutting (2 ∷ []) }

filled_step : WorkerStep sim lines idle filled
unfolding read_available Stream.read read_from read_round check_read create size_sub
filled_step = fills 3 held arrived refl refl refl

cut_step : WorkerStep sim lines filled cut
unfolding read_available pop_from_buffer create delimiter_condition find size_sub
cut_step =
    cuts (1 ∷ 10 ∷ 2 ∷ []) line 2 rest arrived refl refl (omega arith) (omega arith) refl refl

posted_step : WorkerStep sim lines early posted
unfolding post
posted_step = posts (2 ∷ []) (record arrived { posts = 1 }) refl refl refl

history_of : Reach sim sim_history lines (sim_semaphore (pos 5)) idle posted
unfolding Calls.read
history_of =
    let taken : Moves cut early = takes line emptied arrived refl refl in
    later (later (later (later start (works filled_step)) (works cut_step)) taken)
      (works posted_step)

-- The line was taken before it was posted; the buffer keeps the byte after it.
Reach-IsWhole_example :
    IsWhole sim sim-IsBounded sim_history lines (sim_semaphore (pos 5)) 10 refl [] 0 posted
unfolding create
Reach-IsWhole_example =
    Reach-IsWhole sim sim-IsBounded sim_history lines (sim_semaphore (pos 5)) 10 refl idle posted
      (create-IsValid socket 8 (omega arith)).0 refl (omega arith) refl
      (create-IsValid socket 8 (omega arith)).1 refl refl history_of

Reach-one_pass_example :
    (new : List ℕ) × (sim_history.received (pos 3) posted.world
      ≡ sim_history.received (pos 3) world ++ new)
    × (split_lines 10 [] new
        ≡ ((line ∷ []) ++ (split_lines 10 [] (2 ∷ [])).0, (split_lines 10 [] (2 ∷ [])).1))
    × (posted.place ≡ reading → split_lines 10 [] new ≡ (line ∷ [], 2 ∷ []))
unfolding create
Reach-one_pass_example =
    Reach-one_pass sim sim-IsBounded sim_history lines (sim_semaphore (pos 5)) 10 refl idle posted
      (create-IsValid socket 8 (omega arith)).0 refl (omega arith) refl
      (create-IsValid socket 8 (omega arith)).1 refl refl history_of

-- The worker takes two lines in two rounds. The third read fails, since nothing more comes, and the
-- semaphore is posted once more.
abbrev ended : ConditionalBufferedStream
ended = record object {
  last_ex = socket_read_timeout;
  stream = record held {
    stream_buffer = 4 ∷ 3 ∷ 10 ∷ 4 ∷ 0 ∷ 0 ∷ 0 ∷ 0 ∷ [];
    buffer_write_offset = 1;
  };
  received_data_per_condition =
      set_queue (pos 5) (line ∷ (2 ∷ 3 ∷ 10 ∷ []) ∷ [])
        (set_queue (pos 5) (line ∷ []) (λ fd. some []));
}

abbrev quiet : Sim
quiet = record world { incoming = []; taken = world.incoming; posts = 3 }

worker_lem : conditional_buffer_worker sim 3 (object, world) ≡ (ok tt, (ended, quiet))
unfolding conditional_buffer_worker catch_worker notify worker_round read_available Stream.read
    read_from read_round check_read process_data_send_signals process_from handle_all handle post
    pop_from_buffer delimiter_condition create size_sub find
worker_lem = refl

conditional_buffer_worker-WorkerSteps_example :
    WorkerSteps sim lines
      (system sim lines [] object world reading)
      (system sim lines [] ended quiet stopped)
unfolding create
conditional_buffer_worker-WorkerSteps_example =
    conditional_buffer_worker-WorkerSteps sim sim-IsBounded sim_history lines
      (sim_semaphore (pos 5)) 10 refl [] 3 object ended world quiet
      (create-IsValid socket 8 (omega arith)).0 refl (omega arith) worker_lem
