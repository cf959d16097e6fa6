-- ===== src/BufferedStream/Pipe.antt =====
-- Two ends of a connection: what one end writes, the other one reads.
use mathlib.Core.List.{append_cancel_left}
use socket_wrapper.Prelude.{
  ℕ, zero, suc, ◌+◌, ◌≤◌, ◌≡◌, refl, sym, ap, ◌∙◌, inl, inr, List, ◌++◌, arith, length, take, ltb,
  Bool-cases, append_assoc, length-append, take_all, take-append_self, subst,
}
use socket_wrapper.Prelude.Int.{ℤ}
use socket_wrapper.Exec.{Outcome, ok, throws, terminated, out_of_fuel, continue, Exec}
use socket_wrapper.Kernel.{Kernel, IsBounded, History, Sent}
use socket_wrapper.Stream.{Stream, write}
use socket_wrapper.Stream.Write.{WriteEnds, write-WriteEnds}
use socket_wrapper.Stream.Keeps.{write_keeps}
use socket_wrapper.BufferedStream.{BufferedStream, read_available, fill_to, pop_from_buffer, read}
use socket_wrapper.BufferedStream.Contents.{contents, IsValid}
use socket_wrapper.BufferedStream.Fill.{read_available_keeps}
use socket_wrapper.BufferedStream.Pop.{length-contents}
use socket_wrapper.BufferedStream.Read.{Taken, VectorEnds, read-VectorEnds}
use socket_wrapper.BufferedStream.Supply.{Supply, read_returns}

module _ (K : Kernel) {A : Type 0} (f : K.World → A)
    (keep_poll : (fds : List ℤ) (timeout : ℤ) (w : K.World) → f (K.poll fds timeout w).1 ≡ f w)
    (keep_read : (fd : ℤ) (n : ℕ) (w : K.World) → f (K.read fd n w).1 ≡ f w) where
  after_keeps :
      {B C : Type 0} (r : Outcome B) (b : BufferedStream) (w : K.World)
      (next : Exec (BufferedStream × K.World) C)
      → ((b' : BufferedStream) (v : K.World) → f (next (b', v)).1.1 ≡ f v)
      → f (continue r (λ _. next) (b, w)).1.1 ≡ f w
  after_keeps (ok x) b w next k = k b w
  after_keeps (throws e) b w next k = refl
  after_keeps terminated b w next k = refl
  after_keeps out_of_fuel b w next k = refl

  fill_to_keeps :
      (fuel wanted : ℕ) (timeout : ℤ) (b : BufferedStream) (w : K.World)
      → f (fill_to K fuel wanted timeout (b, w)).1.1 ≡ f w
  unfolding fill_to
  fill_to_keeps zero wanted timeout b w = refl
  fill_to_keeps (suc fuel) wanted timeout b w =
      elim (Bool-cases (ltb b.buffer_write_offset wanted)) [
        | inl short ↦
            rw (short, fill_to)
              (after_keeps (read_available K timeout (b, w)).0 _ _ (fill_to K fuel wanted timeout)
                  (fill_to_keeps fuel wanted timeout)
                ∙ read_available_keeps K f keep_poll keep_read timeout b w)
        | inr full ↦ rw (full, fill_to)
      ]

  pop_from_buffer_keeps :
      (n : ℕ) (b : BufferedStream) (w : K.World) → f (pop_from_buffer K n (b, w)).1.1 ≡ f w
  unfolding pop_from_buffer
  pop_from_buffer_keeps n b w = elim (Bool-cases (ltb b.buffer_write_offset n)) [
    | inl short ↦ rw (short, pop_from_buffer)
    | inr enough ↦ rw (enough, pop_from_buffer)
  ]

  read_keeps :
      (n : ℕ) (timeout : ℤ) (b : BufferedStream) (w : K.World)
      → f (read K n timeout (b, w)).1.1 ≡ f w
  unfolding read
  read_keeps n timeout b w = elim (Bool-cases (ltb b.stream_buffer_size n)) [
    | inl large ↦ rw (large, read)
    | inr fits ↦
        rw (fits, read)
          (after_keeps (fill_to K (suc n) n timeout (b, w)).0 _ _ (pop_from_buffer K n)
              (pop_from_buffer_keeps n)
            ∙ fill_to_keeps (suc n) n timeout b w)
  ]

-- What `near` has sent is what `far` has received and what is still on its way, in order. While bytes
-- are on their way, poll announces them to `far` and a read gives one at least. A write does not
-- change what `far` has received, and reading and pauses do not change what `near` has sent.
pub record Pipe (K : Kernel) (history : History K) (log : Sent K) (near far : Stream) : Type 0 where
  pub under_way : K.World → List ℕ
  pub conserved :
      (w : K.World)
      → log.sent near.stream_file_descriptor w
        ≡ history.received far.stream_file_descriptor w ++ under_way w
  pub supply : Supply K far
  pub supply_left : (w : K.World) → supply.left w ≡ length (under_way w)
  pub received_write :
      (bytes : List ℕ) (w : K.World)
      → history.received far.stream_file_descriptor (K.write near.stream_file_descriptor bytes w).1
        ≡ history.received far.stream_file_descriptor w
  pub received_sleep :
      (ms : ℕ) (w : K.World)
      → history.received far.stream_file_descriptor (K.sleep_ms ms w).1
        ≡ history.received far.stream_file_descriptor w
  pub sent_poll :
      (fds : List ℤ) (timeout : ℤ) (w : K.World)
      → log.sent near.stream_file_descriptor (K.poll fds timeout w).1
        ≡ log.sent near.stream_file_descriptor w
  pub sent_read :
      (fd : ℤ) (n : ℕ) (w : K.World)
      → log.sent near.stream_file_descriptor (K.read fd n w).1
        ≡ log.sent near.stream_file_descriptor w

module _ (K : Kernel) (bounded : IsBounded K) (history : History K) (log : Sent K)
    (near far : Stream) (pipe : Pipe K history log near far) where
  open pipe use {under_way, conserved}

  abbrev sent : K.World → List ℕ
  sent = log.sent near.stream_file_descriptor

  abbrev arrived : K.World → List ℕ
  arrived = history.received far.stream_file_descriptor

  -- A write that returns puts the bytes behind those that are on their way.
  write-under_way :
      (bytes : List ℕ) (attempts : ℕ) (w : K.World)
      → (write K near bytes attempts w).0 ≡ ok tt
      → under_way (write K near bytes attempts w).1 ≡ under_way w ++ bytes
  write-under_way bytes attempts w returned =
      let w' = (write K near bytes attempts w).1 in
      let whole : sent w' ≡ sent w ++ bytes =
        subst (λ r. WriteEnds K bounded log near attempts bytes w (r, w')) returned
          (write-WriteEnds K bounded log near attempts bytes w) in
      let same : arrived w' ≡ arrived w =
        write_keeps K arrived near bytes pipe.received_write pipe.received_sleep attempts w in
      append_cancel_left (arrived w) (under_way w') (under_way w ++ bytes) (
        ap (λ l. l ++ under_way w') (sym same)
        ∙ sym (conserved w')
        ∙ whole
        ∙ ap (λ l. l ++ bytes) (conserved w)
        ∙ append_assoc (arrived w) (under_way w) bytes)

  -- What a read returns that takes all bytes.
  read_all :
      (b b' : BufferedStream) (w w' : K.World) (new result : List ℕ)
      → b.stream ≡ far
      → Taken K bounded history b w new result b' w'
      → sent w' ≡ sent w
      → length result ≡ length (contents b ++ under_way w)
      → result ≡ contents b ++ under_way w
  read_all b b' w w' new result on_far t same all =
      let more : arrived w' ≡ arrived w ++ new =
        subst
          (λ (s : Stream).
            history.received s.stream_file_descriptor w'
            ≡ history.received s.stream_file_descriptor w ++ new)
          on_far t.read in
      let split : under_way w ≡ new ++ under_way w' =
        append_cancel_left (arrived w) (under_way w) (new ++ under_way w') (
          sym (conserved w)
          ∙ sym same
          ∙ conserved w'
          ∙ ap (λ l. l ++ under_way w') more
          ∙ append_assoc (arrived w) new (under_way w')) in
      let whole : contents b ++ under_way w ≡ result ++ (contents b' ++ under_way w') =
        ap (λ l. contents b ++ l) split
        ∙ sym (append_assoc (contents b) new (under_way w'))
        ∙ ap (λ l. l ++ under_way w') t.splits
        ∙ append_assoc result (contents b') (under_way w') in
      sym (take-append_self result (contents b' ++ under_way w'))
      ∙ ap (take (length result)) (sym whole)
      ∙ take_all (length result) (contents b ++ under_way w) (omega (arith, all))

  -- One end of a pipe writes, and `write` returns, whatever pieces and pauses that took. Then a read at
  -- the other end that asks for as many bytes as are there, if these fit into the buffer, returns, and
  -- gives what its buffer held, what was on its way and what was written, byte for byte.
  pub write-read :
      (bytes : List ℕ) (attempts : ℕ) (timeout : ℤ) (b : BufferedStream) (w : K.World)
      → IsValid b
      → b.stream ≡ far
      → length (contents b ++ (under_way w ++ bytes)) ≤ b.stream_buffer_size
      → (write K near bytes attempts w).0 ≡ ok tt
      → (read K
          (length (contents b ++ (under_way w ++ bytes)))
          timeout
          (b, (write K near bytes attempts w).1)).0
        ≡ ok (contents b ++ (under_way w ++ bytes))
  write-read bytes attempts timeout b w v on_far fits returned =
      let w' = (write K near bytes attempts w).1 in
      let n = length (contents b ++ (under_way w ++ bytes)) in
      let way = write-under_way bytes attempts w returned in
      let enough : n ≤ b.buffer_write_offset + pipe.supply.left w' = omega (
        arith,
        pipe.supply_left w',
        ap length way,
        length-contents b v,
        length-append (contents b) (under_way w ++ bytes),
      ) in
      let st = read K n timeout (b, w') in
      let (result, e, len) =
        read_returns K bounded history far pipe.supply n timeout b w' v on_far fits enough in
      let (within, _, (new, taken)) =
        subst (λ r. VectorEnds K bounded history n b w' (r, st.1)) e
          (read-VectorEnds K bounded history n timeout b w' v) in
      let all = ap (λ l. contents b ++ l) way in
      e
      ∙ ap ok (
          read_all b st.1.0 w' st.1.1 new result on_far taken
            (read_keeps K sent pipe.sent_poll pipe.sent_read n timeout b w')
            (len ∙ ap length (sym all))
          ∙ all)
