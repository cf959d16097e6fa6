-- ===== src/BufferedStream/Supply.antt =====
-- Reads from a stream whose peer has sent enough.
use socket_wrapper.Prelude.{
  ℕ, zero, suc, ◌+◌, ◌≤◌, ◌<◌, ◌≡◌, sym, ◌∙◌, subst, List, [], ◌∷◌, false, arith, length, ltb,
  ltb→lt, ltb→le, ◌==◌, Bool-cases, inl, inr, take, length-take_le,
}
use socket_wrapper.Prelude.Int.{ℤ, int_eq, minus_one}
use socket_wrapper.Prelude.Size.{size_modulus, size_sub, size_sub_le}
use socket_wrapper.Prelude.Memory.{blit}
use socket_wrapper.Exec.{ok}
use socket_wrapper.Kernel.{Kernel, IsBounded, History, got}
use socket_wrapper.Stream.{Stream, check_read, read_round, read_from}
use socket_wrapper.Stream
use socket_wrapper.BufferedStream.{BufferedStream, read_available, fill_to, pop_from_buffer, read}
use socket_wrapper.BufferedStream.Contents.{contents, IsValid}
use socket_wrapper.BufferedStream.Fill.{FillEnds, read_available-FillEnds}
use socket_wrapper.BufferedStream.Pop.{length-contents, popped, pop_from_buffer-PopEnds}

-- The peer has sent `left` bytes that have not been read. While there are some, poll succeeds and
-- announces them, and a read of at least one byte gives at least one of them.
pub record Supply (K : Kernel) (s : Stream) : Type 0 where
  pub left : K.World → ℕ
  pub announced :
      (timeout : ℤ) (w : K.World)
      → 0 < left w
      → let polled =
          K.poll (s.stream_file_descriptor ∷ s.stop_all_operations_event_fd ∷ []) timeout w in
        (int_eq polled.0.status minus_one ≡ false)
        × ((polled.0.revents 0 == 0) ≡ false)
        × (left polled.1 ≡ left w)
  pub delivered :
      (n : ℕ) (w : K.World)
      → 0 < n
      → 0 < left w
      → (byte : ℕ) × (bytes : List ℕ) × ((K.read s.stream_file_descriptor n w).0
          ≡ got (byte ∷ bytes))
        × (left (K.read s.stream_file_descriptor n w).1 + length (byte ∷ bytes) ≡ left w)

module _ (K : Kernel) (bounded : IsBounded K) (history : History K) (s : Stream)
    (supply : Supply K s) where
  read_round_delivers :
      (room : ℕ) (timeout : ℤ) (w : K.World)
      → 0 < room
      → 0 < supply.left w
      → (byte : ℕ) × (bytes : List ℕ) × (w' : K.World) × (read_round K s room timeout w
          ≡ (ok (byte ∷ bytes), w'))
        × (supply.left w' + length (byte ∷ bytes) ≡ supply.left w)
  unfolding read_round check_read
  read_round_delivers room timeout w space some_left =
      let polled =
        K.poll (s.stream_file_descriptor ∷ s.stop_all_operations_event_fd ∷ []) timeout w in
      let (fine, ready, kept) = supply.announced timeout w some_left in
      let (byte, bytes, e, fewer) = supply.delivered room polled.1 space (omega arith) in
      (
        byte,
        bytes,
        (K.read s.stream_file_descriptor room polled.1).1,
        rw (fine, ready, e, read_round),
        omega arith,
      )

  read_delivers :
      (at room : ℕ) (timeout : ℤ) (array : List ℕ) (w : K.World)
      → 0 < room
      → room < size_modulus
      → 0 < supply.left w
      → (k : ℕ) × (array' : List ℕ) × (w' : K.World) × (Stream.read K s at room 1 timeout (array, w)
          ≡ (ok k, (array', w')))
        × (supply.left w' + k ≡ supply.left w)
  unfolding Stream.read read_from
  read_delivers at room timeout array w space small some_left =
      let (byte, bytes, w', e, fewer) =
        read_round_delivers (size_sub room 0) timeout w (omega (arith, size_sub_le room 0))
          some_left in
      let complete : ltb (0 + length (byte ∷ bytes)) 1 ≡ false = ground arith in
      (
        0 + length (byte ∷ bytes),
        blit (at + 0) (byte ∷ bytes) array,
        w',
        rw (e, complete, Stream.read, read_from),
        omega arith,
      )

  read_available_delivers :
      (timeout : ℤ) (b : BufferedStream) (w : K.World)
      → IsValid b
      → b.stream ≡ s
      → b.buffer_write_offset < b.stream_buffer_size
      → 0 < supply.left w
      → (k : ℕ) × (b' : BufferedStream) × (w' : K.World) × (read_available K timeout (b, w)
          ≡ (ok k, (b', w')))
        × FillEnds K bounded history b w (ok k, (b', w'))
        × (supply.left w' + k ≡ supply.left w)
  unfolding read_available
  read_available_delivers timeout b w v on_s space some_left =
      let room = size_sub b.stream_buffer_size b.buffer_write_offset in
      let exact = size_sub_le b.stream_buffer_size b.buffer_write_offset v.within v.small in
      let (k, array, w', e, fewer) =
        read_delivers b.buffer_write_offset room timeout b.stream_buffer w (omega (arith, exact))
          (omega (arith, exact, v.small)) some_left in
      let here =
        subst
          (λ x.
            Stream.read K x b.buffer_write_offset room 1 timeout (b.stream_buffer, w)
            ≡ (ok k, (array, w')))
          (sym on_s) e in
      let b' = record b {
        stream_buffer = array;
        buffer_write_offset = b.buffer_write_offset + k;
      } in
      let returns : read_available K timeout (b, w) ≡ (ok k, (b', w')) =
        rw (here, read_available) in
      (
        k,
        b',
        w',
        returns,
        subst (FillEnds K bounded history b w) returns
            (read_available-FillEnds K bounded history timeout b w v),
        fewer,
      )

  fill_to_returns :
      (fuel wanted : ℕ) (timeout : ℤ) (b : BufferedStream) (w : K.World)
      → IsValid b
      → b.stream ≡ s
      → wanted ≤ b.stream_buffer_size
      → wanted ≤ b.buffer_write_offset + supply.left w
      → wanted < b.buffer_write_offset + fuel
      → 0 < fuel
      → (b' : BufferedStream) × (w' : K.World) × (fill_to K fuel wanted timeout (b, w)
          ≡ (ok tt, (b', w')))
        × (wanted ≤ b'.buffer_write_offset)
        × IsValid b'
  unfolding fill_to
  fill_to_returns zero wanted timeout b w v on_s fits enough fuelled some_fuel =
      absurd (omega arith)
  fill_to_returns (suc fuel) wanted timeout b w v on_s fits enough fuelled some_fuel =
      elim (Bool-cases (ltb b.buffer_write_offset wanted)) [
        | inr full ↦ (b, w, rw (full, fill_to), ltb→le _ _ full, v)
        | inl short ↦
            let (k, b', w', e, (bytes, len, some_bytes, g), fewer) =
              read_available_delivers timeout b w v on_s (omega (arith, ltb→lt _ _ short))
                (omega (arith, ltb→lt _ _ short)) in
            let (b'', w'', er, reached, v') =
              fill_to_returns fuel wanted timeout b' w' g.valid (g.same.0 ∙ on_s)
                (omega (arith, g.same.1)) (omega (arith, g.offset)) (omega (arith, g.offset))
                (omega (arith, ltb→lt _ _ short)) in
            (b'', w'', rw (short, e, er, fill_to), reached, v')
      ]

  -- On a valid buffer of the stream, `read` into a vector returns as many bytes as were asked for, if
  -- these fit into the buffer and what the buffer holds and the peer has sent are as many: it waits
  -- for nothing else, and throws nothing.
  pub read_returns :
      (n : ℕ) (timeout : ℤ) (b : BufferedStream) (w : K.World)
      → IsValid b
      → b.stream ≡ s
      → n ≤ b.stream_buffer_size
      → n ≤ b.buffer_write_offset + supply.left w
      → (bytes : List ℕ) × ((read K n timeout (b, w)).0 ≡ ok bytes) × (length bytes ≡ n)
  unfolding read
  read_returns n timeout b w v on_s fits enough =
      let (b', w', e, reached, v') =
        fill_to_returns (suc n) n timeout b w v on_s fits enough (omega arith) (omega arith) in
      let within : ltb b.stream_buffer_size n ≡ false = ground arith in
      let (r, (b'', w'')) = pop_from_buffer K n (b', w') in
      let there : n ≤ length (contents b') = omega (arith, length-contents b' v') in
      (
        take n (contents b'),
        rw (within, e, read)
            (popped n b' b'' w' w'' r (pop_from_buffer-PopEnds K n b' w' v') there).0,
        length-take_le n (contents b') there,
      )
