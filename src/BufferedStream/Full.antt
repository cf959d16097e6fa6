-- ===== src/BufferedStream/Full.antt =====
-- Reads into a full buffer, and searches behind a read that fails.
use socket_wrapper.Prelude.{
  ℕ, ◌≡◌, ◌≤◌, ◌<◌, ◌≢◌, arith, false, List, [], ◌∷◌, ◌⊎◌, inl, inr, ltb, ltb→lt, ltb→le,
  Bool-cases,
}
use socket_wrapper.Prelude.Int.{ℤ, pos, minus_one, int_eq}
use socket_wrapper.Prelude.Size.{size_sub, size_sub_le}
use socket_wrapper.Exception.{Exception, socket, logic_error, socket_closed}
use socket_wrapper.Exec.{throws}
use socket_wrapper.Kernel.{Kernel, got}
use socket_wrapper.Stream.{Stream, read_round}
use socket_wrapper.Stream
use socket_wrapper.BufferedStream.{
  BufferedStream, read_available, read_into, read_until_from, read_until_delimiter,
}
use socket_wrapper.BufferedStream.Contents.{IsValid}

-- What a closed connection throws.
abbrev pub closed : Exception
closed =
    socket (record { exception_type = socket_closed; c_error = pos 0; processed_bytes = minus_one })

module _ (K : Kernel) (timeout : ℤ) where
  -- A round that finds nothing to read, though poll announced data.
  abbrev pub EndOfFile : Stream → ℕ → K.World → Type 0
  EndOfFile s room w =
      let polled =
        K.poll (s.stream_file_descriptor ∷ s.stop_all_operations_event_fd ∷ []) timeout w in
      (int_eq polled.0.status minus_one ≡ false)
      × (polled.0.revents 0 ≢ 0)
      × ((K.read s.stream_file_descriptor room polled.1).0 ≡ got [])

  read_round_eof :
      (s : Stream) (room : ℕ) (w : K.World)
      → EndOfFile s room w
      → (read_round K s room timeout w).0 ≡ throws closed
  unfolding read_round
  read_round_eof s room w h = ground arith

  read_first :
      (s : Stream) (at max_bytes : ℕ) (array : List ℕ) (w : K.World) (e : Exception)
      → (read_round K s (size_sub max_bytes 0) timeout w).0 ≡ throws e
      → (Stream.read K s at max_bytes 1 timeout (array, w)).0 ≡ throws e
  unfolding Stream.read
  read_first s at max_bytes array w e h = rw (h, Stream.read)

  read_available_first :
      (b : BufferedStream) (w : K.World) (e : Exception)
      → (read_round K b.stream
          (size_sub (size_sub b.stream_buffer_size b.buffer_write_offset) 0)
          timeout
          w).0
        ≡ throws e
      → (read_available K timeout (b, w)).0 ≡ throws e
  unfolding read_available
  read_available_first b w e h = rw (
    read_first b.stream b.buffer_write_offset (size_sub b.stream_buffer_size b.buffer_write_offset)
        b.stream_buffer w e h,
    read_available,
  )

  -- When a valid buffer is full, no bytes are asked for. If poll announces something and the read
  -- of 0 bytes that follows gives 0 bytes, that is taken for the end of the stream: a read into an
  -- array throws SOCKET_CLOSED, also when the buffer holds the minimum that was asked for.
  pub read_into_full :
      (max_bytes min_bytes : ℕ) (b : BufferedStream) (w : K.World)
      → IsValid b
      → b.buffer_write_offset ≡ b.stream_buffer_size
      → EndOfFile b.stream 0 w
      → (read_into K max_bytes min_bytes timeout (b, w)).0 ≡ throws closed
  unfolding read_into
  read_into_full max_bytes min_bytes b w v full eof =
      rw (read_available_first b w closed (rw no_room (read_round_eof b.stream 0 w eof)), read_into)
    where
      no_room : size_sub (size_sub b.stream_buffer_size b.buffer_write_offset) 0 ≡ 0
      no_room =
          let outer = size_sub_le b.stream_buffer_size b.buffer_write_offset v.within v.small in
          omega (
            arith,
            outer,
            size_sub_le (size_sub b.stream_buffer_size b.buffer_write_offset) 0 (omega arith)
                (omega (arith, outer, v.small)),
          )

module _ (K : Kernel) (c : ℕ) (b : BufferedStream) (w : K.World) where
  -- The buffer is searched only behind a read. When a read of the stream would throw, the call
  -- throws the same, whatever the buffer holds, also if it holds a whole line; but when the buffer
  -- is full, it throws logic_error and changes nothing.
  pub read_until_delimiter_unsearched :
      (e : Exception)
      → (read_available K minus_one (b, w)).0 ≡ throws e
      → ((b.buffer_write_offset < b.stream_buffer_size)
          × ((read_until_delimiter K c (b, w)).0 ≡ throws e))
        ⊎ ((b.stream_buffer_size ≤ b.buffer_write_offset)
            × (read_until_delimiter K c (b, w) ≡ (throws logic_error, (b, w))))
  unfolding read_until_delimiter read_until_from
  read_until_delimiter_unsearched e fails =
      elim (Bool-cases (ltb b.buffer_write_offset b.stream_buffer_size)) [
        | inl room ↦ inl (ltb→lt _ _ room, rw (room, fails, read_until_delimiter, read_until_from))
        | inr full ↦ inr (ltb→le _ _ full, rw (full, read_until_delimiter, read_until_from))
      ]
