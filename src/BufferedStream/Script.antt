-- ===== src/BufferedStream/Script.antt =====
-- Reads from a peer that sends a given stream of bytes and closes the connection.
use socket_wrapper.Prelude.{
  ℕ, ◌+◌, ◌<◌, ◌≡◌, sym, ap, ◌∙◌, ◌==◌, List, [], ◌∷◌, ◌++◌, arith, length, ltb, false,
  append_assoc, length-append, subst,
}
use socket_wrapper.Prelude.Int.{minus_one, pos, int_eq}
use socket_wrapper.Prelude.Size.{size_sub, size_sub_le, size_modulus}
use socket_wrapper.Prelude.Memory.{blit}
use socket_wrapper.Exception.{SocketException, socket, socket_closed}
use socket_wrapper.Exec.{ok, throws}
use socket_wrapper.Kernel.{Kernel, History, got}
use socket_wrapper.Stream.{Stream, check_read, read_round, read_from}
use socket_wrapper.Stream
use socket_wrapper.BufferedStream.{BufferedStream, read_available}
use socket_wrapper.BufferedStream.Contents.{IsValid}

-- The peer sends `sent` and then closes the connection, and nobody asks for an end of reading: poll
-- waits until it announces bytes or the close; a read gives at least one of the bytes that are not
-- yet received, and when all are, no byte.
pub record Script (K : Kernel) (history : History K) (s : Stream) (sent : List ℕ) : Type 0 where
  pub announced :
      (w : K.World)
      → let polled =
          K.poll (s.stream_file_descriptor ∷ s.stop_all_operations_event_fd ∷ []) minus_one w in
        (int_eq polled.0.status minus_one ≡ false) × ((polled.0.revents 0 == 0) ≡ false)
  pub delivers :
      (n x : ℕ) (later : List ℕ) (w : K.World)
      → 0 < n
      → history.received s.stream_file_descriptor w ++ (x ∷ later) ≡ sent
      → (byte : ℕ) × (bytes : List ℕ) × (rest : List ℕ) × ((K.read s.stream_file_descriptor n w).0
          ≡ got (byte ∷ bytes))
        × ((byte ∷ bytes) ++ rest ≡ x ∷ later)
  pub closes :
      (n : ℕ) (w : K.World)
      → 0 < n
      → history.received s.stream_file_descriptor w ≡ sent
      → (K.read s.stream_file_descriptor n w).0 ≡ got []

abbrev pub closed : SocketException
closed = record { exception_type = socket_closed; c_error = pos 0; processed_bytes = minus_one }

module _ (K : Kernel) (history : History K) (s : Stream) (sent : List ℕ)
    (script : Script K history s sent) where
  abbrev received : K.World → List ℕ
  received = history.received s.stream_file_descriptor

  abbrev polled : K.World → K.World
  polled w = (K.poll (s.stream_file_descriptor ∷ s.stop_all_operations_event_fd ∷ []) minus_one w).1

  -- One read, while bytes are left.
  read_some_bytes :
      (at room x : ℕ) (later array : List ℕ) (w : K.World)
      → 0 < room
      → room < size_modulus
      → received w ++ (x ∷ later) ≡ sent
      → (k : ℕ) × (array' : List ℕ) × (w' : K.World) × (rest : List ℕ) × (Stream.read K s at room 1
            minus_one
            (array, w)
          ≡ (ok k, (array', w')))
        × (received w' ++ rest ≡ sent)
        × (length rest < length (x ∷ later))
  unfolding Stream.read read_from read_round check_read
  read_some_bytes at room x later array w space small some_left =
      let (fine, ready) = script.announced w in
      let n = size_sub room 0 in
      let same = history.received_poll s.stream_file_descriptor _ minus_one w in
      let (byte, bytes, rest, e, split) =
        script.delivers n x later (polled w) (omega (arith, size_sub_le room 0))
          (ap (λ l. l ++ (x ∷ later)) same ∙ some_left) in
      let complete : ltb (0 + length (byte ∷ bytes)) 1 ≡ false = ground arith in
      (
        0 + length (byte ∷ bytes),
        blit (at + 0) (byte ∷ bytes) array,
        (K.read s.stream_file_descriptor n (polled w)).1,
        rest,
        rw (fine, ready, e, complete, Stream.read, read_from, read_round),
        ap (λ l. l ++ rest) (history.received_read s.stream_file_descriptor n (polled w))
            ∙ rw (e, same)
                (append_assoc (received w) (byte ∷ bytes) rest
                  ∙ ap (λ l. received w ++ l) split
                  ∙ some_left),
        omega (arith, ap length split, length-append (byte ∷ bytes) rest),
      )

  -- The read that finds the end of the stream.
  read_end :
      (at room : ℕ) (array : List ℕ) (w : K.World)
      → 0 < room
      → room < size_modulus
      → received w ≡ sent
      → (array' : List ℕ) × (w' : K.World) × (Stream.read K s at room 1 minus_one (array, w)
          ≡ (throws (socket closed), (array', w')))
  unfolding Stream.read read_from read_round check_read
  read_end at room array w space small all =
      let (fine, ready) = script.announced w in
      let n = size_sub room 0 in
      let e =
        script.closes n (polled w) (omega (arith, size_sub_le room 0))
          (history.received_poll s.stream_file_descriptor _ minus_one w ∙ all) in
      (
        array,
        (K.read s.stream_file_descriptor n (polled w)).1,
        rw (fine, ready, e, Stream.read, read_from, read_round),
      )

  pub read_available_some_bytes :
      (b : BufferedStream) (x : ℕ) (later : List ℕ) (w : K.World)
      → IsValid b
      → b.stream ≡ s
      → b.buffer_write_offset < b.stream_buffer_size
      → received w ++ (x ∷ later) ≡ sent
      → (k : ℕ) × (b' : BufferedStream) × (w' : K.World) × (rest : List ℕ) × (read_available K
            minus_one
            (b, w)
          ≡ (ok k, (b', w')))
        × (received w' ++ rest ≡ sent)
        × (length rest < length (x ∷ later))
  unfolding read_available
  read_available_some_bytes b x later w v on_s space some_left =
      let room = size_sub b.stream_buffer_size b.buffer_write_offset in
      let exact = size_sub_le b.stream_buffer_size b.buffer_write_offset v.within v.small in
      let (k, array, w', rest, e, left, fewer) =
        read_some_bytes b.buffer_write_offset room x later b.stream_buffer w (omega (arith, exact))
          (omega (arith, exact, v.small)) some_left in
      let here =
        subst
          (λ y.
            Stream.read K y b.buffer_write_offset room 1 minus_one (b.stream_buffer, w)
            ≡ (ok k, (array, w')))
          (sym on_s) e in
      (
        k,
        record b { stream_buffer = array; buffer_write_offset = b.buffer_write_offset + k },
        w',
        rest,
        rw (here, read_available),
        left,
        fewer,
      )

  pub read_available_end :
      (b : BufferedStream) (w : K.World)
      → IsValid b
      → b.stream ≡ s
      → b.buffer_write_offset < b.stream_buffer_size
      → received w ≡ sent
      → (b' : BufferedStream) × (w' : K.World) × (read_available K minus_one (b, w)
          ≡ (throws (socket closed), (b', w')))
  unfolding read_available
  read_available_end b w v on_s space all =
      let room = size_sub b.stream_buffer_size b.buffer_write_offset in
      let exact = size_sub_le b.stream_buffer_size b.buffer_write_offset v.within v.small in
      let (array, w', e) =
        read_end b.buffer_write_offset room b.stream_buffer w (omega (arith, exact))
          (omega (arith, exact, v.small)) all in
      let here =
        subst
          (λ y.
            Stream.read K y b.buffer_write_offset room 1 minus_one (b.stream_buffer, w)
            ≡ (throws (socket closed), (array, w')))
          (sym on_s) e in
      (record b { stream_buffer = array }, w', rw (here, read_available))
