-- ===== src/BufferedStream/Fill.antt =====
-- readAvailableDataIntoBuffer: what was read is appended to the contents.
use socket_wrapper.Prelude.{
  ℕ, ◌+◌, ◌-◌, ◌≤◌, ◌<◌, ◌≡◌, refl, sym, ap, ◌∙◌, List, [], ◌∷◌, ◌++◌, arith, length,
}
use socket_wrapper.Prelude.Int.{ℤ}
use socket_wrapper.Prelude.Size.{size_sub, size_sub_le}
use socket_wrapper.Prelude.Memory.{blit, length-blit, take-blit}
use socket_wrapper.Exec.{Outcome, ok, throws, terminated, out_of_fuel, continue}
use socket_wrapper.Kernel.{Kernel, IsBounded, History}
use socket_wrapper.Stream
use socket_wrapper.Stream.Read.{IsReadError, ReadEnds, read-ReadEnds}
use socket_wrapper.Stream.Keeps.{read_keeps}
use socket_wrapper.BufferedStream.{BufferedStream, advance, read_available}
use socket_wrapper.BufferedStream.Contents.{contents, IsValid, Same}

module _ (K : Kernel) (bounded : IsBounded K) (history : History K) where
  abbrev pub received : BufferedStream → K.World → List ℕ
  received b = history.received b.stream.stream_file_descriptor

  -- The object `b'` is still valid and holds what `b` held and then `bytes`, which were read in the
  -- meantime.
  pub record Grown (b : BufferedStream) (w : K.World) (bytes : List ℕ) (b' : BufferedStream)
      (w' : K.World) : Type 0 where
    pub valid : IsValid b'
    pub same : Same b b'
    pub holds : contents b' ≡ contents b ++ bytes
    pub offset : b'.buffer_write_offset ≡ b.buffer_write_offset + length bytes
    pub read : received b w' ≡ received b w ++ bytes

  abbrev pub FillEnds : BufferedStream → K.World → Outcome ℕ × (BufferedStream × K.World) → Type 0
  FillEnds b w (ok n, (b', w')) =
      (bytes : List ℕ) × (n ≡ length bytes) × (0 < n) × Grown b w bytes b' w'
  FillEnds b w (throws e, (b', w')) = IsReadError e × Grown b w [] b' w'
  FillEnds b w (terminated, st) = ⊥
  FillEnds b w (out_of_fuel, st) = ⊥

  -- The bytes that stand in the array behind the contents become contents.
  grow :
      (b : BufferedStream) (w w' : K.World) (bytes array : List ℕ) (offset' : ℕ)
      → IsValid b
      → b.buffer_write_offset + length bytes ≡ offset'
      → offset' ≤ b.stream_buffer_size
      → array ≡ blit b.buffer_write_offset bytes b.stream_buffer
      → received b w' ≡ received b w ++ bytes
      → Grown b w bytes (record b { stream_buffer = array; buffer_write_offset = offset' }) w'
  grow b w w' bytes array offset' v eo le ea er = record {
    valid = record {
      sized =
          ap length ea
          ∙ length-blit b.buffer_write_offset bytes b.stream_buffer (omega (arith, v))
          ∙ v.sized;
      within = le;
      small = v.small;
    };
    same = (refl, refl);
    holds =
        rw ea (take-blit b.buffer_write_offset offset' bytes b.stream_buffer eo (omega (arith, v)));
    offset = sym eo;
    read = er;
  }

  no_bytes : (l : List ℕ) → length l < 1 → l ≡ []
  no_bytes [] h = refl
  no_bytes (x ∷ l) h = absurd (omega arith)

  after_read :
      (b : BufferedStream) (w : K.World) (room : ℕ)
      → IsValid b
      → b.buffer_write_offset + room ≡ b.stream_buffer_size
      → (r : Outcome ℕ) (array : List ℕ) (w' : K.World)
      → ReadEnds K bounded history b.stream b.buffer_write_offset room 1 b.stream_buffer w
          (r, (array, w'))
      → FillEnds b w (continue r (advance K) (record b { stream_buffer = array }, w'))
  after_read b w room v e (ok n) array w' (bytes, le, ea, er, (en, some_bytes)) = (
    bytes,
    en,
    omega arith,
    grow b w w' bytes array (b.buffer_write_offset + n) v (omega arith) (omega arith) ea er,
  )
  after_read b w room v e (throws x) array w' (bytes, le, ea, er, (kind, few)) =
      let none_read = no_bytes bytes few in
      (
        kind,
        grow b w w' [] array b.buffer_write_offset v (omega arith) v.within
            (ea ∙ ap (λ l. blit b.buffer_write_offset l b.stream_buffer) none_read)
            (er ∙ ap (λ l. received b w ++ l) none_read),
      )
  after_read b w room v e terminated array w' (bytes, le, ea, er, h) = elim h [ ]
  after_read b w room v e out_of_fuel array w' (bytes, le, ea, er, h) = elim h [ ]

  -- On a valid buffer, one fill reads a byte at least and appends what it reads, or it throws and
  -- changes no byte that the buffer holds. The buffer stays valid.
  pub read_available-FillEnds :
      (timeout : ℤ) (b : BufferedStream) (w : K.World)
      → IsValid b
      → FillEnds b w (read_available K timeout (b, w))
  unfolding read_available
  read_available-FillEnds timeout b w v =
      after_read b w room v (omega (arith, room_lem)) result.0 result.1.0 result.1.1 (
        read-ReadEnds K bounded history b.stream b.buffer_write_offset room 1 timeout
          b.stream_buffer w (omega (arith, room_lem)) (omega (arith, room_lem)))
    where
      room : ℕ
      room = size_sub b.stream_buffer_size b.buffer_write_offset

      room_lem : room ≡ b.stream_buffer_size - b.buffer_write_offset
      room_lem = size_sub_le b.stream_buffer_size b.buffer_write_offset v.within v.small

      result : Outcome ℕ × (List ℕ × K.World)
      result = Stream.read K b.stream b.buffer_write_offset room 1 timeout (b.stream_buffer, w)

-- What poll and read leave alone, a fill leaves alone.
module _ (K : Kernel) {A : Type 0} (f : K.World → A)
    (keep_poll : (fds : List ℤ) (timeout : ℤ) (w : K.World) → f (K.poll fds timeout w).1 ≡ f w)
    (keep_read : (fd : ℤ) (n : ℕ) (w : K.World) → f (K.read fd n w).1 ≡ f w) where
  advance_keeps :
      (r : Outcome ℕ) (b : BufferedStream) (w : K.World)
      → f (continue r (advance K) (b, w)).1.1 ≡ f w
  advance_keeps (ok n) b w = refl
  advance_keeps (throws e) b w = refl
  advance_keeps terminated b w = refl
  advance_keeps out_of_fuel b w = refl

  pub read_available_keeps :
      (timeout : ℤ) (b : BufferedStream) (w : K.World)
      → f (read_available K timeout (b, w)).1.1 ≡ f w
  unfolding read_available
  read_available_keeps timeout b w =
      let room = size_sub b.stream_buffer_size b.buffer_write_offset in
      advance_keeps
        (Stream.read K b.stream b.buffer_write_offset room 1 timeout (b.stream_buffer, w)).0 _ _
      ∙ read_keeps K f keep_poll keep_read b.stream b.buffer_write_offset room 1 timeout
          b.stream_buffer w
