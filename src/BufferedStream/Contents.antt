-- ===== src/BufferedStream/Contents.antt =====
-- The bytes that a BufferedStream holds, and the invariant of its array.
use socket_wrapper.Prelude.{ℕ, ◌≤◌, ◌<◌, ◌≡◌, refl, List, [], arith, length, length-replicate, take}
use socket_wrapper.Prelude.Size.{size_modulus}
use socket_wrapper.Stream.{Stream}
use socket_wrapper.BufferedStream.{BufferedStream, create}

-- The bytes that have been read and not yet been taken.
abbrev pub contents : BufferedStream → List ℕ
contents b = take b.buffer_write_offset b.stream_buffer

-- The array has its size, which a size_t can hold, and the offset lies within it.
pub record IsValid (b : BufferedStream) : Type 0 where
  pub sized : length b.stream_buffer ≡ b.stream_buffer_size
  pub within : b.buffer_write_offset ≤ b.stream_buffer_size
  pub small : b.stream_buffer_size < size_modulus

-- What no operation changes.
abbrev pub Same : BufferedStream → BufferedStream → Type 0
Same b b' = (b'.stream ≡ b.stream) × (b'.stream_buffer_size ≡ b.stream_buffer_size)

-- A new object is valid and empty, if a size_t can hold its size.
pub create-IsValid :
    (s : Stream) (size : ℕ)
    → size < size_modulus
    → IsValid (create s size) × (contents (create s size) ≡ [])
unfolding create
create-IsValid s size h =
    (record { sized = length-replicate size 0; within = omega arith; small = h }, refl)
