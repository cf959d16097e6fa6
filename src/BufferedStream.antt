-- ===== src/BufferedStream.antt =====
-- include/socket_wrapper/BufferedStream.h and src/BufferedStream.cpp. The state of an operation is
-- the object and the world. The recursive mutex is not in the state: an operation runs alone on its
-- object. `malloc`ed memory is the list `stream_buffer`; calloc is taken to succeed.
pub mod Contents
pub mod Fill
pub mod Pop
pub mod FillTo
pub mod Read
pub mod Delimiter
pub mod Session
pub mod Supply
pub mod Script
pub mod Pipe
pub mod Ownership
pub mod Full
use socket_wrapper.Prelude.{
  ℕ, zero, suc, ◌+◌, ◌-◌, min, Bool, true, false, List, [], ◌∷◌, length, take, replicate, ltb, ◌==◌,
  if◌then◌else◌,
}
use socket_wrapper.Prelude.Int.{ℤ, minus_one}
use socket_wrapper.Prelude.Size.{size_sub}
use socket_wrapper.Prelude.Memory.{shift_down}
use socket_wrapper.Prelude.Find.{find}
use socket_wrapper.Exception.{logic_error, out_of_range}
use socket_wrapper.Exec.{
  Outcome, ok, throws, Exec, pure, raise, diverge, gets, modify, continue, ◌>>=◌, ◌>>◌, on_second,
}
use socket_wrapper.Kernel.{Kernel}
use socket_wrapper.Stream.{Stream}
use socket_wrapper.Stream

pub record BufferedStream : Type 0 where
  pub stream : Stream
  pub stream_buffer_size : ℕ
  pub stream_buffer : List ℕ
  pub buffer_write_offset : ℕ

-- The constructor.
unfoldable pub create : Stream → ℕ → BufferedStream
create src_stream buffer_size = record {
  stream = src_stream;
  stream_buffer_size = buffer_size;
  stream_buffer = replicate buffer_size 0;
  buffer_write_offset = 0;
}

module _ (K : Kernel) where
  open K use {World}

  -- Code on the array of the object.
  abbrev pub with_buffer : {A : Type 0} → Exec (List ℕ × World) A → Exec (BufferedStream × World) A
  with_buffer m (b, w) =
      let (r, (buffer, w')) = m (b.stream_buffer, w) in
      (r, (record b { stream_buffer = buffer }, w'))

  -- `buffer_write_offset += read_bytes; return read_bytes;`
  abbrev advance : ℕ → Exec (BufferedStream × World) ℕ
  advance n (b, w) = (ok n, (record b { buffer_write_offset = b.buffer_write_offset + n }, w))

  -- `readAvailableDataIntoBuffer`
  unfoldable pub read_available : ℤ → Exec (BufferedStream × World) ℕ
  read_available timeout_ms (b, w) =
      (with_buffer (
            Stream.read K b.stream b.buffer_write_offset
              (size_sub b.stream_buffer_size b.buffer_write_offset) 1 timeout_ms)
          >>= advance)
        (b, w)

  -- `PopFromBuffer`
  unfoldable pub pop_from_buffer : ℕ → Exec (BufferedStream × World) (List ℕ)
  pop_from_buffer bytes_to_read (b, w) =
      if ltb b.buffer_write_offset bytes_to_read
      then (throws out_of_range, (b, w))
      else (let rest = size_sub b.buffer_write_offset bytes_to_read in
          (
            ok (take bytes_to_read b.stream_buffer),
            (
              record b {
                buffer_write_offset = rest;
                stream_buffer = shift_down bytes_to_read rest b.stream_buffer;
              },
              w,
            ),
          ))

  -- `while (buffer_write_offset < wanted) readAvailableDataIntoBuffer(timeout_ms);`
  unfoldable pub fill_to : ℕ → ℕ → ℤ → Exec (BufferedStream × World) (Unit {0})
  fill_to zero wanted timeout_ms (b, w) = diverge (b, w)
  fill_to (suc fuel) wanted timeout_ms (b, w) = elim (ltb b.buffer_write_offset wanted) [
    | true ↦ (read_available timeout_ms >> fill_to fuel wanted timeout_ms) (b, w)
    | false ↦ (ok tt, (b, w))
  ]

  -- `read` into a vector. Each round of its loop reads a byte at least.
  unfoldable pub read : ℕ → ℤ → Exec (BufferedStream × World) (List ℕ)
  read bytes_to_read timeout_ms (b, w) =
      if ltb b.stream_buffer_size bytes_to_read
      then (throws logic_error, (b, w))
      else ((do fill_to (suc bytes_to_read) bytes_to_read timeout_ms; pop_from_buffer bytes_to_read)
          (b, w))

  -- `read` into an array of the caller's: the bytes that it puts there, whose number it returns.
  unfoldable pub read_into : ℕ → ℕ → ℤ → Exec (BufferedStream × World) (List ℕ)
  read_into max_bytes_to_read min_bytes_to_read timeout_ms = do
    read_available timeout_ms
    fill_to (suc min_bytes_to_read) min_bytes_to_read timeout_ms
    offset ← gets (λ st. st.0.buffer_write_offset)
    pop_from_buffer (min offset max_bytes_to_read)

  -- The result of `readUntilDelimiter`, with the delimiter at index `position`.
  abbrev split_at : ℕ → Exec (BufferedStream × World) (List ℕ)
  split_at position (b, w) =
      let rest = size_sub b.buffer_write_offset (position + 1) in
      (
        ok (take position b.stream_buffer),
        (
          record b {
            buffer_write_offset = rest;
            stream_buffer = shift_down (position + 1) rest b.stream_buffer;
          },
          w,
        ),
      )

  -- The end of a round of `readUntilDelimiter`: the next round if the delimiter was not found, or
  -- the return.
  found_or :
      Bool → ℕ → Exec (BufferedStream × World) (List ℕ) → Exec (BufferedStream × World) (List ℕ)
  found_or true position next st = next st
  found_or false position next st = split_at position st

  -- Its search, and what follows.
  search_then : ℕ → Exec (BufferedStream × World) (List ℕ) → Exec (BufferedStream × World) (List ℕ)
  unfolding found_or
  search_then delimiter next (b, w) =
      let position = find delimiter (take b.buffer_write_offset b.stream_buffer) in
      found_or (position == b.buffer_write_offset) position next (b, w)

  -- Its loop.
  unfoldable pub read_until_from : ℕ → ℕ → Exec (BufferedStream × World) (List ℕ)
  unfolding search_then
  read_until_from zero delimiter (b, w) = diverge (b, w)
  read_until_from (suc fuel) delimiter (b, w) =
      elim (ltb b.buffer_write_offset b.stream_buffer_size) [
        | true ↦
            (read_available minus_one >> search_then delimiter (read_until_from fuel delimiter))
              (b, w)
        | false ↦ (throws logic_error, (b, w))
      ]

  -- `readUntilDelimiter`. The array has room for so many rounds.
  unfoldable pub read_until_delimiter : ℕ → Exec (BufferedStream × World) (List ℕ)
  unfolding read_until_from
  read_until_delimiter delimiter (b, w) =
      read_until_from (suc (b.stream_buffer_size - b.buffer_write_offset)) delimiter (b, w)

  unfoldable pub write : List ℕ → Exec (BufferedStream × World) (Unit {0})
  write buffer (b, w) = on_second (Stream.write K b.stream buffer 2) (b, w)

  unfoldable pub stop_reads : Exec (BufferedStream × World) (Unit {0})
  stop_reads (b, w) = on_second (Stream.stop_reads K b.stream) (b, w)
