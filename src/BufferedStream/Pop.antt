-- ===== src/BufferedStream/Pop.antt =====
-- PopFromBuffer: it takes bytes from the front of the contents.
use socket_wrapper.Prelude.{
  ℕ, ◌-◌, ◌≤◌, ◌<◌, ◌≡◌, refl, sym, ap, ◌∙◌, ◌⊎◌, List, arith, length, take, drop, take-take-le,
  length-take_le, inl, inr, ltb, ltb→lt, ltb→le, Bool-cases,
}
use socket_wrapper.Prelude.Size.{size_sub, size_sub_le}
use socket_wrapper.Prelude.Memory.{length-shift_down, take-shift_down, shift_down}
use socket_wrapper.Exception.{out_of_range}
use socket_wrapper.Exec.{Outcome, ok, throws}
use socket_wrapper.Kernel.{Kernel}
use socket_wrapper.BufferedStream.{BufferedStream, pop_from_buffer}
use socket_wrapper.BufferedStream.Contents.{contents, IsValid, Same}

-- The object once `from` bytes have been dropped from the front, of which there are as many.
abbrev pub dropped : ℕ → BufferedStream → BufferedStream
dropped from b =
    let rest = size_sub b.buffer_write_offset from in
    record b { buffer_write_offset = rest; stream_buffer = shift_down from rest b.stream_buffer }

module _ (from : ℕ) (b : BufferedStream) (v : IsValid b) (le : from ≤ b.buffer_write_offset) where
  rest_lem : size_sub b.buffer_write_offset from ≡ b.buffer_write_offset - from
  rest_lem = size_sub_le b.buffer_write_offset from le (omega (arith, v))

  pub dropped-IsValid : IsValid (dropped from b)
  dropped-IsValid = record {
    sized =
        length-shift_down from (size_sub b.buffer_write_offset from) b.stream_buffer
          (omega (arith, rest_lem, v))
        ∙ v.sized;
    within = omega (arith, rest_lem, v);
    small = v.small;
  }

  pub contents-dropped : contents (dropped from b) ≡ drop from (contents b)
  contents-dropped =
      take-shift_down from (size_sub b.buffer_write_offset from) b.buffer_write_offset
        b.stream_buffer (omega (arith, rest_lem)) (omega (arith, v))

abbrev pub PopEnds :
    ℕ → {W : Type 0} → BufferedStream → W → Outcome (List ℕ) × (BufferedStream × W) → Type 0
PopEnds n b w (r, (b', w')) =
    IsValid b'
    × Same b b'
    × (w' ≡ w)
    × (((n ≤ length (contents b))
          × (r ≡ ok (take n (contents b)))
          × (contents b' ≡ drop n (contents b)))
        ⊎ ((length (contents b) < n) × (r ≡ throws out_of_range) × (b' ≡ b)))

pub length-contents : (b : BufferedStream) → IsValid b → length (contents b) ≡ b.buffer_write_offset
length-contents b v = length-take_le b.buffer_write_offset b.stream_buffer (omega (arith, v))

-- If the contents of a valid buffer have so many bytes, these are taken from their front, and the
-- others stay; otherwise it throws out_of_range and changes nothing. It never touches the world,
-- and the buffer stays valid.
pub pop_from_buffer-PopEnds :
    (K : Kernel) (n : ℕ) (b : BufferedStream) (w : K.World)
    → IsValid b
    → PopEnds n b w (pop_from_buffer K n (b, w))
unfolding pop_from_buffer
pop_from_buffer-PopEnds K n b w v = elim (Bool-cases (ltb b.buffer_write_offset n)) [
  | inl short ↦
      rw (short, pop_from_buffer)
        (
          v,
          (refl, refl),
          refl,
          inr (omega (arith, length-contents b v, ltb→lt _ _ short), refl, refl),
        )
  | inr enough ↦
      rw (enough, pop_from_buffer)
        (
          dropped-IsValid n b v (ltb→le _ _ enough),
          (refl, refl),
          refl,
          inl (
            omega (arith, length-contents b v, ltb→le _ _ enough),
            ap ok (sym (take-take-le n b.buffer_write_offset b.stream_buffer (ltb→le _ _ enough))),
            contents-dropped n b v (ltb→le _ _ enough),
          ),
        )
]

-- The two cases apart.
pub popped :
    {W : Type 0} (n : ℕ) (b b' : BufferedStream) (w w' : W) (r : Outcome (List ℕ))
    → PopEnds n b w (r, (b', w'))
    → n ≤ length (contents b)
    → (r ≡ ok (take n (contents b))) × (contents b' ≡ drop n (contents b))
popped n b b' w w' r (v, same, ew, inl (le, er, ec)) h = (er, ec)
popped n b b' w w' r (v, same, ew, inr (lt, er, eb)) h = absurd (omega arith)

pub not_popped :
    {W : Type 0} (n : ℕ) (b b' : BufferedStream) (w w' : W) (r : Outcome (List ℕ))
    → PopEnds n b w (r, (b', w'))
    → length (contents b) < n
    → r ≡ throws out_of_range
not_popped n b b' w w' r (v, same, ew, inl (le, er, ec)) h = absurd (omega arith)
not_popped n b b' w w' r (v, same, ew, inr (lt, er, eb)) h = er
