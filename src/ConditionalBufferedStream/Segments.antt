-- ===== src/ConditionalBufferedStream/Segments.antt =====
-- What one condition makes of the bytes in the buffer, as a function of lists.
use socket_wrapper.Prelude.{
  ℕ, zero, suc, Bool, true, false, List, [], ◌∷◌, length, take, drop, ltb, ◌==◌, if◌then◌else◌,
}
use socket_wrapper.Prelude.Int.{ℤ, nat_abs, is_positive}
use socket_wrapper.ConditionalBufferedStream.{BufferEventCondition}

-- The segments that are delivered, the bytes that stay, and whether the condition asked for more
-- bytes than there are.
pub record Segments : Type 0 where
  pub delivered : List (List ℕ)
  pub rest : List ℕ
  pub faulty : Bool

abbrev pub deliver_first : Bool → List ℕ → Segments → Segments
deliver_first true segment s = record s { delivered = segment ∷ s.delivered }
deliver_first false segment s = s

-- One cut, by a condition that answered `n`.
abbrev pub cut : ℤ → List ℕ → (List ℕ → Segments) → Segments
cut n bytes later =
    if ltb (length bytes) (nat_abs n)
    then record { delivered = []; rest = bytes; faulty = true }
    else if nat_abs n == 0
    then record { delivered = []; rest = bytes; faulty = false }
    else deliver_first (is_positive n) (take (nat_abs n) bytes) (later (drop (nat_abs n) bytes))

-- With more fuel than bytes.
unfoldable pub segments_from : ℕ → BufferEventCondition → List ℕ → Segments
segments_from zero condition bytes = record { delivered = []; rest = bytes; faulty = false }
segments_from (suc fuel) condition [] = record { delivered = []; rest = []; faulty = false }
segments_from (suc fuel) condition (byte ∷ bytes) =
    cut (condition (byte ∷ bytes)) (byte ∷ bytes) (segments_from fuel condition)

unfoldable pub segments : BufferEventCondition → List ℕ → Segments
unfolding segments_from
segments condition bytes = segments_from (suc (length bytes)) condition bytes
