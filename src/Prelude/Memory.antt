-- ===== src/Prelude/Memory.antt =====
-- A char array and the writes into it. A write past the end makes the list longer, so that an
-- operation stays within the array exactly when it keeps the length.
use socket_wrapper.Prelude.{
  ℕ, zero, suc, ◌+◌, ◌≤◌, ◌≡◌, refl, ap, ◌∙◌, List, [], ◌∷◌, ◌++◌, arith, length, take, drop,
  length-take_le, take_all, length-drop, take-drop,
}

module _ {ℓ} {A : Type ℓ} where
  -- Writes `bytes` to the elements from index `at` on.
  abbrev pub blit : ℕ → List A → List A → List A
  blit zero [] dst = dst
  blit zero (b ∷ bytes) [] = b ∷ bytes
  blit zero (b ∷ bytes) (d ∷ dst) = b ∷ blit zero bytes dst
  blit (suc at) bytes [] = bytes
  blit (suc at) bytes (d ∷ dst) = d ∷ blit at bytes dst

module _ {ℓ} {A : Type ℓ} where
  -- `memmove(array, array + from, count)`
  abbrev pub shift_down : ℕ → ℕ → List A → List A
  shift_down from count array = blit zero (take count (drop from array)) array

  pub length-blit :
      (at : ℕ) (bytes dst : List A)
      → at + length bytes ≤ length dst
      → length (blit at bytes dst) ≡ length dst
  length-blit zero [] dst h = refl
  length-blit zero (b ∷ bytes) [] h = absurd (omega arith)
  length-blit zero (b ∷ bytes) (d ∷ dst) h = ap suc (length-blit zero bytes dst (omega arith))
  length-blit (suc at) bytes [] h = absurd (omega arith)
  length-blit (suc at) bytes (d ∷ dst) h = ap suc (length-blit at bytes dst (omega arith))

  -- An index is a variable with an equation, since `0 + k` does not compute.
  pub blit-blit :
      (at k : ℕ) (bytes rest dst : List A)
      → at + length bytes ≡ k
      → k ≤ length dst
      → blit k rest (blit at bytes dst) ≡ blit at (bytes ++ rest) dst
  blit-blit zero zero [] rest dst e h = refl
  blit-blit zero (suc k) [] rest dst e h = absurd (omega arith)
  blit-blit zero k (b ∷ bytes) rest [] e h = absurd (omega arith)
  blit-blit zero zero (b ∷ bytes) rest (d ∷ dst) e h = absurd (omega arith)
  blit-blit zero (suc k) (b ∷ bytes) rest (d ∷ dst) e h =
      ap (◌∷◌ b) (blit-blit zero k bytes rest dst (omega arith) (omega arith))
  blit-blit (suc at) k bytes rest [] e h = absurd (omega arith)
  blit-blit (suc at) zero bytes rest (d ∷ dst) e h = absurd (omega arith)
  blit-blit (suc at) (suc k) bytes rest (d ∷ dst) e h =
      ap (◌∷◌ d) (blit-blit at k bytes rest dst (omega arith) (omega arith))

  pub blit_none : (at : ℕ) (dst : List A) → blit at [] dst ≡ dst
  blit_none zero dst = refl
  blit_none (suc at) [] = refl
  blit_none (suc at) (d ∷ dst) = ap (◌∷◌ d) (blit_none at dst)

  pub take-blit :
      (at k : ℕ) (bytes dst : List A)
      → at + length bytes ≡ k
      → k ≤ length dst
      → take k (blit at bytes dst) ≡ take at dst ++ bytes
  take-blit zero zero [] dst e h = refl
  take-blit zero (suc k) [] dst e h = absurd (omega arith)
  take-blit zero k (b ∷ bytes) [] e h = absurd (omega arith)
  take-blit zero zero (b ∷ bytes) (d ∷ dst) e h = absurd (omega arith)
  take-blit zero (suc k) (b ∷ bytes) (d ∷ dst) e h =
      ap (◌∷◌ b) (take-blit zero k bytes dst (omega arith) (omega arith))
  take-blit (suc at) k bytes [] e h = absurd (omega arith)
  take-blit (suc at) zero bytes (d ∷ dst) e h = absurd (omega arith)
  take-blit (suc at) (suc k) bytes (d ∷ dst) e h =
      ap (◌∷◌ d) (take-blit at k bytes dst (omega arith) (omega arith))

  pub take-blit_front : (bytes dst : List A) → take (length bytes) (blit zero bytes dst) ≡ bytes
  take-blit_front [] dst = refl
  take-blit_front (b ∷ bytes) [] = ap (◌∷◌ b) (take_all (length bytes) bytes (omega arith))
  take-blit_front (b ∷ bytes) (d ∷ dst) = ap (◌∷◌ b) (take-blit_front bytes dst)

  length-shifted :
      (from count : ℕ) (array : List A)
      → from + count ≤ length array
      → length (take count (drop from array)) ≡ count
  length-shifted from count array h =
      length-take_le count (drop from array) (omega (arith, length-drop from array))

  pub length-shift_down :
      (from count : ℕ) (array : List A)
      → from + count ≤ length array
      → length (shift_down from count array) ≡ length array
  length-shift_down from count array h =
      length-blit zero (take count (drop from array)) array
        (omega (arith, length-shifted from count array h))

  -- The bytes in use are moved to the front.
  pub take-shift_down :
      (from count k : ℕ) (array : List A)
      → from + count ≡ k
      → k ≤ length array
      → take count (shift_down from count array) ≡ drop from (take k array)
  take-shift_down from count k array e h =
      take-blit zero count (take count (drop from array)) array
        (omega (arith, length-shifted from count array (omega arith))) (omega arith)
      ∙ take-drop from count k array e
