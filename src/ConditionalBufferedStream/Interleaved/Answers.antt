-- ===== src/ConditionalBufferedStream/Interleaved/Answers.antt =====
-- What the worker does in a small step, on lists: the answers of a delimiter's condition, and the
-- move of a segment from the buffer to the queue.
use mathlib.Core.List.{flatten}
use socket_wrapper.Prelude.{
  ℕ, ◌+◌, ◌^◌, ◌<◌, ◌≡◌, refl, sym, ap, ◌∙◌, inl, inr, List, [], ◌∷◌, ◌++◌, arith, length, take,
  drop, take-append-drop, append-nil, append_assoc, subst,
}
use socket_wrapper.Prelude.Int.{ℤ, pos, negsuc}
use socket_wrapper.Prelude.Find.{Lacks, find, find-Split}
use socket_wrapper.ConditionalBufferedStream.{delimiter_condition}
use socket_wrapper.ConditionalBufferedStream.Lines.{IsLine, flatten-append, delimiter_condition_lem}

pos_eq : (m n : ℕ) → ◌≡◌ {A = ℤ} (pos m) (pos n) → m ≡ n
pos_eq m n e = cc

-- What the condition's answer says of the bytes.
module _ (d : ℕ) (bytes : List ℕ) (small : length bytes < 2 ^ 31) where
  pub answer_pos : (n : ℕ) → delimiter_condition d bytes ≡ pos n → 0 < n → IsLine d (take n bytes)
  answer_pos n e some_bytes =
      elim (delimiter_condition_lem d bytes (find d bytes) small refl (find-Split d bytes)) [
        | inl (answer, lacks) ↦ absurd (omega (arith, some_bytes, pos_eq n 0 (sym e ∙ answer)))
        | inr (answer, lt, line) ↦
            subst (λ m. IsLine d (take m bytes)) (pos_eq (find d bytes + 1) n (sym answer ∙ e)) line
      ]

  pub answer_zero : delimiter_condition d bytes ≡ pos 0 → Lacks d bytes
  answer_zero e =
      elim (delimiter_condition_lem d bytes (find d bytes) small refl (find-Split d bytes)) [
        | inl (answer, lacks) ↦ lacks
        | inr (answer, lt, line) ↦
            absurd (omega (arith, pos_eq (find d bytes + 1) 0 (sym answer ∙ e)))
      ]

  pub answer-ne-negsuc : (n : ℕ) → delimiter_condition d bytes ≡ negsuc n → ⊥
  answer-ne-negsuc n e =
      elim (delimiter_condition_lem d bytes (find d bytes) small refl (find-Split d bytes)) [
        | inl (answer, lacks) ↦ cc (sym answer ∙ e)
        | inr (answer, lt, line) ↦ cc (sym answer ∙ e)
      ]

-- A segment that is moved from the buffer to the queue is not lost.
pub cut_whole :
    (segments : List (List ℕ)) (bytes : List ℕ) (n : ℕ)
    → flatten (segments ++ take n bytes ∷ []) ++ drop n bytes ≡ flatten segments ++ bytes
unfolding flatten
cut_whole segments bytes n =
    rw (flatten-append segments (take n bytes ∷ []), append-nil (take n bytes))
      (append_assoc (flatten segments) (take n bytes) (drop n bytes)
        ∙ ap (λ l. flatten segments ++ l) (take-append-drop n bytes))
