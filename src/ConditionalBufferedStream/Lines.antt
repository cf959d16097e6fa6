-- ===== src/ConditionalBufferedStream/Lines.antt =====
-- getDelimiterCondition: its segments as lines.
use mathlib.Core.List.{flatten}
use socket_wrapper.Prelude.{
  ℕ, zero, suc, ◌+◌, ◌^◌, ◌≤◌, ◌<◌, ◌≡◌, refl, sym, ap, ◌∙◌, ◌⊎◌, inl, inr, true, false, List, [],
  ◌∷◌, ◌++◌, arith, length, take, drop, length-drop, take-append-drop, append_assoc, le→ltb, subst,
}
use socket_wrapper.Prelude.Int.{pos, to_int_small}
use socket_wrapper.Prelude.Find.{find, Lacks, Split, find-Split}
use socket_wrapper.ConditionalBufferedStream.{delimiter_condition}
use socket_wrapper.ConditionalBufferedStream.Segments.{
  Segments, deliver_first, cut, segments_from, segments,
}

pub flatten-append : (xs ys : List (List ℕ)) → flatten (xs ++ ys) ≡ flatten xs ++ flatten ys
unfolding flatten
flatten-append [] ys = refl
flatten-append (x ∷ xs) ys =
    ap (λ l. x ++ l) (flatten-append xs ys) ∙ sym (append_assoc x (flatten xs) (flatten ys))

module _ (c : ℕ) where
  -- A line: no `c` but the one at its end.
  abbrev pub IsLine : List ℕ → Type 0
  IsLine segment = (line : List ℕ) × Lacks c line × (segment ≡ line ++ c ∷ [])

  abbrev pub AllLines : List (List ℕ) → Type 0
  AllLines [] = Unit {0}
  AllLines (segment ∷ segments) = IsLine segment × AllLines segments

  pub AllLines-append : (xs ys : List (List ℕ)) → AllLines xs → AllLines ys → AllLines (xs ++ ys)
  AllLines-append [] ys hx hy = hy
  AllLines-append (x ∷ xs) ys hx hy = (hx.0, AllLines-append xs ys hx.1 hy)

  -- The segments are lines, and with a rest that lacks `c` they make up the bytes.
  pub record Cuts (bytes : List ℕ) (s : Segments) : Type 0 where
    pub lines : AllLines s.delivered
    pub whole : flatten s.delivered ++ s.rest ≡ bytes
    pub rest_lacks : Lacks c s.rest
    pub sound : s.faulty ≡ false

  -- What the condition answers.
  pub delimiter_condition_lem :
      (bytes : List ℕ) (k : ℕ)
      → length bytes < 2 ^ 31
      → find c bytes ≡ k
      → Split c bytes k
      → ((delimiter_condition c bytes ≡ pos 0) × Lacks c bytes)
        ⊎ ((delimiter_condition c bytes ≡ pos (k + 1))
            × (k < length bytes)
            × IsLine (take (k + 1) bytes))
  unfolding delimiter_condition
  delimiter_condition_lem bytes k small e (inl (at_end, lacks)) = inl (ground arith, lacks)
  delimiter_condition_lem bytes k small e (inr (lt, lacks, whole, line)) = inr (
    ground (arith, to_int_small (k + 1)),
    lt,
    (take k bytes, lacks, (let s : k + 1 ≡ suc k = omega arith in rw s line)),
  )

  -- The bytes that stay, and a line that is cut off.
  stay-Cuts :
      (bytes : List ℕ) (later : List ℕ → Segments)
      → Lacks c bytes
      → Cuts bytes (cut (pos 0) bytes later)
  unfolding flatten
  stay-Cuts bytes later lacks =
      rw stays (record { lines = tt; whole = refl; rest_lacks = lacks; sound = refl })
    where
      stays : cut (pos 0) bytes later ≡ record { delivered = []; rest = bytes; faulty = false }
      stays = rw (le→ltb (length bytes) 0 (omega arith))

  cut-pos :
      (bytes : List ℕ) (n : ℕ) (later : List ℕ → Segments)
      → 0 < n
      → n ≤ length bytes
      → cut (pos n) bytes later ≡ deliver_first true (take n bytes) (later (drop n bytes))
  cut-pos bytes n later some_bytes le = ground arith

  line-Cuts :
      (bytes : List ℕ) (n : ℕ) (later : List ℕ → Segments)
      → 0 < n
      → n ≤ length bytes
      → IsLine (take n bytes)
      → Cuts (drop n bytes) (later (drop n bytes))
      → Cuts bytes (cut (pos n) bytes later)
  unfolding flatten
  line-Cuts bytes n later some_bytes le line cuts =
      rw (cut-pos bytes n later some_bytes le) (record {
        lines = (line, cuts.lines);
        whole =
            append_assoc (take n bytes) (flatten (later (drop n bytes)).delivered)
              (later (drop n bytes)).rest
            ∙ ap (λ l. take n bytes ++ l) cuts.whole
            ∙ take-append-drop n bytes;
        rest_lacks = cuts.rest_lacks;
        sound = cuts.sound;
      })

  segments_from-Cuts :
      (fuel : ℕ) (bytes : List ℕ)
      → length bytes < fuel
      → length bytes < 2 ^ 31
      → Cuts bytes (segments_from fuel (delimiter_condition c) bytes)
  unfolding segments_from flatten
  segments_from-Cuts zero bytes enough small = absurd (omega arith)
  segments_from-Cuts (suc fuel) [] enough small = record {
    lines = tt;
    whole = refl;
    rest_lacks = tt;
    sound = refl;
  }
  segments_from-Cuts (suc fuel) (byte ∷ bytes) enough small =
      let all = byte ∷ bytes in
      let later = segments_from fuel (delimiter_condition c) in
      elim (delimiter_condition_lem all (find c all) small refl (find-Split c all)) [
        | inl (answer, lacks) ↦
            subst (λ n. Cuts all (cut n all later)) (sym answer) (stay-Cuts all later lacks)
        | inr (answer, lt, line) ↦
            let n = find c all + 1 in
            subst (λ m. Cuts all (cut m all later)) (sym answer)
              (line-Cuts all n later (omega arith) (omega arith) line (
                segments_from-Cuts fuel (drop n all) (omega (arith, length-drop n all))
                  (omega (arith, length-drop n all))))
      ]

  -- The segments of a delimiter's condition, on fewer bytes than an int can count: every segment is
  -- a line that ends in the delimiter and has no other, the segments and the rest make up the bytes
  -- in their order, the rest has no delimiter, and the condition never asks for too much.
  pub segments-Cuts :
      (bytes : List ℕ) → length bytes < 2 ^ 31 → Cuts bytes (segments (delimiter_condition c) bytes)
  unfolding segments
  segments-Cuts bytes small = segments_from-Cuts (suc (length bytes)) bytes (omega arith) small
