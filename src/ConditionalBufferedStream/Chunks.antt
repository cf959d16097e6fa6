-- ===== src/ConditionalBufferedStream/Chunks.antt =====
-- The segments of a stream that comes in chunks, and those of the whole.
use mathlib.Core.List.{flatten}
use socket_wrapper.Prelude.{
  ℕ, ◌^◌, ◌<◌, ◌≡◌, refl, sym, ap, ◌∙◌, List, [], ◌∷◌, ◌++◌, arith, length, length-append,
  append-nil, append_assoc, true, false, ◌==◌,
}
use socket_wrapper.Prelude.Find.{Lacks}
use socket_wrapper.ConditionalBufferedStream.{BufferEventCondition, delimiter_condition}
use socket_wrapper.ConditionalBufferedStream.Segments.{segments}
use socket_wrapper.ConditionalBufferedStream.Lines.{
  AllLines, AllLines-append, flatten-append, segments-Cuts,
}

-- What a worker delivers that holds `rest` and then gets the chunks one by one, and what it holds at
-- the end.
pub feed : BufferEventCondition → List ℕ → List (List ℕ) → List (List ℕ) × List ℕ
feed condition rest [] = ([], rest)
feed condition rest (chunk ∷ chunks) =
    let s = segments condition (rest ++ chunk) in
    let (later, last) = feed condition s.rest chunks in (s.delivered ++ later, last)

abbrev cons_line : List ℕ → List (List ℕ) × List ℕ → List (List ℕ) × List ℕ
cons_line line (lines, rest) = (line ∷ lines, rest)

-- The reference: the bytes in one pass, where `line` is the beginning of the current line.
unfoldable pub split_lines : ℕ → List ℕ → List ℕ → List (List ℕ) × List ℕ
split_lines c line [] = ([], line)
split_lines c line (x ∷ bytes) = elim (x == c) [
  | true ↦ cons_line (line ++ x ∷ []) (split_lines c [] bytes)
  | false ↦ split_lines c (line ++ x ∷ []) bytes
]

chunk_small :
    (rest chunk later : List ℕ)
    → length (rest ++ (chunk ++ later)) < 2 ^ 31
    → length (rest ++ chunk) < 2 ^ 31
chunk_small rest chunk later h = omega (
  arith,
  length-append rest chunk,
  length-append rest (chunk ++ later),
  length-append chunk later,
)

rest_small :
    (delivered left rest chunk later : List ℕ)
    → delivered ++ left ≡ rest ++ chunk
    → length (rest ++ (chunk ++ later)) < 2 ^ 31
    → length (left ++ later) < 2 ^ 31
rest_small delivered left rest chunk later e h = omega (
  arith,
  ap length e,
  length-append delivered left,
  length-append left later,
  length-append rest chunk,
  length-append rest (chunk ++ later),
  length-append chunk later,
)

module _ (c : ℕ) where
  pub split_lines-rest :
      (line rest : List ℕ) → Lacks c rest → split_lines c line rest ≡ ([], line ++ rest)
  unfolding split_lines
  split_lines-rest line [] lacks = ap (λ l. ([], l)) (sym (append-nil line))
  split_lines-rest line (x ∷ rest) lacks =
      let other : (x == c) ≡ false = ground (arith, lacks.0) in
      rw (other, split_lines)
        (split_lines-rest (line ++ x ∷ []) rest lacks.1
          ∙ ap (λ l. ([], l)) (append_assoc line (x ∷ []) rest))

  split_lines-line :
      (line more bytes : List ℕ)
      → Lacks c more
      → split_lines c line (more ++ (c ∷ bytes))
        ≡ cons_line (line ++ (more ++ c ∷ [])) (split_lines c [] bytes)
  unfolding split_lines
  split_lines-line line [] bytes lacks =
      let same : (c == c) ≡ true = ground arith in rw (same, split_lines)
  split_lines-line line (x ∷ more) bytes lacks =
      let other : (x == c) ≡ false = ground (arith, lacks.0) in
      rw (other, split_lines)
        (split_lines-line (line ++ x ∷ []) more bytes lacks.1
          ∙ ap (λ l. cons_line l (split_lines c [] bytes))
              (append_assoc line (x ∷ []) (more ++ c ∷ [])))

  -- Lines in front of the bytes stand in front of what the reference makes of these.
  pub split_lines-append :
      (lines : List (List ℕ)) (bytes : List ℕ)
      → AllLines c lines
      → split_lines c [] (flatten lines ++ bytes)
        ≡ (lines ++ (split_lines c [] bytes).0, (split_lines c [] bytes).1)
  unfolding flatten
  split_lines-append [] bytes all = refl
  split_lines-append (segment ∷ lines) bytes ((line, line_lacks, e), all) =
      let rest = flatten lines ++ bytes in
      let joined : (segment ++ flatten lines) ++ bytes ≡ line ++ (c ∷ rest) =
        rw e
          (append_assoc (line ++ c ∷ []) (flatten lines) bytes ∙ append_assoc line (c ∷ []) rest) in
      ap (split_lines c []) joined
      ∙ split_lines-line [] line rest line_lacks
      ∙ ap (cons_line (line ++ c ∷ [])) (split_lines-append lines bytes all)
      ∙ ap (λ l. (l ∷ (lines ++ (split_lines c [] bytes).0), (split_lines c [] bytes).1)) (sym e)

  -- Lines and a rest are what the reference makes of them joined.
  pub split_lines-flatten :
      (lines : List (List ℕ)) (rest : List ℕ)
      → AllLines c lines
      → Lacks c rest
      → split_lines c [] (flatten lines ++ rest) ≡ (lines, rest)
  split_lines-flatten lines rest all lacks =
      split_lines-append lines rest all
      ∙ ap (λ (l : List (List ℕ) × List ℕ). (lines ++ l.0, l.1)) (split_lines-rest [] rest lacks)
      ∙ ap (λ l. (l, rest)) (append-nil lines)

  -- The lines and the rest that are fed make up the bytes.
  feed-whole :
      (chunks : List (List ℕ)) (rest : List ℕ)
      → Lacks c rest
      → length (rest ++ flatten chunks) < 2 ^ 31
      → let (lines, last) = feed (delimiter_condition c) rest chunks in
        AllLines c lines × Lacks c last × (flatten lines ++ last ≡ rest ++ flatten chunks)
  unfolding feed flatten
  feed-whole [] rest lacks small = (tt, lacks, sym (append-nil rest))
  feed-whole (chunk ∷ chunks) rest lacks small =
      let s = segments (delimiter_condition c) (rest ++ chunk) in
      let cuts = segments-Cuts c (rest ++ chunk) (chunk_small rest chunk (flatten chunks) small) in
      let (lines, last_lacks, whole) =
        feed-whole chunks s.rest cuts.rest_lacks
          (rest_small (flatten s.delivered) s.rest rest chunk (flatten chunks) cuts.whole small) in
      let (later, last) = feed (delimiter_condition c) s.rest chunks in
      (
        AllLines-append c s.delivered later cuts.lines lines,
        last_lacks,
        ap (λ l. l ++ last) (flatten-append s.delivered later)
            ∙ append_assoc (flatten s.delivered) (flatten later) last
            ∙ ap (λ l. flatten s.delivered ++ l) whole
            ∙ sym (append_assoc (flatten s.delivered) s.rest (flatten chunks))
            ∙ ap (λ l. l ++ flatten chunks) cuts.whole
            ∙ append_assoc rest chunk (flatten chunks),
      )

  -- The chunks are fewer bytes than an int can count. However the reads cut the stream into chunks, the
  -- segments of a delimiter's condition that are delivered for one chunk after another, and the bytes
  -- that stay, are what one pass over the whole stream splits off and leaves.
  pub feed-split_lines :
      (chunks : List (List ℕ))
      → length (flatten chunks) < 2 ^ 31
      → feed (delimiter_condition c) [] chunks ≡ split_lines c [] (flatten chunks)
  feed-split_lines chunks small =
      let (all, lacks, whole) = feed-whole chunks [] tt small in
      let (lines, last) = feed (delimiter_condition c) [] chunks in
      sym (split_lines-flatten lines last all lacks) ∙ ap (split_lines c []) whole
