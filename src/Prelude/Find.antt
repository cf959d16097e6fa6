-- ===== src/Prelude/Find.antt =====
-- The search for a byte in a list, against a predicate.
use socket_wrapper.Prelude.{
  ℕ, suc, ◌<◌, ◌≡◌, ◌≢◌, refl, ap, ◌⊎◌, inl, inr, List, [], ◌∷◌, ◌++◌, arith, length, take, drop,
  ◌==◌, Bool-cases, if◌then◌else◌,
}

-- `std::find` on a range: the index of the first element that is `c`, or the length.
unfoldable pub find : ℕ → List ℕ → ℕ
find c [] = 0
find c (x ∷ xs) = if x == c then 0 else suc (find c xs)

-- No element is `c`.
abbrev pub Lacks : ℕ → List ℕ → Type 0
Lacks c [] = Unit {0}
Lacks c (x ∷ xs) = (x ≢ c) × Lacks c xs

-- The list lacks `c`, or is split at its first `c`.
abbrev pub Split : ℕ → List ℕ → ℕ → Type 0
Split c l k =
    ((k ≡ length l) × Lacks c l)
    ⊎ ((k < length l)
        × Lacks c (take k l)
        × (l ≡ take k l ++ (c ∷ drop (suc k) l))
        × (take (suc k) l ≡ take k l ++ c ∷ []))

Split-cons : (c x : ℕ) (l : List ℕ) (k : ℕ) → x ≢ c → Split c l k → Split c (x ∷ l) (suc k)
Split-cons c x l k ne (inl (e, lacks)) = inl (ap suc e, (ne, lacks))
Split-cons c x l k ne (inr (lt, lacks, e, line)) =
    inr (omega arith, (ne, lacks), ap (◌∷◌ x) e, ap (◌∷◌ x) line)

pub find-Split : (c : ℕ) (l : List ℕ) → Split c l (find c l)
unfolding find
find-Split c [] = inl (refl, tt)
find-Split c (x ∷ l) = elim (Bool-cases (x == c)) [
  | inl here ↦
      rw (here, find)
        (inr (omega arith, tt, ap (λ y. y ∷ l) (ground arith), ap (λ y. y ∷ []) (ground arith)))
  | inr other ↦ rw (other, find) (Split-cons c x l (find c l) (ground arith) (find-Split c l))
]
