-- ===== src/Prelude/Int.antt =====
-- The C type int as an integer over the native numbers (the library's ℤ stands on the unary ℕ).
-- Descriptors, return codes, timeouts and errno are of this type; -1 marks an error.
use socket_wrapper.Prelude.{
  ℕ, suc, ◌-◌, ◌%◌, ◌^◌, ◌<◌, ◌≡◌, ◌≢◌, refl, ap, ◌∙◌, Bool, true, false, arith, ltb, ◌==◌,
  if◌then◌else◌,
}

-- `negsuc n` is -(n + 1).
pub data ℤ : Type 0 where
  pos : ℕ → ℤ
  negsuc : ℕ → ℤ

abbrev pub minus_one : ℤ
minus_one = negsuc 0

-- `a < 0`
abbrev pub is_negative : ℤ → Bool
is_negative (pos n) = false
is_negative (negsuc n) = true

-- `a > 0`
abbrev pub is_positive : ℤ → Bool
is_positive (pos n) = ltb 0 n
is_positive (negsuc n) = false

-- `a == b`
abbrev pub int_eq : ℤ → ℤ → Bool
int_eq (pos m) (pos n) = m == n
int_eq (pos m) (negsuc n) = false
int_eq (negsuc m) (pos n) = false
int_eq (negsuc m) (negsuc n) = m == n

-- `abs(a)`
abbrev pub nat_abs : ℤ → ℕ
nat_abs (pos n) = n
nat_abs (negsuc n) = suc n

-- The conversion of a non-negative `ptrdiff_t` to a 32-bit int.
abbrev pub to_int : ℕ → ℤ
to_int n = let m = n % 2 ^ 32 in if ltb m (2 ^ 31) then pos m else negsuc (2 ^ 32 - m - 1)

pub int_eq_refl : (a : ℤ) → int_eq a a ≡ true
int_eq_refl (pos n) = ground arith
int_eq_refl (negsuc n) = ground arith

pub int_eq→eq : (a b : ℤ) → int_eq a b ≡ true → a ≡ b
int_eq→eq (pos m) (pos n) h = ground arith
int_eq→eq (pos m) (negsuc n) h = ground arith
int_eq→eq (negsuc m) (pos n) h = ground arith
int_eq→eq (negsuc m) (negsuc n) h = ground arith

pub ne→int_eq : (a b : ℤ) → a ≢ b → int_eq a b ≡ false
ne→int_eq (pos m) (pos n) h = ground arith
ne→int_eq (pos m) (negsuc n) h = refl
ne→int_eq (negsuc m) (pos n) h = refl
ne→int_eq (negsuc m) (negsuc n) h = ground arith

pub to_int_small : (n : ℕ) → n < 2 ^ 31 → to_int n ≡ pos n
to_int_small n h = ground arith

pub int_eq→ne : (a b : ℤ) → int_eq a b ≡ false → a ≢ b
int_eq→ne a b h e = cc (ap (λ x. int_eq x b) e ∙ int_eq_refl b)
