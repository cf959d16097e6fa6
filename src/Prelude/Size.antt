-- ===== src/Prelude/Size.antt =====
-- The C type size_t, of 64 bits: subtraction wraps around.
use socket_wrapper.Prelude.{ℕ, ◌+◌, ◌-◌, ◌%◌, ◌^◌, ◌≤◌, ◌<◌, ◌≡◌, arith}

abbrev pub size_modulus : ℕ
size_modulus = 2 ^ 64

-- `a - b` on size_t
unfoldable pub size_sub : ℕ → ℕ → ℕ
size_sub a b = (a + size_modulus - b) % size_modulus

pub size_sub_le : (a b : ℕ) → b ≤ a → a < size_modulus → size_sub a b ≡ a - b
unfolding size_sub
size_sub_le a b h k = omega arith
