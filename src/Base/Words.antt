-- ===== src/Base/Words.antt =====
-- 64-bit words. A `size_t` is its value; a signed 64-bit number is its bit pattern, on which
-- addition, subtraction and multiplication are the unsigned ones.
use Prim.Native.Nat.{ℕ, ◌+◌, ◌-◌, ◌%◌, ◌^◌, ◌≤◌, ◌<◌}
use mathlib.Core.Path.{◌≡◌}
use native.Mathlib.Omega.{arith}

abbrev pub word : ℕ
word = 2 ^ 64

abbrev pub add64 : ℕ → ℕ → ℕ
add64 a b = (a + b) % word

abbrev pub sub64 : ℕ → ℕ → ℕ
sub64 a b = (a + word - b) % word

pub sub64-le : (a b : ℕ) → a < word → b ≤ a → sub64 a b ≡ a - b
sub64-le a b h k = omega arith

pub add64-lt : (a b : ℕ) → a + b < word → add64 a b ≡ a + b
add64-lt a b h = omega arith
