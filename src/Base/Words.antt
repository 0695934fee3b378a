-- ===== src/Base/Words.antt =====
-- Unsigned 32-bit arithmetic.
use Prim.Native.Nat.{ℕ, ◌*◌, ◌+◌, ◌-◌, ◌%◌, ◌^◌, ◌≤◌, ◌<◌}
use mathlib.Core.Path.{◌≡◌}
use native.Mathlib.Omega.{arith}

abbrev pub word_mod : ℕ
word_mod = 2 ^ 32

-- `a - b` on `u_int`, which wraps.
-- `+` and `*` on the `u_int` of a 32-bit machine.
abbrev pub add_word : ℕ → ℕ → ℕ
add_word a b = (a + b) % word_mod

abbrev pub mul_word : ℕ → ℕ → ℕ
mul_word a b = a * b % word_mod

abbrev pub sub_word : ℕ → ℕ → ℕ
sub_word a b = (a + word_mod - b) % word_mod

-- `a - b` as the number that it is, where it does not wrap.
pub sub_word_of_le : (a b : ℕ) → a < word_mod → b ≤ a → sub_word a b ≡ a - b
sub_word_of_le a b h p = omega arith
