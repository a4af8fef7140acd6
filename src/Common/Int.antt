-- ===== src/Common/Int.antt =====
-- Go's `int` and `int64`: integers of 64 bits, in two's complement.
use cs331_t011_kubernetes_se.Common.Tests.{ltb, if◌then◌else◌}
use Prim.Native.Nat.{ℕ, zero, suc, ◌+◌, ◌-◌, ◌*◌, ◌/◌, ◌%◌, ◌^◌}
use mathlib.Core.Bool.{Bool, true, false}
use mathlib.Core.Path.{◌≡◌}
use native.Mathlib.Omega.{arith}
use Prim.Native.Nat.{◌<◌}

-- `negsuc n` is -(n + 1).
pub data ℤ : Type 0 where
  pos : ℕ → ℤ
  negsuc : ℕ → ℤ

abbrev pub pos_part : ℤ → ℕ
pos_part (pos n) = n
pos_part (negsuc n) = 0

abbrev pub neg_part : ℤ → ℕ
neg_part (pos n) = 0
neg_part (negsuc n) = suc n

abbrev pub ltb_ℤ : ℤ → ℤ → Bool
ltb_ℤ a b = ltb (pos_part a + neg_part b) (pos_part b + neg_part a)

-- The first positive number that does not fit.
unfoldable pub int_limit : ℕ
int_limit = 2 ^ 63

-- `n++`, which wraps to the least integer.
unfoldable pub inc : ℤ → ℤ
inc (pos n) = if ltb (suc n) int_limit then pos (suc n) else negsuc (int_limit - 1)
inc (negsuc zero) = pos 0
inc (negsuc (suc n)) = negsuc n

-- `a >= b`
abbrev pub geb : ℤ → ℤ → Bool
geb a b = elim (ltb_ℤ a b) [ true ↦ false | false ↦ true ]

-- `a <= 0`
abbrev pub is_nonpos : ℤ → Bool
is_nonpos (pos zero) = true
is_nonpos (pos (suc n)) = false
is_nonpos (negsuc n) = true

-- Counting up from a number below the limit does not wrap.
pub inc-pos : (n : ℕ) → suc n < int_limit → inc (pos n) ≡ pos (suc n)
unfolding inc
inc-pos n h = ground arith

-- The 64 bits of an integer, and the integer of 64 bits.
unfoldable pub to_word : ℤ → ℕ
to_word (pos n) = n
to_word (negsuc n) = 2 ^ 64 - 1 - n

unfoldable pub of_word : ℕ → ℤ
of_word n = if ltb n int_limit then pos n else negsuc (2 ^ 64 - 1 - n)

-- `a + b` and `a - b`, which wrap.
unfoldable pub add_int : ℤ → ℤ → ℤ
unfolding to_word of_word
add_int a b = of_word ((to_word a + to_word b) % 2 ^ 64)

unfoldable pub sub_int : ℤ → ℤ → ℤ
unfolding to_word of_word
sub_int a b = of_word ((to_word a + 2 ^ 64 - to_word b) % 2 ^ 64)

-- `a * b`, which wraps.
unfoldable pub mul_int : ℤ → ℤ → ℤ
unfolding to_word of_word
mul_int a b = of_word (to_word a * to_word b % 2 ^ 64)

-- `a / n`, which rounds towards 0, for a positive `n`.
unfoldable pub div_int : ℤ → ℕ → ℤ
div_int (pos a) n = pos (a / n)
div_int (negsuc a) n = if ltb (suc a) n then pos 0 else negsuc (suc a / n - 1)

-- A sum that fits does not wrap.
pub add_int-pos : (a b : ℕ) → a + b < int_limit → add_int (pos a) (pos b) ≡ pos (a + b)
unfolding add_int int_limit
add_int-pos a b h = ground arith

-- A product that fits does not wrap.
pub mul_int-pos : (a b : ℕ) → a * b < int_limit → mul_int (pos a) (pos b) ≡ pos (a * b)
unfolding mul_int int_limit
mul_int-pos a b h = ground arith
