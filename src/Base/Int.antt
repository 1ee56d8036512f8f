-- ===== src/Base/Int.antt =====
-- Signed integers over the native numbers, and Go's int64 arithmetic on them, which wraps.
use Prim.Native.Nat.{ℕ, suc, ◌+◌, ◌-◌, ◌*◌, ◌%◌, ◌^◌}
use mathlib.Core.Bool.{Bool}
use agent_comm_platform.Base.Tests.{ltb, leb, if◌then◌else◌}

-- `negsuc n` is -(n + 1).
pub data ℤ : Type 0 where
  pos : ℕ → ℤ
  negsuc : ℕ → ℤ

abbrev pub pos_part : ℤ → ℕ
pos_part (pos n) = n
pos_part (negsuc n) = 0

abbrev pub neg_part : ℤ → ℕ
neg_part (pos n) = 0
neg_part (negsuc n) = suc n

-- a - b, as an integer.
abbrev pub sub_ℕ : ℕ → ℕ → ℤ
sub_ℕ a b = if leb b a then pos (a - b) else negsuc (b - a - 1)

abbrev pub ltb_ℤ : ℤ → ℤ → Bool
ltb_ℤ a b = ltb (pos_part a + neg_part b) (pos_part b + neg_part a)

abbrev pub leb_ℤ : ℤ → ℤ → Bool
leb_ℤ a b = leb (pos_part a + neg_part b) (pos_part b + neg_part a)

-- The int64 with the two's complement pattern `w`, for `w` below 2 ^ 64.
unfoldable pub of_word64 : ℕ → ℤ
of_word64 w = if ltb w (2 ^ 63) then pos w else negsuc (2 ^ 64 - 1 - w)

-- The int32 with the pattern `w`, for `w` below 2 ^ 32.
of_word32 : ℕ → ℤ
of_word32 w = if ltb w (2 ^ 31) then pos w else negsuc (2 ^ 32 - 1 - w)

-- Multiplication of an int64 by a positive constant, wrapped around.
unfoldable pub mul_int64 : ℤ → ℕ → ℤ
mul_int64 (pos n) k = of_word64 (n * k % 2 ^ 64)
mul_int64 (negsuc n) k = of_word64 ((2 ^ 64 - suc n * k % 2 ^ 64) % 2 ^ 64)

-- Go's conversion of an int to an int32.
unfoldable pub to_int32 : ℤ → ℤ
unfolding of_word32
to_int32 (pos n) = of_word32 (n % 2 ^ 32)
to_int32 (negsuc n) = of_word32 ((2 ^ 32 - suc n % 2 ^ 32) % 2 ^ 32)
