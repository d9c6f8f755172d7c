-- ===== src/Common/Int.antt =====
-- Signed integers over the native numbers, and the int64_t reading of a 64-bit word.
use Prim.Native.Nat.{ℕ, suc, ◌+◌, ◌-◌, ◌%◌, ◌^◌, ◌<◌}
use mathlib.Core.Path.{◌≡◌}
use mathlib.Core.Bool.{Bool}
use native.Mathlib.Omega.{arith}
use electric_maple.Common.Tests.{ltb, leb, if◌then◌else◌}

-- `negsuc n` is -(n + 1).
pub data ℤ : Type 0 where
  pos : ℕ → ℤ
  negsuc : ℕ → ℤ

abbrev pub pos_part : ℤ → ℕ
pos_part (pos n) = n
pos_part (negsuc n) = 0

abbrev pub neg_part : ℤ → ℕ
neg_part (pos n) = 0
neg_part (negsuc n) = suc n

-- a - b, as an integer.
abbrev pub sub_ℕ : ℕ → ℕ → ℤ
sub_ℕ a b = if leb b a then pos (a - b) else negsuc (b - a - 1)

infixl 65 ◌+ℤ◌ ◌-ℤ◌
unfoldable pub ◌+ℤ◌ : ℤ → ℤ → ℤ
a +ℤ b = sub_ℕ (pos_part a + pos_part b) (neg_part a + neg_part b)

unfoldable pub ◌-ℤ◌ : ℤ → ℤ → ℤ
a -ℤ b = sub_ℕ (pos_part a + neg_part b) (neg_part a + pos_part b)

-- Whether an integer is 0.
abbrev pub is_zero : ℤ → Bool
is_zero a = leb (pos_part a + neg_part a) 0

-- The distance from 0.
abbrev pub magnitude : ℤ → ℕ
magnitude a = pos_part a + neg_part a

abbrev pub u64_mod : ℕ
u64_mod = 2 ^ 64

-- The int64_t that a 64-bit pattern stands for (two's complement).
abbrev pub i64 : ℕ → ℤ
i64 w = if ltb w (2 ^ 63) then pos w else negsuc (2 ^ 64 - w - 1)

-- uint64_t subtraction, which wraps.
abbrev pub sub_u64 : ℕ → ℕ → ℕ
sub_u64 a b = (a + 2 ^ 64 - b) % 2 ^ 64

-- Below 2^63 the wrapped difference, read as int64_t, is the true difference.
pub i64-sub_u64 : (a b : ℕ) → a < 2 ^ 63 → b < 2 ^ 63 → i64 (sub_u64 a b) ≡ pos a -ℤ pos b
unfolding ◌-ℤ◌
i64-sub_u64 a b ha hb = ground arith

-- The int64_t that an integer wraps to.
abbrev pub wrap64 : ℤ → ℤ
wrap64 (pos n) = i64 (n % 2 ^ 64)
wrap64 (negsuc n) = i64 (2 ^ 64 - 1 - n % 2 ^ 64)

abbrev pub ltℤ : ℤ → ℤ → Bool
ltℤ a b = ltb (pos_part a + neg_part b) (pos_part b + neg_part a)
