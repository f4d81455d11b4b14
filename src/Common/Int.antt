-- ===== src/Common/Int.antt =====
-- Signed integers over the native numbers, and Go's `int32` as a range of them.
use Prim.Native.Nat.{ℕ, suc, ◌+◌, ◌-◌, ◌%◌, ◌^◌, ◌<◌}
use mathlib.Core.Path.{◌≡◌}
use mathlib.Core.Bool.{Bool}
use native.Mathlib.Omega.{arith}
use cluster_api_control_plan.Common.Tests.{ltb, leb, if◌then◌else◌}

-- `negsuc n` is -(n + 1).
pub data ℤ : Type 0 where
  pos : ℕ → ℤ
  negsuc : ℕ → ℤ

abbrev pub pos_part : ℤ → ℕ
pos_part (pos n) = n
pos_part (negsuc n) = 0

abbrev pub neg_part : ℤ → ℕ
neg_part (pos n) = 0
neg_part (negsuc n) = suc n

-- a - b, as an integer.
abbrev pub sub_ℕ : ℕ → ℕ → ℤ
sub_ℕ a b = if leb b a then pos (a - b) else negsuc (b - a - 1)

infix 50 ◌<ℤ◌
abbrev pub ltb_ℤ : ℤ → ℤ → Bool
ltb_ℤ a b = ltb (pos_part a + neg_part b) (pos_part b + neg_part a)

abbrev pub ◌<ℤ◌ : ℤ → ℤ → Type 0
a <ℤ b = pos_part a + neg_part b < pos_part b + neg_part a

-- The two's complement bits of an integer, cut to 32 of them.
abbrev pub bits32 : ℤ → ℕ
bits32 (pos n) = n % 2 ^ 32
bits32 (negsuc n) = 2 ^ 32 - 1 - n % 2 ^ 32

-- The `int32` that 32 bits stand for.
abbrev pub signed32 : ℕ → ℤ
signed32 b = if ltb b (2 ^ 31) then pos b else negsuc (2 ^ 32 - 1 - b)

-- Go's conversion `int32(n)` of a length.
pub to_int32 : ℕ → ℤ
to_int32 n = signed32 (n % 2 ^ 32)

-- Go's `a - b` and `a + 1` on `int32`, which wrap around.
pub sub_int32 : ℤ → ℤ → ℤ
sub_int32 a b = signed32 ((bits32 a + 2 ^ 32 - bits32 b) % 2 ^ 32)

pub inc_int32 : ℤ → ℤ
inc_int32 a = signed32 ((bits32 a + 1) % 2 ^ 32)

-- Below 2^31 nothing wraps.
pub to_int32-eq_pos : (n : ℕ) → n < 2 ^ 31 → to_int32 n ≡ pos n
unfolding to_int32
to_int32-eq_pos n h = ground arith

pub inc_int32-pos : (n : ℕ) → n + 1 < 2 ^ 31 → inc_int32 (pos n) ≡ pos (n + 1)
unfolding inc_int32
inc_int32-pos n h = ground arith

pub sub_int32-pos : (a b : ℕ) → a < 2 ^ 31 → b < 2 ^ 31 → sub_int32 (pos a) (pos b) ≡ sub_ℕ a b
unfolding sub_int32
sub_int32-pos a b h k = ground arith
