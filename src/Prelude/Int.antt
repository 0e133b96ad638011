-- ===== src/Prelude/Int.antt =====
-- Signed integers: C's `long` and `int`.
use Prim.Native.Nat.{ℕ, ◌+◌, ◌-◌, ◌%◌, ◌^◌, ◌<◌}
use mathlib.Core.Path.{◌≡◌}
use mathlib.Core.Bool.{Bool, true, false}
use native.Mathlib.Omega.{arith}
use ns1_interview_redis.Prelude.Tests.{ltb, if◌then◌else◌}

-- `negsuc n` is -(n + 1).
pub data ℤ : Type 0 where
  pos : ℕ → ℤ
  negsuc : ℕ → ℤ

-- -n
abbrev pub neg : ℕ → ℤ
neg n = if ltb 0 n then negsuc (n - 1) else pos 0

abbrev pub is_negative : ℤ → Bool
is_negative (pos n) = false
is_negative (negsuc n) = true

-- The 32-bit pattern `m`, read as an `int`.
abbrev pub signed32 : ℕ → ℤ
signed32 m = if ltb m (2 ^ 31) then pos m else negsuc (2 ^ 32 - 1 - m)

-- `(int)x` of a 64-bit `long`: the low 32 bits.
unfoldable pub to_int : ℤ → ℤ
to_int (pos n) = signed32 (n % 2 ^ 32)
to_int (negsuc n) = signed32 (2 ^ 32 - 1 - n % 2 ^ 32)

pub to_int_small : (n : ℕ) → n < 2 ^ 31 → to_int (pos n) ≡ pos n
unfolding to_int
to_int_small n h = ground arith

-- A byte as a `char`, which is signed on the platform of the Makefile's compiler.
unfoldable pub to_char : ℕ → ℤ
to_char c = if ltb c 128 then pos c else neg (256 - c)

infixl 70 ◌%ℤ◌
-- `x % m` rounds towards zero: the result has the sign of `x`.
unfoldable pub ◌%ℤ◌ : ℤ → ℕ → ℤ
pos n %ℤ m = pos (n % m)
negsuc n %ℤ m = neg ((n + 1) % m)
