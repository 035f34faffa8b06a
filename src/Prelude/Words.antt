-- ===== src/Prelude/Words.antt =====
-- Machine words. A signed word is its two's complement bit pattern, a number below 2^w: an i32 `v`
-- stands for `v` below 2^31, and for `v - 2^32` from there on.
use Prim.Native.Nat.{ℕ, ◌+◌, ◌-◌, ◌%◌, ◌^◌}
use mathlib.Core.Bool.{Bool, ◌&&◌}
use axebergos.Prelude.Tests.{ltb, leb, if◌then◌else◌}

abbrev pub u32_mod : ℕ
u32_mod = 2 ^ 32

abbrev pub u64_mod : ℕ
u64_mod = 2 ^ 64

abbrev pub i32_half : ℕ
i32_half = 2 ^ 31

abbrev pub i64_half : ℕ
i64_half = 2 ^ 63

-- `a + b`, `a - b`, `-a` on i32, wrapping.
abbrev pub add_i32 : ℕ → ℕ → ℕ
add_i32 a b = (a + b) % u32_mod

abbrev pub sub_i32 : ℕ → ℕ → ℕ
sub_i32 a b = (a + u32_mod - b) % u32_mod

abbrev pub neg_i32 : ℕ → ℕ
neg_i32 a = (u32_mod - a) % u32_mod

-- `a < 0`.
abbrev pub is_neg_i32 : ℕ → Bool
is_neg_i32 a = leb i32_half a

-- `a.abs()`; the least value is its own absolute value.
abbrev pub abs_i32 : ℕ → ℕ
abs_i32 a = if is_neg_i32 a then neg_i32 a else a

-- `a >= b`, signed.
abbrev pub ge_i32 : ℕ → ℕ → Bool
ge_i32 a b = leb ((b + i32_half) % u32_mod) ((a + i32_half) % u32_mod)

abbrev pub is_neg_i64 : ℕ → Bool
is_neg_i64 a = leb i64_half a

abbrev pub neg_i64 : ℕ → ℕ
neg_i64 a = (u64_mod - a) % u64_mod

abbrev pub abs_i64 : ℕ → ℕ
abs_i64 a = if is_neg_i64 a then neg_i64 a else a

-- `a <= b`, signed.
abbrev pub le_i64 : ℕ → ℕ → Bool
le_i64 a b = leb ((a + i64_half) % u64_mod) ((b + i64_half) % u64_mod)

-- `a > 0`.
abbrev pub is_pos_i32 : ℕ → Bool
is_pos_i32 a = ltb 0 a && ltb a i32_half

abbrev pub is_pos_i64 : ℕ → Bool
is_pos_i64 a = ltb 0 a && ltb a i64_half

-- `a + b` on i64 and u64, wrapping.
abbrev pub add_i64 : ℕ → ℕ → ℕ
add_i64 a b = (a + b) % u64_mod
