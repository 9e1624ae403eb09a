-- ===== src/Prelude/Words.antt =====
-- Machine words. An unsigned word is a native number; an `i64` is an integer, and its arithmetic
-- wraps in two's complement, as the release profile of Cargo.toml (no overflow checks) makes it.
use Prim.Native.Nat.{ℕ, ◌+◌, ◌-◌, ◌%◌, ◌^◌, ◌≤◌, ◌<◌}
use mathlib.Core.Path.{◌≡◌}
use native.Mathlib.Omega.{arith}
use silk_studio.Prelude.Tests.{ltb, leb, if◌then◌else◌}
use silk_studio.Prelude.Int.{ℤ, pos, negsuc, pos_part, neg_part, ◌+ℤ◌, ◌-ℤ◌, leb_ℤ, ltb_ℤ}

abbrev pub u8_max : ℕ
u8_max = 2 ^ 8 - 1

abbrev pub u32_max : ℕ
u32_max = 2 ^ 32 - 1

abbrev pub u64_max : ℕ
u64_max = 2 ^ 64 - 1

abbrev pub u128_max : ℕ
u128_max = 2 ^ 128 - 1

-- `a + b` on `u64`
abbrev pub add_u64 : ℕ → ℕ → ℕ
add_u64 a b = (a + b) % 2 ^ 64

-- `a.saturating_add(b)` on `u64`
abbrev pub saturating_add_u64 : ℕ → ℕ → ℕ
saturating_add_u64 a b = if leb (a + b) u64_max then a + b else u64_max

abbrev pub i64_min : ℤ
i64_min = negsuc (2 ^ 63 - 1)

abbrev pub i64_max : ℤ
i64_max = pos (2 ^ 63 - 1)

-- The integer that a 64-bit pattern stands for.
signed64 : ℕ → ℤ
signed64 w = if ltb w (2 ^ 63) then pos w else negsuc (2 ^ 64 - 1 - w)

-- `as i64` of a wider integer: the low 64 bits, read as signed.
unfoldable pub wrap_i64 : ℤ → ℤ
unfolding signed64
wrap_i64 (pos n) = signed64 (n % 2 ^ 64)
wrap_i64 (negsuc n) = signed64 (2 ^ 64 - 1 - n % 2 ^ 64)

abbrev pub FitsI64 : ℤ → Type 0
FitsI64 z = (pos_part z < 2 ^ 63) × (neg_part z ≤ 2 ^ 63)

pub wrap_i64-FitsI64 : (z : ℤ) → FitsI64 (wrap_i64 z)
unfolding wrap_i64
wrap_i64-FitsI64 (pos n) = ground arith
wrap_i64-FitsI64 (negsuc n) = ground arith

pub wrap_i64-eq_of_fits : (z : ℤ) → FitsI64 z → wrap_i64 z ≡ z
unfolding wrap_i64
wrap_i64-eq_of_fits (pos n) h = ground arith
wrap_i64-eq_of_fits (negsuc n) h = ground arith

unfoldable pub add_i64 : ℤ → ℤ → ℤ
unfolding wrap_i64 ◌+ℤ◌
add_i64 a b = wrap_i64 (a +ℤ b)

unfoldable pub sub_i64 : ℤ → ℤ → ℤ
unfolding wrap_i64 ◌-ℤ◌
sub_i64 a b = wrap_i64 (a -ℤ b)

-- `i64::abs`, which wraps at the least value.
unfoldable pub abs_i64 : ℤ → ℤ
unfolding sub_i64
abs_i64 a = if ltb_ℤ a (pos 0) then sub_i64 (pos 0) a else a

clamp_i64 : ℤ → ℤ
clamp_i64 z = if leb_ℤ z i64_min then i64_min else if leb_ℤ i64_max z then i64_max else z

unfoldable pub saturating_add_i64 : ℤ → ℤ → ℤ
unfolding clamp_i64 ◌+ℤ◌
saturating_add_i64 a b = clamp_i64 (a +ℤ b)

unfoldable pub saturating_sub_i64 : ℤ → ℤ → ℤ
unfolding clamp_i64 ◌-ℤ◌
saturating_sub_i64 a b = clamp_i64 (a -ℤ b)

-- A timestamp so far from the ends of `i64` that one sum or difference of two of them is exact:
-- less than 2 ^ 62 milliseconds, some 146 million years.
abbrev pub IsSmall : ℤ → Type 0
IsSmall z = (pos_part z < 2 ^ 62) × (neg_part z < 2 ^ 62)

pub add_i64_exact : (a b : ℤ) → IsSmall a → IsSmall b → add_i64 a b ≡ a +ℤ b
unfolding add_i64
add_i64_exact a b ha hb = ground arith

pub sub_i64_exact : (a b : ℤ) → IsSmall a → IsSmall b → sub_i64 a b ≡ a -ℤ b
unfolding sub_i64
sub_i64_exact a b ha hb = ground arith

-- The same as linear facts, which `omega` takes at each call that it meets.
pub add_i64_parts :
    (a b : ℤ)
    → IsSmall a
    → IsSmall b
    → pos_part (add_i64 a b) + neg_part a + neg_part b
      ≡ neg_part (add_i64 a b) + pos_part a + pos_part b
unfolding add_i64
add_i64_parts a b ha hb = ground arith

pub sub_i64_parts :
    (a b : ℤ)
    → IsSmall a
    → IsSmall b
    → pos_part (sub_i64 a b) + neg_part a + pos_part b
      ≡ neg_part (sub_i64 a b) + pos_part a + neg_part b
unfolding sub_i64
sub_i64_parts a b ha hb = ground arith
