-- ===== src/Export/Planner/Checked.antt =====
-- The planner's errors and its checked `u128` arithmetic (planner.rs).
use Prim.Native.String.{String}
use native.Mathlib.Nat.{div-add-mod, mod-lt}
use silk_studio.Prelude.{
  ℕ, ◌+◌, ◌-◌, ◌*◌, ◌/◌, ◌%◌, ◌≤◌, ◌<◌, ◌≡◌, Bool, true, false, arith, leb, ◌==◌, if◌then◌else◌,
  Result, ok, err,
}
use silk_studio.Prelude.Words.{u64_max, u128_max}

pub data PlannerError : Type 0 where
  zero_duration : PlannerError
  invalid_target : (target_bytes : ℕ) → PlannerError
  invalid_reserve_ratio : (numerator denominator : ℕ) → PlannerError
  reserve_exceeds_target : (target_bytes reserved_bytes : ℕ) → PlannerError
  arithmetic_overflow : (operation : String) → PlannerError
  impossible_audio_budget :
      (target_bytes reserved_bytes audio_bytes available_bytes : ℕ) → PlannerError
  no_feasible_rung :
      (source_width source_height source_fps available_video_bitrate_bps : ℕ)
      → (video_bitrate_floor_bps : ℕ) → PlannerError

-- `PlannerError::code`
unfoldable pub code : PlannerError → String
code zero_duration = "CLIP_EXPORT_ZERO_DURATION"
code (invalid_target _) = "CLIP_EXPORT_INVALID_TARGET"
code (invalid_reserve_ratio _ _) = "CLIP_EXPORT_INVALID_RESERVE_RATIO"
code (reserve_exceeds_target _ _) = "CLIP_EXPORT_RESERVE_EXCEEDS_TARGET"
code (arithmetic_overflow _) = "CLIP_EXPORT_ARITHMETIC_OVERFLOW"
code (impossible_audio_budget _ _ _ _) = "CLIP_EXPORT_IMPOSSIBLE_AUDIO_BUDGET"
code (no_feasible_rung _ _ _ _ _) = "CLIP_EXPORT_NO_FEASIBLE_RUNG"

-- An early `return Err(e)` under a test.
abbrev pub reject_if : Bool → PlannerError → Result PlannerError (Unit {0})
reject_if true e = err e
reject_if false e = ok tt

unfoldable pub checked_mul : ℕ → ℕ → String → Result PlannerError ℕ
checked_mul left right operation =
    if leb (left * right) u128_max then ok (left * right) else err (arithmetic_overflow operation)

unfoldable pub checked_add : ℕ → ℕ → String → Result PlannerError ℕ
checked_add left right operation =
    if leb (left + right) u128_max then ok (left + right) else err (arithmetic_overflow operation)

-- `checked_sub(..).ok_or(ArithmeticOverflow { operation })`
unfoldable pub checked_sub : ℕ → ℕ → String → Result PlannerError ℕ
checked_sub left right operation =
    if leb right left then ok (left - right) else err (arithmetic_overflow operation)

unfoldable pub checked_ceil_div : ℕ → ℕ → String → Result PlannerError ℕ
unfolding checked_add
checked_ceil_div numerator denominator operation =
    if denominator == 0
    then err (arithmetic_overflow operation)
    else if numerator % denominator == 0
    then ok (numerator / denominator)
    else checked_add (numerator / denominator) 1 operation

-- `u64::try_from(..).map_err(|_| ArithmeticOverflow { operation })`
unfoldable pub to_u64 : ℕ → String → Result PlannerError ℕ
to_u64 value operation = if leb value u64_max then ok value else err (arithmetic_overflow operation)

-- The quotient rounded up.
unfoldable pub ceil_div : ℕ → ℕ → ℕ
ceil_div n d = if n % d == 0 then n / d else n / d + 1

-- It is the least number whose product with the denominator covers the numerator.
pub ceil_div_bounds : (n d : ℕ) → 0 < d → (n ≤ ceil_div n d * d) × (ceil_div n d * d < n + d)
unfolding ceil_div
ceil_div_bounds n d h = grind (arith, div-add-mod n d, mod-lt)

-- On a numerator in range and a positive denominator the rounded division never overflows.
pub checked_ceil_div-eq-ceil_div :
    (n d : ℕ) (operation : String)
    → n ≤ u128_max
    → 0 < d
    → checked_ceil_div n d operation ≡ ok (ceil_div n d)
unfolding checked_ceil_div ceil_div
checked_ceil_div-eq-ceil_div n d operation hn hd = ground arith
