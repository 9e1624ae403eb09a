-- ===== src/Export/Planner/Exact.antt =====
-- For requests in the range of their Rust types, `plan` is a formula over unbounded numbers: of its
-- checked steps only two can overflow.
use native.Mathlib.Nat.{mul-le-mul, le_trans, mul-le-mul_left, lt_of_mul-lt-mul_right}
use Prim.Native.String.{String}
use silk_studio.Prelude.{
  ℕ, suc, ◌+◌, ◌-◌, ◌*◌, ◌/◌, ◌≤◌, ◌<◌, ◌≡◌, List, none, some, ◌||◌, arith, ltb, ◌==◌,
  if◌then◌else◌, Result, ok, err,
}
use silk_studio.Prelude.Words.{u64_max, u128_max}
use silk_studio.Export.Planner.Checked.{
  PlannerError, reserve_exceeds_target, arithmetic_overflow, impossible_audio_budget, checked_mul,
  checked_add, checked_sub, to_u64, ceil_div, ceil_div_bounds, checked_ceil_div-eq-ceil_div,
}
use silk_studio.Export.Planner.Request.{PlannerRequest, VideoRung, IsInRange, source, target_bytes}
use silk_studio.Export.Planner.{
  ExportPlan, bits_per_byte, micros_per_second, select_rung, no_feasible, check_request, reserve,
  audio, video_bitrate, feasible_rung, plan,
}

mul_u64 : (a b : ℕ) → a ≤ u64_max → b ≤ u64_max → a * b ≤ u128_max
mul_u64 a b ha hb = le_trans (mul-le-mul ha hb) (omega arith)

checked_mul_fits : (a b : ℕ) (op : String) → a * b ≤ u128_max → checked_mul a b op ≡ ok (a * b)
unfolding checked_mul
checked_mul_fits a b op h = ground arith

-- A share of at most the whole, rounded up, is at most the whole.
ceil_div-share-le : (t n d : ℕ) → 0 < d → n ≤ d → ceil_div (t * n) d ≤ t
ceil_div-share-le t n d pd h =
    let over : ceil_div (t * n) d * d < suc t * d =
      omega (arith, ceil_div_bounds (t * n) d pd, mul-le-mul_left t h) in
    let below : ceil_div (t * n) d < suc t = lt_of_mul-lt-mul_right d over in omega arith

module _ (r : PlannerRequest) where
  -- The bytes that the reserve, the audio and the video take, with no bound on the numbers.
  unfoldable pub reserved_bytes : ℕ
  reserved_bytes =
      ceil_div (target_bytes r.target * r.reserve_ratio.numerator) r.reserve_ratio.denominator
      + r.fixed_reserve_bytes

  unfoldable pub audio_product : ℕ
  audio_product = r.audio_bitrate_bps * r.duration_us * r.audio_track_count

  unfoldable pub audio_bytes : ℕ
  audio_bytes = ceil_div audio_product (bits_per_byte * micros_per_second)

  unfoldable pub bitrate_for : ℕ → ℕ
  bitrate_for budget = budget * bits_per_byte * micros_per_second / r.duration_us

module _ (r : PlannerRequest) (v : IsInRange r) (checked : check_request r ≡ ok tt) where
  checks :
      (0 < r.duration_us)
      × (0 < target_bytes r.target)
      × (0 < r.reserve_ratio.denominator)
      × (r.reserve_ratio.numerator ≤ r.reserve_ratio.denominator)
  unfolding check_request
  checks = ground arith

  -- The ratio's share is at most the target.
  ratio_share_le :
      ceil_div (target_bytes r.target * r.reserve_ratio.numerator) r.reserve_ratio.denominator
      ≤ target_bytes r.target
  ratio_share_le =
      ceil_div-share-le (target_bytes r.target) r.reserve_ratio.numerator
        r.reserve_ratio.denominator checks.2 checks.3

  reserve_lem : reserve r ≡ (
      if ltb (target_bytes r.target) (reserved_bytes r)
      then err (reserve_exceeds_target (target_bytes r.target) (reserved_bytes r))
      else ok (reserved_bytes r))
  unfolding reserve reserved_bytes checked_mul checked_add
  reserve_lem = ground (
    arith,
    v.target_in_range,
    v.fixed_reserve_in_range,
    ratio_share_le,
    mul_u64 (target_bytes r.target) r.reserve_ratio.numerator v.target_in_range
        v.numerator_in_range,
    checked_ceil_div-eq-ceil_div (target_bytes r.target * r.reserve_ratio.numerator)
        r.reserve_ratio.denominator "rounding reserve ratio",
    checks,
  )

  audio_lem :
      (reserved available : ℕ)
      → audio r reserved available ≡ (
          if ltb u128_max (audio_product r)
          then err (arithmetic_overflow "multiplying audio bitrate by track count")
          else if ltb available (audio_bytes r)
          then err
              (impossible_audio_budget (target_bytes r.target) reserved (audio_bytes r) available)
          else ok (audio_bytes r))
  unfolding audio audio_product audio_bytes checked_mul
  audio_lem reserved available =
      let product =
        mul_u64 r.audio_bitrate_bps r.duration_us v.audio_bitrate_in_range v.duration_in_range in
      ground (
        arith,
        product,
        checked_ceil_div-eq-ceil_div (audio_product r) (bits_per_byte * micros_per_second)
            "rounding audio bytes",
      )

  video_bitrate_lem :
      (budget : ℕ) → budget ≤ u64_max → video_bitrate r budget ≡ ok (bitrate_for r budget)
  unfolding video_bitrate bitrate_for
  video_bitrate_lem budget h =
      rw (checked_mul_fits budget bits_per_byte _ (omega arith))
        (rw (checked_mul_fits (budget * bits_per_byte) micros_per_second _ (omega arith)))

-- The formula that `plan` comes to once the request has passed the first guards.
unfoldable pub exact_plan : List VideoRung → PlannerRequest → Result PlannerError ExportPlan
exact_plan ladder r =
    let target = target_bytes r.target in
    let reserved = reserved_bytes r in
    let available = target - reserved in
    let budget = available - audio_bytes r in
    let bitrate = bitrate_for r budget in
    let none_feasible = no_feasible (source r) bitrate r.video_bitrate_floor_bps in
    if ltb target reserved
    then err (reserve_exceeds_target target reserved)
    else if ltb u128_max (audio_product r)
    then err (arithmetic_overflow "multiplying audio bitrate by track count")
    else if ltb available (audio_bytes r)
    then err (impossible_audio_budget target reserved (audio_bytes r) available)
    else elim (select_rung ladder (source r)) [
      | none ↦ err none_feasible
      | some rung ↦
          if bitrate == 0 || ltb bitrate r.video_bitrate_floor_bps
          then err none_feasible
          else if ltb u64_max bitrate
          then err (arithmetic_overflow "converting video bitrate to u64")
          else ok (record {
            target_bytes = target;
            reserve_bytes = reserved;
            audio_bytes = audio_bytes r;
            video_budget_bytes = budget;
            video_bitrate_bps = bitrate;
            duration_us = r.duration_us;
            audio_track_count = r.audio_track_count;
            audio_bitrate_bps = r.audio_bitrate_bps;
            rung = rung;
          })
    ]

-- For a request whose fields are in the range of their types and that passes the first guards,
-- `plan` returns the formula's result, errors included.
pub plan-eq-exact_plan :
    (ladder : List VideoRung) (r : PlannerRequest)
    → IsInRange r
    → check_request r ≡ ok tt
    → plan ladder r ≡ exact_plan ladder r
unfolding plan exact_plan feasible_rung checked_sub to_u64
plan-eq-exact_plan ladder r v c = ground (
  arith,
  v.target_in_range,
  reserve_lem r v c,
  audio_lem r v c (reserved_bytes r) (target_bytes r.target - reserved_bytes r),
  video_bitrate_lem r v c (target_bytes r.target - reserved_bytes r - audio_bytes r),
)
