-- ===== src/Export/Planner/Budget.antt =====
-- What a returned plan promises: it spends the target's bytes exactly, at the highest bitrate that
-- fits, on the first rung of the ladder that does not upscale.
use native.Mathlib.Nat.{div-add-mod, mod-lt}
use Prim.Native.String.{String}
use silk_studio.Prelude.{
  ℕ, suc, ◌+◌, ◌-◌, ◌*◌, ◌/◌, ◌≤◌, ◌<◌, ◌≡◌, ◌≢◌, ◌⊎◌, sym, ◌∙◌, List, some, Option-cases, inl, inr,
  arith, ok, err, Result-cases, >>=-eq-err, >>=-eq-ok,
}
use silk_studio.Prelude.Words.{u128_max}
use silk_studio.Export.Planner.Checked.{
  PlannerError, arithmetic_overflow, ceil_div, ceil_div_bounds,
}
use silk_studio.Export.Planner.Request.{PlannerRequest, VideoRung, IsInRange, source, target_bytes}
use silk_studio.Export.Planner.{ExportPlan, select_rung, check_request, plan}
use silk_studio.Export.Planner.Exact.{
  reserved_bytes, audio_bytes, audio_product, bitrate_for, exact_plan, plan-eq-exact_plan,
}

check_request_of_plan :
    (ladder : List VideoRung) (r : PlannerRequest) {p : ExportPlan}
    → plan ladder r ≡ ok p
    → check_request r ≡ ok tt
unfolding plan
check_request_of_plan ladder r h = (>>=-eq-ok (check_request r) _ h).1

exact_of_plan :
    (ladder : List VideoRung) (r : PlannerRequest) {p : ExportPlan}
    → IsInRange r
    → plan ladder r ≡ ok p
    → exact_plan ladder r ≡ ok p
exact_of_plan ladder r v h =
    sym (plan-eq-exact_plan ladder r v (check_request_of_plan ladder r h)) ∙ h

-- What the formula says of each field of a plan that it returns.
record Spends (ladder : List VideoRung) (r : PlannerRequest) (p : ExportPlan) : Type 0 where
  reserve : p.reserve_bytes ≡ reserved_bytes r
  audio : p.audio_bytes ≡ audio_bytes r
  whole : p.reserve_bytes + p.audio_bytes + p.video_budget_bytes ≡ target_bytes r.target
  bitrate : p.video_bitrate_bps ≡ bitrate_for r p.video_budget_bytes
  positive : 0 < p.video_bitrate_bps
  floor : r.video_bitrate_floor_bps ≤ p.video_bitrate_bps
  rung : select_rung ladder (source r) ≡ some p.rung

exact_plan-Spends :
    (ladder : List VideoRung) (r : PlannerRequest) {p : ExportPlan}
    → exact_plan ladder r ≡ ok p
    → Spends ladder r p
unfolding exact_plan
exact_plan-Spends ladder r h = elim (Option-cases (select_rung ladder (source r))) [
  | inl e ↦ ground arith
  | inr (rung, e) ↦ ground arith
]

duration_pos : (r : PlannerRequest) → check_request r ≡ ok tt → 0 < r.duration_us
unfolding check_request
duration_pos r h = ground arith

div_bounds : (n d : ℕ) → 0 < d → (n / d * d ≤ n) × (n < suc (n / d) * d)
div_bounds n d h = grind (arith, div-add-mod n d, mod-lt)

-- For a request whose fields are in the range of their types, a returned plan splits the target
-- into reserve, audio and video with nothing left over; its bitrate, held for the clip's duration,
-- fits the video's bytes, and one bit per second more does not; and the bitrate is positive and not
-- under the floor.
pub plan_budget :
    (ladder : List VideoRung) (r : PlannerRequest) {p : ExportPlan}
    → IsInRange r
    → plan ladder r ≡ ok p
    → (p.reserve_bytes + p.audio_bytes + p.video_budget_bytes ≡ target_bytes r.target)
      × (p.video_bitrate_bps * r.duration_us ≤ p.video_budget_bytes * 8_000_000)
      × (p.video_budget_bytes * 8_000_000 < suc p.video_bitrate_bps * r.duration_us)
      × (0 < p.video_bitrate_bps)
      × (r.video_bitrate_floor_bps ≤ p.video_bitrate_bps)
unfolding bitrate_for
plan_budget ladder r {p} v h =
    let spends = exact_plan-Spends ladder r (exact_of_plan ladder r v h) in
    let pd = duration_pos r (check_request_of_plan ladder r h) in
    let b = div_bounds (p.video_budget_bytes * 8 * 1_000_000) r.duration_us pd in
    ground (arith, spends, b)

pub plan-select_rung :
    (ladder : List VideoRung) (r : PlannerRequest) {p : ExportPlan}
    → IsInRange r
    → plan ladder r ≡ ok p
    → select_rung ladder (source r) ≡ some p.rung
plan-select_rung ladder r v h = (exact_plan-Spends ladder r (exact_of_plan ladder r v h)).rung

-- For a request whose fields are in the range of their types, the reserve of a returned plan is the
-- ratio's share of the target, rounded up, and the fixed bytes; its audio bytes are the least that
-- hold every track at its bitrate for the duration.
pub plan_rounding :
    (ladder : List VideoRung) (r : PlannerRequest) {p : ExportPlan}
    → IsInRange r
    → plan ladder r ≡ ok p
    → let share = p.reserve_bytes - r.fixed_reserve_bytes in
      let audio_bits = r.audio_bitrate_bps * r.duration_us * r.audio_track_count in
      (r.fixed_reserve_bytes ≤ p.reserve_bytes)
      × (target_bytes r.target * r.reserve_ratio.numerator ≤ share * r.reserve_ratio.denominator)
      × (share * r.reserve_ratio.denominator
          < target_bytes r.target * r.reserve_ratio.numerator + r.reserve_ratio.denominator)
      × (audio_bits ≤ p.audio_bytes * 8_000_000)
      × (p.audio_bytes * 8_000_000 < audio_bits + 8_000_000)
unfolding check_request reserved_bytes audio_bytes audio_product
plan_rounding ladder r {p} v h =
    let spends = exact_plan-Spends ladder r (exact_of_plan ladder r v h) in
    let share = target_bytes r.target * r.reserve_ratio.numerator in
    let d = r.reserve_ratio.denominator in
    let c = check_request_of_plan ladder r h in
    let e : p.reserve_bytes - r.fixed_reserve_bytes ≡ ceil_div share d =
      omega (arith, spends.reserve) in
    rw e (
      ground (
        arith,
        spends.reserve,
        spends.audio,
        c,
        ceil_div_bounds share d,
        ceil_div_bounds (r.audio_bitrate_bps * r.duration_us * r.audio_track_count) 8_000_000,
      ))

check_request_no_overflow :
    (r : PlannerRequest) (operation : String)
    → check_request r ≢ err (arithmetic_overflow operation)
unfolding check_request
check_request_no_overflow r operation h = ground arith

exact_plan_overflows :
    (ladder : List VideoRung) (r : PlannerRequest) (operation : String)
    → exact_plan ladder r ≡ err (arithmetic_overflow operation)
    → ((operation ≡ "multiplying audio bitrate by track count") × (u128_max < audio_product r))
      ⊎ (operation ≡ "converting video bitrate to u64")
unfolding exact_plan
exact_plan_overflows ladder r operation h = elim (Option-cases (select_rung ladder (source r))) [
  | inl e ↦ ground arith
  | inr (rung, e) ↦ ground arith
]

plan_first_error :
    (ladder : List VideoRung) (r : PlannerRequest) (x : PlannerError)
    → check_request r ≡ err x
    → plan ladder r ≡ err x
unfolding plan
plan_first_error ladder r x e = >>=-eq-err (check_request r) _ e

-- For a request in range the only overflows that `plan` can report are those of the audio tracks'
-- product and of a bitrate above the range of `u64`.
pub plan_overflows :
    (ladder : List VideoRung) (r : PlannerRequest) (operation : String)
    → IsInRange r
    → plan ladder r ≡ err (arithmetic_overflow operation)
    → ((operation ≡ "multiplying audio bitrate by track count") × (u128_max < audio_product r))
      ⊎ (operation ≡ "converting video bitrate to u64")
plan_overflows ladder r operation v h = elim (Result-cases (check_request r)) [
  | inl (_, e) ↦ exact_plan_overflows ladder r operation (sym (plan-eq-exact_plan ladder r v e) ∙ h)
  | inr (x, e) ↦
      absurd (check_request_no_overflow r operation (cc (e, h, plan_first_error ladder r x e)))
]
