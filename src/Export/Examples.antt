-- ===== src/Export/Examples.antt =====
-- Tests of the planner and the queue, and the theorems applied to them.
use Prim.Native.String.{String}
use silk_studio.Prelude.{suc, ◌+◌, ◌*◌, ◌≤◌, ◌<◌, ◌≡◌, refl, List, [], ◌∷◌, arith, ok, err}
use silk_studio.Prelude.Words.{u32_max, u64_max}
use silk_studio.Export.Planner.Checked.{
  arithmetic_overflow, checked_mul, checked_add, checked_sub, checked_ceil_div, to_u64,
}
use silk_studio.Export.Planner.Request.{
  PlannerRequest, default_request, IsInRange, target_bytes, percent, with_reserve_ratio,
  with_fixed_reserve_bytes,
}
use silk_studio.Export.Planner.{
  ExportPlan, default_video_ladder, check_request, reserve, audio, video_bitrate, feasible_rung,
  select_rung, plan,
}
use silk_studio.Export.Planner.Exact.{exact_plan, plan-eq-exact_plan}
use silk_studio.Export.Planner.Budget.{plan_budget}
use silk_studio.Export.Queue.Job.{ExportJob}
use silk_studio.Export.Queue.{TryLock, acquired, would_block, with_terminal_history_limit}
use silk_studio.Export.Queue.Calls.{Call, submits, completes, step, run}
use silk_studio.Export.Queue.Invariant.{HasFreshIds, run-HasFreshIds}
use silk_studio.Export.Queue.Bounds.{IsBounded, run-IsBounded}
use silk_studio.Export.Queue.Fifo.{line, fifo, head_cancelled, step-fifo}

-- A minute of 1080p60 to fit 50 MB, two percent of it in reserve.
abbrev minute : PlannerRequest
minute = with_fixed_reserve_bytes (with_reserve_ratio default_request (percent 2)) 1_000

minute-IsInRange : IsInRange minute
minute-IsInRange = record {
  target_in_range = omega arith;
  duration_in_range = omega arith;
  audio_bitrate_in_range = omega arith;
  audio_track_count_in_range = omega arith;
  numerator_in_range = omega arith;
  denominator_in_range = omega arith;
  fixed_reserve_in_range = omega arith;
  floor_in_range = omega arith;
}

abbrev minute_plan : ExportPlan
minute_plan = record {
  target_bytes = 50_000_000;
  reserve_bytes = 1_001_000;
  audio_bytes = 1_440_000;
  video_budget_bytes = 47_559_000;
  video_bitrate_bps = 6_341_200;
  duration_us = 60_000_000;
  audio_track_count = 1;
  audio_bitrate_bps = 192_000;
  rung = record { width = 1_920; height = 1_080; fps = 60 };
}

minute_test : plan default_video_ladder minute ≡ ok minute_plan
unfolding plan check_request reserve audio video_bitrate feasible_rung select_rung checked_mul
    checked_add checked_sub checked_ceil_div to_u64
minute_test = refl

minute_check : check_request minute ≡ ok tt
unfolding check_request
minute_check = refl

plan-eq-exact_plan_example :
    plan default_video_ladder minute ≡ exact_plan default_video_ladder minute
plan-eq-exact_plan_example =
    plan-eq-exact_plan default_video_ladder minute minute-IsInRange minute_check

plan_budget_example :
    (minute_plan.reserve_bytes + minute_plan.audio_bytes + minute_plan.video_budget_bytes
      ≡ target_bytes minute.target)
    × (minute_plan.video_bitrate_bps * minute.duration_us
        ≤ minute_plan.video_budget_bytes * 8_000_000)
    × (minute_plan.video_budget_bytes * 8_000_000
        < suc minute_plan.video_bitrate_bps * minute.duration_us)
    × (0 < minute_plan.video_bitrate_bps)
    × (minute.video_bitrate_floor_bps ≤ minute_plan.video_bitrate_bps)
plan_budget_example =
    plan_budget default_video_ladder minute {p = minute_plan} minute-IsInRange minute_test

-- More audio than `u128` counts.
abbrev flooded : PlannerRequest
flooded = record default_request {
  duration_us = u64_max;
  audio_bitrate_bps = u64_max;
  audio_track_count = u32_max;
}

flooded-IsInRange : IsInRange flooded
flooded-IsInRange = record {
  target_in_range = omega arith;
  duration_in_range = omega arith;
  audio_bitrate_in_range = omega arith;
  audio_track_count_in_range = omega arith;
  numerator_in_range = omega arith;
  denominator_in_range = omega arith;
  fixed_reserve_in_range = omega arith;
  floor_in_range = omega arith;
}

abbrev by_tracks : String
by_tracks = "multiplying audio bitrate by track count"

flooded_test : plan default_video_ladder flooded ≡ err (arithmetic_overflow by_tracks)
unfolding plan check_request reserve audio checked_mul checked_add checked_sub checked_ceil_div
flooded_test = refl

abbrev job : ExportJob
job = record { source_path = "clip.mp4"; destination_path = "small.mp4"; plan = minute_plan }

-- Two jobs are accepted, a third call does not get the lock, and the first job is done.
abbrev history : List (TryLock × Call)
history =
    (acquired, submits job)
    ∷ (acquired, submits job)
    ∷ (would_block, submits job)
    ∷ (acquired, completes 1)
    ∷ (acquired, submits job)
    ∷ []

run-HasFreshIds_example : HasFreshIds (run history (with_terminal_history_limit 32))
run-HasFreshIds_example = run-HasFreshIds 32 history

run-IsBounded_example :
    IsBounded
      (run history (with_terminal_history_limit 32)).terminal_history_limit
      (run history (with_terminal_history_limit 32)).state
run-IsBounded_example = run-IsBounded 32 history

step-fifo_example :
    let q = run history (with_terminal_history_limit 32) in
    line (step acquired (completes 2) q).state
    ≡ fifo q.next_id (head_cancelled q.flags q.active) (completes 2) (line q.state)
step-fifo_example =
    step-fifo (completes 2) (run history (with_terminal_history_limit 32))
      (run-IsBounded 32 history)
