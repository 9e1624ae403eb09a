-- ===== src/Export/Planner.antt =====
-- The target-byte planner (crates/clip-export/src/planner.rs): requests, ladders and the plan.
-- A `u64` or `u32` is a number whose range stands in `IsU64Request`; `u128` arithmetic is checked.
pub mod Checked
pub mod Request
pub mod Exact
pub mod Budget
pub mod Rungs
use Prim.Native.String.{String}
use silk_studio.Prelude.{
  ℕ, ◌-◌, ◌*◌, ◌/◌, ◌^◌, Bool, ◌&&◌, ◌||◌, List, [], ◌∷◌, Option, none, some, ltb, leb, ◌==◌,
  if◌then◌else◌, Result, ok, err, ◌>>=◌, ◌>>◌, find, ok_or,
}
use silk_studio.Prelude.Words.{u64_max}
use silk_studio.Export.Planner.Checked.{
  PlannerError, zero_duration, invalid_target, invalid_reserve_ratio, reserve_exceeds_target,
  impossible_audio_budget, no_feasible_rung, checked_mul, checked_add, checked_sub,
  checked_ceil_div, to_u64, reject_if,
}
use silk_studio.Export.Planner.Request.{
  PlannerRequest, VideoSource, VideoRung, source, target_bytes,
}

-- `VideoRung::supports_no_upscale`
unfoldable pub supports_no_upscale : VideoRung → VideoSource → Bool
supports_no_upscale r s =
    ltb 0 r.width
    && ltb 0 r.height
    && ltb 0 r.fps
    && leb r.width s.width
    && leb r.height s.height
    && leb r.fps s.fps

pub record ExportPlan : Type 0 where
  pub target_bytes : ℕ
  pub reserve_bytes : ℕ
  pub audio_bytes : ℕ
  pub video_budget_bytes : ℕ
  pub video_bitrate_bps : ℕ
  pub duration_us : ℕ
  pub audio_track_count : ℕ
  pub audio_bitrate_bps : ℕ
  pub rung : VideoRung

abbrev pub bits_per_byte : ℕ
bits_per_byte = 8

abbrev pub micros_per_second : ℕ
micros_per_second = 1_000_000

abbrev rung_of : ℕ → ℕ → ℕ → VideoRung
rung_of width height fps = record { width = width; height = height; fps = fps }

-- `DEFAULT_VIDEO_LADDER`
abbrev pub default_video_ladder : List VideoRung
default_video_ladder =
    rung_of 3_840 2_160 120
    ∷ rung_of 3_840 2_160 60
    ∷ rung_of 3_840 2_160 30
    ∷ rung_of 2_560 1_440 120
    ∷ rung_of 2_560 1_440 60
    ∷ rung_of 2_560 1_440 30
    ∷ rung_of 1_920 1_080 120
    ∷ rung_of 1_920 1_080 60
    ∷ rung_of 1_920 1_080 30
    ∷ rung_of 1_280 720 120
    ∷ rung_of 1_280 720 60
    ∷ rung_of 1_280 720 30
    ∷ rung_of 854 480 30
    ∷ rung_of 640 360 30
    ∷ []

-- `TargetBytePlanner::select_rung`
unfoldable pub select_rung : List VideoRung → VideoSource → Option VideoRung
unfolding supports_no_upscale
select_rung ladder s = find (λ rung. supports_no_upscale rung s) ladder

abbrev pub no_feasible : VideoSource → ℕ → ℕ → PlannerError
no_feasible s available floor = no_feasible_rung s.width s.height s.fps available floor

-- The first guards of `plan`.
unfoldable pub check_request : PlannerRequest → Result PlannerError (Unit {0})
check_request r = do
  reject_if (r.duration_us == 0) zero_duration
  reject_if (target_bytes r.target == 0) (invalid_target (target_bytes r.target))
  reject_if
      (r.reserve_ratio.denominator == 0
        || ltb r.reserve_ratio.denominator r.reserve_ratio.numerator)
      (invalid_reserve_ratio r.reserve_ratio.numerator r.reserve_ratio.denominator)

-- The reserve: the ratio's share of the target, rounded up, and the fixed part.
unfoldable pub reserve : PlannerRequest → Result PlannerError ℕ
reserve r = do
  let target = target_bytes r.target
  ratio_numerator ←
      checked_mul target r.reserve_ratio.numerator "multiplying target by reserve ratio"
  ratio_bytes ←
      checked_ceil_div ratio_numerator r.reserve_ratio.denominator "rounding reserve ratio"
  reserved_bytes ← checked_add ratio_bytes r.fixed_reserve_bytes "adding fixed reserve"
  reject_if (ltb target reserved_bytes) (reserve_exceeds_target target reserved_bytes)
  ok reserved_bytes

-- The bytes of all the audio tracks, which must fit in what the reserve leaves.
unfoldable pub audio : PlannerRequest → (reserved_bytes available : ℕ) → Result PlannerError ℕ
audio r reserved_bytes available = do
  track ← checked_mul r.audio_bitrate_bps r.duration_us "multiplying audio bitrate by duration"
  all_tracks ← checked_mul track r.audio_track_count "multiplying audio bitrate by track count"
  audio_bytes ←
      checked_ceil_div all_tracks (bits_per_byte * micros_per_second) "rounding audio bytes"
  reject_if (ltb available audio_bytes)
      (impossible_audio_budget (target_bytes r.target) reserved_bytes audio_bytes available)
  ok audio_bytes

-- The bitrate that the video's bytes allow over the clip's duration.
unfoldable pub video_bitrate : PlannerRequest → ℕ → Result PlannerError ℕ
video_bitrate r video_budget = do
  bits ← checked_mul video_budget bits_per_byte "converting video byte budget to bits"
  scaled ← checked_mul bits micros_per_second "converting video budget to per-second bitrate"
  ok (scaled / r.duration_us)

-- The rung that is taken: one that the ladder has, at a bitrate that is not under the floor.
unfoldable pub feasible_rung : List VideoRung → PlannerRequest → ℕ → Result PlannerError VideoRung
feasible_rung ladder r available_bps = do
  let none_feasible = no_feasible (source r) available_bps r.video_bitrate_floor_bps
  rung ← ok_or (select_rung ladder (source r)) none_feasible
  reject_if (available_bps == 0 || ltb available_bps r.video_bitrate_floor_bps) none_feasible
  ok rung

-- `TargetBytePlanner::plan`
unfoldable pub plan : List VideoRung → PlannerRequest → Result PlannerError ExportPlan
plan ladder r = do
  let target = target_bytes r.target
  check_request r
  reserved_bytes ← reserve r
  available ← checked_sub target reserved_bytes "subtracting reserve from target"
  audio_bytes ← audio r reserved_bytes available
  video_budget ← checked_sub available audio_bytes "subtracting audio from media budget"
  available_bps ← video_bitrate r video_budget
  rung ← feasible_rung ladder r available_bps
  video_bitrate_bps ← to_u64 available_bps "converting video bitrate to u64"
  reserve_u64 ← to_u64 reserved_bytes "converting reserve bytes to u64"
  audio_u64 ← to_u64 audio_bytes "converting audio bytes to u64"
  budget_u64 ← to_u64 video_budget "converting video budget to u64"
  ok (record {
    target_bytes = target;
    reserve_bytes = reserve_u64;
    audio_bytes = audio_u64;
    video_budget_bytes = budget_u64;
    video_bitrate_bps = video_bitrate_bps;
    duration_us = r.duration_us;
    audio_track_count = r.audio_track_count;
    audio_bitrate_bps = r.audio_bitrate_bps;
    rung = rung;
  })
