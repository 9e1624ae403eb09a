-- ===== src/Export/Planner/Request.antt =====
-- What the planner is asked (planner.rs): sizes, ratios, sources, rungs and the request's builder.
use silk_studio.Prelude.{ℕ, ◌≤◌}
use silk_studio.Prelude.Words.{u32_max, u64_max}

-- The decimal byte targets of the presets.
abbrev pub target_bytes_20m : ℕ
target_bytes_20m = 20_000_000

abbrev pub target_bytes_50m : ℕ
target_bytes_50m = 50_000_000

abbrev pub target_bytes_500m : ℕ
target_bytes_500m = 500_000_000

pub data TargetSize : Type 0 where
  small medium large : TargetSize
  custom : ℕ → TargetSize

-- `TargetSize::bytes`
abbrev pub target_bytes : TargetSize → ℕ
target_bytes small = target_bytes_20m
target_bytes medium = target_bytes_50m
target_bytes large = target_bytes_500m
target_bytes (custom bytes) = bytes

pub record Ratio : Type 0 where
  pub numerator : ℕ
  pub denominator : ℕ

-- `Ratio::zero` and `Ratio::percent`
abbrev pub zero_ratio : Ratio
zero_ratio = record { numerator = 0; denominator = 1 }

abbrev pub percent : ℕ → Ratio
percent p = record { numerator = p; denominator = 100 }

pub record VideoSource : Type 0 where
  pub width : ℕ
  pub height : ℕ
  pub fps : ℕ

pub record VideoRung : Type 0 where
  pub width : ℕ
  pub height : ℕ
  pub fps : ℕ

pub record PlannerRequest : Type 0 where
  pub target : TargetSize
  pub duration_us : ℕ
  pub audio_bitrate_bps : ℕ
  pub audio_track_count : ℕ
  pub reserve_ratio : Ratio
  pub fixed_reserve_bytes : ℕ
  pub video_bitrate_floor_bps : ℕ
  pub source_width : ℕ
  pub source_height : ℕ
  pub source_fps : ℕ

-- `PlannerRequest::default`
abbrev pub default_request : PlannerRequest
default_request = record {
  target = medium;
  duration_us = 60_000_000;
  audio_bitrate_bps = 192_000;
  audio_track_count = 1;
  reserve_ratio = zero_ratio;
  fixed_reserve_bytes = 0;
  video_bitrate_floor_bps = 1_000_000;
  source_width = 1_920;
  source_height = 1_080;
  source_fps = 60;
}

-- `PlannerRequest::new`
abbrev pub new_request : TargetSize → ℕ → ℕ → VideoSource → PlannerRequest
new_request target duration_us audio_bitrate_bps s = record default_request {
  target = target;
  duration_us = duration_us;
  audio_bitrate_bps = audio_bitrate_bps;
  source_width = s.width;
  source_height = s.height;
  source_fps = s.fps;
}

-- `PlannerRequest::source`
abbrev pub source : PlannerRequest → VideoSource
source r = record { width = r.source_width; height = r.source_height; fps = r.source_fps }

-- The builder methods.
abbrev pub with_reserve_ratio : PlannerRequest → Ratio → PlannerRequest
with_reserve_ratio r ratio = record r { reserve_ratio = ratio }

abbrev pub with_fixed_reserve_bytes : PlannerRequest → ℕ → PlannerRequest
with_fixed_reserve_bytes r bytes = record r { fixed_reserve_bytes = bytes }

abbrev pub with_video_bitrate_floor_bps : PlannerRequest → ℕ → PlannerRequest
with_video_bitrate_floor_bps r floor = record r { video_bitrate_floor_bps = floor }

abbrev pub with_audio_track_count : PlannerRequest → ℕ → PlannerRequest
with_audio_track_count r count = record r { audio_track_count = count }

abbrev pub with_source : PlannerRequest → VideoSource → PlannerRequest
with_source r s = record r { source_width = s.width; source_height = s.height; source_fps = s.fps }

-- Every field is in the range of its Rust type.
pub record IsInRange (r : PlannerRequest) : Type 0 where
  pub target_in_range : target_bytes r.target ≤ u64_max
  pub duration_in_range : r.duration_us ≤ u64_max
  pub audio_bitrate_in_range : r.audio_bitrate_bps ≤ u64_max
  pub audio_track_count_in_range : r.audio_track_count ≤ u32_max
  pub numerator_in_range : r.reserve_ratio.numerator ≤ u64_max
  pub denominator_in_range : r.reserve_ratio.denominator ≤ u64_max
  pub fixed_reserve_in_range : r.fixed_reserve_bytes ≤ u64_max
  pub floor_in_range : r.video_bitrate_floor_bps ≤ u64_max
