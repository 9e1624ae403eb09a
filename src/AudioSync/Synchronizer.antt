-- ===== src/AudioSync/Synchronizer.antt =====
-- `AudioSynchronizer` of crates/audio-sync/src/lib.rs. `none` is a panic: a time base whose
-- denominator is 0, or a sample index that is out of bounds.
pub mod Ascending
pub mod Based
pub mod Whole
pub mod Sound
pub mod Runs
use silk_studio.Prelude.{
  ℕ, suc, ◌+◌, ◌*◌, ◌/◌, min, max, Bool, not, List, [], ◌∷◌, ◌++◌, Option, none, some, leb, ◌==◌,
  if◌then◌else◌, Result, ok, err,
}
use silk_studio.Prelude.Int.{ℤ, pos, pos_part, neg_part, ltb_ℤ}
use silk_studio.Prelude.Words.{u32_max, saturating_add_u64, saturating_add_i64, saturating_sub_i64}
use silk_studio.Media.TimeBase.{TimeBase, time_base_eq, millisecond, magnitude}
use silk_studio.Media.Timeline.{Discontinuity, MediaTimeline, new_timeline, Stamped, to_shared}
use silk_studio.AudioSync.Frame.{
  SampleFormat, f32, AudioFrame, SampleOps, AudioSyncError, format_changed, discontinuity,
  AudioSyncConfig, validate_config, validate_frame,
}
use silk_studio.AudioSync.Samples.{decode_samples, convert_channels, resample_linear, ◌>>=?◌}

pub record AudioSyncMetrics : Type 0 where
  pub input_chunks : ℕ
  pub output_chunks : ℕ
  pub input_samples : ℕ
  pub output_samples : ℕ
  pub resampled_chunks : ℕ
  pub channel_converted_chunks : ℕ
  pub discontinuities : ℕ
  pub last_drift_ms : ℤ
  pub max_abs_drift_ms : ℕ

abbrev pub no_metrics : AudioSyncMetrics
no_metrics = record {
  input_chunks = 0;
  output_chunks = 0;
  input_samples = 0;
  output_samples = 0;
  resampled_chunks = 0;
  channel_converted_chunks = 0;
  discontinuities = 0;
  last_drift_ms = pos 0;
  max_abs_drift_ms = 0;
}

pub record AudioSynchronizer (F : Type 0) : Type 0 where
  pub config : AudioSyncConfig F
  pub source_time_base : Option TimeBase
  pub timeline : Option MediaTimeline
  pub timeline_offset_ms : ℤ
  pub last_output_pts : Option ℤ
  pub expected_next_pts : Option ℤ
  pub metrics : AudioSyncMetrics

-- `unwrap_or`, and `or_else` with its value given.
abbrev pub or_value : {A : Type 0} → Option A → A → A
or_value none a = a
or_value (some b) a = b

abbrev after_last : Option ℤ → Option ℤ
after_last none = none
after_last (some last) = some (saturating_add_i64 last (pos 1))

abbrev first_of : Option ℤ → Option ℤ → Option ℤ
first_of none later = later
first_of (some a) later = some a

-- The timestamp, or the last one that was put out if it is later.
abbrev pub hold_back : Option ℤ → ℤ → ℤ
hold_back none shared = shared
hold_back (some previous) shared = if ltb_ℤ shared previous then previous else shared

abbrev pub measure_drift : Option ℤ → ℤ → AudioSyncMetrics → AudioSyncMetrics
measure_drift none shared m = m
measure_drift (some expected) shared m =
    let drift = saturating_sub_i64 shared expected in
    record m { last_drift_ms = drift; max_abs_drift_ms = max m.max_abs_drift_ms (magnitude drift) }

-- The length of a chunk, at least one millisecond; a `u32` times 1,000 fits `i64`.
abbrev pub duration_ms : (samples rate : ℕ) → ℤ
duration_ms samples rate = pos (max (samples * 1000 / rate) 1)

abbrev pub count_if : Bool → ℕ → ℕ
count_if test n = if test then saturating_add_u64 n 1 else n

-- What a call returns, and the state that it leaves.
abbrev pub Processed : Type 0 → Type 0
Processed F = Result AudioSyncError AudioFrame × AudioSynchronizer F

module _ {F : Type 0} where
  abbrev pub fresh_synchronizer : AudioSyncConfig F → AudioSynchronizer F
  fresh_synchronizer config = record {
    config = config;
    source_time_base = none;
    timeline = none;
    timeline_offset_ms = pos 0;
    last_output_pts = none;
    expected_next_pts = none;
    metrics = no_metrics;
  }

  -- `reset_timeline`
  unfoldable pub reset_timeline : AudioSynchronizer F → AudioSynchronizer F
  reset_timeline a = record a {
    source_time_base = none;
    timeline = none;
    timeline_offset_ms = pos 0;
    last_output_pts = none;
    expected_next_pts = none;
  }

  -- `reset_source`
  unfoldable pub reset_source : AudioSynchronizer F → AudioSynchronizer F
  reset_source a = record a {
    source_time_base = none;
    timeline = none;
    timeline_offset_ms =
        or_value (first_of a.expected_next_pts (after_last a.last_output_pts)) (pos 0);
  }

  -- The first chunk fixes the source's time base, and later ones must have it.
  abbrev pub calibrate_from :
      AudioSynchronizer F → TimeBase → Option TimeBase → Result AudioSyncError (AudioSynchronizer F)
  calibrate_from a time_base (some known) =
      if time_base_eq known time_base then ok a else err format_changed
  calibrate_from a time_base none = ok (record a {
    source_time_base = some time_base;
    timeline = some (new_timeline time_base a.config.max_discontinuity_ms);
  })

  unfoldable pub calibrate :
      AudioSynchronizer F → TimeBase → Result AudioSyncError (AudioSynchronizer F)
  calibrate a time_base = calibrate_from a time_base a.source_time_base

  -- The outcome of `to_shared`, with the timeline that it leaves.
  abbrev pub keep_stamp :
      AudioSynchronizer F → Stamped → Result Discontinuity ℤ × AudioSynchronizer F
  keep_stamp a (ok shared, tl) = (ok shared, record a { timeline = some tl })
  keep_stamp a (err why, tl) = (
    err why,
    record a {
      timeline = some tl;
      metrics = record a.metrics {
        discontinuities = saturating_add_u64 a.metrics.discontinuities 1;
      };
    },
  )

  unfoldable pub stamp :
      AudioSynchronizer F → ℤ → Option (Result Discontinuity ℤ × AudioSynchronizer F)
  stamp a ticks =
      a.timeline >>=? λ tl. to_shared tl ticks >>=? λ stamped. some (keep_stamp a stamped)

  -- The counters after a chunk, the last of them of `u32` samples.
  abbrev pub count_chunk :
      AudioSyncConfig F → AudioFrame → (output : ℕ) → AudioSyncMetrics → AudioSyncMetrics
  count_chunk config frame output m = record m {
    input_chunks = saturating_add_u64 m.input_chunks 1;
    output_chunks = saturating_add_u64 m.output_chunks 1;
    input_samples = saturating_add_u64 m.input_samples frame.sample_count;
    output_samples = saturating_add_u64 m.output_samples output;
    resampled_chunks =
        count_if (not (frame.sample_rate == config.target_sample_rate)) m.resampled_chunks;
    channel_converted_chunks =
        count_if (not (frame.channels == config.target_channels)) m.channel_converted_chunks;
  }

module _ {F : Type 0} (ops : SampleOps F) where
  -- `AudioSynchronizer::new`
  unfoldable pub new_synchronizer : AudioSyncConfig F → Result AudioSyncError (AudioSynchronizer F)
  new_synchronizer config = elim (validate_config ops config) [
    | ok _ ↦ ok (fresh_synchronizer config)
    | err e ↦ err e
  ]

  -- The samples in the encoder's channels and rate, and the number of frames.
  abbrev pub convert_decoded :
      AudioSyncConfig F
      → AudioFrame
      → Result AudioSyncError (List F)
      → Option (Result AudioSyncError (List F × ℕ))
  convert_decoded config frame (err e) = some (err e)
  convert_decoded config frame (ok source) =
      convert_channels ops source frame.sample_count frame.channels config.target_channels
      >>=? λ converted.
          resample_linear ops converted frame.sample_count config.target_channels frame.sample_rate
            config.target_sample_rate
          >>=? λ resampled. some (ok resampled)

  unfoldable pub process_samples :
      AudioSyncConfig F → AudioFrame → Option (Result AudioSyncError (List F × ℕ))
  process_samples config frame = convert_decoded config frame (decode_samples ops frame)

  -- The samples with the gain, as bytes.
  abbrev pub encode_samples : F → List F → List ℕ
  encode_samples gain [] = []
  encode_samples gain (x ∷ xs) = ops.to_le_bytes (ops.mul x gain) ++ encode_samples gain xs

  abbrev pub output_frame : AudioSyncConfig F → AudioFrame → ℤ → (output : ℕ) → List F → AudioFrame
  output_frame config frame shared output samples = record {
    stream_id = frame.stream_id;
    sample_format = f32;
    sample_rate = config.target_sample_rate;
    channels = config.target_channels;
    sample_count = output;
    pts = shared;
    time_base = millisecond;
    bytes = encode_samples config.gain samples;
  }

  -- The end of `process`, once the samples are there.
  abbrev pub deliver :
      AudioSynchronizer F → AudioFrame → ℤ → Result AudioSyncError (List F × ℕ) → Processed F
  deliver a frame shared (err e) = (err e, a)
  deliver a frame shared (ok (samples, frames)) =
      let output = min frames u32_max in
      (
        ok (output_frame a.config frame shared output samples),
        record a {
          last_output_pts = some shared;
          expected_next_pts =
              some (saturating_add_i64 shared (duration_ms output a.config.target_sample_rate));
          metrics = count_chunk a.config frame output a.metrics;
        },
      )

  -- `process` from the timestamp on.
  abbrev pub process_stamped :
      AudioFrame → Result Discontinuity ℤ × AudioSynchronizer F → Option (Processed F)
  process_stamped frame (err why, a) = some (err (discontinuity why), a)
  process_stamped frame (ok stamped, a) =
      let shared = hold_back a.last_output_pts (saturating_add_i64 stamped a.timeline_offset_ms) in
      let measured = record a { metrics = measure_drift a.expected_next_pts shared a.metrics } in
      process_samples measured.config frame >>=? λ r. some (deliver measured frame shared r)

  abbrev pub process_calibrated :
      AudioSynchronizer F
      → AudioFrame
      → Result AudioSyncError (AudioSynchronizer F)
      → Option (Processed F)
  process_calibrated a frame (err e) = some (err e, a)
  process_calibrated a frame (ok b) = stamp b frame.pts >>=? process_stamped frame

  abbrev pub process_valid :
      AudioSynchronizer F → AudioFrame → Result AudioSyncError (Unit {0}) → Option (Processed F)
  process_valid a frame (err e) = some (err e, a)
  process_valid a frame (ok u) = process_calibrated a frame (calibrate a frame.time_base)

  -- `process`
  unfoldable pub process : AudioSynchronizer F → AudioFrame → Option (Processed F)
  process a frame = process_valid a frame (validate_frame frame)
