-- ===== src/AudioSync/Frame.antt =====
-- Chunks of audio, the configuration and the checks of both (crates/audio-sync/src/lib.rs, and
-- `AudioFrame` of crates/media-types/src/frame.rs). The arithmetic of `f32` and `f64` is the
-- hardware's: a type of samples and its operations are parameters.
use silk_studio.Prelude.{
  ℕ, ◌*◌, Bool, not, ◌||◌, List, ltb, leb, ◌==◌, if◌then◌else◌, length, Result, ok, err, ◌>>=◌,
  ◌>>◌,
}
use silk_studio.Prelude.Int.{ℤ, pos, leb_ℤ}
use silk_studio.Prelude.Words.{u64_max}
use silk_studio.Media.TimeBase.{TimeBase}
use silk_studio.Media.Timeline.{Discontinuity}

pub data SampleFormat : Type 0 where
  s16 f32 : SampleFormat

-- `AudioFrame`; `bytes` is its field `data`.
pub record AudioFrame : Type 0 where
  pub stream_id : ℕ
  pub sample_format : SampleFormat
  pub sample_rate : ℕ
  pub channels : ℕ
  pub sample_count : ℕ
  pub pts : ℤ
  pub time_base : TimeBase
  pub bytes : List ℕ

-- What the code does with samples: `f32` from bytes, to bytes, and its arithmetic; and the position
-- of an output frame in the source, whose floor and fraction are computed in `f64` from the
-- frame's index and the two rates.
pub record SampleOps (F : Type 0) : Type 0 where
  pub from_s16 : List ℕ → F
  pub from_f32 : List ℕ → F
  pub to_le_bytes : F → List ℕ
  pub zero_sample : F
  pub add : F → F → F
  pub sub : F → F → F
  pub mul : F → F → F
  pub divided_by : F → ℕ → F
  pub is_gain : F → Bool
  pub floor_position : ℕ → ℕ → ℕ → ℕ
  pub fraction : ℕ → ℕ → ℕ → F

-- The reasons of `InvalidConfiguration`.
pub data AudioReason : Type 0 where
  target_sample_rate_zero target_channels_zero gain_out_of_range : AudioReason
  max_discontinuity_not_positive frame_field_zero dimensions_overflow : AudioReason

pub data AudioSyncError : Type 0 where
  invalid_configuration : AudioReason → AudioSyncError
  format_changed : AudioSyncError
  payload_truncated : (expected actual : ℕ) → AudioSyncError
  discontinuity : Discontinuity → AudioSyncError

pub record AudioSyncConfig (F : Type 0) : Type 0 where
  pub target_sample_rate : ℕ
  pub target_channels : ℕ
  pub gain : F
  pub max_discontinuity_ms : ℤ

-- A check that fails when its test holds.
abbrev pub refuse_if : Bool → AudioSyncError → Result AudioSyncError (Unit {0})
refuse_if test e = if test then err e else ok tt

-- `AudioSyncConfig::validate`
unfoldable pub validate_config :
    {F : Type 0} → SampleOps F → AudioSyncConfig F → Result AudioSyncError (Unit {0})
validate_config ops config =
    refuse_if (config.target_sample_rate == 0) (invalid_configuration target_sample_rate_zero)
    >> (refuse_if (config.target_channels == 0) (invalid_configuration target_channels_zero)
        >> (refuse_if (not (ops.is_gain config.gain)) (invalid_configuration gain_out_of_range)
            >> refuse_if (leb_ℤ config.max_discontinuity_ms (pos 0))
                (invalid_configuration max_discontinuity_not_positive)))

abbrev pub bytes_per_sample : SampleFormat → ℕ
bytes_per_sample s16 = 2
bytes_per_sample f32 = 4

-- `checked_mul` of `usize`, 64 bits wide.
abbrev pub checked_size : ℕ → ℕ → Result AudioSyncError ℕ
checked_size a b =
    if leb (a * b) u64_max then ok (a * b) else err (invalid_configuration dimensions_overflow)

-- The bytes that a frame must have.
abbrev pub expected_bytes : AudioFrame → Result AudioSyncError ℕ
expected_bytes frame = checked_size frame.sample_count frame.channels >>= λ samples.
    checked_size samples (bytes_per_sample frame.sample_format)

abbrev pub require_bytes : AudioFrame → ℕ → Result AudioSyncError (Unit {0})
require_bytes frame expected =
    refuse_if (ltb (length frame.bytes) expected) (payload_truncated expected (length frame.bytes))

-- `validate_frame`
unfoldable pub validate_frame : AudioFrame → Result AudioSyncError (Unit {0})
validate_frame frame =
    refuse_if (frame.sample_rate == 0 || (frame.channels == 0 || frame.sample_count == 0))
      (invalid_configuration frame_field_zero)
    >> (expected_bytes frame >>= require_bytes frame)
