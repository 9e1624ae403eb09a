-- ===== src/AudioSync/Examples.antt =====
-- Tests of a synchronizer, and the theorems applied to it. Samples are numbers here, with integer
-- operations in place of those of `f32`.
use Prim.Native.Nat.{ℕ, ◌+◌, ◌-◌, ◌*◌, ◌/◌}
use silk_studio.Prelude.{◌≡◌, refl, true, List, [], ◌∷◌, none, some, arith, ok, get_elem?}
use silk_studio.Prelude.Int.{ℤ, pos, ◌*ℤ◌, ◌+ℤ◌, ◌-ℤ◌}
use silk_studio.Prelude.Words.{saturating_add_i64, saturating_sub_i64, wrap_i64, sub_i64, abs_i64}
use silk_studio.Media.TimeBase.{millisecond, rescale, div_trunc}
use silk_studio.Media.Timeline.{to_shared, place_stamp}
use silk_studio.AudioSync.Frame.{
  s16, AudioFrame, SampleOps, AudioSyncConfig, validate_config, validate_frame,
}
use silk_studio.AudioSync.Samples.{
  decode_samples, convert_frame, convert_frames, convert_channels, output_frame_count,
  resample_frame, resample_linear,
}
use silk_studio.AudioSync.Synchronizer.{
  fresh_synchronizer, new_synchronizer, reset_source, calibrate, stamp, process_samples, process,
}
use silk_studio.AudioSync.Synchronizer.Ascending.{
  AudioInput, chunk, restart, IsAscendingFrom, output_stamps, output_stamps-IsAscendingFrom,
}
use silk_studio.AudioSync.Synchronizer.Whole.{IsUsual}
use silk_studio.AudioSync.Synchronizer.Runs.{output_frames, RunsWhole, new_synchronizer-RunsWhole}

low_byte : List ℕ → ℕ
low_byte bytes = elim (get_elem? bytes 0) [ some b ↦ b | none ↦ 0 ]

abbrev number_samples : SampleOps ℕ
number_samples = record {
  from_s16 = λ bytes. low_byte bytes;
  from_f32 = λ bytes. low_byte bytes;
  to_le_bytes = λ x. x ∷ 0 ∷ 0 ∷ 0 ∷ [];
  zero_sample = 0;
  add = λ x y. x + y;
  sub = λ x y. x - y;
  mul = λ x y. x * y;
  divided_by = λ x n. x / n;
  is_gain = λ x. true;
  floor_position = λ i s t. i * s / t;
  fraction = λ i s t. 0;
}

abbrev stereo_config : AudioSyncConfig ℕ
stereo_config = record {
  target_sample_rate = 48000;
  target_channels = 2;
  gain = 1;
  max_discontinuity_ms = pos 60000;
}

-- Two samples of one channel, at half of the target's rate.
abbrev mono_chunk : ℤ → AudioFrame
mono_chunk pts = record {
  stream_id = 1;
  sample_format = s16;
  sample_rate = 24000;
  channels = 1;
  sample_count = 2;
  pts = pts;
  time_base = millisecond;
  bytes = 7 ∷ 0 ∷ 9 ∷ 0 ∷ [];
}

abbrev two_chunks : List AudioInput
two_chunks = chunk (mono_chunk (pos 100)) ∷ restart ∷ chunk (mono_chunk (pos 7)) ∷ []

-- The second chunk comes after the source's restart, and follows the first.
two_chunks_test :
    output_stamps number_samples (fresh_synchronizer stereo_config) two_chunks ≡ pos 0 ∷ pos 1 ∷ []
unfolding process validate_frame calibrate stamp to_shared place_stamp rescale div_trunc ◌*ℤ◌
    wrap_i64 saturating_add_i64 saturating_sub_i64 ◌+ℤ◌ ◌-ℤ◌ sub_i64 abs_i64 process_samples
    decode_samples convert_channels convert_frames convert_frame resample_linear output_frame_count
    resample_frame reset_source low_byte
two_chunks_test = refl

output_stamps-IsAscendingFrom_example :
    IsAscendingFrom none
      (output_stamps number_samples (fresh_synchronizer stereo_config) two_chunks)
output_stamps-IsAscendingFrom_example =
    output_stamps-IsAscendingFrom number_samples (fresh_synchronizer stereo_config) two_chunks

stereo_synchronizer :
    new_synchronizer number_samples stereo_config ≡ ok (fresh_synchronizer stereo_config)
unfolding new_synchronizer validate_config
stereo_synchronizer = refl

mono-IsUsual : (pts : ℤ) → IsUsual stereo_config (mono_chunk pts)
unfolding output_frame_count
mono-IsUsual pts = record {
  counted = omega arith;
  targets = omega arith;
  products = omega arith;
  resampled = omega arith;
  based = omega arith;
}

new_synchronizer-RunsWhole_example :
    RunsWhole (output_frames number_samples (fresh_synchronizer stereo_config) two_chunks)
new_synchronizer-RunsWhole_example =
    new_synchronizer-RunsWhole number_samples stereo_config two_chunks
      (λ i s t positive small. refl) (λ x. refl) stereo_synchronizer
      (mono-IsUsual (pos 100), (tt, (mono-IsUsual (pos 7), tt)))
