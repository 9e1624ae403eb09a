-- ===== src/AudioSync/Synchronizer/Whole.antt =====
-- What a call of `process` returns for chunks of usual sizes.
use native.Mathlib.Nat.{mul-le-mul}
use silk_studio.Prelude.{
  ℕ, ◌+◌, ◌*◌, ◌^◌, ◌≤◌, ◌<◌, min, Bool-cases, inl, inr, ◌≡◌, ◌≢◌, refl, List, [], ◌∷◌, Option,
  none, some, arith, length, length-append, ltb, Result, ok, err,
}
use silk_studio.Prelude.Int.{ℤ}
use silk_studio.Prelude.Words.{u32_max, saturating_add_i64}
use silk_studio.Media.TimeBase.{magnitude}
use silk_studio.Media.Timeline.{Discontinuity}
use silk_studio.AudioSync.Frame.{
  AudioFrame, bytes_per_sample, SampleOps, AudioSyncError, AudioSyncConfig,
}
use silk_studio.AudioSync.Samples.{decode_samples, convert_channels, resample_linear, ◌>>=?◌}
use silk_studio.AudioSync.Samples.Lengths.{Yields, length-decode_chunks, convert_channels-Yields}
use silk_studio.AudioSync.Samples.Resampled.{resampled_count, FloorsExactly, resample_linear_whole}
use silk_studio.AudioSync.Synchronizer.{
  AudioSynchronizer, hold_back, measure_drift, Processed, encode_samples, convert_decoded,
  process_samples, deliver, process_stamped,
}
use silk_studio.AudioSync.Synchronizer.Based.{IsBased}

-- The sizes of a chunk, which the fields' types bound but for the products; the denominator of its
-- time base is not 0.
pub record IsUsual {F : Type 0} (config : AudioSyncConfig F) (f : AudioFrame) : Type 0 where
  pub counted : f.sample_count < 2 ^ 32
  pub targets : config.target_channels < 2 ^ 16
  pub products : f.sample_count * config.target_sample_rate + f.sample_rate < 2 ^ 53
  pub resampled : resampled_count f.sample_count f.sample_rate config.target_sample_rate < 2 ^ 32
  pub based : magnitude f.time_base.den ≢ 0

-- `f32::to_le_bytes` gives four bytes.
abbrev pub EncodesFour : {F : Type 0} → SampleOps F → Type 0
EncodesFour {F} ops = (x : F) → length (ops.to_le_bytes x) ≡ 4

-- The bytes of a chunk are those of its samples.
abbrev pub IsWhole : AudioFrame → Type 0
IsWhole f = length f.bytes ≡ 4 * (f.sample_count * f.channels)

-- A call that does not panic: it keeps the configuration and a state that is based, and a chunk
-- that it returns is whole.
abbrev pub IsSound : {F : Type 0} → AudioSyncConfig F → Option (Processed F) → Type 0
IsSound config none = ⊥
IsSound config (some (err e, b)) = (b.config ≡ config) × IsBased b
IsSound config (some (ok out, b)) = (b.config ≡ config) × IsBased b × IsWhole out

module _ {F : Type 0} (ops : SampleOps F) where
  length-encode_samples :
      (gain : F) (xs : List F)
      → EncodesFour ops
      → length (encode_samples ops gain xs) ≡ 4 * length xs
  length-encode_samples gain [] four = omega arith
  length-encode_samples gain (x ∷ xs) four = omega (
    arith,
    length-append (ops.to_le_bytes (ops.mul x gain)) (encode_samples ops gain xs),
    four (ops.mul x gain),
    length-encode_samples gain xs four,
  )

  abbrev SamplesWhole :
      AudioSyncConfig F → AudioFrame → Option (Result AudioSyncError (List F × ℕ)) → Type 0
  SamplesWhole config f none = ⊥
  SamplesWhole config f (some (err e)) = Unit
  SamplesWhole config f (some (ok (xs, n))) =
      (n ≡ resampled_count f.sample_count f.sample_rate config.target_sample_rate)
      × (length xs ≡ n * config.target_channels)

  resampled_SamplesWhole :
      (config : AudioSyncConfig F) (f : AudioFrame) (o : Option (List F))
      → 1 ≤ f.sample_rate
      → 1 ≤ config.target_sample_rate
      → IsUsual config f
      → FloorsExactly ops
      → Yields (f.sample_count * config.target_channels) o
      → SamplesWhole config f (
          o >>=? λ converted.
          resample_linear ops converted f.sample_count config.target_channels f.sample_rate
            config.target_sample_rate
          >>=? λ resampled. some (ok resampled))
  resampled_SamplesWhole config f none hs ht v exact len = len
  resampled_SamplesWhole config f (some xs) hs ht v exact len =
      let room : f.sample_count * config.target_channels ≤ 2 ^ 32 * 2 ^ 16 =
        mul-le-mul {n₂ = 2 ^ 32} {m₂ = 2 ^ 16} (omega (arith, v.counted))
          (omega (arith, v.targets)) in
      let (out, e, n) =
        resample_linear_whole ops xs f.sample_count config.target_channels f.sample_rate
          config.target_sample_rate hs ht v.products (omega (arith, room)) len exact in
      rw e (refl, n)

  -- The samples of every channel, or an error.
  abbrev Decoded : ℕ → Result AudioSyncError (List F) → Type 0
  Decoded n (err e) = Unit
  Decoded n (ok xs) = length xs ≡ n

  decode_samples-Decoded :
      (f : AudioFrame) → Decoded (f.sample_count * f.channels) (decode_samples ops f)
  unfolding decode_samples
  decode_samples-Decoded f =
      let expected = f.sample_count * f.channels * bytes_per_sample f.sample_format in
      elim (Bool-cases (ltb (length f.bytes) expected)) [
        | inl short ↦ rw short tt
        | inr long ↦
            rw long (length-decode_chunks ops f.sample_format (f.sample_count * f.channels) f.bytes)
      ]

  convert_decoded-SamplesWhole :
      (config : AudioSyncConfig F) (f : AudioFrame) (r : Result AudioSyncError (List F))
      → 1 ≤ f.sample_rate
      → 1 ≤ f.channels
      → 1 ≤ config.target_sample_rate
      → IsUsual config f
      → FloorsExactly ops
      → Decoded (f.sample_count * f.channels) r
      → SamplesWhole config f (convert_decoded ops config f r)
  convert_decoded-SamplesWhole config f (err e) hs hc ht v exact len = tt
  convert_decoded-SamplesWhole config f (ok xs) hs hc ht v exact len =
      resampled_SamplesWhole config f
        (convert_channels ops xs f.sample_count f.channels config.target_channels) hs ht v exact
        (convert_channels-Yields ops xs f.sample_count f.channels config.target_channels hc len)

  deliver-IsSound :
      (a : AudioSynchronizer F) (f : AudioFrame) (shared : ℤ)
      (o : Option (Result AudioSyncError (List F × ℕ)))
      → IsBased a
      → IsUsual a.config f
      → EncodesFour ops
      → SamplesWhole a.config f o
      → IsSound a.config (o >>=? λ r. some (deliver ops a f shared r))
  deliver-IsSound a f shared none based v four h = h
  deliver-IsSound a f shared (some (err e)) based v four h = (refl, based)
  deliver-IsSound a f shared (some (ok (xs, n))) based v four (count, len) =
      let whole : length (encode_samples ops a.config.gain xs)
          ≡ 4 * (min n u32_max * a.config.target_channels) =
        let small : min n u32_max ≡ n = omega (arith, count, v.resampled) in
        rw small (omega (arith, length-encode_samples a.config.gain xs four, len)) in
      (refl, based, whole)

  pub process_stamped-IsSound :
      (f : AudioFrame) (r : Result Discontinuity ℤ) (a : AudioSynchronizer F)
      → IsBased a
      → 1 ≤ f.sample_rate
      → 1 ≤ f.channels
      → 1 ≤ a.config.target_sample_rate
      → IsUsual a.config f
      → FloorsExactly ops
      → EncodesFour ops
      → IsSound a.config (process_stamped ops f (r, a))
  process_stamped-IsSound f (err why) a based hs hc ht v exact four = (refl, based)
  process_stamped-IsSound f (ok stamped) a based hs hc ht v exact four =
      let shared = hold_back a.last_output_pts (saturating_add_i64 stamped a.timeline_offset_ms) in
      let b = record a { metrics = measure_drift a.expected_next_pts shared a.metrics } in
      deliver-IsSound b f shared (process_samples ops b.config f) based v four (
        unfold process_samples in
        convert_decoded-SamplesWhole b.config f (decode_samples ops f) hs hc ht v exact
          (decode_samples-Decoded f))
