-- ===== src/AudioSync/Samples/Indices.antt =====
-- The indices that `resample_linear` reads at.
use native.Mathlib.Nat.{
  mul-pos, mul-le-mul_right, div-mul-le_self, div-lt_iff_lt-mul, suc-mul, mod-eq_of_lt,
}
use silk_studio.Prelude.{
  ℕ, zero, suc, ◌+◌, ◌-◌, ◌*◌, ◌/◌, ◌%◌, ◌^◌, ◌≤◌, ◌<◌, min, max, ◌≡◌, refl, subst, List, arith,
  length,
}
use silk_studio.Prelude.Words.{add_u64}
use silk_studio.AudioSync.Frame.{SampleOps}
use silk_studio.AudioSync.Samples.{
  collect, output_frame_count, sample_index, interpolate, resample_frame,
}
use silk_studio.AudioSync.Samples.Lengths.{Yields, get_elem?-some, collect-Yields}

-- The sizes of a chunk for which the products stay below 2 ^ 53, where `f64` is exact: some hours
-- of audio in one chunk.
pub record IsExact (input_frames source_rate target_rate : ℕ) : Type 0 where
  pub frames : 2 ≤ input_frames
  pub source : 1 ≤ source_rate
  pub target : 1 ≤ target_rate
  pub products : input_frames * target_rate + source_rate < 2 ^ 53

module _ (input source target : ℕ) (v : IsExact input source target) where
  count_unwrapped :
      output_frame_count input source target ≡ max ((input * target + source / 2) / source) 1
  unfolding output_frame_count
  count_unwrapped =
      let inner : input * target % 2 ^ 64 ≡ input * target =
        mod-eq_of_lt (omega (arith, v.products)) in
      let outer : (input * target + source / 2) % 2 ^ 64 ≡ input * target + source / 2 =
        mod-eq_of_lt (omega (arith, v.products)) in
      rw (inner, outer) refl

  -- An output frame's place in the source, as a fraction, is before the source's end.
  position_inside :
      (i : ℕ) → i < output_frame_count input source target → i * source < input * target
  position_inside zero h =
      omega (arith, mul-pos {m = input} {n = target} (omega (arith, v.frames)) v.target)
  position_inside (suc i) h =
      let q = (input * target + source / 2) / source in
      let below : suc (suc i) ≤ q = omega (arith, h, count_unwrapped) in
      omega (
        arith,
        mul-le-mul_right source below,
        div-mul-le_self (input * target + source / 2) source,
        suc-mul i source,
        suc-mul (suc i) source,
        v.source,
      )

  lower_inside :
      (i lower : ℕ)
      → i < output_frame_count input source target
      → lower ≡ i * source / target
      → lower < input
  lower_inside i lower h e =
      omega (arith, e, (div-lt_iff_lt-mul {k = target} v.target).1 (position_inside i h))

index_inside :
    (frame input channels channel : ℕ)
    → frame < input
    → channel < channels
    → input * channels < 2 ^ 64
    → sample_index frame channels channel < input * channels
index_inside frame input channels channel hf hc fits =
    let room : suc frame * channels ≤ input * channels = mul-le-mul_right channels hf in
    let inside : frame * channels + channel < input * channels =
      omega (arith, room, suc-mul frame channels) in
    omega (arith, inside, fits)

module _ {F : Type 0} (ops : SampleOps F) where
  interpolate-Yields :
      (samples : List F) (lower upper channels : ℕ) (fraction : F) (channel : ℕ)
      → sample_index lower channels channel < length samples
      → sample_index upper channels channel < length samples
      → Yields 1 (interpolate ops samples lower upper channels fraction channel)
  interpolate-Yields samples lower upper channels fraction channel hl hu =
      let (x, found_lower) = get_elem?-some samples (sample_index lower channels channel) hl in
      let (y, found_upper) = get_elem?-some samples (sample_index upper channels channel) hu in
      rw (found_lower, found_upper) refl

  module _ (samples : List F) (input channels source target : ℕ) (v : IsExact input source target)
      (fits : input * channels < 2 ^ 64) (len : length samples ≡ input * channels)
      (exact : (i s t : ℕ) → 1 ≤ t → i * s < 2 ^ 53 → ops.floor_position i s t ≡ i * s / t) where
    resample_frame-Yields :
        (i : ℕ)
        → i < output_frame_count input source target
        → Yields channels (resample_frame ops samples input channels source target i)
    unfolding resample_frame
    resample_frame-Yields i h =
        let lower = ops.floor_position i source target in
        let upper = min (add_u64 lower 1) (input - 1) in
        let lower_in : lower < input = lower_inside input source target v i lower h (
          exact i source target v.target
            (omega (arith, position_inside input source target v i h, v.products))) in
        let upper_in : upper < input = omega (arith, lower_in, v.frames) in
        let each =
          collect-Yields 1
            (interpolate ops samples lower upper channels (ops.fraction i source target)) 0 channels
            (λ c lo hi.
              interpolate-Yields samples lower upper channels (ops.fraction i source target) c
                (omega (
                  arith,
                  len,
                  index_inside lower input channels c lower_in (omega (arith, hi)) fits,
                ))
                (omega (
                  arith,
                  len,
                  index_inside upper input channels c upper_in (omega (arith, hi)) fits,
                ))) in
        let one_each : channels * 1 ≡ channels = omega arith in
        subst (λ k. Yields k (resample_frame ops samples input channels source target i)) one_each
          each

    pub resample_frames-Yields : Yields (output_frame_count input source target * channels) (
        collect
          (resample_frame ops samples input channels source target)
          0
          (output_frame_count input source target))
    resample_frames-Yields =
        collect-Yields channels (resample_frame ops samples input channels source target) 0
          (output_frame_count input source target)
          (λ i lo hi. resample_frame-Yields i (omega (arith, hi)))
