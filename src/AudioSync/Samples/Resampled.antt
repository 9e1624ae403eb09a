-- ===== src/AudioSync/Samples/Resampled.antt =====
-- `resample_linear` as a whole.
use silk_studio.Prelude.{
  ℕ, ◌+◌, ◌*◌, ◌/◌, ◌^◌, ◌≤◌, ◌<◌, ◌||◌, Bool-cases, inl, inr, ◌≡◌, refl, List, Option, none, some,
  arith, length, leb, ◌==◌, if◌then◌else◌,
}
use silk_studio.AudioSync.Frame.{SampleOps}
use silk_studio.AudioSync.Samples.{output_frame_count, resample_linear}
use silk_studio.AudioSync.Samples.Lengths.{Yields}
use silk_studio.AudioSync.Samples.Indices.{IsExact, resample_frames-Yields}

-- The frames of a chunk after resampling: as many as before, or the rounded share.
abbrev pub resampled_count : (input source target : ℕ) → ℕ
resampled_count input source target =
    if source == target || leb input 1 then input else output_frame_count input source target

module _ {F : Type 0} (ops : SampleOps F) where
  -- The floor that is computed in `f64` is exact where the product of an index and a rate is.
  abbrev pub FloorsExactly : Type 0
  FloorsExactly = (i s t : ℕ) → 1 ≤ t → i * s < 2 ^ 53 → ops.floor_position i s t ≡ i * s / t

  -- Whole frames of samples, in a chunk small enough for `f64` to be exact, are resampled without
  -- reading outside them, and the frames that come out are whole too.
  pub resample_linear_whole :
      (samples : List F) (input channels source target : ℕ)
      → 1 ≤ source
      → 1 ≤ target
      → input * target + source < 2 ^ 53
      → input * channels < 2 ^ 64
      → length samples ≡ input * channels
      → FloorsExactly
      → (out : List F) × (resample_linear ops samples input channels source target
          ≡ some (out, resampled_count input source target))
        × (length out ≡ resampled_count input source target * channels)
  unfolding resample_linear
  resample_linear_whole samples input channels source target hs ht products fits len exact =
      elim (Bool-cases (source == target || leb input 1)) [
        | inl same ↦ rw same (samples, refl, len)
        | inr other ↦
            let v : IsExact input source target = record {
              frames = ground arith;
              source = hs;
              target = ht;
              products = products;
            } in
            let frames =
              resample_frames-Yields ops samples input channels source target v fits len exact in
            let (out, e, n) = yielded _ frames in rw (other, e) (out, refl, n)
      ]
    where
      yielded :
          {n : ℕ} (o : Option (List F))
          → Yields n o
          → (out : List F) × (o ≡ some out) × (length out ≡ n)
      yielded none h = absurd h
      yielded (some out) h = (out, refl, h)
