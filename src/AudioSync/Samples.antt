-- ===== src/AudioSync/Samples.antt =====
-- Sample conversion: `decode_samples`, `convert_channels` and `resample_linear` of
-- crates/audio-sync/src/lib.rs. `none` is the panic of an index that is out of bounds.
pub mod Lengths
pub mod Indices
pub mod Resampled
use silk_studio.Prelude.{
  ℕ, zero, suc, ◌+◌, ◌-◌, ◌*◌, ◌/◌, ◌%◌, ◌^◌, min, max, List, [], ◌∷◌, ◌++◌, Option, none, some,
  ltb, leb, ◌==◌, ◌||◌, if◌then◌else◌, length, take, drop, get_elem?, Result, ok, err,
}
use silk_studio.Prelude.Words.{add_u64}
use silk_studio.AudioSync.Frame.{
  SampleFormat, s16, f32, AudioFrame, SampleOps, AudioSyncError, payload_truncated,
  bytes_per_sample,
}

infixl 5 ◌>>=?◌
abbrev pub ◌>>=?◌ {ℓ κ} : {A : Type ℓ} {B : Type κ} → Option A → (A → Option B) → Option B
none >>=? f = none
some a >>=? f = f a

-- A loop whose rounds each yield a list, in order, or panic.
abbrev pub collect {ℓ} : {A : Type ℓ} → (ℕ → Option (List A)) → (index count : ℕ) → Option (List A)
collect round index zero = some []
collect round index (suc count) =
    round index >>=? λ front. collect round (suc index) count >>=? λ back. some (front ++ back)

-- The frames that a resampled chunk has; the rates are `u32`, the products `u64`.
unfoldable pub output_frame_count : (input_frames source_rate target_rate : ℕ) → ℕ
output_frame_count input_frames source_rate target_rate =
    max (add_u64 (input_frames * target_rate % 2 ^ 64) (source_rate / 2) / source_rate) 1

abbrev pub sample_index : (frame channels channel : ℕ) → ℕ
sample_index frame channels channel = (frame * channels + channel) % 2 ^ 64

module _ {F : Type 0} (ops : SampleOps F) where
  abbrev pub decode_sample : SampleFormat → List ℕ → F
  decode_sample s16 bytes = ops.from_s16 bytes
  decode_sample f32 bytes = ops.from_f32 bytes

  -- The loop over the chunks of a sample's width.
  abbrev pub decode_chunks : SampleFormat → (count : ℕ) → List ℕ → List F
  decode_chunks format zero bytes = []
  decode_chunks format (suc count) bytes =
      decode_sample format (take (bytes_per_sample format) bytes)
      ∷ decode_chunks format count (drop (bytes_per_sample format) bytes)

  -- `decode_samples`
  unfoldable pub decode_samples : AudioFrame → Result AudioSyncError (List F)
  decode_samples frame =
      let sample_count = frame.sample_count * frame.channels in
      let expected = sample_count * bytes_per_sample frame.sample_format in
      if ltb (length frame.bytes) expected
      then err (payload_truncated expected (length frame.bytes))
      else ok (decode_chunks frame.sample_format sample_count frame.bytes)

  abbrev pub sum_from : F → List F → F
  sum_from so_far [] = so_far
  sum_from so_far (x ∷ xs) = sum_from (ops.add so_far x) xs

  -- One frame in the target's channels: their mean, or each channel as far as the source has it.
  unfoldable pub convert_frame : (source_channels target_channels : ℕ) → List F → Option (List F)
  convert_frame source_channels target_channels frame =
      if target_channels == 1
      then some (ops.divided_by (sum_from ops.zero_sample frame) source_channels ∷ [])
      else collect
          (λ channel. get_elem? frame (min channel (source_channels - 1)) >>=? λ x. some (x ∷ [])) 0
          target_channels

  -- `samples.chunks_exact(source_channels).take(frames)`
  unfoldable pub convert_frames :
      (source_channels target_channels frames : ℕ) → List F → Option (List F)
  unfolding convert_frame
  convert_frames source_channels target_channels zero samples = some []
  convert_frames source_channels target_channels (suc frames) samples =
      let here = convert_frame source_channels target_channels (take source_channels samples) in
      let later =
        convert_frames source_channels target_channels frames (drop source_channels samples) in
      if ltb (length samples) source_channels
      then some []
      else (here >>=? λ front. later >>=? λ back. some (front ++ back))

  -- `convert_channels`; `chunks_exact` panics on a width of 0.
  unfoldable pub convert_channels :
      List F → (frames source_channels target_channels : ℕ) → Option (List F)
  unfolding convert_frames
  convert_channels samples frames source_channels target_channels =
      if source_channels == target_channels
      then some samples
      else if source_channels == 0
      then none
      else convert_frames source_channels target_channels frames samples

  -- A sample between those of two neighbouring frames.
  abbrev pub interpolate : List F → (lower upper channels : ℕ) → F → (channel : ℕ) → Option (List F)
  interpolate samples lower upper channels fraction channel =
      get_elem? samples (sample_index lower channels channel) >>=? λ first.
      get_elem? samples (sample_index upper channels channel) >>=? λ second.
      some (ops.add first (ops.mul (ops.sub second first) fraction) ∷ [])

  -- A round of the loop of `resample_linear`.
  unfoldable pub resample_frame :
      List F → (input_frames channels source_rate target_rate output_index : ℕ) → Option (List F)
  resample_frame samples input_frames channels source_rate target_rate output_index =
      let lower = ops.floor_position output_index source_rate target_rate in
      let upper = min (add_u64 lower 1) (input_frames - 1) in
      let fraction = ops.fraction output_index source_rate target_rate in
      collect (interpolate samples lower upper channels fraction) 0 channels

  -- `resample_linear`
  unfoldable pub resample_linear :
      List F → (input_frames channels source_rate target_rate : ℕ) → Option (List F × ℕ)
  unfolding output_frame_count resample_frame
  resample_linear samples input_frames channels source_rate target_rate =
      if source_rate == target_rate || leb input_frames 1
      then some (samples, input_frames)
      else (collect (resample_frame samples input_frames channels source_rate target_rate) 0
            (output_frame_count input_frames source_rate target_rate)
          >>=? λ output. some (output, output_frame_count input_frames source_rate target_rate))
