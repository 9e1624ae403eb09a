-- ===== src/AudioSync/Synchronizer/Runs.antt =====
-- Runs of a synchronizer from its creation, over chunks of usual sizes and restarts of the source.
use silk_studio.Prelude.{
  ◌≤◌, inl, inr, ◌≡◌, refl, sym, subst, List, [], ◌∷◌, Option, none, some, arith, ok, err, All,
  Result-cases,
}
use silk_studio.AudioSync.Frame.{AudioFrame, SampleOps, AudioSyncConfig, validate_config}
use silk_studio.AudioSync.Samples.{◌>>=?◌}
use silk_studio.AudioSync.Samples.Resampled.{FloorsExactly}
use silk_studio.AudioSync.Synchronizer.{
  AudioSynchronizer, fresh_synchronizer, new_synchronizer, reset_source, Processed, process,
}
use silk_studio.AudioSync.Synchronizer.Based.{IsBased}
use silk_studio.AudioSync.Synchronizer.Ascending.{AudioInput, chunk, restart}
use silk_studio.AudioSync.Synchronizer.Whole.{IsUsual, EncodesFour, IsWhole, IsSound}
use silk_studio.AudioSync.Synchronizer.Sound.{process-IsSound}

module _ {F : Type 0} where
  abbrev pub frames_after :
      Option (Processed F)
      → (AudioSynchronizer F → Option (List AudioFrame))
      → Option (List AudioFrame)
  frames_after none rest = none
  frames_after (some (err e, b)) rest = rest b
  frames_after (some (ok out, b)) rest = rest b >>=? λ later. some (out ∷ later)

  -- The chunks that a run puts out, in order; a chunk that is refused puts out none.
  abbrev pub output_frames :
      SampleOps F → AudioSynchronizer F → List AudioInput → Option (List AudioFrame)
  output_frames ops a [] = some []
  output_frames ops a (chunk f ∷ later) =
      frames_after (process ops a f) (λ b. output_frames ops b later)
  output_frames ops a (restart ∷ later) = output_frames ops (reset_source a) later

  abbrev pub IsUsualInput : AudioSyncConfig F → AudioInput → Type 0
  IsUsualInput config (chunk f) = IsUsual config f
  IsUsualInput config restart = Unit

-- A run that does not panic, and whose chunks are whole.
abbrev pub RunsWhole : Option (List AudioFrame) → Type 0
RunsWhole none = ⊥
RunsWhole (some frames) = All IsWhole frames

put_first :
    (f : AudioFrame) (o : Option (List AudioFrame))
    → IsWhole f
    → RunsWhole o
    → RunsWhole (o >>=? λ later. some (f ∷ later))
put_first f none w h = h
put_first f (some later) w h = (w, h)

module _ {F : Type 0} (ops : SampleOps F) (config : AudioSyncConfig F)
    (ht : 1 ≤ config.target_sample_rate) (exact : FloorsExactly ops) (four : EncodesFour ops) where
  frames_after-RunsWhole :
      (o : Option (Processed F)) (rest : AudioSynchronizer F → Option (List AudioFrame))
      → IsSound config o
      → ((b : AudioSynchronizer F) → b.config ≡ config → IsBased b → RunsWhole (rest b))
      → RunsWhole (frames_after o rest)
  frames_after-RunsWhole none rest h later = h
  frames_after-RunsWhole (some (err e, b)) rest (same, based) later = later b same based
  frames_after-RunsWhole (some (ok out, b)) rest (same, based, whole) later =
      put_first out (rest b) whole (later b same based)

  output_frames-RunsWhole :
      (a : AudioSynchronizer F) (inputs : List AudioInput)
      → a.config ≡ config
      → IsBased a
      → All (IsUsualInput config) inputs
      → RunsWhole (output_frames ops a inputs)
  unfolding reset_source
  output_frames-RunsWhole a [] same based v = tt
  output_frames-RunsWhole a (chunk f ∷ later) same based (here, rest) =
      let sound : IsSound config (process ops a f) =
        subst (λ (c : AudioSyncConfig F). IsSound c (process ops a f)) same
          (process-IsSound ops a f based
            (subst (λ (c : AudioSyncConfig F). 1 ≤ c.target_sample_rate) (sym same) ht)
            (subst (λ (c : AudioSyncConfig F). IsUsual c f) (sym same) here) exact four) in
      frames_after-RunsWhole (process ops a f) (λ b. output_frames ops b later) sound
        (λ b kept is_based. output_frames-RunsWhole b later kept is_based rest)
  output_frames-RunsWhole a (restart ∷ later) same based (_, rest) =
      output_frames-RunsWhole (reset_source a) later same (inl refl) rest

validated_rate :
    {F : Type 0} (ops : SampleOps F) (config : AudioSyncConfig F)
    → validate_config ops config ≡ ok tt
    → 1 ≤ config.target_sample_rate
unfolding validate_config
validated_rate ops config h = ground arith

-- A synchronizer that `new` accepts never panics on chunks of usual sizes, however its source is
-- restarted in between, and each chunk that it puts out has the four bytes of each of its samples.
-- Of a usual chunk, the sample count is below 2 ^ 32, that count times the target rate plus the
-- source's rate is below 2 ^ 53, the frames after resampling are fewer than 2 ^ 32, and the
-- denominator of the time base is not 0; the target channels are fewer than 2 ^ 16. A float is
-- written in four bytes, and the position of a resampled frame has an exact floor below 2 ^ 53.
pub new_synchronizer-RunsWhole :
    {F : Type 0} (ops : SampleOps F) (config : AudioSyncConfig F) (inputs : List AudioInput)
    {a : AudioSynchronizer F}
    → FloorsExactly ops
    → EncodesFour ops
    → new_synchronizer ops config ≡ ok a
    → All (IsUsualInput config) inputs
    → RunsWhole (output_frames ops a inputs)
unfolding new_synchronizer
new_synchronizer-RunsWhole ops config inputs {a} exact four new usual =
    elim (Result-cases (validate_config ops config)) [
      | inl (tt, valid) ↦
          let fresh : fresh_synchronizer config ≡ a = ground arith in
          subst (λ b. RunsWhole (output_frames ops b inputs)) fresh
            (output_frames-RunsWhole ops config (validated_rate ops config valid) exact four
              (fresh_synchronizer config) inputs refl (inl refl) usual)
      | inr (e, refused) ↦ absurd (ground arith)
    ]
