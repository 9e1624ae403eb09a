-- ===== src/AudioSync/Synchronizer/Sound.antt =====
-- `process` on chunks of usual sizes.
use silk_studio.Prelude.{
  ◌≤◌, inl, inr, ◌≡◌, ◌≢◌, refl, sym, subst, Option, none, some, arith, Result, ok, err,
  ok_injective,
}
use silk_studio.Media.TimeBase.{TimeBase, magnitude}
use silk_studio.Media.Timeline.{MediaTimeline, Stamped, to_shared}
use silk_studio.AudioSync.Frame.{
  AudioFrame, SampleOps, AudioSyncError, AudioSyncConfig, validate_frame,
}
use silk_studio.AudioSync.Samples.{◌>>=?◌}
use silk_studio.AudioSync.Samples.Resampled.{FloorsExactly}
use silk_studio.AudioSync.Synchronizer.{
  AudioSynchronizer, calibrate, keep_stamp, stamp, calibrate_from, process_stamped,
  process_calibrated, process_valid, process,
}
use silk_studio.AudioSync.Synchronizer.Based.{HasBase, IsBased, to_shared_based}
use silk_studio.AudioSync.Synchronizer.Whole.{
  IsUsual, EncodesFour, IsSound, process_stamped-IsSound,
}

module _ {F : Type 0} where
  calibrate_from_based :
      (a : AudioSynchronizer F) (f : AudioFrame) (o : Option TimeBase) {b : AudioSynchronizer F}
      → a.source_time_base ≡ o
      → IsBased a
      → magnitude f.time_base.den ≢ 0
      → calibrate_from a f.time_base o ≡ ok b
      → HasBase b.timeline × (b.config ≡ a.config)
  calibrate_from_based a f none {b} same based h e =
      subst (λ (c : AudioSynchronizer F). HasBase c.timeline × (c.config ≡ a.config))
        (ok_injective e) (h, refl)
  calibrate_from_based a f (some known) {b} same (inl unknown) h e = absurd (cc)
  calibrate_from_based a f (some known) {b} same (inr based) h e =
      let kept : a ≡ b = ground arith in
      subst (λ (c : AudioSynchronizer F). HasBase c.timeline × (c.config ≡ a.config)) kept
        (based, refl)

module _ {F : Type 0} (ops : SampleOps F) (f : AudioFrame) (hs : 1 ≤ f.sample_rate)
    (hc : 1 ≤ f.channels) (exact : FloorsExactly ops) (four : EncodesFour ops) where
  stamped_IsSound :
      (a : AudioSynchronizer F) (s : Stamped)
      → 1 ≤ a.config.target_sample_rate
      → IsUsual a.config f
      → magnitude s.1.time_base.den ≢ 0
      → IsSound a.config (process_stamped ops f (keep_stamp a s))
  stamped_IsSound a (ok shared, tl) ht v h =
      process_stamped-IsSound ops f (ok shared) (record a { timeline = some tl }) (inr h) hs hc ht v
        exact four
  stamped_IsSound a (err why, tl) ht v h = (refl, inr h)

  timeline_IsSound :
      (a : AudioSynchronizer F) (t : Option MediaTimeline)
      → 1 ≤ a.config.target_sample_rate
      → IsUsual a.config f
      → HasBase t
      → IsSound a.config (
          (t >>=? λ tl. to_shared tl f.pts >>=? λ s. some (keep_stamp a s))
          >>=? process_stamped ops f)
  timeline_IsSound a none ht v h = h
  timeline_IsSound a (some tl) ht v h =
      let (s, e, same) = to_shared_based tl f.pts h in
      rw e (stamped_IsSound a s ht v (λ z. h (subst (λ tb. magnitude tb.den ≡ 0) same z)))

  calibrated_IsSound :
      (a : AudioSynchronizer F) (r : Result AudioSyncError (AudioSynchronizer F))
      → IsBased a
      → 1 ≤ a.config.target_sample_rate
      → IsUsual a.config f
      → calibrate_from a f.time_base a.source_time_base ≡ r
      → IsSound a.config (process_calibrated ops a f r)
  unfolding stamp
  calibrated_IsSound a (err e) based ht v h = (refl, based)
  calibrated_IsSound a (ok b) based ht v h =
      let (has, same) = calibrate_from_based a f a.source_time_base refl based v.based h in
      subst (λ (config : AudioSyncConfig F). IsSound config (process_calibrated ops a f (ok b)))
        same
        (timeline_IsSound b b.timeline
          (subst (λ (config : AudioSyncConfig F). 1 ≤ config.target_sample_rate) (sym same) ht)
          (subst (λ (config : AudioSyncConfig F). IsUsual config f) (sym same) v) has)

validate_frame_positive :
    (f : AudioFrame) → validate_frame f ≡ ok tt → (1 ≤ f.sample_rate) × (1 ≤ f.channels)
unfolding validate_frame
validate_frame_positive f h = ground arith

module _ {F : Type 0} (ops : SampleOps F) where
  process_valid-IsSound :
      (a : AudioSynchronizer F) (f : AudioFrame) (r : Result AudioSyncError (Unit {0}))
      → validate_frame f ≡ r
      → IsBased a
      → 1 ≤ a.config.target_sample_rate
      → IsUsual a.config f
      → FloorsExactly ops
      → EncodesFour ops
      → IsSound a.config (process_valid ops a f r)
  unfolding calibrate
  process_valid-IsSound a f (err e) h based ht v exact four = (refl, based)
  process_valid-IsSound a f (ok tt) h based ht v exact four =
      let (hs, hc) = validate_frame_positive f h in
      calibrated_IsSound ops f hs hc exact four a (calibrate a f.time_base) based ht v refl

  pub process-IsSound :
      (a : AudioSynchronizer F) (f : AudioFrame)
      → IsBased a
      → 1 ≤ a.config.target_sample_rate
      → IsUsual a.config f
      → FloorsExactly ops
      → EncodesFour ops
      → IsSound a.config (process ops a f)
  unfolding process
  process-IsSound a f = process_valid-IsSound a f (validate_frame f) refl
