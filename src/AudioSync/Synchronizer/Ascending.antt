-- ===== src/AudioSync/Synchronizer/Ascending.antt =====
-- The order of the timestamps that a synchronizer puts out, over a run of chunks and restarts of
-- the source. A panic ends the thread, and with it the run.
use silk_studio.Prelude.{
  ℕ, ◌≡◌, refl, subst, ◌∙◌, List, [], ◌∷◌, Option, none, some, arith, Result, ok, err,
}
use silk_studio.Prelude.Int.{ℤ, ◌≤ℤ◌}
use silk_studio.Prelude.Words.{saturating_add_i64}
use silk_studio.Media.Timeline.{Discontinuity, MediaTimeline, Stamped, to_shared}
use silk_studio.AudioSync.Frame.{AudioFrame, SampleOps, AudioSyncError, validate_frame}
use silk_studio.AudioSync.Samples.{◌>>=?◌}
use silk_studio.AudioSync.Synchronizer.{
  AudioSynchronizer, hold_back, measure_drift, calibrate, keep_stamp, stamp, reset_source,
  Processed, process_samples, deliver, process_stamped, process_calibrated, process_valid, process,
}

abbrev pub IsNotBefore : Option ℤ → ℤ → Type 0
IsNotBefore none pts = Unit
IsNotBefore (some last) pts = last ≤ℤ pts

abbrev pub IsAscendingFrom : Option ℤ → List ℤ → Type 0
IsAscendingFrom last [] = Unit
IsAscendingFrom last (pts ∷ later) = IsNotBefore last pts × IsAscendingFrom (some pts) later

hold_back-IsNotBefore : (last : Option ℤ) (pts : ℤ) → IsNotBefore last (hold_back last pts)
hold_back-IsNotBefore none pts = tt
hold_back-IsNotBefore (some last) pts = ground arith

module _ {F : Type 0} where
  -- The last timestamp that a state has put out, through the steps of `process` that keep it.
  calibrate_keeps :
      (a : AudioSynchronizer F) (f : AudioFrame) {b : AudioSynchronizer F}
      → calibrate a f.time_base ≡ ok b
      → b.last_output_pts ≡ a.last_output_pts
  unfolding calibrate
  calibrate_keeps a f h = ground arith

  keep_stamp_keeps :
      (a : AudioSynchronizer F) (s : Stamped)
      → (keep_stamp a s).1.last_output_pts ≡ a.last_output_pts
  keep_stamp_keeps a (ok shared, tl) = refl
  keep_stamp_keeps a (err why, tl) = refl

  -- A call's outcome follows a last timestamp.
  abbrev Follows : Option ℤ → Option (Processed F) → Type 0
  Follows last none = Unit
  Follows last (some (err e, b)) = b.last_output_pts ≡ last
  Follows last (some (ok out, b)) = IsNotBefore last out.pts × (b.last_output_pts ≡ some out.pts)

module _ {F : Type 0} (ops : SampleOps F) where
  deliver-Follows :
      (last : Option ℤ) (a : AudioSynchronizer F) (f : AudioFrame) (shared : ℤ)
      (r : Option (Result AudioSyncError (List F × ℕ)))
      → a.last_output_pts ≡ last
      → IsNotBefore last shared
      → Follows last (r >>=? λ samples. some (deliver ops a f shared samples))
  deliver-Follows last a f shared none same h = tt
  deliver-Follows last a f shared (some (err e)) same h = same
  deliver-Follows last a f shared (some (ok (samples, frames))) same h = (h, refl)

  process_stamped-Follows :
      (last : Option ℤ) (f : AudioFrame) (r : Result Discontinuity ℤ) (a : AudioSynchronizer F)
      → a.last_output_pts ≡ last
      → Follows last (process_stamped ops f (r, a))
  process_stamped-Follows last f (err why) a same = same
  process_stamped-Follows last f (ok stamped) a same =
      let pts = saturating_add_i64 stamped a.timeline_offset_ms in
      let shared = hold_back a.last_output_pts pts in
      let b = record a { metrics = measure_drift a.expected_next_pts shared a.metrics } in
      deliver-Follows last b f shared (process_samples ops b.config f) same
        (subst (λ l. IsNotBefore l shared) same (hold_back-IsNotBefore a.last_output_pts pts))

  stamped_Follows :
      (last : Option ℤ) (f : AudioFrame) (a : AudioSynchronizer F) (o : Option Stamped)
      → a.last_output_pts ≡ last
      → Follows last ((o >>=? λ s. some (keep_stamp a s)) >>=? process_stamped ops f)
  stamped_Follows last f a none same = tt
  stamped_Follows last f a (some s) same =
      process_stamped-Follows last f (keep_stamp a s).0 (keep_stamp a s).1
        (keep_stamp_keeps a s ∙ same)

  timeline_Follows :
      (last : Option ℤ) (f : AudioFrame) (a : AudioSynchronizer F) (tl : Option MediaTimeline)
      → a.last_output_pts ≡ last
      → Follows last (
          (tl >>=? λ t. to_shared t f.pts >>=? λ s. some (keep_stamp a s))
          >>=? process_stamped ops f)
  timeline_Follows last f a none same = tt
  timeline_Follows last f a (some t) same = stamped_Follows last f a (to_shared t f.pts) same

  calibrated_Follows :
      (a : AudioSynchronizer F) (f : AudioFrame) (r : Result AudioSyncError (AudioSynchronizer F))
      → calibrate a f.time_base ≡ r
      → Follows a.last_output_pts (process_calibrated ops a f r)
  unfolding stamp
  calibrated_Follows a f (err e) h = refl
  calibrated_Follows a f (ok b) h =
      timeline_Follows a.last_output_pts f b b.timeline (calibrate_keeps a f h)

  valid_Follows :
      (a : AudioSynchronizer F) (f : AudioFrame) (r : Result AudioSyncError (Unit {0}))
      → Follows a.last_output_pts (process_valid ops a f r)
  valid_Follows a f (err e) = refl
  valid_Follows a f (ok u) = calibrated_Follows a f (calibrate a f.time_base) refl

  process-Follows :
      (a : AudioSynchronizer F) (f : AudioFrame) → Follows a.last_output_pts (process ops a f)
  unfolding process
  process-Follows a f = valid_Follows a f (validate_frame f)

-- What a synchronizer's owner does: a chunk, or a restart of the source.
pub data AudioInput : Type 0 where
  chunk : AudioFrame → AudioInput
  restart : AudioInput

-- The timestamps put out by the rest of a run.
abbrev pub after_chunk :
    {F : Type 0} → Option (Processed F) → (AudioSynchronizer F → List ℤ) → List ℤ
after_chunk none rest = []
after_chunk (some (err e, b)) rest = rest b
after_chunk (some (ok out, b)) rest = out.pts ∷ rest b

-- The timestamps of the chunks that a run puts out, in order.
abbrev pub output_stamps :
    {F : Type 0} → SampleOps F → AudioSynchronizer F → List AudioInput → List ℤ
output_stamps ops a [] = []
output_stamps ops a (chunk f ∷ later) =
    after_chunk (process ops a f) (λ b. output_stamps ops b later)
output_stamps ops a (restart ∷ later) = output_stamps ops (reset_source a) later

module _ {F : Type 0} (ops : SampleOps F) where
  after_chunk-IsAscendingFrom :
      (last : Option ℤ) (o : Option (Processed F)) (rest : AudioSynchronizer F → List ℤ)
      → Follows last o
      → ((b : AudioSynchronizer F) → IsAscendingFrom b.last_output_pts (rest b))
      → IsAscendingFrom last (after_chunk o rest)
  after_chunk-IsAscendingFrom last none rest h later = tt
  after_chunk-IsAscendingFrom last (some (err e, b)) rest h later =
      subst (λ l. IsAscendingFrom l (rest b)) h (later b)
  after_chunk-IsAscendingFrom last (some (ok out, b)) rest (before, same) later =
      (before, subst (λ l. IsAscendingFrom l (rest b)) same (later b))

  -- From any state, and however its source is restarted in between, a synchronizer puts out chunks
  -- whose timestamps never go back, from the last one it had put out.
  pub output_stamps-IsAscendingFrom :
      (a : AudioSynchronizer F) (inputs : List AudioInput)
      → IsAscendingFrom a.last_output_pts (output_stamps ops a inputs)
  unfolding reset_source
  output_stamps-IsAscendingFrom a [] = tt
  output_stamps-IsAscendingFrom a (chunk f ∷ later) =
      after_chunk-IsAscendingFrom a.last_output_pts (process ops a f)
        (λ b. output_stamps ops b later) (process-Follows ops a f)
        (λ b. output_stamps-IsAscendingFrom b later)
  output_stamps-IsAscendingFrom a (restart ∷ later) =
      output_stamps-IsAscendingFrom (reset_source a) later
