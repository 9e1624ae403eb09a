-- ===== src/Recorder/Examples.antt =====
-- Tests of the transition table and of a save, and the theorems applied to them.
use silk_studio.Prelude.{◌≡◌, refl, true, false, List, [], ◌∷◌, some, ok}
use silk_studio.Prelude.Int.{ℤ}
use silk_studio.Media.Packet.{video}
use silk_studio.Replay.Buffer.{newest_video_dts}
use silk_studio.Replay.Snapshots.{SnapshotOutcome, snapshot}
use silk_studio.Replay.Examples.{frame, recording, video_track_held}
use silk_studio.Recorder.State.{
  RecorderState, stopped, starting, buffering, ready, saving, error, can_save, validate_transition,
  transition_to,
}
use silk_studio.Recorder.State.Paths.{is_early, run_targets}
use silk_studio.Recorder.Saving.{
  may_snapshot, requested_start, finish, snapshot_replay_with_preroll,
  snapshot_replay_with_preroll-succeeds,
}

abbrev session : List RecorderState
session = starting ∷ buffering ∷ ready ∷ saving ∷ []

session_test : run_targets stopped session ≡ ok saving
unfolding run_targets transition_to validate_transition
session_test = refl

saving_late : is_early saving ≡ false
unfolding is_early
saving_late = refl

error_may : may_snapshot error ≡ true
unfolding can_save
error_may = refl

snapshot_replay_with_preroll-succeeds_example :
    (newest : ℤ) × (o : SnapshotOutcome) × (newest_video_dts recording ≡ some newest)
    × (snapshot recording (requested_start recording newest) ≡ ok o)
    × (snapshot_replay_with_preroll error (some recording) 17 ≡ ok (finish 17 o))
snapshot_replay_with_preroll-succeeds_example =
    snapshot_replay_with_preroll-succeeds error 17 recording 0 video_track_held
      (frame video 0 0 true) error_may (refl, refl) refl
