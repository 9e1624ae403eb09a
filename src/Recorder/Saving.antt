-- ===== src/Recorder/Saving.antt =====
-- The snapshot that a save takes (`snapshot_replay_with_preroll` of
-- crates/recorder-engine/src/engine.rs). The lock on the buffer is a value, `none` where it is
-- poisoned, and the wall clock is an argument.
use silk_studio.Prelude.{
  ℕ, ◌≡◌, refl, ◌∙◌, Bool, true, false, ◌||◌, List, [], ◌∷◌, Option, none, some, arith, find, All,
  if◌then◌else◌, get_last?, Result, ok, err, subst,
}
use silk_studio.Prelude.Int.{ℤ, pos, leb_ℤ, max_ℤ}
use silk_studio.Prelude.Words.{sub_i64}
use silk_studio.Media.Packet.{EncodedPacket}
use silk_studio.Media.Snapshot.{MediaSnapshot}
use silk_studio.Replay.Buffer.{ReplayBuffer, StreamTrack, BufferError, newest_video_dts, dts_of}
use silk_studio.Replay.Operations.{earliest_video_keyframe_pts}
use silk_studio.Replay.Snapshots.{
  SnapshotOutcome, is_keyframe_by_pts, snapshot, normalize_timestamps,
}
use silk_studio.Replay.Clip.{
  newest-eq, same_track, IsVideoTrack, nothing, no_keyframe, taken, snapshot-SnapshotCase,
}
use silk_studio.Recorder.State.{RecorderState, buffering, error, can_save, state_eq}

-- The errors of `EngineError` that a snapshot returns.
pub data EngineError : Type 0 where
  wrong_state : (current : RecorderState) → EngineError
  missing_component nothing_buffered : EngineError
  buffer : BufferError → EngineError

-- The states in which a snapshot may be taken.
abbrev pub may_snapshot : RecorderState → Bool
may_snapshot s = can_save s || (state_eq s error || state_eq s buffering)

-- The requested start: the newest decode time less the retention, or the oldest keyframe if it is
-- later.
abbrev pub requested_start : ReplayBuffer → ℤ → ℤ
requested_start b newest =
    max_ℤ (sub_i64 newest b.config.retention_ms)
      (elim (earliest_video_keyframe_pts b) [ none ↦ pos 0 | some oldest ↦ oldest ])

abbrev pub finish : ℕ → SnapshotOutcome → MediaSnapshot × ℤ
finish now_unix_ms o = (
  normalize_timestamps (record o.media { captured_at_unix_ms = now_unix_ms }),
  o.keyframe_preroll_ticks,
)

-- What is done under the lock, and the finish after it.
unfoldable pub snapshot_locked : ℕ → ReplayBuffer → Result EngineError (MediaSnapshot × ℤ)
snapshot_locked now_unix_ms b = elim (newest_video_dts b) [
  | none ↦ err nothing_buffered
  | some newest ↦ elim (snapshot b (requested_start b newest)) [
    | ok o ↦ ok (finish now_unix_ms o)
    | err e ↦ err (buffer e)
  ]
]

-- `snapshot_replay_with_preroll`
unfoldable pub snapshot_replay_with_preroll :
    RecorderState → Option ReplayBuffer → ℕ → Result EngineError (MediaSnapshot × ℤ)
snapshot_replay_with_preroll state lock now_unix_ms =
    if may_snapshot state
    then elim lock [ none ↦ err missing_component | some b ↦ snapshot_locked now_unix_ms b ]
    else err (wrong_state state)

-- The first keyframe of a list is presented by a time no earlier than its own.
keyframe-not_missed :
    (requested : ℤ) (ps : List EncodedPacket) (p : EncodedPacket)
    → find (λ q. q.is_keyframe) ps ≡ some p
    → leb_ℤ p.pts requested ≡ true
    → All (λ q. is_keyframe_by_pts requested q ≡ false) ps
    → false ≡ true
keyframe-not_missed requested [] p h le none_by = cc
keyframe-not_missed requested (q ∷ ps) p h le (first, rest) =
    ground (arith, keyframe-not_missed requested ps p)

nonempty-last :
    (q : EncodedPacket) (ps : List EncodedPacket) → (z : ℤ) × (dts_of (get_last? (q ∷ ps)) ≡ some z)
nonempty-last q [] = (q.dts, refl)
nonempty-last q (r ∷ ps) = nonempty-last r ps

find-last :
    (ps : List EncodedPacket) (p : EncodedPacket)
    → find (λ q. q.is_keyframe) ps ≡ some p
    → (z : ℤ) × (dts_of (get_last? ps) ≡ some z)
find-last [] p h = cc
find-last (q ∷ ps) p h = nonempty-last q ps

earliest-eq :
    (b : ReplayBuffer) (id : ℕ) (t : StreamTrack) (p : EncodedPacket)
    → IsVideoTrack b id t
    → find (λ q. q.is_keyframe) t.packets ≡ some p
    → earliest_video_keyframe_pts b ≡ some p.pts
unfolding earliest_video_keyframe_pts
earliest-eq b id t p (hv, ht) h = ground arith

requested-after :
    (b : ReplayBuffer) (id : ℕ) (t : StreamTrack) (p : EncodedPacket) (newest : ℤ)
    → IsVideoTrack b id t
    → find (λ q. q.is_keyframe) t.packets ≡ some p
    → leb_ℤ p.pts (requested_start b newest) ≡ true
requested-after b id t p newest held h = ground (arith, earliest-eq b id t p held h)

snapshot-taken :
    (b : ReplayBuffer) (id : ℕ) (t : StreamTrack) (p : EncodedPacket) (newest : ℤ)
    → IsVideoTrack b id t
    → find (λ q. q.is_keyframe) t.packets ≡ some p
    → (o : SnapshotOutcome) × (snapshot b (requested_start b newest) ≡ ok o)
snapshot-taken b id t p newest held h = elim (snapshot-SnapshotCase b (requested_start b newest)) [
  | nothing gone _ ↦
      let (newest', last) = find-last t.packets p h in
      let there : newest_video_dts b ≡ some newest' = newest-eq b id t held ∙ last in cc
  | no_keyframe j u held' none_by _ ↦
      let none_held =
        subst (λ v. All (λ q. is_keyframe_by_pts (requested_start b newest) q ≡ false) v.packets)
          (same_track b j id u t held' held) none_by in
      let absurd =
        keyframe-not_missed (requested_start b newest) t.packets p h
          (requested-after b id t p newest held h) none_held in
      cc
  | taken o _ e ↦ (o, e)
]

snapshot_locked-ok :
    (now : ℕ) (b : ReplayBuffer) (newest : ℤ) (o : SnapshotOutcome)
    → newest_video_dts b ≡ some newest
    → snapshot b (requested_start b newest) ≡ ok o
    → snapshot_locked now b ≡ ok (finish now o)
unfolding snapshot_locked
snapshot_locked-ok now b newest o hn hs = ground arith

-- In each state that allows a snapshot, with the lock on the buffer taken and a keyframe in its
-- video stream, the snapshot of a save does not fail: it is that of the buffer from the later of
-- two times, the newest decode time less the retention and the presentation time of the oldest
-- keyframe, and it is normalized.
pub snapshot_replay_with_preroll-succeeds :
    (state : RecorderState) (now : ℕ) (b : ReplayBuffer) (id : ℕ) (t : StreamTrack)
    (p : EncodedPacket)
    → may_snapshot state ≡ true
    → IsVideoTrack b id t
    → find (λ q. q.is_keyframe) t.packets ≡ some p
    → (newest : ℤ) × (o : SnapshotOutcome) × (newest_video_dts b ≡ some newest)
      × (snapshot b (requested_start b newest) ≡ ok o)
      × (snapshot_replay_with_preroll state (some b) now ≡ ok (finish now o))
unfolding snapshot_replay_with_preroll
snapshot_replay_with_preroll-succeeds state now b id t p may held h =
    let (newest, last) = find-last t.packets p h in
    let hn : newest_video_dts b ≡ some newest = newest-eq b id t held ∙ last in
    let (o, hs) = snapshot-taken b id t p newest held h in
    (newest, o, hn, hs, rw may (snapshot_locked-ok now b newest o hn hs))

-- The other states refuse, whatever is buffered.
snapshot_replay_with_preroll-refuses :
    (state : RecorderState) (lock : Option ReplayBuffer) (now : ℕ)
    → may_snapshot state ≡ false
    → snapshot_replay_with_preroll state lock now ≡ err (wrong_state state)
unfolding snapshot_replay_with_preroll
snapshot_replay_with_preroll-refuses state lock now h = ground arith
