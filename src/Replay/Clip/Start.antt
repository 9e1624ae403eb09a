-- ===== src/Replay/Clip/Start.antt =====
-- Where a snapshot starts (`snapshot` of crates/replay-buffer/src/buffer.rs).
use silk_studio.Prelude.{ℕ, ◌≡◌, sym, ◌∙◌, Bool, true, false, ◌&&◌, arith, All-get, subst, All, ok}
use silk_studio.Prelude.Int.{ℤ, leb_ℤ, min_ℤ, ◌≤ℤ◌, ◌-ℤ◌}
use silk_studio.Prelude.Words.{IsSmall, sub_i64_exact}
use silk_studio.Replay.Buffer.{StreamTrack, ReplayBuffer}
use silk_studio.Replay.Snapshots.{SnapshotOutcome, snapshot}
use silk_studio.Replay.Clip.{
  IsVideoTrack, IsClip, nothing, no_keyframe, taken, snapshot-SnapshotCase,
}

min_ℤ-le : (a b c : ℤ) → leb_ℤ a c ≡ true → min_ℤ a b ≤ℤ c
min_ℤ-le a b c h = ground arith

min_ℤ-IsSmall : (a b : ℤ) → IsSmall a → IsSmall b → IsSmall (min_ℤ a b)
min_ℤ-IsSmall a b ha hb = ground arith

and-right : (a b : Bool) → (a && b) ≡ true → b ≡ true
and-right true b h = h
and-right false b h = cc

clip-start :
    (b : ReplayBuffer) (requested : ℤ) (o : SnapshotOutcome) (clip : IsClip b requested o)
    → o.actual_start_pts ≤ℤ requested
clip-start b requested o clip =
    subst (λ z. z ≤ℤ requested) (sym clip.starts_at)
      (min_ℤ-le clip.keyframe.packet.pts clip.keyframe.packet.dts requested (
        and-right clip.keyframe.packet.is_keyframe (leb_ℤ clip.keyframe.packet.pts requested)
          clip.keyframe.passes))

clip-preroll :
    (b : ReplayBuffer) (requested : ℤ) (o : SnapshotOutcome) (clip : IsClip b requested o)
    → IsSmall requested
    → IsSmall clip.keyframe.packet.pts
    → IsSmall clip.keyframe.packet.dts
    → o.keyframe_preroll_ticks ≡ requested -ℤ o.actual_start_pts
clip-preroll b requested o clip hr hp hd =
    clip.preroll_is
    ∙ sub_i64_exact requested o.actual_start_pts hr (
        subst IsSmall (sym clip.starts_at)
          (min_ℤ-IsSmall clip.keyframe.packet.pts clip.keyframe.packet.dts hp hd))

ok-SnapshotCase :
    (b : ReplayBuffer) (requested : ℤ) (o : SnapshotOutcome)
    → snapshot b requested ≡ ok o
    → IsClip b requested o
ok-SnapshotCase b requested o h = elim (snapshot-SnapshotCase b requested) [
  | nothing _ e ↦ cc
  | no_keyframe _ _ _ _ e ↦ cc
  | taken o' clip e ↦ let same_one : o' ≡ o = cc in subst (IsClip b requested) same_one clip
]

-- Every timestamp of the video track is small.
abbrev pub HasSmallVideo : ReplayBuffer → Type 0
HasSmallVideo b =
    (video_id : ℕ) (track : StreamTrack)
    → IsVideoTrack b video_id track
    → All (λ p. IsSmall p.pts × IsSmall p.dts) track.packets

-- A snapshot that is taken starts no later than requested, and its preroll is the exact distance,
-- where the requested time and the timestamps of the video are less than 2 ^ 62 in magnitude.
pub snapshot-starts_in_time :
    (b : ReplayBuffer) (requested : ℤ) (o : SnapshotOutcome)
    → IsSmall requested
    → HasSmallVideo b
    → snapshot b requested ≡ ok o
    → (o.actual_start_pts ≤ℤ requested)
      × (o.keyframe_preroll_ticks ≡ requested -ℤ o.actual_start_pts)
snapshot-starts_in_time b requested o hr small h =
    let clip = ok-SnapshotCase b requested o h in
    let (hp, hd) =
      All-get (λ p. IsSmall p.pts × IsSmall p.dts) clip.track.packets clip.index
        clip.keyframe.packet (small clip.video_id clip.track clip.is_video_track)
        clip.keyframe.at_index in
    (clip-start b requested o clip, clip-preroll b requested o clip hr hp hd)
