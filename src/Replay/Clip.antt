-- ===== src/Replay/Clip.antt =====
-- What a snapshot holds (`snapshot` of crates/replay-buffer/src/buffer.rs).
pub mod Start
use silk_studio.Prelude.{
  ℕ, zero, suc, ◌≡◌, ◌≢◌, ◌⊎◌, refl, sym, ap, ◌∙◌, Bool, true, false, ◌&&◌, List, [], ◌∷◌, none,
  some, arith, ◌==◌, drop, filter, is_empty, All-get, subst, get_elem?, get_last?, All,
  Option-cases, Bool-cases, inl, inr, ok, err,
}
use silk_studio.Prelude.Int.{ℤ, leb_ℤ, min_ℤ, ◌≤ℤ◌, ◌<ℤ◌, ◌-ℤ◌}
use silk_studio.Prelude.Words.{add_i64, sub_i64, IsSmall, sub_i64_exact}
use silk_studio.Prelude.SortedMap
use silk_studio.Media.Packet.{EncodedPacket}
use silk_studio.Media.Snapshot.{StreamPackets}
use silk_studio.Replay.Buffer.{
  StreamTrack, ReplayBuffer, nothing_buffered, no_keyframe_at_or_before, last_index,
  newest_video_dts, dts_of,
}
use silk_studio.Replay.Snapshots.{
  SnapshotOutcome, is_keyframe_by_pts, overlaps, other_streams, interval_end, snapshot_from,
  snapshot_of, snapshot,
}
use silk_studio.Replay.Gathered.{Gathered, is_empty-nil, other_streams-Gathered, get_last?-drop}
use silk_studio.Replay.Index.{IsLast, last_index-none, last_index-IsLast}

-- The video track of a buffer under its id.
abbrev pub IsVideoTrack : ReplayBuffer → ℕ → StreamTrack → Type 0
IsVideoTrack b video_id track =
    (b.video_stream ≡ some video_id) × (SortedMap.get video_id b.streams ≡ some track)

-- A snapshot of the video from the last keyframe by a presentation time to its end, and of every
-- packet of the other tracks that overlaps it.
pub record IsClip (b : ReplayBuffer) (requested : ℤ) (o : SnapshotOutcome) : Type 0 where
  pub video_id : ℕ
  pub track : StreamTrack
  pub index : ℕ
  pub is_video_track : IsVideoTrack b video_id track
  pub keyframe : IsLast (is_keyframe_by_pts requested) track.packets index
  pub last : EncodedPacket
  pub is_last : get_last? track.packets ≡ some last
  pub others : List StreamPackets
  pub streams_are :
      o.media.streams
      ≡ record { descriptor = track.descriptor; packets = drop index track.packets } ∷ others
  pub others_are :
      Gathered video_id o.actual_start_pts
        (add_i64 last.dts last.duration)
        (SortedMap.values b.streams)
        others
  pub starts_at : o.actual_start_pts ≡ min_ℤ keyframe.packet.pts keyframe.packet.dts
  pub origin_is : o.media.origin_pts ≡ o.actual_start_pts
  pub requested_is : o.requested_start_pts ≡ requested
  pub preroll_is : o.keyframe_preroll_ticks ≡ sub_i64 requested o.actual_start_pts

-- The interval ends with the last packet of the track.
interval_end-last :
    (test : EncodedPacket → Bool) (start : ℤ) (ps : List EncodedPacket) (index : ℕ)
    → (from : IsLast test ps index)
    → (last : EncodedPacket) × (get_last? ps ≡ some last)
      × (interval_end start (drop index ps) ≡ add_i64 last.dts last.duration)
unfolding interval_end
interval_end-last test start ps index from =
    let same = get_last?-drop index ps from.packet (drop (suc index) ps) from.at_head in
    elim (Option-cases (get_last? ps)) [
      | inl nothing ↦ absurd (not_last ps index from.packet from.at_index nothing)
      | inr (last, found) ↦ (last, found, ground (arith, same, found))
    ]
  where
    not_last :
        (qs : List EncodedPacket) (i : ℕ) (q : EncodedPacket)
        → get_elem? qs i ≡ some q
        → get_last? qs ≡ none
        → ⊥
    not_last [] i q at h = cc
    not_last (r ∷ []) i q at h = cc
    not_last (r ∷ t ∷ qs) zero q at h = not_last (t ∷ qs) zero t refl h
    not_last (r ∷ t ∷ qs) (suc i) q at h = not_last (t ∷ qs) i q at h

snapshot_from-IsClip :
    (b : ReplayBuffer) (video_id : ℕ) (track : StreamTrack) (requested : ℤ) (index : ℕ)
    (packet : EncodedPacket)
    → IsVideoTrack b video_id track
    → (keyframe : IsLast (is_keyframe_by_pts requested) track.packets index)
    → keyframe.packet ≡ packet
    → IsClip b requested (snapshot_from b video_id track requested index packet)
unfolding snapshot_from
snapshot_from-IsClip b video_id track requested index packet held keyframe is_packet =
    let start = min_ℤ packet.pts packet.dts in
    let end_of = interval_end start (drop index track.packets) in
    let (last, is_last, ends) =
      interval_end-last (is_keyframe_by_pts requested) start track.packets index keyframe in
    let others = other_streams video_id start end_of (SortedMap.values b.streams) in
    record {
      video_id = video_id;
      track = track;
      index = index;
      is_video_track = held;
      keyframe = keyframe;
      last = last;
      is_last = is_last;
      others = others;
      streams_are = refl;
      others_are =
          subst (λ t. Gathered video_id start t (SortedMap.values b.streams) others) ends
            (other_streams-Gathered video_id start end_of (SortedMap.values b.streams));
      starts_at = ap (λ q. min_ℤ q.pts q.dts) (sym is_packet);
      origin_is = refl;
      requested_is = refl;
      preroll_is = refl;
    }

-- The three outcomes of `snapshot`.
pub data SnapshotCase (b : ReplayBuffer) (requested : ℤ) : Type 0 where
  nothing :
      newest_video_dts b ≡ none
      → snapshot b requested ≡ err nothing_buffered
      → SnapshotCase b requested
  no_keyframe :
      (video_id : ℕ) (track : StreamTrack)
      → IsVideoTrack b video_id track
      → All (λ p. is_keyframe_by_pts requested p ≡ false) track.packets
      → snapshot b requested ≡ err (no_keyframe_at_or_before requested)
      → SnapshotCase b requested
  taken :
      (o : SnapshotOutcome)
      → IsClip b requested o
      → snapshot b requested ≡ ok o
      → SnapshotCase b requested

snapshot-snapshot_of :
    (b : ReplayBuffer) (requested : ℤ) (video_id : ℕ) (track : StreamTrack)
    → IsVideoTrack b video_id track
    → snapshot b requested ≡ snapshot_of b video_id track requested
unfolding snapshot
snapshot-snapshot_of b requested video_id track (hv, ht) = ground arith

-- The results of `snapshot_of`, each under the conditions that lead to it.
snapshot_of-empty :
    (b : ReplayBuffer) (video_id : ℕ) (track : StreamTrack) (requested : ℤ)
    → is_empty track.packets ≡ true
    → snapshot_of b video_id track requested ≡ err nothing_buffered
unfolding snapshot_of
snapshot_of-empty b video_id track requested h = ground arith

snapshot_of-no_keyframe :
    (b : ReplayBuffer) (video_id : ℕ) (track : StreamTrack) (requested : ℤ)
    → is_empty track.packets ≡ false
    → last_index (is_keyframe_by_pts requested) track.packets ≡ none
    → snapshot_of b video_id track requested ≡ err (no_keyframe_at_or_before requested)
unfolding snapshot_of
snapshot_of-no_keyframe b video_id track requested h none_found = ground arith

snapshot_of-taken :
    (b : ReplayBuffer) (video_id : ℕ) (track : StreamTrack) (requested : ℤ) (i : ℕ)
    (packet : EncodedPacket)
    → is_empty track.packets ≡ false
    → last_index (is_keyframe_by_pts requested) track.packets ≡ some i
    → get_elem? track.packets i ≡ some packet
    → snapshot_of b video_id track requested
      ≡ ok (snapshot_from b video_id track requested i packet)
unfolding snapshot_of
snapshot_of-taken b video_id track requested i packet h found at_index = ground arith

-- There is one video track.
pub same_track :
    (b : ReplayBuffer) (id j : ℕ) (t u : StreamTrack)
    → IsVideoTrack b id t
    → IsVideoTrack b j u
    → t ≡ u
same_track b id j t u (hv, ht) (hv', ht') = ground arith

pub newest-eq :
    (b : ReplayBuffer) (id : ℕ) (t : StreamTrack)
    → IsVideoTrack b id t
    → newest_video_dts b ≡ dts_of (get_last? t.packets)
unfolding newest_video_dts
newest-eq b id t (hv, ht) = ground arith

snapshot_of-SnapshotCase :
    (b : ReplayBuffer) (requested : ℤ) (video_id : ℕ) (track : StreamTrack)
    → IsVideoTrack b video_id track
    → SnapshotCase b requested
snapshot_of-SnapshotCase b requested video_id track held =
    let e = snapshot-snapshot_of b requested video_id track held in
    elim (Bool-cases (is_empty track.packets)) [
      | inl empty ↦
          nothing
            (newest-eq b video_id track held
              ∙ ap (λ ps. dts_of (get_last? ps)) (is_empty-nil track.packets empty))
            (e ∙ snapshot_of-empty b video_id track requested empty)
      | inr some_packets ↦
          elim (Option-cases (last_index (is_keyframe_by_pts requested) track.packets)) [
            | inl none_found ↦
                no_keyframe video_id track held
                  (last_index-none (is_keyframe_by_pts requested) track.packets none_found)
                  (e ∙ snapshot_of-no_keyframe b video_id track requested some_packets none_found)
            | inr (i, found) ↦
                let last = last_index-IsLast (is_keyframe_by_pts requested) track.packets i found in
                taken (snapshot_from b video_id track requested i last.packet)
                  (snapshot_from-IsClip b video_id track requested i last.packet held last refl)
                  (e
                    ∙ snapshot_of-taken b video_id track requested i last.packet some_packets found
                        last.at_index)
          ]
    ]

pub snapshot-SnapshotCase : (b : ReplayBuffer) (requested : ℤ) → SnapshotCase b requested
unfolding snapshot newest_video_dts
snapshot-SnapshotCase b requested = elim (Option-cases b.video_stream) [
  | inl hv ↦ nothing (ground arith) (ground arith)
  | inr (video_id, hv) ↦ elim (Option-cases (SortedMap.get video_id b.streams)) [
    | inl ht ↦ nothing (ground arith) (ground arith)
    | inr (track, ht) ↦ snapshot_of-SnapshotCase b requested video_id track (hv, ht)
  ]
]
