-- ===== src/Replay/Snapshots.antt =====
-- `snapshot` (crates/replay-buffer/src/buffer.rs) and `normalize_timestamps` (lib.rs). The snapshot
-- shares the packets; normalization replaces each by a shifted one, whether or not it is shared.
use silk_studio.Prelude.{
  ℕ, Bool, ◌&&◌, ◌||◌, List, [], ◌∷◌, none, some, ◌==◌, if◌then◌else◌, drop, filter, get_elem?,
  get_last?, is_empty, Result, ok, err, map,
}
use silk_studio.Prelude.Int.{ℤ, pos, ltb_ℤ, leb_ℤ, eqb_ℤ, min_ℤ}
use silk_studio.Prelude.Words.{add_i64, sub_i64}
use silk_studio.Prelude.SortedMap
use silk_studio.Media.TimeBase.{millisecond}
use silk_studio.Media.Packet.{EncodedPacket}
use silk_studio.Media.Snapshot.{StreamPackets, MediaSnapshot}
use silk_studio.Replay.Buffer.{
  StreamTrack, ReplayBuffer, BufferError, nothing_buffered, no_keyframe_at_or_before, last_index,
}

pub record SnapshotOutcome : Type 0 where
  pub media : MediaSnapshot
  pub requested_start_pts : ℤ
  pub actual_start_pts : ℤ
  pub keyframe_preroll_ticks : ℤ

abbrev pub is_keyframe_by_pts : ℤ → EncodedPacket → Bool
is_keyframe_by_pts requested p = p.is_keyframe && leb_ℤ p.pts requested

-- The packets of another stream that overlap the selected video interval.
abbrev pub overlaps : ℤ → ℤ → EncodedPacket → Bool
overlaps start end_of p = ltb_ℤ start (add_i64 p.dts p.duration) && ltb_ℤ p.dts end_of

unfoldable pub other_streams : ℕ → ℤ → ℤ → List StreamTrack → List StreamPackets
other_streams video_id start end_of [] = []
other_streams video_id start end_of (t ∷ ts) =
    let rest = other_streams video_id start end_of ts in
    let overlapping = filter (overlaps start end_of) t.packets in
    if t.descriptor.stream_id == video_id || is_empty overlapping
    then rest
    else record { descriptor = t.descriptor; packets = overlapping } ∷ rest

-- The end of the selected video: the last packet's, or the start where there is none.
unfoldable pub interval_end : ℤ → List EncodedPacket → ℤ
interval_end start ps = elim (get_last? ps) [ none ↦ start | some p ↦ add_i64 p.dts p.duration ]

-- The snapshot from the keyframe at an index of the video track.
unfoldable pub snapshot_from :
    ReplayBuffer → ℕ → StreamTrack → ℤ → ℕ → EncodedPacket → SnapshotOutcome
snapshot_from b video_id track requested index keyframe =
    let start = min_ℤ keyframe.pts keyframe.dts in
    let selected = drop index track.packets in
    let end_of = interval_end start selected in
    record {
      requested_start_pts = requested;
      actual_start_pts = start;
      keyframe_preroll_ticks = sub_i64 requested start;
      media = record {
        origin_pts = start;
        time_base = millisecond;
        streams =
            record { descriptor = track.descriptor; packets = selected }
            ∷ other_streams video_id start end_of (SortedMap.values b.streams);
        captured_at_unix_ms = 0;
      };
    }

-- `snapshot` over the video track. An index that is found is in bounds, so the last case, the panic
-- of an index out of bounds, does not arise.
unfoldable pub snapshot_of : ReplayBuffer → ℕ → StreamTrack → ℤ → Result BufferError SnapshotOutcome
snapshot_of b video_id track requested =
    if is_empty track.packets
    then err nothing_buffered
    else elim (last_index (is_keyframe_by_pts requested) track.packets) [
      | none ↦ err (no_keyframe_at_or_before requested)
      | some index ↦ elim (get_elem? track.packets index) [
        | some keyframe ↦ ok (snapshot_from b video_id track requested index keyframe)
        | none ↦ err nothing_buffered
      ]
    ]

-- `ReplayBuffer::snapshot`
unfoldable pub snapshot : ReplayBuffer → ℤ → Result BufferError SnapshotOutcome
snapshot b requested = elim b.video_stream [
  | none ↦ err nothing_buffered
  | some video_id ↦ elim (SortedMap.get video_id b.streams) [
    | none ↦ err nothing_buffered
    | some track ↦ snapshot_of b video_id track requested
  ]
]

abbrev pub shift_with_first : ℤ → List EncodedPacket → ℤ
shift_with_first shift [] = shift
shift_with_first shift (p ∷ ps) = min_ℤ (min_ℤ shift p.dts) p.pts

-- The shift: the least of the origin and the first timestamps of each stream.
unfoldable pub shift_of : ℤ → List StreamPackets → ℤ
shift_of shift [] = shift
shift_of shift (s ∷ ss) = shift_of (shift_with_first shift s.packets) ss

abbrev pub shift_packet : ℤ → EncodedPacket → EncodedPacket
shift_packet shift p = record p { pts = sub_i64 p.pts shift; dts = sub_i64 p.dts shift }

abbrev pub shift_stream : ℤ → StreamPackets → StreamPackets
shift_stream shift s = record s { packets = map (shift_packet shift) s.packets }

-- `normalize_timestamps`
unfoldable pub normalize_timestamps : MediaSnapshot → MediaSnapshot
normalize_timestamps m =
    let shift = shift_of m.origin_pts m.streams in
    if eqb_ℤ shift (pos 0) then m else record m {
      streams = map (shift_stream shift) m.streams;
      origin_pts = sub_i64 m.origin_pts shift;
    }
