-- ===== src/Replay/Operations.antt =====
-- What the buffer's owner calls (crates/replay-buffer/src/buffer.rs): registration, insertion,
-- epochs, retention and the readings. A fallible operation returns its result and the buffer.
use silk_studio.Prelude.{
  ℕ, ◌+◌, Bool, ◌&&◌, List, [], ◌∷◌, ◌++◌, Option, none, some, is_some, if◌then◌else◌, length,
  head?, get_last?, find, Result, ok, err, map,
}
use silk_studio.Prelude.Int.{ℤ, pos, ltb_ℤ, leb_ℤ, max_ℤ}
use silk_studio.Prelude.Words.{add_u64, sub_i64}
use silk_studio.Prelude.SortedMap
use silk_studio.Prelude.SortedMap.{SortedMap}
use silk_studio.Media.TimeBase.{millisecond, time_base_eq}
use silk_studio.Media.Packet.{EncodedPacket, PacketPayload, payload_len, is_video}
use silk_studio.Media.Snapshot.{StreamDescriptor}
use silk_studio.Replay.Buffer.{
  StreamTrack, ReplayBuffer, BufferError, unregistered_stream, non_monotonic_timestamp,
  unsupported_time_base, retention_too_short, video_track, newest_video_dts, trim_to, evict,
}

abbrev pub Outcome : Type 0 → Type 0
Outcome A = Result BufferError A × ReplayBuffer

-- `start_new_epoch`
unfoldable pub start_new_epoch : ReplayBuffer → ReplayBuffer
start_new_epoch b = record b {
  streams = [];
  video_stream = none;
  memory_bytes = 0;
  epoch = add_u64 b.epoch 1;
}

abbrev pub new_track : StreamDescriptor → StreamTrack
new_track d = record { descriptor = d; packets = []; last_dts = none }

-- `register_stream`
unfoldable pub register_stream : StreamDescriptor → ReplayBuffer → Outcome (Unit {0})
register_stream d b =
    if time_base_eq d.time_base millisecond
    then (
      ok tt,
      record b {
        video_stream = if is_video d.media_type then some d.stream_id else b.video_stream;
        streams = SortedMap.insert d.stream_id (new_track d) b.streams;
      },
    )
    else (err unsupported_time_base, b)

-- `?` on a call that changes the buffer.
abbrev pub continue_with :
    Outcome (Unit {0}) → (ReplayBuffer → Outcome (Unit {0})) → Outcome (Unit {0})
continue_with (ok _, b) rest = rest b
continue_with (err e, b) rest = (err e, b)

-- The loop that registers the saved descriptors again, up to the first that is refused.
unfoldable pub register_all : List StreamDescriptor → ReplayBuffer → Outcome (Unit {0})
register_all [] b = (ok tt, b)
register_all (d ∷ ds) b = continue_with (register_stream d b) (register_all ds)

-- `start_new_epoch_preserving_streams`
unfoldable pub start_new_epoch_preserving_streams : ReplayBuffer → Outcome ℕ
start_new_epoch_preserving_streams b =
    let fresh = start_new_epoch b in
    let (result, b') = register_all (map (λ t. t.descriptor) (SortedMap.values b.streams)) fresh in
    elim result [ ok _ ↦ (ok fresh.epoch, b') | err e ↦ (err e, b') ]

-- `set_stream_extradata`
unfoldable pub set_stream_extradata : ℕ → Option PacketPayload → ReplayBuffer → Outcome (Unit {0})
set_stream_extradata id extradata b = elim (SortedMap.get id b.streams) [
  | none ↦ (err (unregistered_stream id), b)
  | some t ↦
      let t' : StreamTrack = record t {
        descriptor = record t.descriptor { extradata = extradata };
      } in
      (ok tt, record b { streams = SortedMap.insert id t' b.streams })
]

-- The check on decode timestamps: the previous one, where the new one is less.
unfoldable pub went_backwards : Option ℤ → ℤ → Option ℤ
went_backwards none dts = none
went_backwards (some previous) dts = if ltb_ℤ dts previous then some previous else none

-- Storing an accepted packet: its sequence, the end of its track, the account and the safety cap.
unfoldable pub store : StreamTrack → EncodedPacket → ReplayBuffer → ReplayBuffer
store track p b =
    let packet : EncodedPacket = record p { sequence = b.next_sequence } in
    let bytes = add_u64 b.memory_bytes (payload_len p.payload) in
    let (kept, bytes') =
      trim_to b.config.max_packets_per_stream (track.packets ++ packet ∷ []) bytes in
    record b {
      next_sequence = add_u64 b.next_sequence 1;
      streams =
          SortedMap.insert p.stream_id (record track { packets = kept; last_dts = some p.dts })
            b.streams;
      memory_bytes = bytes';
    }

-- `insert`
unfoldable pub insert : EncodedPacket → ReplayBuffer → Outcome (Unit {0})
insert p b = elim (SortedMap.get p.stream_id b.streams) [
  | none ↦ (err (unregistered_stream p.stream_id), b)
  | some track ↦ elim (went_backwards track.last_dts p.dts) [
    | some previous ↦ (err (non_monotonic_timestamp p.stream_id previous p.dts), b)
    | none ↦ (ok tt, evict (store track p b))
  ]
]

-- `set_retention`
unfoldable pub set_retention : ℤ → ReplayBuffer → Outcome (Unit {0})
set_retention retention_ms b =
    if leb_ℤ retention_ms (pos 0)
    then (err (retention_too_short retention_ms), b)
    else (ok tt, evict (record b { config = record b.config { retention_ms = retention_ms } }))

-- `earliest_video_keyframe_pts`
unfoldable pub earliest_video_keyframe_pts : ReplayBuffer → Option ℤ
earliest_video_keyframe_pts b = elim (video_track b) [
  | none ↦ none
  | some t ↦ elim (find (λ p. p.is_keyframe) t.packets) [ none ↦ none | some p ↦ some p.pts ]
]

-- `duration_ticks`
unfoldable pub duration_ticks : ReplayBuffer → ℤ
duration_ticks b = elim (video_track b) [
  | none ↦ pos 0
  | some t ↦ elim (head? t.packets) [
    | none ↦ pos 0
    | some front ↦ elim (get_last? t.packets) [
      | none ↦ pos 0
      | some back ↦ max_ℤ (sub_i64 back.dts front.dts) (pos 0)
    ]
  ]
]

-- `is_primed`
unfoldable pub is_primed : ReplayBuffer → Bool
unfolding duration_ticks
is_primed b = is_some b.video_stream && leb_ℤ b.config.retention_ms (duration_ticks b)

-- `metrics`
pub record BufferMetrics : Type 0 where
  pub packet_count : ℕ
  pub memory_bytes : ℕ
  pub duration_ticks : ℤ
  pub newest_video_dts : Option ℤ

abbrev total_packets : List StreamTrack → ℕ
total_packets [] = 0
total_packets (t ∷ ts) = length t.packets + total_packets ts

unfoldable pub metrics : ReplayBuffer → BufferMetrics
unfolding duration_ticks newest_video_dts
metrics b = record {
  packet_count = total_packets (SortedMap.values b.streams);
  memory_bytes = b.memory_bytes;
  duration_ticks = duration_ticks b;
  newest_video_dts = newest_video_dts b;
}
