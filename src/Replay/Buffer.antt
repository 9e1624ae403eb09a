-- ===== src/Replay/Buffer.antt =====
-- The state of the replay buffer and its operations on packets (crates/replay-buffer/src/buffer.rs,
-- error.rs).
use silk_studio.Prelude.{
  ℕ, zero, suc, ◌-◌, Bool, ◌&&◌, List, [], ◌∷◌, Option, none, some, ltb, ◌==◌, if◌then◌else◌,
  length, head?, get_last?,
}
use silk_studio.Prelude.Int.{ℤ, pos, leb_ℤ}
use silk_studio.Prelude.Words.{add_i64, sub_i64}
use silk_studio.Prelude.SortedMap
use silk_studio.Prelude.SortedMap.{SortedMap}
use silk_studio.Media.Packet.{EncodedPacket, payload_len}
use silk_studio.Media.Snapshot.{StreamDescriptor}

pub record BufferConfig : Type 0 where
  pub retention_ms : ℤ
  pub max_packets_per_stream : ℕ

-- `BufferConfig::default`
abbrev pub default_config : BufferConfig
default_config = record { retention_ms = pos 60_000; max_packets_per_stream = 60_000 }

pub record StreamTrack : Type 0 where
  pub descriptor : StreamDescriptor
  pub packets : List EncodedPacket
  pub last_dts : Option ℤ

pub record ReplayBuffer : Type 0 where
  pub config : BufferConfig
  pub streams : SortedMap StreamTrack
  pub video_stream : Option ℕ
  pub next_sequence : ℕ
  pub epoch : ℕ
  pub memory_bytes : ℕ

pub data BufferError : Type 0 where
  unregistered_stream : (stream_id : ℕ) → BufferError
  non_monotonic_timestamp : (stream_id : ℕ) (previous_dts new_dts : ℤ) → BufferError
  nothing_buffered unsupported_time_base : BufferError
  no_keyframe_at_or_before : (requested_start_pts : ℤ) → BufferError
  retention_too_short : (value_ms : ℤ) → BufferError

-- `ReplayBuffer::new`
abbrev pub new : BufferConfig → ReplayBuffer
new config = record {
  config = config;
  streams = [];
  video_stream = none;
  next_sequence = 0;
  epoch = 0;
  memory_bytes = 0;
}

-- The track of the video stream, where there is one.
abbrev pub video_track : ReplayBuffer → Option StreamTrack
video_track b = elim b.video_stream [ none ↦ none | some id ↦ SortedMap.get id b.streams ]

abbrev pub dts_of : Option EncodedPacket → Option ℤ
dts_of none = none
dts_of (some p) = some p.dts

-- `newest_video_dts`
unfoldable pub newest_video_dts : ReplayBuffer → Option ℤ
newest_video_dts b = elim (video_track b) [ none ↦ none | some t ↦ dts_of (get_last? t.packets) ]

-- The loop that keeps the last index whose packet passes the test.
unfoldable pub last_index_from :
    (EncodedPacket → Bool) → ℕ → Option ℕ → List EncodedPacket → Option ℕ
last_index_from test index found [] = found
last_index_from test index found (p ∷ ps) =
    last_index_from test (suc index) (if test p then some index else found) ps

unfoldable pub last_index : (EncodedPacket → Bool) → List EncodedPacket → Option ℕ
unfolding last_index_from
last_index test = last_index_from test 0 none

-- Packets of one track with the bytes that the buffer accounts for.
abbrev pub Held : Type 0
Held = List EncodedPacket × ℕ

-- `pop_front` `count` times, each with its `saturating_sub`.
unfoldable pub drop_fronts : ℕ → List EncodedPacket → ℕ → Held
drop_fronts zero ps bytes = (ps, bytes)
drop_fronts (suc count) [] bytes = ([], bytes)
drop_fronts (suc count) (p ∷ ps) bytes = drop_fronts count ps (bytes - payload_len p.payload)

-- The safety cap: packets leave at the front while there are too many.
unfoldable pub trim_to : ℕ → List EncodedPacket → ℕ → Held
trim_to cap [] bytes = ([], bytes)
trim_to cap (p ∷ ps) bytes =
    let rest = trim_to cap ps (bytes - payload_len p.payload) in
    if ltb cap (length (p ∷ ps)) then rest else (p ∷ ps, bytes)

-- The packets of another stream that end at or before the earliest video kept leave at the front.
unfoldable pub align_track : ℤ → List EncodedPacket → ℕ → Held
align_track earliest [] bytes = ([], bytes)
align_track earliest (p ∷ ps) bytes =
    let rest = align_track earliest ps (bytes - payload_len p.payload) in
    if leb_ℤ (add_i64 p.dts p.duration) earliest then rest else (p ∷ ps, bytes)

-- The loop over the streams in the order of their ids, the video stream passed over.
unfoldable pub align_streams : ℕ → ℤ → SortedMap StreamTrack → ℕ → SortedMap StreamTrack × ℕ
align_streams video_id earliest [] bytes = ([], bytes)
align_streams video_id earliest ((id, track) ∷ rest) bytes =
    let (kept, left) =
      (if id == video_id
        then (track.packets, bytes)
        else align_track earliest track.packets bytes) in
    let (rest', left') = align_streams video_id earliest rest left in
    ((id, record track { packets = kept }) ∷ rest', left')

abbrev pub is_keyframe_until : ℤ → EncodedPacket → Bool
is_keyframe_until boundary p = p.is_keyframe && leb_ℤ p.dts boundary

-- The other streams are aligned with the video packets that are kept, unless none is.
unfoldable pub align_with : ℕ → StreamTrack → ReplayBuffer → Held → ReplayBuffer
align_with video_id track b (kept, bytes) =
    let streams = SortedMap.insert video_id (record track { packets = kept }) b.streams in
    elim (head? kept) [
      | none ↦ record b { streams = streams; memory_bytes = bytes }
      | some front ↦
          let (aligned, bytes') = align_streams video_id front.dts streams bytes in
          record b { streams = aligned; memory_bytes = bytes' }
    ]

-- The second phase of `evict`: the video stream loses its first `keep_from` packets (none when that
-- is 0, where the front is the retained keyframe), and the other
-- streams what ends before the first video packet that is left.
unfoldable pub evict_from : ℕ → StreamTrack → ℕ → ReplayBuffer → ReplayBuffer
evict_from video_id track keep_from b =
    align_with video_id track b (drop_fronts keep_from track.packets b.memory_bytes)

-- `evict`
unfoldable pub evict : ReplayBuffer → ReplayBuffer
evict b = elim b.video_stream [
  | none ↦ b
  | some video_id ↦ elim (SortedMap.get video_id b.streams) [
    | none ↦ b
    | some track ↦ elim (dts_of (get_last? track.packets)) [
      | none ↦ b
      | some newest ↦
          elim (last_index (is_keyframe_until (sub_i64 newest b.config.retention_ms))
            track.packets) [ none ↦ b | some keep_from ↦ evict_from video_id track keep_from b ]
    ]
  ]
]
