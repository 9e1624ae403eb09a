-- ===== src/Replay/Examples.antt =====
-- Tests of the buffer on a short recording, and the theorems applied to it.
use silk_studio.Prelude.{
  ℕ, ◌≡◌, ◌⊎◌, ◌+◌, refl, subst, Bool, true, false, List, [], ◌∷◌, none, some, arith, ok, All,
}
use silk_studio.Prelude.Int.{pos, ◌≤ℤ◌, ◌-ℤ◌}
use silk_studio.Prelude.Words.{add_i64, sub_i64, IsSmall}
use silk_studio.Prelude.SortedMap
use silk_studio.Prelude.SortedMap.{total}
use silk_studio.Replay.Eviction.{track_bytes}
use silk_studio.Media.TimeBase.{millisecond}
use silk_studio.Media.Packet.{MediaType, video, audio, EncodedPacket}
use silk_studio.Media.Snapshot.{StreamDescriptor, MediaSnapshot}
use silk_studio.Replay.Buffer.{
  BufferConfig, StreamTrack, ReplayBuffer, new, evict, last_index, last_index_from, drop_fronts,
  align_streams, align_track, align_with, evict_from, trim_to,
}
use silk_studio.Replay.Operations.{insert, register_stream, store, went_backwards}
use silk_studio.Replay.Calls.{
  Call, inserts, registers, sets_retention, starts_epoch_preserving, step, run,
}
use silk_studio.Replay.Snapshots.{
  SnapshotOutcome, snapshot, snapshot_of, snapshot_from, shift_of, normalize_timestamps,
}
use silk_studio.Replay.Index.{IsLast}
use silk_studio.Replay.Retention.{is_eligible, retained, evict-retained}
use silk_studio.Replay.Branches.{InsertCase, insert-InsertCase}
use silk_studio.Replay.Accounting.{IsAccounted, bytes_under, register_stream-bytes}
use silk_studio.Replay.Ordering.{IsInOrder}
use silk_studio.Replay.Steps.{HaveRoom, HasSequence, step-IsInOrder, run-IsAccounted}
use silk_studio.Replay.Clip.{same_track}
use silk_studio.Replay.Clip.Start.{HasSmallVideo, snapshot-starts_in_time}
use silk_studio.Replay.Normalized.{IsFrontLed, IsNotNegative, normalize_timestamps-IsNotNegative}

abbrev pub stream : MediaType → ℕ → StreamDescriptor
stream media id = record {
  stream_id = id;
  media_type = media;
  time_base = millisecond;
  name = none;
  codec = "h264";
  extradata = none;
  width = none;
  height = none;
  sample_rate = some 48_000;
  channels = some 2;
  pixel_format = none;
}

abbrev pub frame : MediaType → ℕ → ℕ → Bool → EncodedPacket
frame media id dts is_keyframe = record {
  stream_id = id;
  media_type = media;
  pts = pos dts;
  dts = pos dts;
  duration = pos 500;
  time_base = millisecond;
  is_keyframe = is_keyframe;
  sequence = 0;
  payload = 1 ∷ 2 ∷ [];
}

abbrev two_seconds : BufferConfig
two_seconds = record { retention_ms = pos 2_000; max_packets_per_stream = 100 }

abbrev pub video_packets : List EncodedPacket
video_packets = frame video 0 0 true ∷ frame video 0 1_000 true ∷ frame video 0 3_500 false ∷ []

abbrev pub video_track_held : StreamTrack
video_track_held = record {
  descriptor = stream video 0;
  packets = video_packets;
  last_dts = some (pos 3_500);
}

abbrev audio_track_held : StreamTrack
audio_track_held = record {
  descriptor = stream audio 1;
  packets = frame audio 1 0 true ∷ frame audio 1 600 true ∷ [];
  last_dts = some (pos 600);
}

abbrev pub recording : ReplayBuffer
recording = record {
  config = two_seconds;
  streams = (0, video_track_held) ∷ (1, audio_track_held) ∷ [];
  video_stream = some 0;
  next_sequence = 5;
  epoch = 0;
  memory_bytes = 10;
}

-- Eviction drops what is not needed to play the last two seconds.
evict_test : (evict recording).memory_bytes ≡ 6
unfolding evict last_index last_index_from evict_from align_with align_streams align_track
    drop_fronts sub_i64 add_i64
evict_test = refl

evict-retained_example :
    ((All (λ p. is_eligible recording (pos 3_500) p ≡ false) video_packets)
      × (evict recording ≡ recording))
    ⊎ ((i : ℕ) × (last : IsLast (is_eligible recording (pos 3_500)) video_packets i) × ((id : ℕ)
          → SortedMap.get id (evict recording).streams
            ≡ retained 0 video_track_held i last.packet id (SortedMap.get id recording.streams)))
evict-retained_example = evict-retained recording 0 video_track_held (pos 3_500) (refl, refl, refl)

insert-InsertCase_example : InsertCase (frame video 0 3_000 true) recording
insert-InsertCase_example = insert-InsertCase (frame video 0 3_000 true) recording

abbrev outcome : SnapshotOutcome
outcome = snapshot_from recording 0 video_track_held (pos 1_500) 1 (frame video 0 1_000 true)

taken_test : snapshot recording (pos 1_500) ≡ ok outcome
unfolding snapshot snapshot_of last_index last_index_from
taken_test = refl

video_packets-IsSmall : All (λ p. IsSmall p.pts × IsSmall p.dts) video_packets
video_packets-IsSmall = omega arith

recording-HasSmallVideo : HasSmallVideo recording
recording-HasSmallVideo id track held =
    let same_one : video_track_held ≡ track =
      same_track recording 0 id video_track_held track (refl, refl) held in
    subst (λ t. All (λ p. IsSmall p.pts × IsSmall p.dts) t.packets) same_one video_packets-IsSmall

snapshot-starts_in_time_example :
    (outcome.actual_start_pts ≤ℤ pos 1_500)
    × (outcome.keyframe_preroll_ticks ≡ pos 1_500 -ℤ outcome.actual_start_pts)
snapshot-starts_in_time_example =
    snapshot-starts_in_time recording (pos 1_500) outcome (omega arith) recording-HasSmallVideo
      taken_test

-- Two streams, the audio of which starts before the origin.
abbrev early : MediaSnapshot
early = record {
  origin_pts = pos 1_000;
  time_base = millisecond;
  streams =
      record {
        descriptor = stream video 0;
        packets = frame video 0 1_000 true ∷ frame video 0 2_000 false ∷ [];
      }
      ∷ record {
        descriptor = stream audio 1;
        packets = frame audio 1 700 true ∷ frame audio 1 1_200 true ∷ [];
      }
      ∷ [];
  captured_at_unix_ms = 0;
}

early_test : (normalize_timestamps early).origin_pts ≡ pos 300
unfolding normalize_timestamps shift_of sub_i64
early_test = refl

early-IsFrontLed : IsFrontLed early
early-IsFrontLed = ground arith

normalize_timestamps-IsNotNegative_example : IsNotNegative (normalize_timestamps early)
normalize_timestamps-IsNotNegative_example =
    normalize_timestamps-IsNotNegative early early-IsFrontLed

-- A session of calls: registration, packets, a shorter retention and a new epoch.
abbrev session : List Call
session =
    registers (stream video 0)
    ∷ registers (stream audio 1)
    ∷ inserts (frame video 0 0 true)
    ∷ inserts (frame audio 1 0 true)
    ∷ inserts (frame video 0 5_000 true)
    ∷ sets_retention (pos 1_000)
    ∷ starts_epoch_preserving
    ∷ []

session-HaveRoom : HaveRoom session (new two_seconds)
unfolding register_stream insert store trim_to went_backwards evict last_index last_index_from
    evict_from align_with align_streams align_track drop_fronts sub_i64 add_i64
session-HaveRoom = (refl, (refl, (omega arith, (omega arith, (omega arith, (tt, (tt, tt)))))))

run-IsAccounted_example : IsAccounted (run session (new two_seconds))
run-IsAccounted_example = run-IsAccounted two_seconds session session-HaveRoom

registered_room :
    HasSequence
      (inserts (frame video 0 0 true))
      (step (registers (stream video 0)) (new two_seconds))
unfolding register_stream
registered_room = omega arith

new-IsInOrder : IsInOrder (new two_seconds)
new-IsInOrder id t h = cc

recording-IsInOrder : IsInOrder (step (registers (stream video 0)) (new two_seconds))
recording-IsInOrder = step-IsInOrder (registers (stream video 0)) (new two_seconds) tt new-IsInOrder

step-IsInOrder_example :
    IsInOrder
      (step (inserts (frame video 0 0 true)) (step (registers (stream video 0)) (new two_seconds)))
step-IsInOrder_example =
    step-IsInOrder (inserts (frame video 0 0 true))
      (step (registers (stream video 0)) (new two_seconds)) registered_room recording-IsInOrder

recording-IsAccounted : IsAccounted recording
recording-IsAccounted = record { bytes_match = refl; sorted = ground arith }

register_stream-bytes_example :
    (register_stream (stream video 0) recording).1.memory_bytes
    ≡ total track_bytes (register_stream (stream video 0) recording).1.streams
      + bytes_under 0 recording
register_stream-bytes_example =
    register_stream-bytes (stream video 0) recording refl recording-IsAccounted
