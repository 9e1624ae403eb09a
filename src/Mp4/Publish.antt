-- ===== src/Mp4/Publish.antt =====
-- Writing a clip: `Mp4Muxer::write_snapshot` with the guard of its staged file, `write_staged_mp4`,
-- `validate_staged_mp4_file`, `staged_path` and `snapshot_duration_ms` of
-- crates/muxer/src/mp4_muxer.rs. The two files are the one staged beside the clip and the clip. What
-- the file system and the `mp4` crate answer is a parameter.
pub mod Atomic
use Prim.Native.String.{String}
use silk_studio.Prelude.{
  ℕ, ◌+◌, ◌*◌, ◌/◌, Bool, true, false, not, ◌&&◌, ◌||◌, List, [], ◌∷◌, map, filter, find, any,
  Option, none, some, ltb, leb, ◌==◌, if◌then◌else◌, length, head?, is_empty, max, Result, ok, err,
  ◌>>=◌, ◌>>◌,
}
use silk_studio.Prelude.Int.{ℤ, pos, pos_part, max_ℤ}
use silk_studio.Prelude.Words.{u64_max, saturating_add_u64, saturating_add_i64}
use silk_studio.Media.Packet.{EncodedPacket, video, audio, is_video, is_audio}
use silk_studio.Media.Snapshot.{StreamPackets, MediaSnapshot}
use silk_studio.Mp4.Boxes.{scan_top_level_boxes}
use silk_studio.Mp4.Bytes.{Bytes}
use silk_studio.Prelude.Text.{same_text}
use silk_studio.Mp4.Codec.{check_total_payload_size, validate_codecs}
use silk_studio.Mp4.Error.{
  Mp4Error, io_failed, write_failed, staged_too_small, missing_ftyp, missing_mdat, missing_moov,
  bad_boxes,
}
use silk_studio.Mp4.Normalize.{validated, normalize_snapshot}
use silk_studio.Mp4.Samples.{sorted_mp4_packets}
use silk_studio.Mp4.Samples.Audio.{aac_lc_samples_per_frame, first_dts_ms}
use silk_studio.Mp4.Samples.Order.{PreparedSample}
use silk_studio.Mp4.Tracks.{PreparedTrack, require, prepare_mp4_tracks}

pub record Store : Type 0 where
  pub staged : Option Bytes
  pub clip : Option Bytes

-- The answers from outside. `author` is what the `mp4` crate writes of the samples, `partial` what is
-- on disk where it fails, and `checks_tracks` that its reader finds the tracks in a file.
pub record Outside : Type 0 where
  pub extract_hevc_config : StreamPackets → ℕ → ℕ → Result Mp4Error (Unit {0})
  pub extract_av1_config : StreamPackets → ℕ → ℕ → Result Mp4Error (Unit {0})
  pub is_object_type : ℕ → Bool
  pub creates_dir : Bool
  pub opens : Bool
  pub starts : List PreparedTrack → Bool
  pub author : List PreparedTrack → List PreparedSample → Result Mp4Error Bytes
  pub partial : Bytes
  pub reopens : Bool
  pub checks_tracks : Bytes → List PreparedTrack → Result Mp4Error (Unit {0})
  pub has_metadata : Bool
  pub renames : Bool
  pub removes : Bool

pub record ClipMetadata : Type 0 where
  pub duration_ms : ℕ
  pub size_bytes : ℕ
  pub created_at_unix_ms : ℕ
  pub video_codec : Option String
  pub audio_codecs : List String

-- `saturating_mul` on `u64`
abbrev pub saturating_mul_u64 : ℕ → ℕ → ℕ
saturating_mul_u64 a b = if ltb u64_max (a * b) then u64_max else a * b

-- The latest end among the packets, from 0 on.
unfoldable pub latest_end : List EncodedPacket → ℕ
latest_end [] = 0
latest_end (p ∷ ps) = max (pos_part (saturating_add_i64 p.pts p.duration)) (latest_end ps)

abbrev pub rate_or : Option ℕ → ℕ
rate_or none = 48_000
rate_or (some rate) = rate

abbrev pub audio_end : (sample_rate : ℕ) → List EncodedPacket → ℕ
audio_end sample_rate ps =
    if sample_rate == 0
    then 0
    else saturating_add_u64 (pos_part (first_dts_ms ps)) (
        saturating_mul_u64 (saturating_mul_u64 (length ps) aac_lc_samples_per_frame) 1000
        / sample_rate)

abbrev pub stream_end : StreamPackets → ℕ
stream_end s = elim s.descriptor.media_type [
  | video ↦ latest_end s.packets
  | audio ↦ if is_empty s.packets then 0 else audio_end (rate_or s.descriptor.sample_rate) s.packets
]

-- `snapshot_duration_ms`
unfoldable pub snapshot_duration_ms : List StreamPackets → ℕ
snapshot_duration_ms [] = 0
snapshot_duration_ms (s ∷ ss) = max (stream_end s) (snapshot_duration_ms ss)

-- The checks and the preparation, before the file system is touched.
unfoldable pub prepared :
    Outside → MediaSnapshot → Result Mp4Error (MediaSnapshot × List PreparedTrack)
prepared o m = validated m >>= λ _. check_total_payload_size m.streams >>= λ _.
    validate_codecs m.streams >>= λ _. normalize_snapshot m >>= λ n.
    prepare_mp4_tracks o.extract_hevc_config o.extract_av1_config o.is_object_type n.streams
    >>= λ tracks. ok (n, tracks)

-- `write_staged_mp4`, once the staged file is open: the whole file.
unfoldable pub write_staged_mp4 :
    Outside → MediaSnapshot → List PreparedTrack → Result Mp4Error Bytes
write_staged_mp4 o m tracks =
    require (o.starts tracks) write_failed
    >> (sorted_mp4_packets m tracks >>= λ samples. o.author tracks samples)

abbrev pub has_box : Bytes → List Bytes → Bool
has_box name = any (same_text name)

abbrev pub top_level_boxes : Bytes → Result Mp4Error (List Bytes)
top_level_boxes bytes = elim (scan_top_level_boxes bytes) [
  | ok types ↦ ok types
  | err e ↦ err (bad_boxes e)
]

-- `validate_staged_mp4_file`. The names are `ftyp`, `mdat` and `moov`.
unfoldable pub validate_staged_mp4_file :
    Outside → List PreparedTrack → Bytes → Result Mp4Error (Unit {0})
validate_staged_mp4_file o tracks bytes =
    require o.reopens io_failed
    >> require (not (ltb (length bytes) 32)) staged_too_small
    >> (top_level_boxes bytes >>= λ types.
        require (has_box (102 ∷ 116 ∷ 121 ∷ 112 ∷ []) types) missing_ftyp
        >> require (has_box (109 ∷ 100 ∷ 97 ∷ 116 ∷ []) types) missing_mdat
        >> require (has_box (109 ∷ 111 ∷ 111 ∷ 118 ∷ []) types) missing_moov
        >> o.checks_tracks bytes tracks)

abbrev pub metadata : MediaSnapshot → MediaSnapshot → List PreparedTrack → Bytes → ClipMetadata
metadata m n tracks bytes = record {
  duration_ms = snapshot_duration_ms n.streams;
  size_bytes = length bytes;
  created_at_unix_ms = m.captured_at_unix_ms;
  video_codec = elim (find (λ t. is_video t.media_type) tracks) [
    | none ↦ none
    | some t ↦ some t.codec
  ];
  audio_codecs = map (λ t. t.codec) (filter (λ t. is_audio t.media_type) tracks);
}

-- After the staged file is whole: it is validated, measured and renamed to the clip.
unfoldable pub confirm : Outside → List PreparedTrack → Bytes → Result Mp4Error (Unit {0})
confirm o tracks bytes =
    validate_staged_mp4_file o tracks bytes
    >> require o.has_metadata io_failed
    >> require o.renames io_failed

unfoldable pub publish :
    Outside
    → MediaSnapshot
    → MediaSnapshot
    → List PreparedTrack
    → Bytes
    → Store
    → Result Mp4Error ClipMetadata × Store
publish o m n tracks bytes store = elim (confirm o tracks bytes) [
  | err e ↦ (err e, store)
  | ok _ ↦ (ok (metadata m n tracks bytes), record store { staged = none; clip = some bytes })
]

-- The staged file is written, once it is open, then published.
unfoldable pub stage :
    Outside
    → MediaSnapshot
    → MediaSnapshot
    → List PreparedTrack
    → Store
    → Result Mp4Error ClipMetadata × Store
stage o m n tracks store = elim (write_staged_mp4 o n tracks) [
  | err e ↦ (err e, record store { staged = some o.partial })
  | ok bytes ↦ publish o m n tracks bytes (record store { staged = some bytes })
]

-- The checks, the tracks, the clip's directory and the staged file, opened.
unfoldable pub opened :
    Outside → MediaSnapshot → Result Mp4Error (MediaSnapshot × List PreparedTrack)
opened o m = prepared o m >>= λ ready.
    require o.creates_dir io_failed >> require o.opens io_failed >> ok ready

unfoldable pub write_body : Outside → MediaSnapshot → Store → Result Mp4Error ClipMetadata × Store
write_body o m store = elim (opened o m) [
  | err e ↦ (err e, store)
  | ok (n, tracks) ↦ stage o m n tracks store
]

-- `StagedFileGuard::drop`: unless the clip is published, the staged file is removed, and a failure to
-- remove it is ignored.
abbrev pub drop_guard :
    Outside → Result Mp4Error ClipMetadata × Store → Result Mp4Error ClipMetadata × Store
drop_guard o (ok meta, store) = (ok meta, store)
drop_guard o (err e, store) =
    (err e, record store { staged = if o.removes then none else store.staged })

-- `Mp4Muxer::write_snapshot`
unfoldable pub write_snapshot :
    Outside → MediaSnapshot → Store → Result Mp4Error ClipMetadata × Store
write_snapshot o m store = drop_guard o (write_body o m store)
