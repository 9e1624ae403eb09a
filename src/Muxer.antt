-- ===== src/Muxer.antt =====
-- The checks on a snapshot before container I/O (`validate_snapshot` of crates/muxer/src/lib.rs). A
-- reason is the message's kind with the ids that are printed in it.
use silk_studio.Prelude.{
  ℕ, suc, ◌+◌, Bool, true, false, not, ◌&&◌, ◌||◌, List, [], ◌∷◌, Option, none, some, any, head?,
  is_empty, if◌then◌else◌, ◌==◌, ltb, Result, ok, err, ◌>>=◌, ◌>>◌,
}
use silk_studio.Prelude.Int.{ℤ, pos, ltb_ℤ, leb_ℤ}
use silk_studio.Media.TimeBase.{TimeBase, millisecond, time_base_eq}
use silk_studio.Media.Packet.{MediaType, video, audio, is_video, is_audio, EncodedPacket}
use silk_studio.Media.Snapshot.{StreamDescriptor, StreamPackets, MediaSnapshot}
pub mod Valid
mod Examples

pub data Reason : Type 0 where
  snapshot_time_base no_video keyframe_missing : Reason
  duplicate_stream stream_time_base audio_format media_type_mismatch packet_time_base : ℕ → Reason
  non_positive_duration not_monotonic : ℕ → Reason
  packet_stream : (packet_stream_id stream_id : ℕ) → Reason

-- The two errors of `MuxerError` that validation returns.
pub data MuxerError : Type 0 where
  validation_failed : Reason → MuxerError
  nothing_to_write : MuxerError

-- Refusal with a reason unless a test holds.
abbrev pub require : Bool → Reason → Result MuxerError (Unit {0})
require true reason = ok tt
require false reason = err (validation_failed reason)

abbrev pub same_media : MediaType → MediaType → Bool
same_media video b = is_video b
same_media audio b = is_audio b

abbrev pub not_before : Option ℤ → ℤ → Bool
not_before none dts = true
not_before (some previous) dts = not (ltb_ℤ dts previous)

-- The checks on one packet, given the decode time of the one before it.
unfoldable pub check_packet :
    StreamDescriptor → Option ℤ → EncodedPacket → Result MuxerError (Unit {0})
check_packet d previous p =
    require (p.stream_id == d.stream_id) (packet_stream p.stream_id d.stream_id)
    >> require (same_media p.media_type d.media_type) (media_type_mismatch d.stream_id)
    >> require (time_base_eq p.time_base d.time_base) (packet_time_base d.stream_id)
    >> require (ltb_ℤ (pos 0) p.duration) (non_positive_duration d.stream_id)
    >> require (not_before previous p.dts) (not_monotonic d.stream_id)

unfoldable pub check_packets :
    StreamDescriptor → Option ℤ → List EncodedPacket → Result MuxerError (Unit {0})
check_packets d previous [] = ok tt
check_packets d previous (p ∷ ps) = check_packet d previous p >> check_packets d (some p.dts) ps

-- What the loop over the streams carries.
pub record Seen : Type 0 where
  pub stream_ids : List ℕ
  pub has_video : Bool
  pub writable_streams : ℕ

abbrev pub positive : Option ℕ → Bool
positive none = false
positive (some n) = ltb 0 n

abbrev pub starts_with_keyframe : List EncodedPacket → Bool
starts_with_keyframe [] = false
starts_with_keyframe (p ∷ ps) = p.is_keyframe

-- The checks on a stream with packets.
unfoldable pub check_contents : StreamPackets → Result MuxerError (Unit {0})
check_contents s =
    require (not (is_video s.descriptor.media_type) || starts_with_keyframe s.packets)
      keyframe_missing
    >> require
        (not (is_audio s.descriptor.media_type)
          || (positive s.descriptor.sample_rate && positive s.descriptor.channels))
        (audio_format s.descriptor.stream_id)
    >> check_packets s.descriptor none s.packets

abbrev pub see : Seen → StreamPackets → Seen
see seen s = record {
  stream_ids = s.descriptor.stream_id ∷ seen.stream_ids;
  has_video = seen.has_video || (not (is_empty s.packets) && is_video s.descriptor.media_type);
  writable_streams =
      if is_empty s.packets then seen.writable_streams else suc seen.writable_streams;
}

unfoldable pub check_stream : TimeBase → Seen → StreamPackets → Result MuxerError Seen
check_stream time_base seen s =
    require (not (any (λ id. s.descriptor.stream_id == id) seen.stream_ids))
      (duplicate_stream s.descriptor.stream_id)
    >> require (time_base_eq s.descriptor.time_base time_base)
        (stream_time_base s.descriptor.stream_id)
    >> (if is_empty s.packets then ok tt else check_contents s)
    >> ok (see seen s)

unfoldable pub check_streams : TimeBase → Seen → List StreamPackets → Result MuxerError Seen
check_streams time_base seen [] = ok seen
check_streams time_base seen (s ∷ ss) =
    check_stream time_base seen s >>= λ next. check_streams time_base next ss

-- The checks after the loop.
abbrev pub conclude : Seen → Result MuxerError (Unit {0})
conclude seen =
    if seen.writable_streams == 0 then err nothing_to_write else require seen.has_video no_video

-- `validate_snapshot`
unfoldable pub validate_snapshot : MediaSnapshot → Result MuxerError (Unit {0})
validate_snapshot m =
    require (time_base_eq m.time_base millisecond) snapshot_time_base
    >> (check_streams m.time_base
          (record { stream_ids = []; has_video = false; writable_streams = 0 }) m.streams
        >>= conclude)
