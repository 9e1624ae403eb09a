-- ===== src/Mp4/Error.antt =====
-- What the MP4 muxer (crates/muxer/src/mp4_muxer.rs) refuses: a reason is the message's kind with the
-- stream that it names.
use silk_studio.Prelude.{ℕ}
use silk_studio.Muxer.{MuxerError}
use silk_studio.Mp4.Boxes.{BoxError}
use silk_studio.Mp4.Nal.{NalError}
use silk_studio.Mp4.Obu.{ObuError}

pub data Mp4Error : Type 0 where
  invalid_snapshot : MuxerError → Mp4Error
  payload_overflow payload_too_large : Mp4Error
  unsupported_video_codec unsupported_audio_codec : (stream_id : ℕ) → Mp4Error
  dts_underflow dts_negative pts_underflow pts_negative : Mp4Error
  negative_start non_positive_duration duration_too_long offset_overflow offset_too_large : Mp4Error
  bad_nal : NalError → Mp4Error
  bad_obu : ObuError → Mp4Error
  empty_payload : (stream_id : ℕ) → Mp4Error
  index_panic audio_start_overflow audio_time_overflow : Mp4Error
  no_writable_video too_many_tracks : Mp4Error
  many_videos : (count : ℕ) → Mp4Error
  missing_dimensions width_too_large height_too_large : (stream_id : ℕ) → Mp4Error
  missing_sps missing_pps short_sps empty_pps bad_config : (stream_id : ℕ) → Mp4Error
  missing_sample_rate missing_channels unsupported_profile : (stream_id : ℕ) → Mp4Error
  unsupported_sample_rate unsupported_channels : ℕ → Mp4Error
  io_failed write_failed staged_too_small missing_ftyp missing_mdat missing_moov : Mp4Error
  bad_boxes : BoxError → Mp4Error
