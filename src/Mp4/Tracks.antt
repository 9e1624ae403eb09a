-- ===== src/Mp4/Tracks.antt =====
-- The tracks of the MP4 file: `prepare_mp4_tracks`, `sample_freq_index` and `channel_config` of
-- crates/muxer/src/mp4_muxer.rs. A track's codec configuration is read by the `mp4` crate alone: of
-- it, only whether it can be made is modelled. `extract_hevc_config` and `extract_av1_config` are
-- parameters, and so are the audio object types that the crate knows.
pub mod Writable
pub mod Places
use Prim.Native.String.{String}
use silk_studio.Prelude.{
  ℕ, suc, ◌+◌, ◌/◌, ◌%◌, ◌^◌, Bool, true, false, not, ◌&&◌, ◌||◌, List, [], ◌∷◌, Option, none, some,
  ltb, ◌==◌, if◌then◌else◌, length, get_elem?, is_empty, Result, ok, err, ◌>>=◌, ◌>>◌, ok_or,
}
use silk_studio.Prelude.Words.{u32_max}
use silk_studio.Media.Packet.{MediaType, video, audio, is_video, is_audio}
use silk_studio.Media.Snapshot.{StreamDescriptor, StreamPackets}
use silk_studio.Mp4.Bytes.{Bytes}
use silk_studio.Mp4.Codec.{VideoCodec, avc, hevc, av1, video_codec_from_str}
use silk_studio.Mp4.Error.{
  Mp4Error, no_writable_video, many_videos, too_many_tracks, index_panic, missing_dimensions,
  width_too_large, height_too_large, unsupported_video_codec, short_sps, empty_pps,
  missing_sample_rate, missing_channels, unsupported_profile, unsupported_sample_rate,
  unsupported_channels,
}
use silk_studio.Mp4.Parameters.{extract_sps_pps}

pub record PreparedTrack : Type 0 where
  pub stream_index : ℕ
  pub stream_id : ℕ
  pub track_id : ℕ
  pub media_type : MediaType
  pub codec : String
  pub timescale : ℕ

abbrev pub require : Bool → Mp4Error → Result Mp4Error (Unit {0})
require true e = ok tt
require false e = err e

-- The place of a stream among those that can be written, of one media type, from a place on.
unfoldable pub indices_of : (MediaType → Bool) → (index : ℕ) → List StreamPackets → List ℕ
indices_of kind index [] = []
indices_of kind index (s ∷ ss) =
    let rest = indices_of kind (suc index) ss in
    if not (is_empty s.packets) && kind s.descriptor.media_type then index ∷ rest else rest

abbrev pub or_zero : Option ℕ → ℕ
or_zero none = 0
or_zero (some n) = n

-- `sample_freq_index`, as the place of the rate in its table.
unfoldable pub sample_freq_index : ℕ → Result Mp4Error ℕ
sample_freq_index rate = place_in 0 (
    96_000 ∷ 88_200 ∷ 64_000 ∷ 48_000 ∷ 44_100 ∷ 32_000 ∷ 24_000 ∷ 22_050 ∷ 16_000 ∷ 12_000 ∷ 11_025
    ∷ 8_000 ∷ 7_350 ∷ [])
  where
    place_in : ℕ → List ℕ → Result Mp4Error ℕ
    place_in i [] = err (unsupported_sample_rate rate)
    place_in i (r ∷ rs) = let rest = place_in (suc i) rs in if rate == r then ok i else rest

-- `channel_config`, as the place of the channels in its table.
unfoldable pub channel_config : ℕ → Result Mp4Error ℕ
channel_config channels =
    if ltb 0 channels && ltb channels 8 then ok channels else err (unsupported_channels channels)

-- The H.264 configuration can be made.
unfoldable pub check_avc : StreamPackets → Result Mp4Error (Unit {0})
check_avc s = extract_sps_pps s >>= λ (sps, pps).
    require (not (ltb (length sps) 4)) (short_sps s.descriptor.stream_id)
    >> require (not (is_empty pps)) (empty_pps s.descriptor.stream_id)

abbrev pub video_entry : (index : ℕ) → StreamPackets → PreparedTrack
video_entry index s = record {
  stream_index = index;
  stream_id = s.descriptor.stream_id;
  track_id = 1;
  media_type = video;
  codec = s.descriptor.codec;
  timescale = 1000;
}

abbrev pub audio_entry : (count index : ℕ) → StreamPackets → PreparedTrack
audio_entry count index s = record {
  stream_index = index;
  stream_id = s.descriptor.stream_id;
  track_id = count + 1;
  media_type = audio;
  codec = s.descriptor.codec;
  timescale = or_zero s.descriptor.sample_rate;
}

module _
    (extract_hevc_config extract_av1_config : StreamPackets
      → (width height : ℕ) → Result Mp4Error (Unit {0}))
    (is_object_type : ℕ → Bool) where
  abbrev pub check_config :
      VideoCodec → StreamPackets → (width height : ℕ) → Result Mp4Error (Unit {0})
  check_config avc s width height = check_avc s
  check_config hevc s width height = extract_hevc_config s width height
  check_config av1 s width height = extract_av1_config s width height

  abbrev pub check_dimensions : StreamDescriptor → Result Mp4Error (Unit {0})
  check_dimensions d =
      require (ltb 0 (or_zero d.width) && ltb 0 (or_zero d.height)) (missing_dimensions d.stream_id)
      >> require (ltb (or_zero d.width) (2 ^ 16)) (width_too_large d.stream_id)
      >> require (ltb (or_zero d.height) (2 ^ 16)) (height_too_large d.stream_id)

  -- The video track, of the stream at an index.
  unfoldable pub video_track : List StreamPackets → (index : ℕ) → Result Mp4Error PreparedTrack
  video_track streams index = ok_or (get_elem? streams index) index_panic >>= λ s.
      check_dimensions s.descriptor >>= λ _.
      ok_or (video_codec_from_str s.descriptor.codec)
        (unsupported_video_codec s.descriptor.stream_id)
      >>= λ codec.
          check_config codec s (or_zero s.descriptor.width) (or_zero s.descriptor.height)
          >> ok (video_entry index s)

  -- The audio profile in the codec bytes, if it is known, is AAC-LC.
  abbrev pub is_aac_lc : Option Bytes → Bool
  is_aac_lc none = true
  is_aac_lc (some []) = true
  is_aac_lc (some (b ∷ [])) = true
  is_aac_lc (some (b ∷ c ∷ rest)) =
      not (is_object_type (b / 2 ^ 3 % 2 ^ 5)) || b / 2 ^ 3 % 2 ^ 5 == 2

  unfoldable pub check_audio : StreamDescriptor → Result Mp4Error (Unit {0})
  check_audio d = require (ltb 0 (or_zero d.sample_rate)) (missing_sample_rate d.stream_id) >>= λ _.
      sample_freq_index (or_zero d.sample_rate) >>= λ _.
      require (ltb 0 (or_zero d.channels)) (missing_channels d.stream_id) >>= λ _.
      channel_config (or_zero d.channels) >>= λ _.
      require (is_aac_lc d.extradata) (unsupported_profile d.stream_id)

  -- An audio track, of the stream at an index, after so many tracks.
  unfoldable pub audio_track :
      List StreamPackets → (count index : ℕ) → Result Mp4Error PreparedTrack
  audio_track streams count index = ok_or (get_elem? streams index) index_panic >>= λ s.
      check_audio s.descriptor >>= λ _.
      require (not (ltb u32_max (count + 1))) too_many_tracks >> ok (audio_entry count index s)

  unfoldable pub audio_tracks :
      List StreamPackets → (count : ℕ) → List ℕ → Result Mp4Error (List PreparedTrack)
  audio_tracks streams count [] = ok []
  audio_tracks streams count (i ∷ is) =
      audio_track streams count i >>= λ t. audio_tracks streams (suc count) is >>= λ ts. ok (t ∷ ts)

  -- The one video stream.
  abbrev pub single : List ℕ → Result Mp4Error ℕ
  single [] = err no_writable_video
  single (i ∷ []) = ok i
  single (i ∷ j ∷ is) = err (many_videos (length (i ∷ j ∷ is)))

  -- `prepare_mp4_tracks`
  unfoldable pub prepare_mp4_tracks : List StreamPackets → Result Mp4Error (List PreparedTrack)
  prepare_mp4_tracks streams = single (indices_of is_video 0 streams) >>= λ index.
      video_track streams index >>= λ t.
      audio_tracks streams 1 (indices_of is_audio 0 streams) >>= λ ts. ok (t ∷ ts)
