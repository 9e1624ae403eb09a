-- ===== src/Mp4/Samples.antt =====
-- The samples of the MP4 file: `sorted_mp4_packets` of crates/muxer/src/mp4_muxer.rs. The sample is
-- the `mp4` crate's record of five fields.
pub mod Adts
pub mod Video
pub mod Audio
pub mod Order
pub mod Shown
pub mod Clock
pub mod Sorting
pub mod Taken
pub mod Written
use silk_studio.Prelude.{
  ℕ, List, [], ◌∷◌, ◌++◌, Option, none, some, get_elem?, Result, ok, err, ◌>>=◌, ok_or,
}
use silk_studio.Prelude.Int.{ℤ}
use silk_studio.Media.Packet.{MediaType, video, audio}
use silk_studio.Media.Snapshot.{StreamPackets, MediaSnapshot}
use silk_studio.Mp4.Error.{Mp4Error, unsupported_video_codec, index_panic}
use silk_studio.Mp4.Codec.{video_codec_from_str}
use silk_studio.Mp4.Samples.Video.{video_samples}
use silk_studio.Mp4.Samples.Audio.{audio_samples}
use silk_studio.Mp4.Samples.Order.{Placed, PreparedSample, sort_samples}
use silk_studio.Mp4.Tracks.{PreparedTrack}

abbrev pub place : PreparedTrack → Placed
place t = record { track_id = t.track_id; stream_index = t.stream_index; stream_id = t.stream_id }

-- The samples of a track. Indexing out of range would be a panic.
unfoldable pub track_samples :
    List StreamPackets → PreparedTrack → Result Mp4Error (List PreparedSample)
track_samples streams t = elim (get_elem? streams t.stream_index) [
  | none ↦ err index_panic
  | some s ↦ elim t.media_type [
    | video ↦
        ok_or (video_codec_from_str t.codec) (unsupported_video_codec t.stream_id) >>= λ codec.
        video_samples (place t) codec s.packets
    | audio ↦ audio_samples (place t) t.timescale s.packets
  ]
]

unfoldable pub all_samples :
    List StreamPackets → List PreparedTrack → Result Mp4Error (List PreparedSample)
all_samples streams [] = ok []
all_samples streams (t ∷ ts) =
    track_samples streams t >>= λ now. all_samples streams ts >>= λ later. ok (now ++ later)

-- `sorted_mp4_packets`
unfoldable pub sorted_mp4_packets :
    MediaSnapshot → List PreparedTrack → Result Mp4Error (List PreparedSample)
sorted_mp4_packets m tracks = all_samples m.streams tracks >>= λ samples. ok (sort_samples samples)
