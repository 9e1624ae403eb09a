-- ===== src/Mp4/Examples/Clips.antt =====
-- Tests on a short clip, and the theorems on its samples, its tracks and its file applied to it.
use silk_studio.Prelude.{
  ℕ, ◌≡◌, refl, Bool, true, false, List, [], ◌∷◌, map, none, some, ok, err, Result, All, arith,
  ◌++◌,
}
use silk_studio.Prelude.Int.{pos, ◌-ℤ◌}
use silk_studio.Prelude.Words.{sub_i64}
use silk_studio.Muxer.{
  validate_snapshot, check_streams, check_stream, check_contents, check_packets, check_packet,
}
use silk_studio.Media.Packet.{is_video, is_audio, video, audio}
use silk_studio.Media.Snapshot.{MediaSnapshot}
use silk_studio.Mp4.Boxes.{scan_top_level_boxes, scan_loop, read_box}
use silk_studio.Mp4.Codec
use silk_studio.Mp4.Codec.{avc}
use silk_studio.Mp4.Error.{Mp4Error, io_failed}
use silk_studio.Mp4.Nal.{avcc_nals, avcc_loop, nal_units, prefix_nals, nal_access_unit}
use silk_studio.Mp4.Normalize.{
  checked_sub_i64, find_shift, shift_packet, shift_packets, shift_streams, normalize_snapshot,
}
use silk_studio.Mp4.Normalize.Shift.{HasTimes, earlier_stream, normalize_snapshot-eq-ok}
use silk_studio.Mp4.Parameters.{extract_sps_pps, find_sps_pps, see_nals, see_packets}
use silk_studio.Mp4.Publish
use silk_studio.Mp4.Publish.Atomic.{Leaves, write_snapshot-Leaves}
use silk_studio.Mp4.Samples.{track_samples, all_samples, sorted_mp4_packets}
use silk_studio.Mp4.Samples.Adts.{strip_adts_if_present}
use silk_studio.Mp4.Samples.Audio.{ticks_of, audio_sample, audio_loop, audio_samples, audio_frame}
use silk_studio.Mp4.Samples.Clock.{FollowsClock, DoNotOverlap, audio_samples-FollowsClock}
use silk_studio.Mp4.Samples.Order.{Placed, PreparedSample, insert_sample, sort_samples}
use silk_studio.Mp4.Samples.Shown.{IsShown, video_samples-IsShown}
use silk_studio.Mp4.Samples.Video.{
  raw_duration, video_payload, video_sample, video_samples, video_frame,
}
use silk_studio.Mp4.Samples.Taken.{OfTracks}
use silk_studio.Mp4.Samples.Written.{IsOrdered, ReordersStably, sorted_mp4_packets-IsSorted}
use silk_studio.Mp4.Tracks
use silk_studio.Mp4.Tracks.{PreparedTrack}
use silk_studio.Mp4.Tracks.Writable.{Writable, ArePlaces}
use silk_studio.Mp4.Tracks.Places.{from, OfStream, prepare_mp4_tracks-OfStream}
use silk_studio.Mp4.Examples.Data.{
  packet, h264_packet, video_stream, audio_packets, clip, mp4_file, outside, old_clip,
}

abbrev video_place : Placed
video_place = record { track_id = 1; stream_index = 0; stream_id = 0 }

abbrev audio_place : Placed
audio_place = record { track_id = 2; stream_index = 1; stream_id = 1 }

-- The third frame comes after a pause, at its own tick.
abbrev audio_out : List PreparedSample
audio_out =
    map (λ (expected, p). audio_frame audio_place 48_000 expected expected p)
      ((48_000, packet audio 1 1_000 2 (33 ∷ []))
        ∷ (49_024, packet audio 1 1_021 3 (34 ∷ []))
        ∷ (96_000, packet audio 1 2_000 4 (35 ∷ []))
        ∷ [])

audio_samples_test : audio_samples audio_place 48_000 audio_packets ≡ ok audio_out
unfolding audio_samples audio_loop audio_sample ticks_of strip_adts_if_present
audio_samples_test = refl

audio_samples-FollowsClock_example :
    FollowsClock 48_000 48_000 audio_packets audio_out × DoNotOverlap audio_out
audio_samples-FollowsClock_example =
    audio_samples-FollowsClock audio_place 48_000 audio_packets audio_out audio_samples_test

-- The first frame lasts until the second, which lasts as long as its packet says.
abbrev video_out : List PreparedSample
video_out =
    video_frame video_place (packet video 0 1_000 0 h264_packet) 1_000 40 (pos 0) h264_packet
    ∷ video_frame video_place (packet video 0 1_040 1 h264_packet) 1_040 16 (pos 0) h264_packet
    ∷ []

video_samples_test : video_samples video_place avc video_stream.packets ≡ ok video_out
unfolding video_samples video_sample video_payload raw_duration checked_sub_i64 sub_i64
    nal_access_unit nal_units avcc_nals avcc_loop prefix_nals
video_samples_test = refl

video_samples-IsShown_example : IsShown video_stream.packets video_out
video_samples-IsShown_example =
    video_samples-IsShown video_place avc video_stream.packets video_out
      ((omega arith, omega arith), ((omega arith, omega arith), tt)) video_samples_test

abbrev configured : MediaSnapshot → Result Mp4Error (List PreparedTrack)
configured m =
    Tracks.prepare_mp4_tracks (λ s width height. ok tt) (λ s width height. ok tt) (λ n. true)
      m.streams

abbrev tracks_out : List PreparedTrack
tracks_out =
    record {
      stream_index = 0;
      stream_id = 0;
      track_id = 1;
      media_type = video;
      codec = "H264";
      timescale = 1_000;
    }
    ∷ record {
      stream_index = 1;
      stream_id = 1;
      track_id = 2;
      media_type = audio;
      codec = "aac";
      timescale = 48_000;
    }
    ∷ []

prepare_mp4_tracks_test : configured clip ≡ ok tracks_out
unfolding Tracks.prepare_mp4_tracks Tracks.indices_of Tracks.video_track Tracks.audio_tracks
    Tracks.audio_track Tracks.check_audio Tracks.check_avc Tracks.sample_freq_index
    Tracks.channel_config Codec.video_codec_from_str Codec.spells extract_sps_pps find_sps_pps
    see_packets see_nals nal_units avcc_nals avcc_loop
prepare_mp4_tracks_test = refl

prepare_mp4_tracks-OfStream_example :
    (index : ℕ) × (audios : List ℕ) × Writable is_video clip.streams index
    × ((i : ℕ) → Writable is_video clip.streams i → i ≡ index)
    × ArePlaces is_audio clip.streams audios
    × (0 ∷ 1 ∷ [] ≡ index ∷ audios)
    × (1 ∷ 2 ∷ [] ≡ from 0 (index ∷ audios))
    × All (OfStream clip.streams) tracks_out
prepare_mp4_tracks-OfStream_example =
    prepare_mp4_tracks-OfStream (λ s width height. ok tt) (λ s width height. ok tt) (λ n. true)
      clip.streams tracks_out prepare_mp4_tracks_test

abbrev written_out : List PreparedSample
written_out = sort_samples (video_out ++ audio_out)

sorted_mp4_packets_test : sorted_mp4_packets clip tracks_out ≡ ok written_out
unfolding sorted_mp4_packets all_samples track_samples video_samples video_sample video_payload
    raw_duration checked_sub_i64 sub_i64 nal_access_unit nal_units avcc_nals avcc_loop prefix_nals
    audio_samples audio_loop audio_sample ticks_of strip_adts_if_present Codec.video_codec_from_str
    Codec.spells
sorted_mp4_packets_test = refl

sorted_sequences_test : map (λ s. s.sequence) written_out ≡ 0 ∷ 2 ∷ 3 ∷ 1 ∷ 4 ∷ []
unfolding sort_samples insert_sample
sorted_sequences_test = refl

sorted_mp4_packets-IsSorted_example :
    (prepared : List PreparedSample) × (all_samples clip.streams tracks_out ≡ ok prepared)
    × OfTracks clip.streams tracks_out prepared
    × IsOrdered written_out
    × ReordersStably written_out prepared
sorted_mp4_packets-IsSorted_example =
    sorted_mp4_packets-IsSorted clip tracks_out written_out sorted_mp4_packets_test

abbrev normalized_clip : MediaSnapshot
normalized_clip = record clip {
  origin_pts = pos 0;
  streams = map (earlier_stream (pos 1_000)) clip.streams;
}

normalize_snapshot_test : normalize_snapshot clip ≡ ok normalized_clip
unfolding normalize_snapshot find_shift shift_streams shift_packets shift_packet checked_sub_i64
    ◌-ℤ◌ validate_snapshot check_streams check_stream check_contents check_packets check_packet
normalize_snapshot_test = refl

normalize_snapshot-eq-ok_example :
    (normalized_clip.origin_pts ≡ pos 0)
    × (normalized_clip.streams
        ≡ map (earlier_stream (find_shift clip.origin_pts clip.streams)) clip.streams)
    × All (λ s. All HasTimes s.packets) normalized_clip.streams
    × (validate_snapshot normalized_clip ≡ ok tt)
normalize_snapshot-eq-ok_example =
    normalize_snapshot-eq-ok clip normalized_clip normalize_snapshot_test

write_snapshot-Leaves_example :
    Leaves (outside true) clip old_clip (Publish.write_snapshot (outside true) clip old_clip)
write_snapshot-Leaves_example = write_snapshot-Leaves (outside true) clip old_clip

abbrev result_of : Bool → Result Mp4Error Publish.ClipMetadata × Publish.Store
result_of renames = Publish.write_snapshot (outside renames) clip old_clip

write_snapshot_test :
    ((result_of true).1 ≡ record { staged = none; clip = some mp4_file })
    × (result_of false ≡ (err io_failed, old_clip))
unfolding Publish.write_snapshot Publish.write_body Publish.opened Publish.prepared Publish.stage
    Publish.publish Publish.confirm Publish.write_staged_mp4 Publish.validate_staged_mp4_file
    Codec.add_streams Codec.add_payloads Codec.validate_codecs Codec.video_codec_from_str
    Codec.is_aac_codec Codec.spells normalize_snapshot find_shift shift_streams shift_packets
    shift_packet checked_sub_i64 ◌-ℤ◌ validate_snapshot check_streams check_stream check_contents
    check_packets check_packet Tracks.prepare_mp4_tracks Tracks.indices_of Tracks.video_track
    Tracks.audio_tracks Tracks.audio_track Tracks.check_audio Tracks.check_avc
    Tracks.sample_freq_index Tracks.channel_config extract_sps_pps find_sps_pps see_packets see_nals
    nal_units avcc_nals avcc_loop sorted_mp4_packets all_samples track_samples video_samples
    video_sample video_payload raw_duration sub_i64 nal_access_unit prefix_nals audio_samples
    audio_loop audio_sample ticks_of strip_adts_if_present scan_top_level_boxes scan_loop read_box
write_snapshot_test = (refl, refl)
