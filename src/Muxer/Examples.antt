-- ===== src/Muxer/Examples.antt =====
-- Tests of the snapshot checks, and the theorem applied to a small snapshot.
use silk_studio.Prelude.{◌≡◌, ◌↔◌, refl, true, false, [], ◌∷◌, ok, err}
use silk_studio.Prelude.Int.{pos}
use silk_studio.Media.TimeBase.{millisecond}
use silk_studio.Media.Packet.{video, audio}
use silk_studio.Media.Snapshot.{MediaSnapshot}
use silk_studio.Replay.Examples.{stream, frame}
use silk_studio.Muxer.{
  validate_snapshot, check_streams, check_stream, check_contents, check_packets, check_packet,
  validation_failed, keyframe_missing,
}
use silk_studio.Muxer.Valid.{IsWritable, validate_snapshot_iff}

abbrev two_streams : MediaSnapshot
two_streams = record {
  origin_pts = pos 1_000;
  time_base = millisecond;
  streams =
      record {
        descriptor = stream video 0;
        packets = frame video 0 1_000 true ∷ frame video 0 2_000 false ∷ [];
      }
      ∷ record {
        descriptor = stream audio 1;
        packets = frame audio 1 700 true ∷ frame audio 1 1_200 true ∷ [];
      }
      ∷ [];
  captured_at_unix_ms = 0;
}

abbrev headless : MediaSnapshot
headless = record two_streams {
  streams = record { descriptor = stream video 0; packets = frame video 0 2_000 false ∷ [] } ∷ [];
}

accepts_test : validate_snapshot two_streams ≡ ok tt
unfolding validate_snapshot check_streams check_stream check_contents check_packets check_packet
accepts_test = refl

refuses_test : validate_snapshot headless ≡ err (validation_failed keyframe_missing)
unfolding validate_snapshot check_streams check_stream check_contents check_packets check_packet
refuses_test = refl

validate_snapshot_iff_example : (validate_snapshot two_streams ≡ ok tt) ↔ IsWritable two_streams
validate_snapshot_iff_example = validate_snapshot_iff two_streams
