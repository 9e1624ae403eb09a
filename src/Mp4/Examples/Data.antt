-- ===== src/Mp4/Examples/Data.antt =====
-- A short clip: two video frames and three audio frames, with a pause before the last.
use silk_studio.Prelude.{ℕ, Bool, true, List, [], ◌∷◌, none, some, ok}
use silk_studio.Prelude.Int.{pos}
use silk_studio.Media.TimeBase.{millisecond}
use silk_studio.Media.Packet.{MediaType, video, audio, EncodedPacket, PacketPayload}
use silk_studio.Media.Snapshot.{StreamPackets, MediaSnapshot}
use silk_studio.Mp4.Bytes.{Bytes}
use silk_studio.Mp4.Publish.{Outside, Store}

abbrev pub packet : MediaType → (id dts sequence : ℕ) → PacketPayload → EncodedPacket
packet media id dts sequence payload = record {
  stream_id = id;
  media_type = media;
  pts = pos dts;
  dts = pos dts;
  duration = pos 16;
  time_base = millisecond;
  is_keyframe = true;
  sequence = sequence;
  payload = payload;
}

-- A sequence and a picture parameter set, in a packet of length-prefixed units.
abbrev pub h264_packet : PacketPayload
h264_packet = 0 ∷ 0 ∷ 0 ∷ 4 ∷ 103 ∷ 1 ∷ 2 ∷ 3 ∷ 0 ∷ 0 ∷ 0 ∷ 1 ∷ 104 ∷ []

abbrev pub video_stream : StreamPackets
video_stream = record {
  descriptor = record {
    stream_id = 0;
    media_type = video;
    time_base = millisecond;
    name = none;
    codec = "H264";
    extradata = none;
    width = some 1_920;
    height = some 1_080;
    sample_rate = none;
    channels = none;
    pixel_format = none;
  };
  packets = packet video 0 1_000 0 h264_packet ∷ packet video 0 1_040 1 h264_packet ∷ [];
}

abbrev pub audio_packets : List EncodedPacket
audio_packets =
    packet audio 1 1_000 2 (33 ∷ [])
    ∷ packet audio 1 1_021 3 (34 ∷ [])
    ∷ packet audio 1 2_000 4 (35 ∷ [])
    ∷ []

abbrev pub clip : MediaSnapshot
clip = record {
  origin_pts = pos 1_000;
  time_base = millisecond;
  streams =
      video_stream
      ∷ record {
        descriptor = record {
          stream_id = 1;
          media_type = audio;
          time_base = millisecond;
          name = some "mic";
          codec = "aac";
          extradata = none;
          width = none;
          height = none;
          sample_rate = some 48_000;
          channels = some 2;
          pixel_format = none;
        };
        packets = audio_packets;
      }
      ∷ [];
  captured_at_unix_ms = 7;
}

-- A file of three boxes, of 32 bytes.
abbrev pub mp4_file : Bytes
mp4_file =
    0 ∷ 0 ∷ 0 ∷ 8 ∷ 102 ∷ 116 ∷ 121 ∷ 112 ∷ 0 ∷ 0 ∷ 0 ∷ 16 ∷ 109 ∷ 100 ∷ 97 ∷ 116 ∷ 1 ∷ 2 ∷ 3 ∷ 4
    ∷ 5 ∷ 6 ∷ 7 ∷ 8 ∷ 0 ∷ 0 ∷ 0 ∷ 8 ∷ 109 ∷ 111 ∷ 111 ∷ 118 ∷ []

-- Everything outside succeeds, but for the renaming where it is refused.
abbrev pub outside : (renames : Bool) → Outside
outside renames = record {
  extract_hevc_config = λ s width height. ok tt;
  extract_av1_config = λ s width height. ok tt;
  is_object_type = λ n. true;
  creates_dir = true;
  opens = true;
  starts = λ tracks. true;
  author = λ tracks samples. ok mp4_file;
  partial = [];
  reopens = true;
  checks_tracks = λ bytes tracks. ok tt;
  has_metadata = true;
  renames = renames;
  removes = true;
}

abbrev pub old_clip : Store
old_clip = record { staged = none; clip = some (9 ∷ []) }
