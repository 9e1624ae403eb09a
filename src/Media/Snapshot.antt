-- ===== src/Media/Snapshot.antt =====
-- Snapshots handed to the muxer (crates/media-types/src/snapshot.rs), and the pixel formats that a
-- stream's description names (frame.rs).
use Prim.Native.String.{String}
use silk_studio.Prelude.{ℕ, ◌+◌, List, [], ◌∷◌, Option, none, some, find, get_last?, length}
use silk_studio.Prelude.Int.{ℤ}
use silk_studio.Prelude.Words.{saturating_sub_i64, add_i64}
use silk_studio.Media.TimeBase.{TimeBase}
use silk_studio.Media.Packet.{MediaType, PacketPayload, EncodedPacket, is_video}

pub data PixelFormat : Type 0 where
  bgra8 rgba8 nv12 i420 ayuv : PixelFormat

pub data ChromaSubsampling : Type 0 where
  yuv420 yuv444 : ChromaSubsampling

-- `PixelFormat::chroma_subsampling`
abbrev pub chroma_subsampling : PixelFormat → Option ChromaSubsampling
chroma_subsampling nv12 = some yuv420
chroma_subsampling i420 = some yuv420
chroma_subsampling ayuv = some yuv444
chroma_subsampling bgra8 = none
chroma_subsampling rgba8 = none

pub record StreamDescriptor : Type 0 where
  pub stream_id : ℕ
  pub media_type : MediaType
  pub time_base : TimeBase
  pub name : Option String
  pub codec : String
  pub extradata : Option PacketPayload
  pub width : Option ℕ
  pub height : Option ℕ
  pub sample_rate : Option ℕ
  pub channels : Option ℕ
  pub pixel_format : Option PixelFormat

pub record StreamPackets : Type 0 where
  pub descriptor : StreamDescriptor
  pub packets : List EncodedPacket

pub record MediaSnapshot : Type 0 where
  pub origin_pts : ℤ
  pub time_base : TimeBase
  pub streams : List StreamPackets
  pub captured_at_unix_ms : ℕ

-- `MediaSnapshot::packet_count`
unfoldable pub packet_count : List StreamPackets → ℕ
packet_count [] = 0
packet_count (s ∷ ss) = length s.packets + packet_count ss

-- `MediaSnapshot::video_duration_ticks`
unfoldable pub video_duration_ticks : MediaSnapshot → Option ℤ
video_duration_ticks m = elim (find (λ s. is_video s.descriptor.media_type) m.streams) [
  | none ↦ none
  | some s ↦ elim (get_last? s.packets) [
    | none ↦ none
    | some last ↦ some (add_i64 (saturating_sub_i64 last.pts m.origin_pts) last.duration)
  ]
]
