-- ===== src/Mp4/Codec.antt =====
-- Codecs by name, and the checks before the streams are read: `VideoCodec::from_str`, `is_aac_codec`,
-- `validate_codecs` and `check_total_payload_size` of crates/muxer/src/mp4_muxer.rs.

use Prim.Native.String.{String}
use silk_studio.Prelude.{
  ℕ, ◌+◌, ◌*◌, ◌^◌, Bool, ◌&&◌, ◌||◌, List, [], ◌∷◌, map, Option, none, some, ltb, leb,
  if◌then◌else◌, is_empty, is_some, Result, ok, err, ◌>>=◌, ◌>>◌,
}
use silk_studio.Prelude.Words.{u64_max}
use silk_studio.Prelude.Text.{codes, same_text}
use silk_studio.Media.Packet.{video, audio, EncodedPacket, payload_len}
use silk_studio.Media.Snapshot.{StreamPackets}
use silk_studio.Mp4.Error.{
  Mp4Error, payload_overflow, payload_too_large, unsupported_video_codec, unsupported_audio_codec,
}

-- `to_ascii_lowercase` of a code point.
lower : ℕ → ℕ
lower c = if leb 65 c && leb c 90 then c + 32 else c

-- `codec.to_ascii_lowercase() == name`
unfoldable pub spells : String → String → Bool
unfolding lower
spells codec name = same_text (map lower (codes codec)) (codes name)

pub data VideoCodec : Type 0 where
  avc hevc av1 : VideoCodec

-- `VideoCodec::from_str`
unfoldable pub video_codec_from_str : String → Option VideoCodec
video_codec_from_str codec =
    if spells codec "h264" || (spells codec "avc" || spells codec "avc1")
    then some avc
    else if spells codec "h265" || (spells codec "hevc" || spells codec "hvc1")
    then some hevc
    else if spells codec "av1" || spells codec "av01"
    then some av1
    else none

-- `is_aac_codec`
unfoldable pub is_aac_codec : String → Bool
is_aac_codec codec = spells codec "aac" || spells codec "mp4a"

abbrev pub supported : StreamPackets → Result Mp4Error (Unit {0})
supported s = elim s.descriptor.media_type [
  | video ↦
      if is_some (video_codec_from_str s.descriptor.codec)
      then ok tt
      else err (unsupported_video_codec s.descriptor.stream_id)
  | audio ↦
      if is_aac_codec s.descriptor.codec
      then ok tt
      else err (unsupported_audio_codec s.descriptor.stream_id)
]

-- `validate_codecs`
unfoldable pub validate_codecs : List StreamPackets → Result Mp4Error (Unit {0})
validate_codecs [] = ok tt
validate_codecs (s ∷ ss) = (if is_empty s.packets then ok tt else supported s) >> validate_codecs ss

-- `MAX_SAFE_MP4_PAYLOAD_BYTES`
abbrev pub max_safe_mp4_payload_bytes : ℕ
max_safe_mp4_payload_bytes = 0xFFFF * 2 ^ 16

-- The inner loop of `check_total_payload_size`, over a stream's packets. A length is a `u64` on every
-- target of the program.
unfoldable pub add_payloads : (total : ℕ) → List EncodedPacket → Result Mp4Error ℕ
add_payloads total [] = ok total
add_payloads total (p ∷ ps) =
    let next = total + payload_len p.payload in
    let rest = add_payloads next ps in
    if ltb u64_max next
    then err payload_overflow
    else if ltb max_safe_mp4_payload_bytes next
    then err payload_too_large
    else rest

unfoldable pub add_streams : (total : ℕ) → List StreamPackets → Result Mp4Error ℕ
add_streams total [] = ok total
add_streams total (s ∷ ss) = add_payloads total s.packets >>= λ next. add_streams next ss

-- `check_total_payload_size`
abbrev pub check_total_payload_size : List StreamPackets → Result Mp4Error ℕ
check_total_payload_size = add_streams 0
