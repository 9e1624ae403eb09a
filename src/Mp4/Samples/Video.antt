-- ===== src/Mp4/Samples/Video.antt =====
-- The samples of the video track: the video branch of `sorted_mp4_packets`
-- (crates/muxer/src/mp4_muxer.rs).
use silk_studio.Prelude.{
  ℕ, ◌^◌, ◌-◌, ◌&&◌, List, [], ◌∷◌, Option, none, some, leb, if◌then◌else◌, head?, is_empty, Result,
  ok, err, ◌>>=◌, ◌>>◌, ok_or,
}
use silk_studio.Prelude.Int.{ℤ, pos, negsuc, ltb_ℤ, leb_ℤ}
use silk_studio.Prelude.Words.{u32_max, sub_i64}
use silk_studio.Media.Packet.{EncodedPacket}
use silk_studio.Mp4.Bytes.{Bytes}
use silk_studio.Mp4.Error.{
  Mp4Error, negative_start, non_positive_duration, duration_too_long, offset_overflow,
  offset_too_large, bad_nal, bad_obu, empty_payload,
}
use silk_studio.Mp4.Codec.{VideoCodec, avc, hevc, av1}
use silk_studio.Mp4.Nal.{nal_access_unit}
use silk_studio.Mp4.Normalize.{checked_sub_i64}
use silk_studio.Mp4.Obu.{normalize_av1_sample_payload}
use silk_studio.Mp4.Samples.Order.{Placed, PreparedSample}

-- `u64::try_from` of an `i64`, `u32::try_from` and `i32::try_from`
abbrev pub to_u64 : ℤ → Option ℕ
to_u64 (pos n) = some n
to_u64 (negsuc n) = none

abbrev pub to_u32 : ℤ → Option ℕ
to_u32 (pos n) = if leb n u32_max then some n else none
to_u32 (negsuc n) = none

abbrev pub to_i32 : ℤ → Option ℤ
to_i32 z = if leb_ℤ (negsuc (2 ^ 31 - 1)) z && leb_ℤ z (pos (2 ^ 31 - 1)) then some z else none

-- The time to the next packet, or the packet's own duration.
unfoldable pub raw_duration : EncodedPacket → (next : Option EncodedPacket) → ℤ
raw_duration p none = p.duration
raw_duration p (some next) =
    if ltb_ℤ (pos 0) (sub_i64 next.dts p.dts) then sub_i64 next.dts p.dts else p.duration

abbrev pub nal_payload : Bytes → Result Mp4Error Bytes
nal_payload bytes = elim (nal_access_unit bytes) [ ok unit ↦ ok unit | err e ↦ err (bad_nal e) ]

abbrev pub obu_payload : Bytes → Result Mp4Error Bytes
obu_payload bytes = elim (normalize_av1_sample_payload bytes) [
  | ok sample ↦ ok sample
  | err e ↦ err (bad_obu e)
]

unfoldable pub video_payload : VideoCodec → Bytes → Result Mp4Error Bytes
video_payload avc bytes = nal_payload bytes
video_payload hevc bytes = nal_payload bytes
video_payload av1 bytes = obu_payload bytes

abbrev pub require_duration : EncodedPacket → Result Mp4Error (Unit {0})
require_duration p = if leb_ℤ p.duration (pos 0) then err non_positive_duration else ok tt

abbrev pub require_payload : (stream_id : ℕ) → Bytes → Result Mp4Error (Unit {0})
require_payload stream_id payload =
    if is_empty payload then err (empty_payload stream_id) else ok tt

-- `i32::try_from` of `pts - dts`
abbrev pub composition_offset : EncodedPacket → Result Mp4Error ℤ
composition_offset p = ok_or (checked_sub_i64 p.pts p.dts) offset_overflow >>= λ offset.
    ok_or (to_i32 offset) offset_too_large

abbrev pub video_frame :
    Placed → EncodedPacket → (start lasts : ℕ) (offset : ℤ) → Bytes → PreparedSample
video_frame place p start lasts offset payload = record {
  track_id = place.track_id;
  dts_ms = p.dts;
  sequence = p.sequence;
  stream_index = place.stream_index;
  sample = record {
    start_time = start;
    duration = lasts;
    rendering_offset = offset;
    is_sync = p.is_keyframe;
    bytes = payload;
  };
}

-- The body of the loop over the packets.
unfoldable pub video_sample :
    Placed
    → VideoCodec
    → EncodedPacket
    → (next : Option EncodedPacket) → Result Mp4Error PreparedSample
video_sample place codec p next = ok_or (to_u64 p.dts) negative_start >>= λ start.
    require_duration p >>= λ _. ok_or (to_u32 (raw_duration p next)) duration_too_long >>= λ lasts.
    composition_offset p >>= λ offset. video_payload codec p.payload >>= λ payload.
    require_payload place.stream_id payload >> ok (video_frame place p start lasts offset payload)

unfoldable pub video_samples :
    Placed → VideoCodec → List EncodedPacket → Result Mp4Error (List PreparedSample)
video_samples place codec [] = ok []
video_samples place codec (p ∷ ps) = video_sample place codec p (head? ps) >>= λ now.
    video_samples place codec ps >>= λ later. ok (now ∷ later)
