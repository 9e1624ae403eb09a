-- ===== src/Media/Packet.antt =====
-- Encoded packets (crates/media-types/src/packet.rs). A payload is its bytes: it is shared by
-- reference counts and never changed, so sharing cannot be observed but by `strong_count`.
use silk_studio.Prelude.{ℕ, Bool, true, false, List, length}
use silk_studio.Prelude.Int.{ℤ}
use silk_studio.Media.TimeBase.{TimeBase}

pub data MediaType : Type 0 where
  video audio : MediaType

abbrev pub is_video : MediaType → Bool
is_video video = true
is_video audio = false

abbrev pub is_audio : MediaType → Bool
is_audio video = false
is_audio audio = true

abbrev pub PacketPayload : Type 0
PacketPayload = List ℕ

-- `PacketPayload::len`
abbrev pub payload_len : PacketPayload → ℕ
payload_len = length

pub record EncodedPacket : Type 0 where
  pub stream_id : ℕ
  pub media_type : MediaType
  pub pts : ℤ
  pub dts : ℤ
  pub duration : ℤ
  pub time_base : TimeBase
  pub is_keyframe : Bool
  pub sequence : ℕ
  pub payload : PacketPayload

-- `EncodedPacket::with_sequence`
abbrev pub with_sequence : EncodedPacket → ℕ → EncodedPacket
with_sequence p sequence = record p { sequence = sequence }
