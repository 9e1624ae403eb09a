-- ===== src/Mp4/Samples/Adts.antt =====
-- `strip_adts_if_present` of crates/muxer/src/mp4_muxer.rs. The masks and shifts of a byte are
-- remainders and quotients, and the parts of the frame's length, in bits of their own, are added.
use silk_studio.Prelude.{
  ℕ, ◌+◌, ◌*◌, ◌/◌, ◌%◌, ◌^◌, Bool, not, ◌&&◌, ◌∷◌, ltb, ◌==◌, if◌then◌else◌, length, drop,
}
use silk_studio.Mp4.Bytes.{Bytes}

-- `data[0] == 0xFF && (data[1] & 0xF6) == 0xF0`
abbrev pub is_sync_word : ℕ → ℕ → Bool
is_sync_word a b = a == 0xFF && (b / 2 ^ 4 == 0xF && b / 2 % 2 ^ 2 == 0)

-- 7 without a checksum, 9 with one.
abbrev pub adts_header_len : ℕ → ℕ
adts_header_len b = if b % 2 == 1 then 7 else 9

abbrev pub adts_frame_len : ℕ → ℕ → ℕ → ℕ
adts_frame_len d e f = d % 2 ^ 2 * 2 ^ 11 + e * 2 ^ 3 + f / 2 ^ 5

-- `strip_adts_if_present`
unfoldable pub strip_adts_if_present : Bytes → Bytes
strip_adts_if_present (a ∷ b ∷ c ∷ d ∷ e ∷ f ∷ g ∷ rest) =
    let frame = a ∷ b ∷ c ∷ d ∷ e ∷ f ∷ g ∷ rest in
    if not (is_sync_word a b)
    then frame
    else if ltb (length frame) (adts_header_len b)
    then frame
    else if adts_frame_len d e f == length frame && ltb (adts_header_len b) (length frame)
    then drop (adts_header_len b) frame
    else frame
strip_adts_if_present short = short
