-- ===== src/Mp4/Hevc.antt =====
-- HEVC sequence parameter sets: `parse_hevc_sps` of crates/muxer/src/mp4_muxer.rs. Its fields are read
-- in order, and a reading that finds too few bits is an error that names the field.
pub mod Limits
pub mod Refused
use silk_studio.Prelude.{
  ℕ, zero, suc, ◌+◌, ◌-◌, ◌*◌, ◌/◌, ◌%◌, ◌^◌, Bool, true, false, ◌||◌, List, [], ◌∷◌, Option, none,
  some, ltb, ◌==◌, if◌then◌else◌, Result, ok, err, ◌>>=◌, ok_or,
}
use silk_studio.Mp4.Bits.{
  BitReader, Reading, new_reader, read_bits, read_bit, read_u8, read_u32, read_ue,
}
use silk_studio.Mp4.Bytes.{Bytes}
use silk_studio.Mp4.Nal.{remove_emulation_prevention}

pub data SpsField : Type 0 where
  video_parameter_set_id max_sub_layers_minus1 temporal_id_nesting_flag profile_space tier_flag :
      SpsField
  profile_idc compatibility_flags constraint_flags level_idc sub_layer_profile_present : SpsField
  sub_layer_level_present reserved_zero_2bits sub_layer_profile sub_layer_level parameter_set_id :
      SpsField
  chroma_format separate_colour_plane pic_width pic_height conformance_window : SpsField
  window_left window_right window_top window_bottom depth_luma depth_chroma : SpsField

pub data SpsError : Type 0 where
  nal_too_short : SpsError
  wrong_nal_type invalid_layers invalid_value : ℕ → SpsError
  truncated exceeds_u8 : SpsField → SpsError

pub record HevcSpsInfo : Type 0 where
  pub general_profile_space : ℕ
  pub general_tier_flag : Bool
  pub general_profile_idc : ℕ
  pub general_profile_compatibility_flags : ℕ
  pub general_constraint_indicator_flags : ℕ
  pub general_level_idc : ℕ
  pub chroma_format_idc : ℕ
  pub bit_depth_luma_minus8 : ℕ
  pub bit_depth_chroma_minus8 : ℕ
  pub num_temporal_layers : ℕ
  pub temporal_id_nested : Bool

-- A parser of a part: its value and the reader after it, or an error.
abbrev pub Parsed : Type 0 → Type 0
Parsed A = Result SpsError (A × BitReader)

abbrev pub field : {A : Type 0} → Reading A → SpsField → Parsed A
field reading name = ok_or reading (truncated name)

-- The profile, tier and level.
pub record Profile : Type 0 where
  pub space : ℕ
  pub tier : Bool
  pub idc : ℕ
  pub compatibility : ℕ
  pub constraints : ℕ
  pub level : ℕ

unfoldable pub parse_profile : BitReader → Parsed Profile
parse_profile r = field (read_u8 2 r) profile_space >>= λ (space, r1).
    field (read_bit r1) tier_flag >>= λ (tier, r2).
    field (read_u8 5 r2) profile_idc >>= λ (idc, r3).
    field (read_u32 32 r3) compatibility_flags >>= λ (compatibility, r4).
    field (read_bits 48 r4) constraint_flags >>= λ (constraints, r5).
    field (read_u8 8 r5) level_idc >>= λ (level, r6). ok (
      record {
        space = space;
        tier = tier;
        idc = idc;
        compatibility = compatibility;
        constraints = constraints;
        level = level;
      },
      r6,
    )

-- The flags of the sub-layers: whether a profile and a level are there.
unfoldable pub parse_flags : (layers : ℕ) → BitReader → Parsed (List (Bool × Bool))
parse_flags zero r = ok ([], r)
parse_flags (suc layers) r = field (read_bit r) sub_layer_profile_present >>= λ (profile, r1).
    field (read_bit r1) sub_layer_level_present >>= λ (level, r2).
    parse_flags layers r2 >>= λ (flags, r3). ok ((profile, level) ∷ flags, r3)

abbrev pub skip_bits : (present : Bool) → (n : ℕ) → SpsField → BitReader → Result SpsError BitReader
skip_bits false n name r = ok r
skip_bits true n name r = field (read_bits n r) name >>= λ (_, after). ok after

unfoldable pub skip_layers : List (Bool × Bool) → BitReader → Result SpsError BitReader
skip_layers [] r = ok r
skip_layers ((profile, level) ∷ flags) r = skip_bits profile 88 sub_layer_profile r >>= λ r1.
    skip_bits level 8 sub_layer_level r1 >>= λ r2. skip_layers flags r2

-- The sub-layers, of which nothing is kept.
unfoldable pub skip_sub_layers : (layers : ℕ) → BitReader → Result SpsError BitReader
skip_sub_layers layers r = parse_flags layers r >>= λ (flags, r1).
    skip_bits (ltb 0 layers) ((8 - layers) * 2) reserved_zero_2bits r1 >>= λ r2.
    skip_layers flags r2

-- A code that fits a `u8` and is at most a limit.
unfoldable pub limited : (limit : ℕ) → SpsField → BitReader → Parsed ℕ
limited limit name r = field (read_ue r) name >>= λ (value, after).
    if ltb 255 value
    then err (exceeds_u8 name)
    else if ltb limit value
    then err (invalid_value value)
    else ok (value, after)

-- A code whose value is not kept.
abbrev pub skip_ue : SpsField → BitReader → Result SpsError BitReader
skip_ue name r = field (read_ue r) name >>= λ (_, after). ok after

abbrev pub skip_window : (present : Bool) → BitReader → Result SpsError BitReader
skip_window false r = ok r
skip_window true r = skip_ue window_left r >>= λ r1.
    skip_ue window_right r1 >>= λ r2. skip_ue window_top r2 >>= λ r3. skip_ue window_bottom r3

-- What is read of the picture: the chroma format and the bit depths, above 8, of luma and chroma.
unfoldable pub parse_picture : BitReader → Result SpsError (ℕ × ℕ × ℕ)
parse_picture r = skip_ue parameter_set_id r >>= λ r1.
    limited 3 chroma_format r1 >>= λ (chroma, r2).
    skip_bits (chroma == 3) 1 separate_colour_plane r2 >>= λ r3. skip_ue pic_width r3 >>= λ r4.
    skip_ue pic_height r4 >>= λ r5. field (read_bit r5) conformance_window >>= λ (window, r6).
    skip_window window r6 >>= λ r7. limited 7 depth_luma r7 >>= λ (luma, r8).
    limited 7 depth_chroma r8 >>= λ (depth, r9). ok (chroma, luma, depth)

abbrev pub check_layers : ℕ → Result SpsError (Unit {0})
check_layers n = if ltb 7 n then err (invalid_layers n) else ok tt

abbrev pub sps_info : (layers : ℕ) (nested : Bool) → Profile → ℕ × ℕ × ℕ → HevcSpsInfo
sps_info layers nested p (chroma, luma, depth) = record {
  general_profile_space = p.space;
  general_tier_flag = p.tier;
  general_profile_idc = p.idc;
  general_profile_compatibility_flags = p.compatibility;
  general_constraint_indicator_flags = p.constraints;
  general_level_idc = p.level;
  chroma_format_idc = chroma;
  bit_depth_luma_minus8 = luma;
  bit_depth_chroma_minus8 = depth;
  num_temporal_layers = layers;
  temporal_id_nested = nested;
}

-- The payload of the NAL unit. The number of layers is at most 8, so its sum does not overflow.
unfoldable pub parse_rbsp : BitReader → Result SpsError HevcSpsInfo
parse_rbsp r = field (read_u8 4 r) video_parameter_set_id >>= λ (_, r1).
    field (read_u8 3 r1) max_sub_layers_minus1 >>= λ (layers, r2).
    check_layers (layers + 1) >>= λ _.
    field (read_bit r2) temporal_id_nesting_flag >>= λ (nested, r3).
    parse_profile r3 >>= λ (profile, r4). skip_sub_layers layers r4 >>= λ r5.
    parse_picture r5 >>= λ picture. ok (sps_info (layers + 1) nested profile picture)

-- `parse_hevc_sps`
unfoldable pub parse_hevc_sps : Bytes → Result SpsError HevcSpsInfo
parse_hevc_sps (a ∷ b ∷ rest) =
    if a / 2 % 2 ^ 6 == 33
    then parse_rbsp (new_reader (remove_emulation_prevention rest))
    else err (wrong_nal_type (a / 2 % 2 ^ 6))
parse_hevc_sps short = err nal_too_short
