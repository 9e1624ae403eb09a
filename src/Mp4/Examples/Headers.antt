-- ===== src/Mp4/Examples/Headers.antt =====
-- Tests of the bit reader and of HEVC sequence parameter sets.
use silk_studio.Prelude.{◌≡◌, ◌≢◌, ◌*◌, ◌^◌, refl, true, false, [], ◌∷◌, some, ok}
use silk_studio.Mp4.Bits.{
  BitReader, new_reader, bit_at, read_loop, read_bits, leading_zeros, read_ue,
}
use silk_studio.Mp4.Bytes.{Bytes}
use silk_studio.Mp4.Hevc
use silk_studio.Mp4.Hevc.Limits.{IsInRange, parse_hevc_sps-IsInRange}
use silk_studio.Mp4.Hevc.Refused.{skip_sub_layers_refuses}
use silk_studio.Mp4.Nal.{remove_from}

-- 00101 is the code of 4.
read_ue_test : read_ue (new_reader (40 ∷ [])) ≡ some (4, record { payload = 40 ∷ []; bit_pos = 5 })
unfolding read_ue leading_zeros read_bits read_loop bit_at
read_ue_test = refl

abbrev main_profile_sps : Bytes
main_profile_sps = 66 ∷ 1 ∷ 1 ∷ 1 ∷ 96 ∷ 0 ∷ 0 ∷ 0 ∷ 144 ∷ 0 ∷ 0 ∷ 0 ∷ 0 ∷ 0 ∷ 93 ∷ 173 ∷ 128 ∷ []

abbrev main_profile : Hevc.HevcSpsInfo
main_profile = record {
  general_profile_space = 0;
  general_tier_flag = false;
  general_profile_idc = 1;
  general_profile_compatibility_flags = 96 * 2 ^ 24;
  general_constraint_indicator_flags = 144 * 2 ^ 40;
  general_level_idc = 93;
  chroma_format_idc = 1;
  bit_depth_luma_minus8 = 0;
  bit_depth_chroma_minus8 = 0;
  num_temporal_layers = 1;
  temporal_id_nested = true;
}

parse_hevc_sps_test : Hevc.parse_hevc_sps main_profile_sps ≡ ok main_profile
unfolding Hevc.parse_hevc_sps Hevc.parse_rbsp Hevc.parse_profile Hevc.skip_sub_layers
    Hevc.parse_flags Hevc.skip_layers Hevc.parse_picture Hevc.limited read_ue leading_zeros
    read_bits read_loop bit_at remove_from
parse_hevc_sps_test = refl

parse_hevc_sps-IsInRange_example : IsInRange main_profile
parse_hevc_sps-IsInRange_example =
    parse_hevc_sps-IsInRange main_profile_sps main_profile parse_hevc_sps_test

-- One sub-layer, with its profile and its level, in enough bytes for both.
abbrev sub_layer : BitReader
sub_layer =
    new_reader (192 ∷ 0 ∷ 1 ∷ 2 ∷ 3 ∷ 4 ∷ 5 ∷ 6 ∷ 7 ∷ 8 ∷ 9 ∷ 10 ∷ 11 ∷ 12 ∷ 13 ∷ 14 ∷ 15 ∷ [])

parse_flags_test :
    Hevc.parse_flags 1 sub_layer ≡ ok ((true, true) ∷ [], record sub_layer { bit_pos = 2 })
unfolding Hevc.parse_flags read_bits read_loop bit_at
parse_flags_test = refl

skip_sub_layers_refuses_example : Hevc.skip_sub_layers 1 sub_layer ≢ ok sub_layer
skip_sub_layers_refuses_example =
    skip_sub_layers_refuses 1 sub_layer (record sub_layer { bit_pos = 2 }) sub_layer
      ((true, true) ∷ []) parse_flags_test refl
