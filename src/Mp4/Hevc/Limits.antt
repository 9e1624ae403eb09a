-- ===== src/Mp4/Hevc/Limits.antt =====
-- The ranges of the fields of `parse_hevc_sps`.
use silk_studio.Prelude.{
  ℕ, ◌+◌, ◌/◌, ◌%◌, ◌==◌, if◌then◌else◌, ◌^◌, ◌≤◌, ◌<◌, ◌≡◌, ap, subst, [], ◌∷◌, none, some, ok,
  err, >>=-eq-ok, ok_injective, Bool-cases, inl, inr, arith, ltb,
}
use silk_studio.Mp4.Bits.{
  BitReader, Reading, new_reader, read_bits, read_bit, read_u8, read_u32, read_ue,
}
use silk_studio.Mp4.Bits.Range.{read_bits_bound, read_u8_bound, read_u32_bound}
use silk_studio.Mp4.Bytes.{Bytes}
use silk_studio.Mp4.Hevc
use silk_studio.Mp4.Nal.{remove_emulation_prevention}

field-eq-ok :
    {A : Type 0} (reading : Reading A) (name : Hevc.SpsField) {out : A × BitReader}
    → Hevc.field reading name ≡ ok out
    → reading ≡ some out
field-eq-ok none name read = cc
field-eq-ok (some out) name read = ap some (ok_injective read)

abbrev pub IsProfile : Hevc.Profile → Type 0
IsProfile p =
    (p.space < 2 ^ 2)
    × (p.idc < 2 ^ 5)
    × (p.compatibility < 2 ^ 32)
    × (p.constraints < 2 ^ 48)
    × (p.level < 2 ^ 8)

parse_profile-IsProfile :
    (r : BitReader) {p : Hevc.Profile} {after : BitReader}
    → Hevc.parse_profile r ≡ ok (p, after)
    → IsProfile p
unfolding Hevc.parse_profile
parse_profile-IsProfile r {p} {after} done =
    let ((space, r1), s0, d1) = >>=-eq-ok (Hevc.field (read_u8 2 r) Hevc.profile_space) _ done in
    let ((tier, r2), s1, d2) = >>=-eq-ok (Hevc.field (read_bit r1) Hevc.tier_flag) _ d1 in
    let ((idc, r3), s2, d3) = >>=-eq-ok (Hevc.field (read_u8 5 r2) Hevc.profile_idc) _ d2 in
    let ((compatibility, r4), s3, d4) =
      >>=-eq-ok (Hevc.field (read_u32 32 r3) Hevc.compatibility_flags) _ d3 in
    let ((constraints, r5), s4, d5) =
      >>=-eq-ok (Hevc.field (read_bits 48 r4) Hevc.constraint_flags) _ d4 in
    let ((level, r6), s5, last) = >>=-eq-ok (Hevc.field (read_u8 8 r5) Hevc.level_idc) _ d5 in
    let ranges : IsProfile (record {
      space = space;
      tier = tier;
      idc = idc;
      compatibility = compatibility;
      constraints = constraints;
      level = level;
    }) =
      (
        read_u8_bound 2 r (field-eq-ok _ _ s0),
        read_u8_bound 5 r2 (field-eq-ok _ _ s2),
        read_u32_bound 32 r3 (field-eq-ok _ _ s3),
        read_bits_bound 48 r4 (field-eq-ok _ _ s4),
        read_u8_bound 8 r5 (field-eq-ok _ _ s5),
      ) in
    subst (λ out. IsProfile out.0) (ok_injective last) ranges

within :
    (limit v value : ℕ) (name : Hevc.SpsField) (rest after : BitReader)
    → ◌≡◌ {A = Hevc.Parsed ℕ}
        (if ltb 255 v
          then err (Hevc.exceeds_u8 name)
          else if ltb limit v
          then err (Hevc.invalid_value v)
          else ok (v, rest))
        (ok (value, after))
    → value ≤ limit
within limit v value name rest after done = ground arith

limited-eq-ok :
    (limit : ℕ) (name : Hevc.SpsField) (r : BitReader) {value : ℕ} {after : BitReader}
    → Hevc.limited limit name r ≡ ok (value, after)
    → value ≤ limit
unfolding Hevc.limited
limited-eq-ok limit name r {value} {after} done =
    let ((v, rest), read, last) = >>=-eq-ok (Hevc.field (read_ue r) name) _ done in
    within limit v value name rest after last

parse_picture-eq-ok :
    (r : BitReader) {chroma luma depth : ℕ}
    → Hevc.parse_picture r ≡ ok (chroma, luma, depth)
    → (chroma ≤ 3) × (luma ≤ 7) × (depth ≤ 7)
unfolding Hevc.parse_picture
parse_picture-eq-ok r {chroma} {luma} {depth} done =
    let (r1, s0, d1) = >>=-eq-ok (Hevc.skip_ue Hevc.parameter_set_id r) _ done in
    let ((c, r2), s1, d2) = >>=-eq-ok (Hevc.limited 3 Hevc.chroma_format r1) _ d1 in
    let (r3, s2, d3) = >>=-eq-ok (Hevc.skip_bits (c == 3) 1 Hevc.separate_colour_plane r2) _ d2 in
    let (r4, s3, d4) = >>=-eq-ok (Hevc.skip_ue Hevc.pic_width r3) _ d3 in
    let (r5, s4, d5) = >>=-eq-ok (Hevc.skip_ue Hevc.pic_height r4) _ d4 in
    let ((window, r6), s5, d6) =
      >>=-eq-ok (Hevc.field (read_bit r5) Hevc.conformance_window) _ d5 in
    let (r7, s6, d7) = >>=-eq-ok (Hevc.skip_window window r6) _ d6 in
    let ((l, r8), s7, d8) = >>=-eq-ok (Hevc.limited 7 Hevc.depth_luma r7) _ d7 in
    let ((d, r9), s8, last) = >>=-eq-ok (Hevc.limited 7 Hevc.depth_chroma r8) _ d8 in
    let ranges : (c ≤ 3) × (l ≤ 7) × (d ≤ 7) =
      (limited-eq-ok 3 _ r1 s1, limited-eq-ok 7 _ r7 s7, limited-eq-ok 7 _ r8 s8) in
    subst (λ (x, y, z). (x ≤ 3) × (y ≤ 7) × (z ≤ 7)) (ok_injective last) ranges

-- The fields are in the ranges that the HEVC configuration record has for them.
abbrev pub IsInRange : Hevc.HevcSpsInfo → Type 0
IsInRange info =
    (info.general_profile_space < 2 ^ 2)
    × (info.general_profile_idc < 2 ^ 5)
    × (info.general_profile_compatibility_flags < 2 ^ 32)
    × (info.general_constraint_indicator_flags < 2 ^ 48)
    × (info.general_level_idc < 2 ^ 8)
    × (info.chroma_format_idc ≤ 3)
    × (info.bit_depth_luma_minus8 ≤ 7)
    × (info.bit_depth_chroma_minus8 ≤ 7)
    × (0 < info.num_temporal_layers)
    × (info.num_temporal_layers ≤ 7)

check_layers-eq-ok : (n : ℕ) → Hevc.check_layers (n + 1) ≡ ok tt → (0 < n + 1) × (n + 1 ≤ 7)
check_layers-eq-ok n checked = ground arith

parse_rbsp-IsInRange :
    (r : BitReader) (info : Hevc.HevcSpsInfo) → Hevc.parse_rbsp r ≡ ok info → IsInRange info
unfolding Hevc.parse_rbsp
parse_rbsp-IsInRange r info done =
    let ((id, r1), s0, d1) =
      >>=-eq-ok (Hevc.field (read_u8 4 r) Hevc.video_parameter_set_id) _ done in
    let ((layers, r2), s1, d2) =
      >>=-eq-ok (Hevc.field (read_u8 3 r1) Hevc.max_sub_layers_minus1) _ d1 in
    let (u, checked, d3) = >>=-eq-ok (Hevc.check_layers (layers + 1)) _ d2 in
    let ((nested, r3), s2, d4) =
      >>=-eq-ok (Hevc.field (read_bit r2) Hevc.temporal_id_nesting_flag) _ d3 in
    let ((profile, r4), s3, d5) = >>=-eq-ok (Hevc.parse_profile r3) _ d4 in
    let (r5, s4, d6) = >>=-eq-ok (Hevc.skip_sub_layers layers r4) _ d5 in
    let ((chroma, luma, depth), s5, last) = >>=-eq-ok (Hevc.parse_picture r5) _ d6 in
    let (few, most) = check_layers-eq-ok layers checked in
    let (space, idc, compatibility, constraints, level) = parse_profile-IsProfile r3 s3 in
    let (format, luma_depth, chroma_depth) = parse_picture-eq-ok r5 s5 in
    let ranges : IsInRange (Hevc.sps_info (layers + 1) nested profile (chroma, luma, depth)) = (
      space, idc, compatibility, constraints, level, format, luma_depth, chroma_depth, few, most,
    ) in
    subst IsInRange (ok_injective last) ranges

-- What `parse_hevc_sps` returns is in range: the profile's fields have the bits that are read for them,
-- the chroma format is at most 3, the bit depths at most 15, and there are 1 to 7 temporal layers.
pub parse_hevc_sps-IsInRange :
    (nal : Bytes) (info : Hevc.HevcSpsInfo) → Hevc.parse_hevc_sps nal ≡ ok info → IsInRange info
unfolding Hevc.parse_hevc_sps
parse_hevc_sps-IsInRange [] info done = cc
parse_hevc_sps-IsInRange (a ∷ []) info done = cc
parse_hevc_sps-IsInRange (a ∷ b ∷ rest) info done = elim (Bool-cases (a / 2 % 2 ^ 6 == 33)) [
  | inl sps ↦
      let parsed : Hevc.parse_rbsp (new_reader (remove_emulation_prevention rest)) ≡ ok info =
        ground arith in
      parse_rbsp-IsInRange (new_reader (remove_emulation_prevention rest)) info parsed
  | inr other ↦ absurd (ground arith)
]
