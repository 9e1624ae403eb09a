-- ===== src/Mp4/Hevc/Refused.antt =====
-- Passing over the profile of a sub-layer in `parse_hevc_sps`.
use silk_studio.Prelude.{
  ℕ, ◌≡◌, ◌≢◌, ◌∙◌, sym, >>=_of_ok, ltb, ◌-◌, ◌*◌, refl, Bool, true, false, List, [], ◌∷◌, any,
  Result, ok, err, >>=-eq-ok, >>=-eq-err,
}
use silk_studio.Mp4.Bits.{BitReader, read_bits}
use silk_studio.Mp4.Hevc

-- A sub-layer's profile cannot be passed over.
skip_profile :
    (r : BitReader)
    → Hevc.skip_bits true 88 Hevc.sub_layer_profile r ≡ err (Hevc.truncated Hevc.sub_layer_profile)
unfolding read_bits
skip_profile r = refl

err_not_ok :
    {e : Hevc.SpsError} {r : BitReader} → ◌≢◌ {A = Result Hevc.SpsError BitReader} (err e) (ok r)
err_not_ok same = cc

skip_layers_refuses :
    (flags : List (Bool × Bool)) (r after : BitReader)
    → any (λ f. f.0) flags ≡ true
    → Hevc.skip_layers flags r ≢ ok after
unfolding Hevc.skip_layers
skip_layers_refuses [] r after announced done = cc
skip_layers_refuses ((true, level) ∷ flags) r after announced done =
    let refused = >>=-eq-err (Hevc.skip_bits true 88 Hevc.sub_layer_profile r) _ (skip_profile r) in
    err_not_ok (sym refused ∙ done)
skip_layers_refuses ((false, level) ∷ flags) r after announced done =
    let (r2, second, rest) = >>=-eq-ok (Hevc.skip_bits level 8 Hevc.sub_layer_level r) _ done in
    skip_layers_refuses flags r2 after announced rest

-- Whatever follows, the sub-layers cannot be passed over when the flags of one announce a profile.
pub skip_sub_layers_refuses :
    (layers : ℕ) (r flagged after : BitReader) (flags : List (Bool × Bool))
    → Hevc.parse_flags layers r ≡ ok (flags, flagged)
    → any (λ f. f.0) flags ≡ true
    → Hevc.skip_sub_layers layers r ≢ ok after
unfolding Hevc.skip_sub_layers
skip_sub_layers_refuses layers r flagged after flags parsed announced done =
    let rest = sym (>>=_of_ok _ parsed) ∙ done in
    let (r2, reserved, last) =
      >>=-eq-ok (Hevc.skip_bits (ltb 0 layers) ((8 - layers) * 2) Hevc.reserved_zero_2bits flagged)
        _ rest in
    skip_layers_refuses flags r2 after announced last
