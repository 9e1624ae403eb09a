-- ===== src/Hotkeys/Native/Chords.antt =====
-- The native form of a chord that the settings accept.
use Prim.Native.Nat.{bit_or}
use silk_studio.Prelude.{
  ℕ, ◌+◌, Bool, Bool-cases, inl, inr, ◌≡◌, refl, ap, ◌∙◌, true, false, List, [], ◌∷◌, none, some,
  arith, ok, >>=_of_ok, if◌then◌else◌,
}
use silk_studio.Prelude.Text.{Text, join}
use silk_studio.Config.Chords.{
  Modifier, ctrl, alt, shift, win, modifier_name, modifier_rank, Modifiers, has_modifier,
  put_modifier, chord_parts, normalize_chord,
}
use silk_studio.Config.Chords.Normal.{
  IsCanonical, normalize_chord-IsCanonical, normalize_canonical, split_canonical,
}
use silk_studio.Hotkeys.Native.{
  virtual_key_code, NativeTokens, modifier_bit, native_token, native_tokens, native_chord,
  normalized_chord, parse_native_chord,
}
use silk_studio.Hotkeys.Native.Accepted.{is_valid_key-code}

-- The bits of a set of modifiers, as the window system numbers them.
abbrev pub modifier_mask : Modifiers → ℕ
modifier_mask m =
    (if m.has_alt then 1 else 0)
    + (if m.has_ctrl then 2 else 0)
    + (if m.has_shift then 4 else 0)
    + (if m.has_win then 8 else 0)

abbrev or_bit : Bool → Modifier → ℕ → ℕ
or_bit true m mask = bit_or mask (modifier_bit m)
or_bit false m mask = mask

native_token_modifier :
    (t : NativeTokens) (m : Modifier)
    → native_token t (modifier_name m) ≡ record t { mask = bit_or t.mask (modifier_bit m) }
unfolding native_token
native_token_modifier t ctrl = refl
native_token_modifier t alt = refl
native_token_modifier t shift = refl
native_token_modifier t win = refl

native_token_key :
    (t : NativeTokens) (key : Text)
    → modifier_rank key ≡ none
    → native_token t key ≡ record t { last_key = some key }
unfolding native_token modifier_rank
native_token_key t key h = ground arith

native_tokens-put_modifier :
    (m : Modifier) (flags : Modifiers) (t : NativeTokens) (rest : List Text)
    → native_tokens t (put_modifier m flags rest)
      ≡ native_tokens (record t { mask = or_bit (has_modifier m flags) m t.mask }) rest
native_tokens-put_modifier m flags t rest = elim (Bool-cases (has_modifier m flags)) [
  | inl there ↦ rw there (ap (λ u. native_tokens u rest) (native_token_modifier t m))
  | inr absent ↦ rw absent refl
]

or_bits :
    (c a s w : Bool)
    → or_bit w win (or_bit s shift (or_bit a alt (or_bit c ctrl 0)))
      ≡ modifier_mask (record { has_ctrl = c; has_alt = a; has_shift = s; has_win = w })
or_bits c a s w = ground arith

native_tokens-chord_parts :
    (flags : Modifiers) (key : Text)
    → modifier_rank key ≡ none
    → native_tokens (record { mask = 0; last_key = none }) (chord_parts flags key)
      ≡ record { mask = modifier_mask flags; last_key = some key }
unfolding chord_parts
native_tokens-chord_parts flags key h =
    let a : NativeTokens = record { mask = or_bit flags.has_ctrl ctrl 0; last_key = none } in
    let b : NativeTokens = record a { mask = or_bit flags.has_alt alt a.mask } in
    let c : NativeTokens = record b { mask = or_bit flags.has_shift shift b.mask } in
    let d : NativeTokens = record c { mask = or_bit flags.has_win win c.mask } in
    native_tokens-put_modifier ctrl flags (record { mask = 0; last_key = none }) _
    ∙ native_tokens-put_modifier alt flags a _
    ∙ native_tokens-put_modifier shift flags b _
    ∙ native_tokens-put_modifier win flags c (key ∷ [])
    ∙ native_token_key d key h
    ∙ ap (λ (mask : ℕ). record { mask = mask; last_key = some key })
        (or_bits flags.has_ctrl flags.has_alt flags.has_shift flags.has_win)

native_chord_of_key :
    (chord : Text) (mask code : ℕ) (key : Text)
    → virtual_key_code key ≡ some code
    → native_chord chord (record { mask = mask; last_key = some key }) ≡ ok (mask, code)
unfolding native_chord
native_chord_of_key chord mask code key h = rw h refl

parse_native_canonical :
    (chord out : Text) (v : IsCanonical out) (code : ℕ)
    → normalize_chord chord ≡ ok out
    → virtual_key_code v.key ≡ some code
    → parse_native_chord chord ≡ ok (modifier_mask v.flags, code)
unfolding parse_native_chord
parse_native_canonical chord out v code h coded =
    let normal : normalized_chord chord ≡ ok out = rw (normalized_chord, h) refl in
    >>=_of_ok _ normal
    ∙ (rw (split_canonical out v, native_tokens-chord_parts v.flags v.key v.read_key.unranked)
        (native_chord_of_key chord (modifier_mask v.flags) code v.key coded))

-- A chord that `normalize_chord` accepts is never refused by `parse_native_chord`: the chord and
-- its canonical form, which is the names of its modifiers in order and its key, are both read as
-- the modifiers' bits and the key's virtual key code.
pub parse_native_chord-normalize_chord :
    (chord : Text) {out : Text}
    → normalize_chord chord ≡ ok out
    → (flags : Modifiers) × (key : Text) × (code : ℕ) × (out ≡ join b'+' (chord_parts flags key))
      × (virtual_key_code key ≡ some code)
      × (parse_native_chord chord ≡ ok (modifier_mask flags, code))
      × (parse_native_chord out ≡ ok (modifier_mask flags, code))
parse_native_chord-normalize_chord chord {out} h =
    let v = normalize_chord-IsCanonical chord h in
    let (code, coded) = is_valid_key-code v.key v.part.uppercase v.valid in
    (
      v.flags,
      v.key,
      code,
      v.spelled,
      coded,
      parse_native_canonical chord out v code h coded,
      parse_native_canonical out out v code (normalize_canonical out v) coded,
    )
