-- ===== src/Config/Chords/Normal.antt =====
-- What `normalize_chord` returns, and that it returns it again.
use silk_studio.Prelude.{
  Bool-cases, Option-cases, inl, inr, ◌≡◌, refl, sym, subst, ap, ◌∙◌, true, false, List, [], ◌∷◌,
  ◌++◌, some, arith, is_empty, All, ok, ◌>>=◌, >>=-eq-ok, >>=_of_ok,
}
use silk_studio.Prelude.Text.{Text, is_whitespace, trim, Lacks, split, join}
use silk_studio.Prelude.Text.Split.{split-Lacks, split-join, join-All}
use silk_studio.Prelude.Text.Trimmed.{Visible, trim-Visible}
use silk_studio.Config.Chords.{
  Modifiers, ChordTokens, no_tokens, read_tokens, chord_parts, finish_chord, normalize_chord,
  is_valid_key,
}
use silk_studio.Config.Chords.Keys.{is_valid_key-Visible}
use silk_studio.Config.Chords.Canonical.{
  IsToken, IsReadKey, HasReadKey, read_tokens-HasReadKey, chord_parts-IsToken,
  read_tokens-chord_parts,
}

-- A chord in its canonical form: modifiers in order, then a key that is accepted.
pub record IsCanonical (chord : Text) : Type 0 where
  pub flags : Modifiers
  pub key : Text
  pub read_key : IsReadKey key
  pub part : IsToken key
  pub valid : is_valid_key key ≡ true
  pub spelled : chord ≡ join b'+' (chord_parts flags key)

finish_chord-IsCanonical :
    (t : ChordTokens) {out : Text} → HasReadKey t.key → finish_chord t ≡ ok out → IsCanonical out
finish_chord-IsCanonical t {out} v h = elim (Option-cases t.key) [
  | inl e ↦ unfold finish_chord in ground arith
  | inr (key, e) ↦ elim (Bool-cases (is_valid_key key)) [
    | inl valid ↦
        let r : IsReadKey key = subst HasReadKey e v in
        record {
          flags = t.modifiers;
          key = key;
          read_key = r;
          part = record {
            filled = r.filled;
            alone = r.alone;
            visible = is_valid_key-Visible key r.alone valid;
            uppercase = r.uppercase;
          };
          valid = valid;
          spelled = unfold finish_chord in ground arith;
        }
    | inr invalid ↦ absurd (unfold finish_chord in ground arith)
  ]
]

pub normalize_chord-IsCanonical :
    (chord : Text) {out : Text} → normalize_chord chord ≡ ok out → IsCanonical out
unfolding normalize_chord
normalize_chord-IsCanonical chord {out} h = elim (Bool-cases (is_empty (trim chord))) [
  | inl blank ↦ absurd (ground arith)
  | inr filled ↦
      let parts = split b'+' (trim chord) in
      let chain : (read_tokens no_tokens parts >>= finish_chord) ≡ ok out = ground arith in
      let (t, e, rest) = >>=-eq-ok (read_tokens no_tokens parts) finish_chord chain in
      finish_chord-IsCanonical t
        (read_tokens-HasReadKey no_tokens parts (split-Lacks b'+' (trim chord)) tt e) rest
]

alone-All : (parts : List Text) → All IsToken parts → All (Lacks b'+') parts
alone-All [] h = tt
alone-All (p ∷ ps) (h, hs) = (h.alone, alone-All ps hs)

Visible-All : (parts : List Text) → All IsToken parts → All Visible parts
Visible-All [] h = tt
Visible-All (p ∷ ps) (h, hs) = (h.visible, Visible-All ps hs)

join-Visible : (parts : List Text) → All IsToken parts → Visible (join b'+' parts)
unfolding is_whitespace
join-Visible parts h = join-All b'+' (λ c. is_whitespace c ≡ false) parts refl (Visible-All parts h)

split-join_tokens :
    (parts : List Text)
    → is_empty parts ≡ false
    → All IsToken parts
    → split b'+' (join b'+' parts) ≡ parts
split-join_tokens [] h v = cc
split-join_tokens (p ∷ ps) h v = split-join b'+' p ps (alone-All (p ∷ ps) v)

chord_parts_filled : (flags : Modifiers) (key : Text) → is_empty (chord_parts flags key) ≡ false
unfolding chord_parts
chord_parts_filled flags key = ground arith

append_filled : (s t : Text) → is_empty s ≡ false → is_empty (s ++ t) ≡ false
append_filled [] t h = cc
append_filled (c ∷ s) t h = refl

join_filled :
    (parts : List Text)
    → is_empty parts ≡ false
    → All IsToken parts
    → is_empty (join b'+' parts) ≡ false
join_filled [] h v = cc
join_filled (p ∷ []) h (v, _) = v.filled
join_filled (p ∷ q ∷ ps) h (v, _) = append_filled p (b'+' ∷ join b'+' (q ∷ ps)) v.filled

-- The parts of a canonical chord are found by splitting it.
pub split_canonical :
    (chord : Text) (v : IsCanonical chord) → split b'+' chord ≡ chord_parts v.flags v.key
split_canonical chord v = rw v.spelled (
    split-join_tokens (chord_parts v.flags v.key) (chord_parts_filled v.flags v.key)
      (chord_parts-IsToken v.flags v.key v.part))

trim_canonical : (chord : Text) → IsCanonical chord → trim chord ≡ chord
trim_canonical chord v = trim-Visible chord (
    subst Visible (sym v.spelled)
      (join-Visible (chord_parts v.flags v.key) (chord_parts-IsToken v.flags v.key v.part)))

filled_canonical : (chord : Text) → IsCanonical chord → is_empty chord ≡ false
filled_canonical chord v = rw v.spelled (
    join_filled (chord_parts v.flags v.key) (chord_parts_filled v.flags v.key)
      (chord_parts-IsToken v.flags v.key v.part))

finish_canonical :
    (chord : Text) (v : IsCanonical chord)
    → finish_chord (record { modifiers = v.flags; key = some v.key }) ≡ ok chord
unfolding finish_chord
finish_canonical chord v = rw v.valid (ap ok (sym v.spelled))

-- The canonical form is normalized to itself.
pub normalize_canonical : (chord : Text) → IsCanonical chord → normalize_chord chord ≡ ok chord
unfolding normalize_chord
normalize_canonical chord v =
    rw (trim_canonical chord v, filled_canonical chord v, split_canonical chord v)
      (>>=_of_ok finish_chord (read_tokens-chord_parts v.flags v.key v.read_key v.part)
        ∙ finish_canonical chord v)

-- Whatever chord it was given, `normalize_chord` changes nothing when it is applied to what it
-- returned.
pub normalize_chord_idem :
    (chord : Text) {out : Text} → normalize_chord chord ≡ ok out → normalize_chord out ≡ ok out
normalize_chord_idem chord {out} h = normalize_canonical out (normalize_chord-IsCanonical chord h)
