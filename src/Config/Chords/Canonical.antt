-- ===== src/Config/Chords/Canonical.antt =====
-- The canonical form of a chord, read again.
use silk_studio.Prelude.{
  Bool, Bool-cases, Option-cases, inl, inr, ◌≡◌, refl, subst, ◌∙◌, true, false, List, [], ◌∷◌,
  Option, none, some, arith, is_empty, All, any, ◌==◌, ok, ◌>>=◌, >>=-eq-ok, >>=_of_ok,
  ok_injective,
}
use silk_studio.Prelude.Text.{Text, codes, is_whitespace, to_ascii_uppercase, upper, Lacks, trim}
use silk_studio.Prelude.Text.Trimmed.{
  Visible, trim-Visible, to_ascii_uppercase_idem, trim-Lacks, to_ascii_uppercase-Lacks, any-Visible,
  any-Lacks,
}
use silk_studio.Config.Chords.{
  Modifier, ctrl, alt, shift, win, modifier_name, modifier_rank, Modifiers, no_modifiers,
  ChordTokens, no_tokens, has_modifier, set_modifier, read_token, read_tokens, put_modifier,
  chord_parts,
}

-- A part of a canonical chord.
pub record IsToken (token : Text) : Type 0 where
  pub filled : is_empty token ≡ false
  pub alone : Lacks b'+' token
  pub visible : Visible token
  pub uppercase : to_ascii_uppercase token ≡ token

-- What the loop over the tokens says of a key.
pub record IsReadKey (key : Text) : Type 0 where
  pub filled : is_empty key ≡ false
  pub alone : Lacks b'+' key
  pub uppercase : to_ascii_uppercase key ≡ key
  pub unranked : modifier_rank key ≡ none

abbrev pub HasReadKey : Option Text → Type 0
HasReadKey none = Unit
HasReadKey (some key) = IsReadKey key

read_token-HasReadKey :
    (t : ChordTokens) (token : Text) {next : ChordTokens}
    → Lacks b'+' token
    → to_ascii_uppercase token ≡ token
    → HasReadKey t.key
    → read_token t token ≡ ok next
    → HasReadKey next.key
unfolding read_token
read_token-HasReadKey t token {next} lacks same v h = elim (Bool-cases (is_empty token)) [
  | inl e ↦ ground arith
  | inr filled ↦ elim (Option-cases (modifier_rank token)) [
    | inl unranked ↦
        let new : IsReadKey token = record {
          filled = filled;
          alone = lacks;
          uppercase = same;
          unranked = unranked;
        } in
        ground arith
    | inr (m, e) ↦ ground arith
  ]
]

pub read_tokens-HasReadKey :
    (t : ChordTokens) (raw : List Text) {out : ChordTokens}
    → All (Lacks b'+') raw
    → HasReadKey t.key
    → read_tokens t raw ≡ ok out
    → HasReadKey out.key
read_tokens-HasReadKey t [] {out} lacks v h =
    subst (λ (u : ChordTokens). HasReadKey u.key) (ok_injective h) v
read_tokens-HasReadKey t (token ∷ raw) {out} (here, later) v h =
    let (next, e, rest) =
      >>=-eq-ok (read_token t (to_ascii_uppercase (trim token))) (λ next. read_tokens next raw) h in
    read_tokens-HasReadKey next raw later
      (read_token-HasReadKey t (to_ascii_uppercase (trim token))
        (to_ascii_uppercase-Lacks (trim token) (trim-Lacks b'+' token here))
        (to_ascii_uppercase_idem (trim token)) v e)
      rest

-- Reading a token that is in its final form.
pub read_tokens-IsToken :
    (t : ChordTokens) (token : Text) (rest : List Text)
    → IsToken token
    → read_tokens t (token ∷ rest) ≡ (read_token t token >>= λ next. read_tokens next rest)
read_tokens-IsToken t token rest v = rw (trim-Visible token v.visible, v.uppercase) refl

named-IsToken :
    (s : Text)
    → is_empty s ≡ false
    → any (λ c. c == b'+') s ≡ false
    → any is_whitespace s ≡ false
    → to_ascii_uppercase s ≡ s
    → IsToken s
named-IsToken s filled alone visible same = record {
  filled = filled;
  alone = any-Lacks b'+' s alone;
  visible = any-Visible s visible;
  uppercase = same;
}

modifier_name-IsToken : (m : Modifier) → IsToken (modifier_name m)
unfolding is_whitespace upper
modifier_name-IsToken ctrl = named-IsToken (codes "CTRL") refl refl refl refl
modifier_name-IsToken alt = named-IsToken (codes "ALT") refl refl refl refl
modifier_name-IsToken shift = named-IsToken (codes "SHIFT") refl refl refl refl
modifier_name-IsToken win = named-IsToken (codes "WIN") refl refl refl refl

put_modifier-IsToken :
    (m : Modifier) (flags : Modifiers) (rest : List Text)
    → All IsToken rest
    → All IsToken (put_modifier m flags rest)
put_modifier-IsToken m flags rest v = elim (Bool-cases (has_modifier m flags)) [
  | inl there ↦ rw there (modifier_name-IsToken m, v)
  | inr absent ↦ rw absent v
]

pub chord_parts-IsToken :
    (flags : Modifiers) (key : Text) → IsToken key → All IsToken (chord_parts flags key)
unfolding chord_parts
chord_parts-IsToken flags key v = put_modifier-IsToken ctrl flags _ (
    put_modifier-IsToken alt flags _
      (put_modifier-IsToken shift flags _ (put_modifier-IsToken win flags (key ∷ []) (v, tt))))

read_token_modifier :
    (t : ChordTokens) (m : Modifier)
    → has_modifier m t.modifiers ≡ false
    → read_token t (modifier_name m) ≡ ok (record t { modifiers = set_modifier m t.modifiers })
unfolding read_token modifier_rank
read_token_modifier t ctrl h = ground arith
read_token_modifier t alt h = ground arith
read_token_modifier t shift h = ground arith
read_token_modifier t win h = ground arith

-- The flag of one modifier, as given.
abbrev with_flag : Modifier → Bool → Modifiers → Modifiers
with_flag ctrl b m = record m { has_ctrl = b }
with_flag alt b m = record m { has_alt = b }
with_flag shift b m = record m { has_shift = b }
with_flag win b m = record m { has_win = b }

with_flag_unset :
    (m : Modifier) (flags : Modifiers)
    → has_modifier m flags ≡ false
    → with_flag m false flags ≡ flags
with_flag_unset ctrl flags h = ground arith
with_flag_unset alt flags h = ground arith
with_flag_unset shift flags h = ground arith
with_flag_unset win flags h = ground arith

with_flag_set : (m : Modifier) (flags : Modifiers) → with_flag m true flags ≡ set_modifier m flags
with_flag_set ctrl flags = refl
with_flag_set alt flags = refl
with_flag_set shift flags = refl
with_flag_set win flags = refl

read_tokens-put_modifier :
    (m : Modifier) (flags : Modifiers) (t : ChordTokens) (rest : List Text)
    → has_modifier m t.modifiers ≡ false
    → read_tokens t (put_modifier m flags rest)
      ≡ read_tokens (record t { modifiers = with_flag m (has_modifier m flags) t.modifiers }) rest
read_tokens-put_modifier m flags t rest unset = elim (Bool-cases (has_modifier m flags)) [
  | inl there ↦
      rw
        (
          there,
          read_tokens-IsToken t (modifier_name m) rest (modifier_name-IsToken m),
          read_token_modifier t m unset,
          with_flag_set m t.modifiers,
        )
        refl
  | inr absent ↦ rw (absent, with_flag_unset m t.modifiers unset) refl
]

read_token_key :
    (t : ChordTokens) (key : Text)
    → t.key ≡ none
    → IsReadKey key
    → read_token t key ≡ ok (record t { key = some key })
unfolding read_token
read_token_key t key free v = rw (v.filled, v.unranked, free) refl

-- The parts of a canonical chord read as its modifiers and its key.
pub read_tokens-chord_parts :
    (flags : Modifiers) (key : Text)
    → IsReadKey key
    → IsToken key
    → read_tokens no_tokens (chord_parts flags key)
      ≡ ok (record { modifiers = flags; key = some key })
unfolding chord_parts
read_tokens-chord_parts flags key v part =
    let a : ChordTokens = record {
      modifiers = record no_modifiers { has_ctrl = flags.has_ctrl };
      key = none;
    } in
    let b : ChordTokens = record a { modifiers = record a.modifiers { has_alt = flags.has_alt } } in
    let c : ChordTokens = record b {
      modifiers = record b.modifiers { has_shift = flags.has_shift };
    } in
    let d : ChordTokens = record c { modifiers = flags } in
    read_tokens-put_modifier ctrl flags no_tokens _ refl
    ∙ read_tokens-put_modifier alt flags a _ refl
    ∙ read_tokens-put_modifier shift flags b _ refl
    ∙ read_tokens-put_modifier win flags c (key ∷ []) refl
    ∙ read_tokens-IsToken d key [] part
    ∙ >>=_of_ok (λ next. read_tokens next []) (read_token_key d key refl v)
