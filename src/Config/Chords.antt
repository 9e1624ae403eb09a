-- ===== src/Config/Chords.antt =====
-- Hotkey chords such as "Ctrl+Shift+F10" (crates/configuration/src/chords.rs). A chord is its code
-- points.
pub mod Keys
pub mod Canonical
pub mod Normal
use silk_studio.Prelude.{
  ℕ, Bool, true, false, ◌&&◌, ◌||◌, List, [], ◌∷◌, ◌++◌, Option, none, some, leb, ◌==◌,
  if◌then◌else◌, is_empty, Result, ok, err, ◌>>=◌,
}
use silk_studio.Prelude.Words.{u32_max}
use silk_studio.Prelude.Text.{
  Text, codes, same_text, is_ascii_digit, is_ascii_uppercase, is_ascii_lowercase,
  to_ascii_uppercase, trim, split, join, parse_unsigned,
}

-- A modifier is its place in `MODIFIER_ORDER`.
pub data Modifier : Type 0 where
  ctrl alt shift win : Modifier

pub data ChordError : Type 0 where
  empty missing_key : ChordError
  duplicate_modifier : Modifier → ChordError
  unknown_token : Text → ChordError

-- `MODIFIER_ORDER`
abbrev pub modifier_name : Modifier → Text
modifier_name ctrl = codes "CTRL"
modifier_name alt = codes "ALT"
modifier_name shift = codes "SHIFT"
modifier_name win = codes "WIN"

-- `ChordError::to_user_message`
abbrev pub to_user_message : ChordError → Text
to_user_message empty = codes "hotkey chord must not be empty"
to_user_message missing_key = codes "hotkey chord must include a key"
to_user_message (duplicate_modifier m) =
    codes "modifier '" ++ (modifier_name m ++ codes "' appears more than once")
to_user_message (unknown_token token) =
    codes "'" ++ (token ++ codes "' is not a recognized modifier or key")

-- `modifier_rank`
unfoldable pub modifier_rank : Text → Option Modifier
modifier_rank token =
    if same_text token (modifier_name ctrl)
    then some ctrl
    else if same_text token (modifier_name alt)
    then some alt
    else if same_text token (modifier_name shift)
    then some shift
    else if same_text token (modifier_name win)
    then some win
    else none

-- The keys that have a name of their own.
abbrev pub is_named_key : Text → Bool
is_named_key token =
    same_text token (codes "UP")
    || (same_text token (codes "DOWN")
        || (same_text token (codes "LEFT")
            || (same_text token (codes "RIGHT")
                || (same_text token (codes "SPACE")
                    || (same_text token (codes "TAB")
                        || (same_text token (codes "ENTER") || same_text token (codes "ESC")))))))

abbrev pub is_ascii_alphanumeric : ℕ → Bool
is_ascii_alphanumeric c = is_ascii_digit c || (is_ascii_uppercase c || is_ascii_lowercase c)

-- `token.len() == 1`, which only a character of ASCII has.
abbrev pub is_character_key : Text → Bool
is_character_key (c ∷ []) = is_ascii_alphanumeric c
is_character_key token = false

-- `token.strip_prefix('F')`
abbrev pub after_f : Text → Option Text
after_f [] = none
after_f (c ∷ rest) = if c == b'F' then some rest else none

-- The number of a function key, read into an unsigned type.
abbrev pub function_number : (greatest : ℕ) → Text → Option ℕ
function_number greatest token = elim (after_f token) [
  | none ↦ none
  | some rest ↦ parse_unsigned greatest rest
]

-- `is_valid_key` of a token that is longer than a character.
abbrev pub is_longer_key : Option ℕ → Text → Bool
is_longer_key (some n) token = leb 1 n && leb n 24
is_longer_key none token = is_named_key token

-- `is_valid_key`
unfoldable pub is_valid_key : Text → Bool
is_valid_key token =
    if is_character_key token then true else is_longer_key (function_number u32_max token) token

-- `modifiers`, the flags in the order of `MODIFIER_ORDER`.
pub record Modifiers : Type 0 where
  pub has_ctrl : Bool
  pub has_alt : Bool
  pub has_shift : Bool
  pub has_win : Bool

abbrev pub no_modifiers : Modifiers
no_modifiers = record { has_ctrl = false; has_alt = false; has_shift = false; has_win = false }

abbrev pub has_modifier : Modifier → Modifiers → Bool
has_modifier ctrl m = m.has_ctrl
has_modifier alt m = m.has_alt
has_modifier shift m = m.has_shift
has_modifier win m = m.has_win

abbrev pub set_modifier : Modifier → Modifiers → Modifiers
set_modifier ctrl m = record m { has_ctrl = true }
set_modifier alt m = record m { has_alt = true }
set_modifier shift m = record m { has_shift = true }
set_modifier win m = record m { has_win = true }

-- What the loop over the tokens has read.
pub record ChordTokens : Type 0 where
  pub modifiers : Modifiers
  pub key : Option Text

abbrev pub no_tokens : ChordTokens
no_tokens = record { modifiers = no_modifiers; key = none }

-- A token that is no modifier.
abbrev pub read_key : ChordTokens → Text → Result ChordError ChordTokens
read_key t token = elim t.key [
  | some key ↦ err (unknown_token token)
  | none ↦ ok (record t { key = some token })
]

-- A round of the loop, for a token that is trimmed and in upper case.
unfoldable pub read_token : ChordTokens → Text → Result ChordError ChordTokens
read_token t token = if is_empty token then err (unknown_token []) else elim (modifier_rank token) [
  | some m ↦
      if has_modifier m t.modifiers
      then err (duplicate_modifier m)
      else ok (record t { modifiers = set_modifier m t.modifiers })
  | none ↦ read_key t token
]

abbrev pub read_tokens : ChordTokens → List Text → Result ChordError ChordTokens
read_tokens t [] = ok t
read_tokens t (raw_token ∷ rest) =
    read_token t (to_ascii_uppercase (trim raw_token)) >>= λ next. read_tokens next rest

-- A modifier's name, if it is set, before the parts that follow.
abbrev pub put_modifier : Modifier → Modifiers → List Text → List Text
put_modifier m set rest = if has_modifier m set then modifier_name m ∷ rest else rest

-- The names of the modifiers in order, and the key.
unfoldable pub chord_parts : Modifiers → Text → List Text
chord_parts set key =
    put_modifier ctrl set
      (put_modifier alt set (put_modifier shift set (put_modifier win set (key ∷ []))))

-- `normalize_chord` after the loop.
unfoldable pub finish_chord : ChordTokens → Result ChordError Text
unfolding chord_parts
finish_chord t = elim t.key [
  | none ↦ err missing_key
  | some key ↦
      if is_valid_key key
      then ok (join b'+' (chord_parts t.modifiers key))
      else err (unknown_token key)
]

-- `normalize_chord`
unfoldable pub normalize_chord : Text → Result ChordError Text
unfolding finish_chord
normalize_chord input =
    if is_empty (trim input)
    then err empty
    else read_tokens no_tokens (split b'+' (trim input)) >>= finish_chord
