-- ===== src/Hotkeys/Native.antt =====
-- The bridge to the operating system's modifiers and virtual keys: `parse_native_chord` and
-- `virtual_key_code` of crates/hotkeys/src/lib.rs.
pub mod Accepted
pub mod Chords
use Prim.Native.Nat.{bit_or}
use silk_studio.Prelude.{
  ℕ, ◌+◌, ◌^◌, ◌-◌, ◌||◌, ◌&&◌, List, [], ◌∷◌, ◌++◌, Option, none, some, leb, if◌then◌else◌, Result,
  ok, err, ◌>>=◌, ok_or,
}
use silk_studio.Prelude.Text.{Text, codes, same_text, is_ascii_digit, is_ascii_uppercase, split}
use silk_studio.Config.Chords.{
  Modifier, ctrl, alt, shift, win, ChordError, missing_key, to_user_message, modifier_name,
  function_number, normalize_chord,
}

-- `HotkeyError`; the actions and the window system's own errors are in the other modules.
pub record InvalidChord : Type 0 where
  pub chord : Text
  pub reason : Text

abbrev pub u16_max : ℕ
u16_max = 2 ^ 16 - 1

-- The first branch of `virtual_key_code`: a key of one character.
abbrev pub character_code : Text → Option ℕ
character_code (c ∷ []) = if is_ascii_uppercase c || is_ascii_digit c then some c else none
character_code key = none

-- The keys that have a code of their own.
abbrev pub named_code : Text → Option ℕ
named_code key =
    if same_text key (codes "UP")
    then some 0x26
    else if same_text key (codes "DOWN")
    then some 0x28
    else if same_text key (codes "LEFT")
    then some 0x25
    else if same_text key (codes "RIGHT")
    then some 0x27
    else if same_text key (codes "SPACE")
    then some 0x20
    else if same_text key (codes "TAB")
    then some 0x09
    else if same_text key (codes "ENTER")
    then some 0x0D
    else if same_text key (codes "ESC")
    then some 0x1B
    else none

-- A function key's code, or the keys by name.
abbrev pub function_code : Option ℕ → Text → Option ℕ
function_code none key = named_code key
function_code (some n) key = if leb 1 n && leb n 24 then some (0x6F + n) else named_code key

-- A code that is returned at once, or the later one.
abbrev pub code_or : Option ℕ → Option ℕ → Option ℕ
code_or (some byte) later = some byte
code_or none later = later

-- `virtual_key_code`
unfoldable pub virtual_key_code : Text → Option ℕ
virtual_key_code key =
    code_or (character_code key) (function_code (function_number u16_max key) key)

-- The loop of `parse_native_chord`: the modifiers' bits and the last token that is no modifier.
pub record NativeTokens : Type 0 where
  pub mask : ℕ
  pub last_key : Option Text

abbrev pub modifier_bit : Modifier → ℕ
modifier_bit ctrl = 0x0002
modifier_bit alt = 0x0001
modifier_bit shift = 0x0004
modifier_bit win = 0x0008

unfoldable pub native_token : NativeTokens → Text → NativeTokens
native_token t token =
    if same_text token (modifier_name ctrl)
    then record t { mask = bit_or t.mask (modifier_bit ctrl) }
    else if same_text token (modifier_name alt)
    then record t { mask = bit_or t.mask (modifier_bit alt) }
    else if same_text token (modifier_name shift)
    then record t { mask = bit_or t.mask (modifier_bit shift) }
    else if same_text token (modifier_name win)
    then record t { mask = bit_or t.mask (modifier_bit win) }
    else record t { last_key = some token }

abbrev pub native_tokens : NativeTokens → List Text → NativeTokens
native_tokens t [] = t
native_tokens t (token ∷ rest) = native_tokens (native_token t token) rest

-- `normalize_chord` with its error as a `HotkeyError`.
abbrev pub normalized_chord : Text → Result InvalidChord Text
normalized_chord chord = elim (normalize_chord chord) [
  | ok normalized ↦ ok normalized
  | err source ↦ err (record { chord = chord; reason = to_user_message source })
]

abbrev pub unsupported : Text → Text
unsupported key = codes "'" ++ (key ++ codes "' is not supported by the Windows hotkey bridge")

-- `parse_native_chord` after the loop.
unfoldable pub native_chord : Text → NativeTokens → Result InvalidChord (ℕ × ℕ)
native_chord chord t = do
  key ← ok_or t.last_key (record { chord = chord; reason = to_user_message missing_key })
  virtual_key ← ok_or (virtual_key_code key) (record { chord = chord; reason = unsupported key })
  ok (t.mask, virtual_key)

-- `parse_native_chord`
unfoldable pub parse_native_chord : Text → Result InvalidChord (ℕ × ℕ)
parse_native_chord chord = normalized_chord chord >>= λ normalized.
    native_chord chord
      (native_tokens (record { mask = 0; last_key = none }) (split b'+' normalized))
