-- ===== src/Hotkeys/Bindings.antt =====
-- Bindings, the check of a set of them and the plan of its replacement: `validate_bindings`,
-- `to_native_bindings` and `plan_replacement` of crates/hotkeys/src/lib.rs. The sets of that file
-- are lists here, since only membership is asked of them.
pub mod Validated
pub mod Replaced
pub mod Retained
pub mod Registered
use silk_studio.Prelude.{
  ℕ, Bool, not, ◌&&◌, List, [], ◌∷◌, any, filter, if◌then◌else◌, Result, ok, err, ◌>>=◌, ◌>>◌,
}
use silk_studio.Prelude.Int.{ℤ, eqb_ℤ}
use silk_studio.Prelude.Text.{Text, same_text}
use silk_studio.Config.Chords.{to_user_message, normalize_chord}
use silk_studio.Hotkeys.Native.{InvalidChord, parse_native_chord}

pub data HotkeyAction : Type 0 where
  save_replay start_capture stop_capture : HotkeyAction

abbrev pub same_action : HotkeyAction → HotkeyAction → Bool
same_action save_replay save_replay = Bool.true
same_action start_capture start_capture = Bool.true
same_action stop_capture stop_capture = Bool.true
same_action _ _ = Bool.false

pub record HotkeyBinding : Type 0 where
  pub id : ℤ
  pub action : HotkeyAction
  pub chord : Text

-- `==` on bindings
unfoldable pub same_binding : HotkeyBinding → HotkeyBinding → Bool
same_binding a b = eqb_ℤ a.id b.id && (same_action a.action b.action && same_text a.chord b.chord)

pub record NativeBinding : Type 0 where
  pub id : ℤ
  pub action : HotkeyAction
  pub modifiers : ℕ
  pub virtual_key : ℕ

pub data HotkeyError : Type 0 where
  invalid_chord : InvalidChord → HotkeyError
  duplicate_id : ℤ → HotkeyError
  duplicate_chord : Text → HotkeyError

-- `HotkeyBinding::new`
unfoldable pub new_binding : ℤ → HotkeyAction → Text → Result HotkeyError HotkeyBinding
new_binding id action chord = elim (normalize_chord chord) [
  | ok normalized ↦ ok (record { id = id; action = action; chord = normalized })
  | err source ↦ err (invalid_chord (record { chord = chord; reason = to_user_message source }))
]

abbrev pub native_binding : HotkeyBinding → ℕ × ℕ → NativeBinding
native_binding b (modifiers, virtual_key) = record {
  id = b.id;
  action = b.action;
  modifiers = modifiers;
  virtual_key = virtual_key;
}

-- A round of `to_native_bindings`: a chord that does not parse is left out.
abbrev pub keep_native :
    HotkeyBinding → Result InvalidChord (ℕ × ℕ) → List NativeBinding → List NativeBinding
keep_native b (ok parsed) rest = native_binding b parsed ∷ rest
keep_native b (err why) rest = rest

-- `to_native_bindings`
unfoldable pub to_native_bindings : List HotkeyBinding → List NativeBinding
to_native_bindings [] = []
to_native_bindings (b ∷ bs) = keep_native b (parse_native_chord b.chord) (to_native_bindings bs)

abbrev pub id_seen : ℤ → List ℤ → Bool
id_seen id = any (eqb_ℤ id)

abbrev pub chord_seen : Text → List Text → Bool
chord_seen chord = any (same_text chord)

-- `parse_native_chord(…)?`
abbrev pub require_native : Text → Result HotkeyError (Unit {0})
require_native chord = elim (parse_native_chord chord) [
  | ok parsed ↦ ok tt
  | err why ↦ err (invalid_chord why)
]

abbrev pub require_new_id : ℤ → List ℤ → Result HotkeyError (Unit {0})
require_new_id id ids = if id_seen id ids then err (duplicate_id id) else ok tt

abbrev pub require_new_chord : Text → List Text → Result HotkeyError (Unit {0})
require_new_chord chord chords =
    if chord_seen chord chords then err (duplicate_chord chord) else ok tt

-- The loop of `validate_bindings`, with the ids and the chords that it has seen.
unfoldable pub validate_from :
    List ℤ → List Text → List HotkeyBinding → Result HotkeyError (Unit {0})
validate_from ids chords [] = ok tt
validate_from ids chords (b ∷ bs) =
    require_new_id b.id ids
    >> (require_new_chord b.chord chords
        >> (require_native b.chord >> validate_from (b.id ∷ ids) (b.chord ∷ chords) bs))

-- `validate_bindings`
abbrev pub validate_bindings : List HotkeyBinding → Result HotkeyError (Unit {0})
validate_bindings = validate_from [] []

pub record ReplacementPlan : Type 0 where
  pub retained : List HotkeyBinding
  pub removed : List HotkeyBinding
  pub added : List HotkeyBinding

-- `contains`
abbrev pub contains : List HotkeyBinding → HotkeyBinding → Bool
contains bs b = any (same_binding b) bs

-- `plan_replacement`
unfoldable pub plan_replacement : (current requested : List HotkeyBinding) → ReplacementPlan
plan_replacement current requested =
    let retained = filter (contains requested) current in
    record {
      retained = retained;
      removed = filter (λ b. not (contains retained b)) current;
      added = filter (λ b. not (contains retained b)) requested;
    }
