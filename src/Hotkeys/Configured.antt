-- ===== src/Hotkeys/Configured.antt =====
-- The bindings of the settings: `hotkey_bindings` of apps/desktop/src-tauri/src/shell.rs.
pub mod Sets
pub mod Accepted
use silk_studio.Prelude.{
  ℕ, Bool, Bool-cases, Result-cases, inl, inr, ◌≡◌, ◌≢◌, refl, sym, subst, true, false, ◌||◌, List,
  [], ◌∷◌, ◌++◌, Option, none, some, arith, any, All, Result, ok, err, ◌>>=◌, ◌>>◌, >>=_of_ok,
  if◌then◌else◌,
}
use silk_studio.Prelude.Int.{ℤ, pos}
use silk_studio.Prelude.Text.{Text, codes, same_text, same_text_self}
use silk_studio.Config.Chords.{normalize_chord}
use silk_studio.Config.Settings.{
  HotkeysSettings, FieldIssue, issue_of, validate_chord, duplicate_issue, duplicates_from,
  validate_duplicate_chords, hotkey_issues,
}
use silk_studio.Hotkeys.Native.{parse_native_chord}
use silk_studio.Hotkeys.Native.Chords.{parse_native_chord-normalize_chord}
use silk_studio.Hotkeys.Bindings.{
  HotkeyAction, save_replay, start_capture, stop_capture, HotkeyBinding, HotkeyError, new_binding,
  validate_bindings,
}
use silk_studio.Hotkeys.Bindings.Validated.{IsNative, Differs, IsBindingSet, validate_bindings_iff}

abbrev pub push_binding :
    ℤ → HotkeyAction → Option Text → List HotkeyBinding → Result HotkeyError (List HotkeyBinding)
push_binding id action none bindings = ok bindings
push_binding id action (some chord) bindings =
    new_binding id action chord >>= λ b. ok (bindings ++ b ∷ [])

-- `hotkey_bindings`
unfoldable pub hotkey_bindings : HotkeysSettings → Result HotkeyError (List HotkeyBinding)
hotkey_bindings settings = do
  first ← new_binding (pos 1) save_replay settings.save_replay_chord
  two ← push_binding (pos 2) start_capture settings.start_capture_chord (first ∷ [])
  three ← push_binding (pos 3) stop_capture settings.stop_capture_chord two
  validate_bindings three >> ok three
