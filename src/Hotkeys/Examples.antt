-- ===== src/Hotkeys/Examples.antt =====
-- Tests of the bindings and of the key events, and the theorems applied to them.
use silk_studio.Prelude.{
  ℕ, ◌≤◌, ◌≡◌, ◌↔◌, refl, Bool, none, some, true, false, List, [], ◌∷◌, ok, err, length,
}
use silk_studio.Prelude.Int.{pos}
use silk_studio.Prelude.Text.{Text, codes, upper, is_whitespace, join}
use silk_studio.Config.Chords.{
  Modifiers, modifier_rank, is_valid_key, read_token, chord_parts, finish_chord, normalize_chord,
}
use silk_studio.Hotkeys.Native.{virtual_key_code, native_token, native_chord, parse_native_chord}
use silk_studio.Hotkeys.Native.Chords.{modifier_mask, parse_native_chord-normalize_chord}
use silk_studio.Hotkeys.Bindings.{
  HotkeyBinding, save_replay, start_capture, duplicate_id, validate_from, validate_bindings,
  NativeBinding,
}
use silk_studio.Hotkeys.Bindings.Validated.{IsBindingSet, validate_bindings_iff}
use silk_studio.Hotkeys.Bindings.Replaced.{start_loop, run_replacements}
use silk_studio.Hotkeys.Bindings.Registered.{IsInStep, hotkey_loop-IsInStep}
use silk_studio.Config.Settings.{
  HotkeysSettings, hotkey_issues, validate_chord, validate_duplicate_chords,
}
use silk_studio.Hotkeys.Configured.Sets.{IsConfigured}
use silk_studio.Hotkeys.Configured.Accepted.{hotkey_bindings-IsConfigured}
use silk_studio.Hotkeys.Keyboard.{
  Input, key_event, hotkey_message, activated, handle_all, installed, hotkey_event_queue_bound,
  handle, handle_event, handle_hotkey, activate_found, activate, dispatch, update_modifiers,
  held_mask,
}
use silk_studio.Hotkeys.Keyboard.Debounce.{IsPaced, handle_all-IsPaced}

typed : normalize_chord (codes "shift+ctrl+f10") ≡ ok (codes "CTRL+SHIFT+F10")
unfolding normalize_chord finish_chord chord_parts read_token modifier_rank is_valid_key upper
    is_whitespace
typed = refl

parse_native_chord-normalize_chord_example :
    (flags : Modifiers) × (key : Text) × (code : ℕ) × (codes "CTRL+SHIFT+F10"
      ≡ join b'+' (chord_parts flags key))
    × (virtual_key_code key ≡ some code)
    × (parse_native_chord (codes "shift+ctrl+f10") ≡ ok (modifier_mask flags, code))
    × (parse_native_chord (codes "CTRL+SHIFT+F10") ≡ ok (modifier_mask flags, code))
parse_native_chord-normalize_chord_example =
    parse_native_chord-normalize_chord (codes "shift+ctrl+f10") typed

native_test : parse_native_chord (codes "shift+ctrl+f10") ≡ ok (0x0006, 0x79)
unfolding normalize_chord finish_chord chord_parts read_token modifier_rank is_valid_key upper
    is_whitespace parse_native_chord native_chord native_token virtual_key_code
native_test = refl

abbrev save_binding : HotkeyBinding
save_binding = record { id = pos 1; action = save_replay; chord = codes "CTRL+F1" }

abbrev start_binding : HotkeyBinding
start_binding = record { id = pos 2; action = start_capture; chord = codes "CTRL+F01" }

abbrev two_bindings : List HotkeyBinding
two_bindings = save_binding ∷ start_binding ∷ []

repeated_id : validate_bindings (save_binding ∷ save_binding ∷ []) ≡ err (duplicate_id (pos 1))
unfolding validate_from normalize_chord finish_chord chord_parts read_token modifier_rank
    is_valid_key upper is_whitespace parse_native_chord native_chord native_token virtual_key_code
repeated_id = refl

-- Two chords that differ by a leading zero are accepted, and stand for one key.
one_key :
    (validate_bindings two_bindings ≡ ok tt)
    × (parse_native_chord (codes "CTRL+F1") ≡ ok (0x0002, 0x70))
    × (parse_native_chord (codes "CTRL+F01") ≡ ok (0x0002, 0x70))
unfolding validate_from normalize_chord finish_chord chord_parts read_token modifier_rank
    is_valid_key upper is_whitespace parse_native_chord native_chord native_token virtual_key_code
one_key = (refl, refl, refl)

validate_bindings_iff_example : (validate_bindings two_bindings ≡ ok tt) ↔ IsBindingSet two_bindings
validate_bindings_iff_example = validate_bindings_iff two_bindings

abbrev always : HotkeyBinding → Bool
always b = true

hotkey_loop-IsInStep_example :
    IsInStep (run_replacements ((always, save_binding ∷ []) ∷ []) (start_loop always two_bindings))
hotkey_loop-IsInStep_example =
    hotkey_loop-IsInStep always two_bindings ((always, save_binding ∷ []) ∷ [])

abbrev f1_binding : NativeBinding
f1_binding = record { id = pos 1; action = save_replay; modifiers = 0x0002; virtual_key = 0x70 }

-- Ctrl goes down, then F1 three times: 20 and 60 milliseconds after the first.
abbrev key_presses : List Input
key_presses =
    key_event 0xA2 true false (λ i. 0)
    ∷ key_event 0x70 true false (λ i. 1000000)
    ∷ key_event 0x70 true false (λ i. 21000000)
    ∷ key_event 0x70 true false (λ i. 61000000)
    ∷ hotkey_message (pos 1) 62000000
    ∷ []

presses_test :
    (handle_all key_presses (installed (f1_binding ∷ []))).events
    ≡ activated save_replay ∷ activated save_replay ∷ []
unfolding handle handle_event handle_hotkey activate_found activate dispatch update_modifiers
    held_mask
presses_test = refl

handle_all-IsPaced_example :
    IsPaced (handle_all key_presses (installed (f1_binding ∷ []))).activations
    × (length (handle_all key_presses (installed (f1_binding ∷ []))).events
        ≤ hotkey_event_queue_bound)
handle_all-IsPaced_example = handle_all-IsPaced key_presses (f1_binding ∷ [])

abbrev two_chords : HotkeysSettings
two_chords = record {
  save_replay_chord = codes "Ctrl+F10";
  start_capture_chord = none;
  stop_capture_chord = some (codes "alt+f9");
}

two_chords_test : hotkey_issues two_chords ≡ []
unfolding validate_chord validate_duplicate_chords normalize_chord finish_chord chord_parts
    read_token modifier_rank is_valid_key upper is_whitespace
two_chords_test = refl

hotkey_bindings-IsConfigured_example : IsConfigured two_chords
hotkey_bindings-IsConfigured_example = hotkey_bindings-IsConfigured two_chords two_chords_test
