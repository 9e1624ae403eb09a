-- ===== src/Config/Settings.antt =====
-- The hotkeys of the settings, and their part of `validate_settings` (crates/configuration/src:
-- model.rs and validate.rs). An issue list is what the source pushes.
use silk_studio.Prelude.{
  List, [], ◌∷◌, ◌++◌, Option, none, some, if◌then◌else◌, any, Result, ok, err,
}
use silk_studio.Prelude.Text.{Text, codes, same_text}
use silk_studio.Config.Chords.{ChordError, to_user_message, normalize_chord}

pub record HotkeysSettings : Type 0 where
  pub save_replay_chord : Text
  pub start_capture_chord : Option Text
  pub stop_capture_chord : Option Text

pub record FieldIssue : Type 0 where
  pub field : Text
  pub reason : Text

abbrev pub issue_of : Text → Result ChordError Text → List FieldIssue
issue_of field (ok normalized) = []
issue_of field (err e) = record { field = field; reason = to_user_message e } ∷ []

-- `validate_chord`
unfoldable pub validate_chord : Option Text → Text → List FieldIssue
validate_chord none field = []
validate_chord (some []) field = record { field = field; reason = codes "must not be empty" } ∷ []
validate_chord (some (c ∷ cs)) field = issue_of field (normalize_chord (c ∷ cs))

-- A round of `validate_duplicate_chords`: what it pushes, and the chords seen after it.
abbrev pub duplicate_issue : List Text → Text → Result ChordError Text → List FieldIssue × List Text
duplicate_issue seen field (err e) = ([], seen)
duplicate_issue seen field (ok normalized) =
    if any (same_text normalized) seen
    then (
      record { field = field; reason = codes "duplicates another configured hotkey" } ∷ [],
      seen,
    )
    else ([], normalized ∷ seen)

abbrev pub duplicates_from : List Text → List (Text × Option Text) → List FieldIssue
duplicates_from seen [] = []
duplicates_from seen ((field, none) ∷ rest) = duplicates_from seen rest
duplicates_from seen ((field, some raw) ∷ rest) =
    let (issues, later) = duplicate_issue seen field (normalize_chord raw) in
    issues ++ duplicates_from later rest

-- `validate_duplicate_chords`
unfoldable pub validate_duplicate_chords : HotkeysSettings → List FieldIssue
validate_duplicate_chords h = duplicates_from [] (
    (codes "hotkeys.saveReplay", some h.save_replay_chord)
    ∷ (codes "hotkeys.startCapture", h.start_capture_chord)
    ∷ (codes "hotkeys.stopCapture", h.stop_capture_chord)
    ∷ [])

-- The issues that `validate_settings` finds with the hotkeys.
abbrev pub hotkey_issues : HotkeysSettings → List FieldIssue
hotkey_issues h =
    validate_chord (some h.save_replay_chord) (codes "hotkeys.saveReplay")
    ++ (validate_chord h.start_capture_chord (codes "hotkeys.startCapture")
        ++ (validate_chord h.stop_capture_chord (codes "hotkeys.stopCapture")
            ++ validate_duplicate_chords h))
