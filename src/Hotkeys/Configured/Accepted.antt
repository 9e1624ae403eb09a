-- ===== src/Hotkeys/Configured/Accepted.antt =====
-- Settings whose hotkeys have no issue.
use silk_studio.Prelude.{◌≡◌, [], ◌∷◌, Option, none, some, arith}
use silk_studio.Prelude.Text.{Text, codes}
use silk_studio.Config.Settings.{
  HotkeysSettings, validate_chord, validate_duplicate_chords, hotkey_issues,
}
use silk_studio.Hotkeys.Configured.Sets.{
  settings_of, IsConfigured, no_issue_left, validate_chord_accepts, unseen_chord, differs_of,
  save_only, with_start, with_stop, with_both,
}

abbrev f1 : Text
f1 = codes "hotkeys.saveReplay"

abbrev f2 : Text
f2 = codes "hotkeys.startCapture"

abbrev f3 : Text
f3 = codes "hotkeys.stopCapture"

accepted :
    (save : Text) (start stop : Option Text)
    → hotkey_issues (settings_of save start stop) ≡ []
    → IsConfigured (settings_of save start stop)
unfolding validate_duplicate_chords validate_chord
accepted save none none h =
    let (save_issues, _) = no_issue_left (validate_chord (some save) f1) _ h in
    let (n, e) = validate_chord_accepts save f1 save_issues in save_only save n e
accepted save (some start) none h =
    let (save_issues, h2) = no_issue_left (validate_chord (some save) f1) _ h in
    let (start_issues, h3) = no_issue_left (validate_chord (some start) f2) _ h2 in
    let (n, e) = validate_chord_accepts save f1 save_issues in
    let (m, d) = validate_chord_accepts start f2 start_issues in
    let (_, d1) = unseen_chord [] f1 save n ((f2, some start) ∷ (f3, none) ∷ []) e h3 in
    let (u2, _) = unseen_chord (n ∷ []) f2 start m ((f3, none) ∷ []) d d1 in
    with_start save n e start m d (differs_of m n (ground arith))
accepted save none (some stop) h =
    let (save_issues, h2) = no_issue_left (validate_chord (some save) f1) _ h in
    let (stop_issues, h3) = no_issue_left (validate_chord (some stop) f3) _ h2 in
    let (n, e) = validate_chord_accepts save f1 save_issues in
    let (k, f) = validate_chord_accepts stop f3 stop_issues in
    let (_, d1) = unseen_chord [] f1 save n ((f2, none) ∷ (f3, some stop) ∷ []) e h3 in
    let (u3, _) = unseen_chord (n ∷ []) f3 stop k [] f d1 in
    with_stop save n e stop k f (differs_of k n (ground arith))
accepted save (some start) (some stop) h =
    let (save_issues, h2) = no_issue_left (validate_chord (some save) f1) _ h in
    let (start_issues, h3) = no_issue_left (validate_chord (some start) f2) _ h2 in
    let (stop_issues, h4) = no_issue_left (validate_chord (some stop) f3) _ h3 in
    let (n, e) = validate_chord_accepts save f1 save_issues in
    let (m, d) = validate_chord_accepts start f2 start_issues in
    let (k, f) = validate_chord_accepts stop f3 stop_issues in
    let (_, d1) = unseen_chord [] f1 save n ((f2, some start) ∷ (f3, some stop) ∷ []) e h4 in
    let (u2, d2) = unseen_chord (n ∷ []) f2 start m ((f3, some stop) ∷ []) d d1 in
    let (u3, _) = unseen_chord (m ∷ n ∷ []) f3 stop k [] f d2 in
    with_both save n e start m stop k d f (differs_of m n (ground arith))
      (differs_of k n (ground arith)) (differs_of k m (ground arith))

-- Settings whose hotkeys raise no issue in `validate_settings` always give bindings:
-- `hotkey_bindings` succeeds, and `validate_bindings` accepts what it returns.
pub hotkey_bindings-IsConfigured : (h : HotkeysSettings) → hotkey_issues h ≡ [] → IsConfigured h
hotkey_bindings-IsConfigured h =
    accepted h.save_replay_chord h.start_capture_chord h.stop_capture_chord
