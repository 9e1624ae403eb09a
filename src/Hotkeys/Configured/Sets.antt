-- ===== src/Hotkeys/Configured/Sets.antt =====
-- The sets of bindings that settings give, by the chords that are set.
use silk_studio.Prelude.{
  Bool-cases, Result-cases, inl, inr, ◌≡◌, ◌≢◌, refl, subst, true, false, List, [], ◌∷◌, ◌++◌,
  Option, none, some, arith, any, ok, err,
}
use silk_studio.Prelude.Int.{ℤ, pos}
use silk_studio.Prelude.Text.{Text, same_text, same_text_self}
use silk_studio.Config.Chords.{normalize_chord}
use silk_studio.Config.Settings.{
  HotkeysSettings, FieldIssue, issue_of, validate_chord, duplicate_issue, duplicates_from,
}
use silk_studio.Hotkeys.Native.Chords.{parse_native_chord-normalize_chord}
use silk_studio.Hotkeys.Bindings.{
  HotkeyAction, save_replay, start_capture, stop_capture, HotkeyBinding, new_binding,
  validate_bindings,
}
use silk_studio.Hotkeys.Bindings.Validated.{IsNative, validate_bindings_iff}
use silk_studio.Hotkeys.Configured.{hotkey_bindings}

pub no_issue_left : (xs ys : List FieldIssue) → xs ++ ys ≡ [] → (xs ≡ []) × (ys ≡ [])
no_issue_left [] ys h = (refl, h)
no_issue_left (x ∷ xs) ys h = cc

-- A chord without an issue has a canonical form, and so a binding and a native form.
issue_of_accepts :
    (field : Text) (raw : Text)
    → issue_of field (normalize_chord raw) ≡ []
    → (n : Text) × (normalize_chord raw ≡ ok n)
issue_of_accepts field raw h = elim (Result-cases (normalize_chord raw)) [
  | inl found ↦ found
  | inr (e, refused) ↦
      let issue : issue_of field (err e) ≡ [] = subst (λ r. issue_of field r ≡ []) refused h in cc
]

pub validate_chord_accepts :
    (raw field : Text)
    → validate_chord (some raw) field ≡ []
    → (n : Text) × (normalize_chord raw ≡ ok n)
unfolding validate_chord
validate_chord_accepts [] field h = cc
validate_chord_accepts (c ∷ cs) field h = issue_of_accepts field (c ∷ cs) h

abbrev binding_of : ℤ → HotkeyAction → Text → HotkeyBinding
binding_of id action n = record { id = id; action = action; chord = n }

new_binding_of :
    (id : ℤ) (action : HotkeyAction) (raw n : Text)
    → normalize_chord raw ≡ ok n
    → new_binding id action raw ≡ ok (binding_of id action n)
unfolding new_binding
new_binding_of id action raw n e = ground arith

IsNative-of : (raw n : Text) → normalize_chord raw ≡ ok n → IsNative n
IsNative-of raw n e =
    let (flags, key, code, _, _, _, parsed) = parse_native_chord-normalize_chord raw e in
    (_, parsed)

-- A round that finds no duplicate.
pub unseen_chord :
    (seen : List Text) (field raw n : Text) (rest : List (Text × Option Text))
    → normalize_chord raw ≡ ok n
    → duplicates_from seen ((field, some raw) ∷ rest) ≡ []
    → (any (same_text n) seen ≡ false) × (duplicates_from (n ∷ seen) rest ≡ [])
unseen_chord seen field raw n rest e h =
    let here : (duplicate_issue seen field (ok n)).0
          ++ duplicates_from (duplicate_issue seen field (ok n)).1 rest
        ≡ [] =
      subst
        (λ r.
          (duplicate_issue seen field r).0 ++ duplicates_from (duplicate_issue seen field r).1 rest
          ≡ [])
        e h in
    elim (Bool-cases (any (same_text n) seen)) [
      | inl found ↦ absurd (ground (arith, here))
      | inr new ↦ (new, ground (arith, here))
    ]

pub differs_of : (n m : Text) → same_text n m ≡ false → n ≢ m
differs_of n m h e =
    let same : same_text n m ≡ true = subst (λ t. same_text n t ≡ true) e (same_text_self n) in
    ground arith

one_not_two : pos 2 ≢ pos 1
one_not_two = ground arith

one_not_three : pos 3 ≢ pos 1
one_not_three = ground arith

two_not_three : pos 3 ≢ pos 2
two_not_three = ground arith

abbrev pub settings_of : Text → Option Text → Option Text → HotkeysSettings
settings_of save start stop = record {
  save_replay_chord = save;
  start_capture_chord = start;
  stop_capture_chord = stop;
}

-- What settings without an issue give: the bindings, which the registration accepts.
abbrev pub IsConfigured : HotkeysSettings → Type 0
IsConfigured h =
    (bs : List HotkeyBinding) × (hotkey_bindings h ≡ ok bs) × (validate_bindings bs ≡ ok tt)

module _ (save n : Text) (e : normalize_chord save ≡ ok n) where
  pub save_only : IsConfigured (settings_of save none none)
  unfolding hotkey_bindings
  save_only =
      let first = binding_of (pos 1) save_replay n in
      let valid : validate_bindings (first ∷ []) ≡ ok tt =
        (validate_bindings_iff (first ∷ [])).1 (IsNative-of save n e, tt, tt) in
      (first ∷ [], rw (new_binding_of (pos 1) save_replay save n e, valid) refl, valid)

  pub with_start :
      (start m : Text)
      → normalize_chord start ≡ ok m
      → m ≢ n
      → IsConfigured (settings_of save (some start) none)
  unfolding hotkey_bindings
  with_start start m d differs =
      let first = binding_of (pos 1) save_replay n in
      let second = binding_of (pos 2) start_capture m in
      let valid : validate_bindings (first ∷ second ∷ []) ≡ ok tt =
        (validate_bindings_iff (first ∷ second ∷ [])).1
          (IsNative-of save n e, ((one_not_two, differs), tt), (IsNative-of start m d, tt, tt)) in
      (
        first ∷ second ∷ [],
        rw
            (
              new_binding_of (pos 1) save_replay save n e,
              new_binding_of (pos 2) start_capture start m d,
              valid,
            )
            refl,
        valid,
      )

  pub with_stop :
      (stop k : Text)
      → normalize_chord stop ≡ ok k
      → k ≢ n
      → IsConfigured (settings_of save none (some stop))
  unfolding hotkey_bindings
  with_stop stop k f differs =
      let first = binding_of (pos 1) save_replay n in
      let third = binding_of (pos 3) stop_capture k in
      let valid : validate_bindings (first ∷ third ∷ []) ≡ ok tt =
        (validate_bindings_iff (first ∷ third ∷ [])).1
          (IsNative-of save n e, ((one_not_three, differs), tt), (IsNative-of stop k f, tt, tt)) in
      (
        first ∷ third ∷ [],
        rw
            (
              new_binding_of (pos 1) save_replay save n e,
              new_binding_of (pos 3) stop_capture stop k f,
              valid,
            )
            refl,
        valid,
      )

  pub with_both :
      (start m stop k : Text)
      → normalize_chord start ≡ ok m
      → normalize_chord stop ≡ ok k
      → m ≢ n
      → k ≢ n
      → k ≢ m
      → IsConfigured (settings_of save (some start) (some stop))
  unfolding hotkey_bindings
  with_both start m stop k d f mn kn km =
      let first = binding_of (pos 1) save_replay n in
      let second = binding_of (pos 2) start_capture m in
      let third = binding_of (pos 3) stop_capture k in
      let valid : validate_bindings (first ∷ second ∷ third ∷ []) ≡ ok tt =
        (validate_bindings_iff (first ∷ second ∷ third ∷ [])).1 (
          IsNative-of save n e,
          ((one_not_two, mn), ((one_not_three, kn), tt)),
          (IsNative-of start m d, ((two_not_three, km), tt), (IsNative-of stop k f, tt, tt)),
        ) in
      (
        first ∷ second ∷ third ∷ [],
        rw
            (
              new_binding_of (pos 1) save_replay save n e,
              new_binding_of (pos 2) start_capture start m d,
              new_binding_of (pos 3) stop_capture stop k f,
              valid,
            )
            refl,
        valid,
      )
