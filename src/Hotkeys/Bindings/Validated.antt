-- ===== src/Hotkeys/Bindings/Validated.antt =====
-- Which sets of bindings `validate_bindings` accepts, and their native form.
use silk_studio.Prelude.{
  ℕ, Bool, Result-cases, inl, inr, ◌≡◌, ◌≢◌, ◌↔◌, refl, subst, true, false, List, [], ◌∷◌, arith,
  All, any, ok, >>=-eq-ok,
}
use silk_studio.Prelude.Int.{ℤ, eqb_ℤ, eq_of_parts}
use silk_studio.Prelude.Text.{Text, same_text, same_text-eq, same_text_self}
use silk_studio.Hotkeys.Native.{parse_native_chord}
use silk_studio.Hotkeys.Bindings.{
  HotkeyBinding, NativeBinding, to_native_bindings, require_native, require_new_id,
  require_new_chord, validate_from, validate_bindings,
}

eqb_ℤ_iff : (a b : ℤ) → (eqb_ℤ a b ≡ true) ↔ (a ≡ b)
eqb_ℤ_iff a b = ground (arith, eq_of_parts a b)

same_text_iff : (s t : Text) → (same_text s t ≡ true) ↔ (s ≡ t)
same_text_iff s t = (same_text-eq s t, λ e. subst (λ u. same_text s u ≡ true) e (same_text_self s))

-- A chord that the window system takes.
abbrev pub IsNative : Text → Type 0
IsNative chord = (native : ℕ × ℕ) × (parse_native_chord chord ≡ ok native)

-- No two bindings share an id or a chord, and every chord has a native form.
abbrev pub Differs : HotkeyBinding → HotkeyBinding → Type 0
Differs a b = (b.id ≢ a.id) × (b.chord ≢ a.chord)

abbrev pub IsBindingSet : List HotkeyBinding → Type 0
IsBindingSet [] = Unit
IsBindingSet (b ∷ bs) = IsNative b.chord × All (Differs b) bs × IsBindingSet bs

module _ {A : Type 0} (test : A → A → Bool)
    (test_iff : (a b : A) → (test a b ≡ true) ↔ (a ≡ b)) where
  unseen : (x : A) (seen : List A) → any (test x) seen ≡ false → All (λ y. x ≢ y) seen
  unseen x [] h = tt
  unseen x (y ∷ seen) h = (λ e. ground (arith, test_iff x y, e), unseen x seen (ground arith))

  unseen_back : (x : A) (seen : List A) → All (λ y. x ≢ y) seen → any (test x) seen ≡ false
  unseen_back x [] h = refl
  unseen_back x (y ∷ seen) (h, hs) = ground (arith, test_iff x y, unseen_back x seen hs)

require_new_id_iff :
    (id : ℤ) (ids : List ℤ) → (require_new_id id ids ≡ ok tt) ↔ All (λ y. id ≢ y) ids
require_new_id_iff id ids = (
  λ h. unseen eqb_ℤ eqb_ℤ_iff id ids (ground arith),
  λ h. rw (unseen_back eqb_ℤ eqb_ℤ_iff id ids h) refl,
)

require_new_chord_iff :
    (chord : Text) (chords : List Text)
    → (require_new_chord chord chords ≡ ok tt) ↔ All (λ y. chord ≢ y) chords
require_new_chord_iff chord chords = (
  λ h. unseen same_text same_text_iff chord chords (ground arith),
  λ h. rw (unseen_back same_text same_text_iff chord chords h) refl,
)

require_native_iff : (chord : Text) → (require_native chord ≡ ok tt) ↔ IsNative chord
require_native_iff chord = (native_of, λ (native, e). rw (require_native, e) refl)
  where
    native_of : require_native chord ≡ ok tt → IsNative chord
    native_of h = elim (Result-cases (parse_native_chord chord)) [
      | inl (native, e) ↦ (native, e)
      | inr (why, e) ↦ absurd (ground arith)
    ]

-- Bindings that neither list has seen.
abbrev AllNew : List ℤ → List Text → List HotkeyBinding → Type 0
AllNew ids chords = All (λ b. All (λ y. b.id ≢ y) ids × All (λ y. b.chord ≢ y) chords)

module _ (ids : List ℤ) (chords : List Text) (b : HotkeyBinding) where
  split_new :
      (bs : List HotkeyBinding)
      → AllNew (b.id ∷ ids) (b.chord ∷ chords) bs
      → AllNew ids chords bs × All (Differs b) bs
  split_new [] h = (tt, tt)
  split_new (c ∷ bs) (((id_new, ids_new), (chord_new, chords_new)), later) =
      let (rest_new, rest_differs) = split_new bs later in
      (((ids_new, chords_new), rest_new), ((id_new, chord_new), rest_differs))

  join_new :
      (bs : List HotkeyBinding)
      → AllNew ids chords bs
      → All (Differs b) bs
      → AllNew (b.id ∷ ids) (b.chord ∷ chords) bs
  join_new [] h d = tt
  join_new (c ∷ bs) ((ids_new, chords_new), later) ((id_new, chord_new), differs) =
      (((id_new, ids_new), (chord_new, chords_new)), join_new bs later differs)

validate_from_accepts :
    (ids : List ℤ) (chords : List Text) (bs : List HotkeyBinding)
    → validate_from ids chords bs ≡ ok tt
    → AllNew ids chords bs × IsBindingSet bs
unfolding validate_from
validate_from_accepts ids chords [] h = (tt, tt)
validate_from_accepts ids chords (b ∷ bs) h =
    let (u, id_new, after_id) = >>=-eq-ok (require_new_id b.id ids) _ h in
    let (v, chord_new, after_chord) = >>=-eq-ok (require_new_chord b.chord chords) _ after_id in
    let (w, native, rest) = >>=-eq-ok (require_native b.chord) _ after_chord in
    let (all_new, valid) = validate_from_accepts (b.id ∷ ids) (b.chord ∷ chords) bs rest in
    let (new, differs) = split_new ids chords b bs all_new in
    (
      (
        (
          (require_new_id_iff b.id ids).0 id_new,
          (require_new_chord_iff b.chord chords).0 chord_new,
        ),
        new,
      ),
      ((require_native_iff b.chord).0 native, differs, valid),
    )

validate_from_complete :
    (ids : List ℤ) (chords : List Text) (bs : List HotkeyBinding)
    → AllNew ids chords bs
    → IsBindingSet bs
    → validate_from ids chords bs ≡ ok tt
unfolding validate_from
validate_from_complete ids chords [] new valid = refl
validate_from_complete ids chords (b ∷ bs) ((id_new, chord_new), new) (native, differs, valid) =
    rw
      (
        (require_new_id_iff b.id ids).1 id_new,
        (require_new_chord_iff b.chord chords).1 chord_new,
        (require_native_iff b.chord).1 native,
      )
      (validate_from_complete (b.id ∷ ids) (b.chord ∷ chords) bs
        (join_new ids chords b bs new differs) valid)

no_ids : (bs : List HotkeyBinding) → AllNew [] [] bs
no_ids [] = tt
no_ids (b ∷ bs) = ((tt, tt), no_ids bs)

-- `validate_bindings` accepts exactly the lists of bindings in which no two share an id or a
-- chord and `parse_native_chord` takes every chord.
pub validate_bindings_iff :
    (bs : List HotkeyBinding) → (validate_bindings bs ≡ ok tt) ↔ IsBindingSet bs
validate_bindings_iff bs =
    (λ h. (validate_from_accepts [] [] bs h).1, λ v. validate_from_complete [] [] bs (no_ids bs) v)

-- The native form of a binding whose chord the window system takes.
abbrev pub IsNativeOf : HotkeyBinding → NativeBinding → Type 0
IsNativeOf b n =
    (n.id ≡ b.id)
    × (n.action ≡ b.action)
    × (parse_native_chord b.chord ≡ ok (n.modifiers, n.virtual_key))

abbrev pub Aligned : List HotkeyBinding → List NativeBinding → Type 0
Aligned [] [] = Unit
Aligned [] (n ∷ ns) = ⊥
Aligned (b ∷ bs) [] = ⊥
Aligned (b ∷ bs) (n ∷ ns) = IsNativeOf b n × Aligned bs ns

to_native_bindings-Aligned :
    (bs : List HotkeyBinding) → IsBindingSet bs → Aligned bs (to_native_bindings bs)
unfolding to_native_bindings
to_native_bindings-Aligned [] v = tt
to_native_bindings-Aligned (b ∷ bs) ((native, e), differs, v) =
    rw e ((refl, refl, e), to_native_bindings-Aligned bs v)

-- A set of bindings that `validate_bindings` accepts loses none of them on the way to the keyboard
-- hook: the native bindings are those of the bindings, one by one and in order.
pub validate_bindings-Aligned :
    (bs : List HotkeyBinding) → validate_bindings bs ≡ ok tt → Aligned bs (to_native_bindings bs)
validate_bindings-Aligned bs h = to_native_bindings-Aligned bs ((validate_bindings_iff bs).0 h)
