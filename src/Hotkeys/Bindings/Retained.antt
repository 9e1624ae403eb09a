-- ===== src/Hotkeys/Bindings/Retained.antt =====
-- What a replacement plan retains, and the ids of a set of bindings.
use silk_studio.Prelude.{
  Bool, Bool-cases, inl, inr, not, ◌≡◌, ◌≢◌, refl, sym, subst, ap, true, List, [], ◌∷◌, arith, All,
  any, filter, if◌then◌else◌,
}
use silk_studio.Prelude.Int.{ℤ, eqb_ℤ, eq_of_parts}
use silk_studio.Prelude.Text.{same_text-eq}
use silk_studio.Hotkeys.Bindings.{
  HotkeyBinding, HotkeyAction, save_replay, start_capture, stop_capture, same_action, same_binding,
  contains,
}

-- Some binding has the id.
abbrev pub is_bound : List HotkeyBinding → ℤ → Bool
is_bound bs i = any (λ b. eqb_ℤ i b.id) bs

abbrev pub IsBound : List HotkeyBinding → ℤ → Type 0
IsBound bs i = is_bound bs i ≡ true

same_action-eq : (a b : HotkeyAction) → same_action a b ≡ true → a ≡ b
same_action-eq save_replay save_replay h = refl
same_action-eq save_replay start_capture h = cc
same_action-eq save_replay stop_capture h = cc
same_action-eq start_capture save_replay h = cc
same_action-eq start_capture start_capture h = refl
same_action-eq start_capture stop_capture h = cc
same_action-eq stop_capture save_replay h = cc
same_action-eq stop_capture start_capture h = cc
same_action-eq stop_capture stop_capture h = refl

pub same_binding-eq : (a b : HotkeyBinding) → same_binding a b ≡ true → a ≡ b
unfolding same_binding
same_binding-eq a b h =
    ground
      (arith, eq_of_parts a.id b.id, same_action-eq a.action b.action, same_text-eq a.chord b.chord)

pub same_id : (i : ℤ) (b : HotkeyBinding) → i ≡ b.id → eqb_ℤ i b.id ≡ true
same_id i b e = ground arith

pub contains-IsBound :
    (bs : List HotkeyBinding) (b : HotkeyBinding) → contains bs b ≡ true → IsBound bs b.id
contains-IsBound [] b h = cc
contains-IsBound (c ∷ bs) b h = elim (Bool-cases (same_binding b c)) [
  | inl same ↦
      rw (same_id b.id c (ap (λ (x : HotkeyBinding). x.id) (same_binding-eq b c same))) refl
  | inr differs ↦ ground (arith, contains-IsBound bs b)
]

-- What the plan retains was asked for.
pub contains_retained :
    (requested current : List HotkeyBinding) (b : HotkeyBinding)
    → contains (filter (contains requested) current) b ≡ true
    → contains requested b ≡ true
contains_retained requested [] b h = cc
contains_retained requested (c ∷ current) b h = elim (Bool-cases (contains requested c)) [
  | inr dropped ↦ contains_retained requested current b (
      subst
        (λ t.
          contains
            (if t
              then c ∷ filter (contains requested) current
              else filter (contains requested) current)
            b
          ≡ true)
        dropped h)
  | inl kept ↦ elim (Bool-cases (same_binding b c)) [
    | inl same ↦ subst (λ x. contains requested x ≡ true) (sym (same_binding-eq b c same)) kept
    | inr differs ↦ contains_retained requested current b (ground arith)
  ]
]

-- A binding of `current` that the plan does not remove has its id among the requested ones.
module _ (requested retained : List HotkeyBinding)
    (asked : (b : HotkeyBinding) → contains retained b ≡ true → contains requested b ≡ true) where
  abbrev gone : List HotkeyBinding → List HotkeyBinding
  gone = filter (λ b. not (contains retained b))

  pub IsBound-after :
      (i : ℤ) (current : List HotkeyBinding)
      → IsBound current i
      → All (λ b. i ≢ b.id) (gone current)
      → IsBound requested i
  IsBound-after i [] h other = cc
  IsBound-after i (c ∷ current) h other = elim (Bool-cases (contains retained c)) [
    | inl kept ↦ elim (Bool-cases (eqb_ℤ i c.id)) [
      | inl same ↦
          let e : c.id ≡ i = ground (arith, eq_of_parts i c.id) in
          subst (IsBound requested) e (contains-IsBound requested c (asked c kept))
      | inr differs ↦ IsBound-after i current (ground arith) (ground arith)
    ]
    | inr removed ↦
        let (here, later) : (i ≢ c.id) × All (λ b. i ≢ b.id) (gone current) = ground arith in
        IsBound-after i current (ground (arith, eq_of_parts i c.id)) later
  ]
