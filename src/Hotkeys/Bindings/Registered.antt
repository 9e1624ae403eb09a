-- ===== src/Hotkeys/Bindings/Registered.antt =====
-- The registrations that the loop holds, after any run of replacements.
use silk_studio.Prelude.{
  Bool, Bool-cases, inl, inr, not, ◌&&◌, ◌≡◌, ◌≢◌, refl, List, [], ◌∷◌, arith, All, filter,
}
use silk_studio.Prelude.Int.{ℤ, eqb_ℤ}
use silk_studio.Hotkeys.Bindings.{HotkeyBinding, to_native_bindings, contains, plan_replacement}
use silk_studio.Hotkeys.Bindings.Replaced.{
  HotkeyLoop, remove_hotkey_id, insert_hotkey_id, unregister_bindings, Registers, is_native,
  register_one, register_bindings, start_loop, replace_bindings, run_replacements,
}
use silk_studio.Hotkeys.Bindings.Retained.{IsBound, same_id, contains_retained, IsBound-after}

insert_hotkey_id-All :
    (P : ℤ → Type 0) (i : ℤ) (ids : List ℤ) → P i → All P ids → All P (insert_hotkey_id i ids)
insert_hotkey_id-All P i ids h hs = ground arith

register_bindings-All :
    (P : ℤ → Type 0) (answers : Registers) (bs : List HotkeyBinding) (ids : List ℤ)
    → All (λ b. P b.id) bs
    → All P ids
    → All P (register_bindings answers bs ids)
register_bindings-All P answers [] ids h hs = hs
register_bindings-All P answers (b ∷ bs) ids (h, later) hs =
    register_bindings-All P answers bs (register_one answers b ids) later
      (elim (Bool-cases (is_native b && answers b)) [
        | inl there ↦ rw there (insert_hotkey_id-All P b.id ids h hs)
        | inr refused ↦ rw refused hs
      ])

remove_hotkey_id-All :
    (P : ℤ → Type 0) (id : ℤ) (ids : List ℤ)
    → All P ids
    → All (λ i. P i × (i ≢ id)) (remove_hotkey_id id ids)
remove_hotkey_id-All P id [] h = tt
remove_hotkey_id-All P id (i ∷ ids) (h, hs) = elim (Bool-cases (eqb_ℤ i id)) [
  | inl same ↦ rw same (remove_hotkey_id-All P id ids hs)
  | inr other ↦
      let differs : i ≢ id = λ e. ground (arith, e) in
      rw other ((h, differs), remove_hotkey_id-All P id ids hs)
]

All-map_weaken : (P Q : ℤ → Type 0) (ids : List ℤ) → ((i : ℤ) → P i → Q i) → All P ids → All Q ids
All-map_weaken P Q [] f h = tt
All-map_weaken P Q (i ∷ ids) f (h, hs) = (f i h, All-map_weaken P Q ids f hs)

-- What is left once the ids of some bindings are unregistered.
unregister_bindings-All :
    (P : ℤ → Type 0) (bs : List HotkeyBinding) (ids : List ℤ)
    → All P ids
    → All (λ i. P i × All (λ b. i ≢ b.id) bs) (unregister_bindings bs ids)
unregister_bindings-All P [] ids h = All-map_weaken P (λ i. P i × Unit) ids (λ i p. (p, tt)) h
unregister_bindings-All P (b ∷ bs) ids h =
    All-map_weaken (λ i. (P i × (i ≢ b.id)) × All (λ c. i ≢ c.id) bs)
      (λ i. P i × All (λ c. i ≢ c.id) (b ∷ bs)) (unregister_bindings bs (remove_hotkey_id b.id ids))
      (λ i p. (p.0.0, (p.0.1, p.1)))
      (unregister_bindings-All (λ i. P i × (i ≢ b.id)) bs (remove_hotkey_id b.id ids)
        (remove_hotkey_id-All P b.id ids h))

IsBound-later :
    (b : HotkeyBinding) (bs : List HotkeyBinding) (i : ℤ) → IsBound bs i → IsBound (b ∷ bs) i
IsBound-later b bs i h = ground arith

All-IsBound-later :
    (b : HotkeyBinding) (bs cs : List HotkeyBinding)
    → All (λ c. IsBound bs c.id) cs
    → All (λ c. IsBound (b ∷ bs) c.id) cs
All-IsBound-later b bs [] h = tt
All-IsBound-later b bs (c ∷ cs) (h, hs) = (IsBound-later b bs c.id h, All-IsBound-later b bs cs hs)

IsBound-self : (bs : List HotkeyBinding) → All (λ b. IsBound bs b.id) bs
IsBound-self [] = tt
IsBound-self (b ∷ bs) = (rw (same_id b.id b refl) refl, All-IsBound-later b bs bs (IsBound-self bs))

filter-All_bound :
    (test : HotkeyBinding → Bool) (P : HotkeyBinding → Type 0) (bs : List HotkeyBinding)
    → All P bs
    → All P (filter test bs)
filter-All_bound test P [] h = tt
filter-All_bound test P (b ∷ bs) (h, hs) = elim (Bool-cases (test b)) [
  | inl kept ↦ rw kept (h, filter-All_bound test P bs hs)
  | inr dropped ↦ rw dropped (filter-All_bound test P bs hs)
]

-- Every registration that is held belongs to a binding of the current set, and the keyboard hook
-- has the current set.
pub record IsInStep (s : HotkeyLoop) : Type 0 where
  pub bound : All (IsBound s.current_bindings) s.succeeded_hotkey_ids
  pub hooked : s.dispatch_bindings ≡ to_native_bindings s.current_bindings

start_loop-IsInStep :
    (answers : Registers) (initial : List HotkeyBinding) → IsInStep (start_loop answers initial)
unfolding start_loop
start_loop-IsInStep answers initial = record {
  bound = register_bindings-All (IsBound initial) answers initial [] (IsBound-self initial) tt;
  hooked = refl;
}

replace_bindings-IsInStep :
    (answers : Registers) (requested : List HotkeyBinding) (s : HotkeyLoop)
    → IsInStep s
    → IsInStep (replace_bindings answers requested s)
unfolding replace_bindings plan_replacement
replace_bindings-IsInStep answers requested s v =
    let retained = filter (contains requested) s.current_bindings in
    let removed = filter (λ b. not (contains retained b)) s.current_bindings in
    let added = filter (λ b. not (contains retained b)) requested in
    let left = unregister_bindings removed s.succeeded_hotkey_ids in
    let still : All (IsBound requested) left =
      All-map_weaken (λ i. IsBound s.current_bindings i × All (λ b. i ≢ b.id) removed)
        (IsBound requested) left
        (λ i p.
          IsBound-after requested retained (contains_retained requested s.current_bindings) i
            s.current_bindings p.0 p.1)
        (unregister_bindings-All (IsBound s.current_bindings) removed s.succeeded_hotkey_ids
          v.bound) in
    record {
      bound =
          register_bindings-All (IsBound requested) answers added left
            (filter-All_bound (λ b. not (contains retained b)) (λ b. IsBound requested b.id)
              requested (IsBound-self requested))
            still;
      hooked = refl;
    }

run_replacements-IsInStep :
    (commands : List (Registers × List HotkeyBinding)) (s : HotkeyLoop)
    → IsInStep s
    → IsInStep (run_replacements commands s)
run_replacements-IsInStep [] s v = v
run_replacements-IsInStep ((answers, bindings) ∷ later) s v =
    run_replacements-IsInStep later (replace_bindings answers bindings s)
      (replace_bindings-IsInStep answers bindings s v)

-- From the start of the loop and through any run of replacements, whatever the window system
-- answers, every hotkey id that is registered belongs to a binding of the current set, and the
-- keyboard hook has the native bindings of that set.
pub hotkey_loop-IsInStep :
    (answers : Registers) (initial : List HotkeyBinding)
    (commands : List (Registers × List HotkeyBinding))
    → IsInStep (run_replacements commands (start_loop answers initial))
hotkey_loop-IsInStep answers initial commands =
    run_replacements-IsInStep commands (start_loop answers initial)
      (start_loop-IsInStep answers initial)
