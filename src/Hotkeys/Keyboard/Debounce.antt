-- ===== src/Hotkeys/Keyboard/Debounce.antt =====
-- How far apart the activations of one hotkey are, and the bound of the event queue.
use silk_studio.Prelude.{
  ℕ, ◌+◌, ◌≤◌, Bool, Bool-cases, inl, inr, ◌⊎◌, ◌≡◌, refl, sym, subst, true, false, not, ◌||◌, List,
  [], ◌∷◌, Option, none, some, arith, All, length, length-append, find,
}
use silk_studio.Prelude.Int.{ℤ, eqb_ℤ, eq_of_parts}
use silk_studio.Hotkeys.Bindings.{NativeBinding}
use silk_studio.Hotkeys.Keyboard.{
  HotkeyEvent, activated, event_queue_full, Activation, HookDispatchState, hotkey_debounce,
  hotkey_event_queue_bound, send_or_report, insert_activation, is_debounced, activate, is_pressed,
  dispatch, update_modifiers, held_mask, handle_event, activate_found, handle_hotkey, Input,
  key_event, hotkey_message, rebound, drained, handle, handle_all, installed,
}

-- A later activation of the same id is at least the debounce time after the earlier one.
abbrev pub IsApart : Activation → Activation → Type 0
IsApart later earlier = later.0 ≡ earlier.0 → earlier.1 + hotkey_debounce ≤ later.1

-- Activations, the latest first.
abbrev pub IsPaced : List Activation → Type 0
IsPaced [] = Unit
IsPaced (a ∷ earlier) = All (IsApart a) earlier × IsPaced earlier

-- An activation is no later than the last one of its id that is remembered.
abbrev IsKnown : (ℤ → Option ℕ) → Activation → Type 0
IsKnown last a = (t : ℕ) × (last a.0 ≡ some t) × (a.1 ≤ t)

record IsDispatching (s : HookDispatchState) : Type 0 where
  paced : IsPaced s.activations
  known : All (IsKnown s.last_activation) s.activations
  fits : length s.events ≤ hotkey_event_queue_bound

send_or_report-fits :
    (event : HotkeyEvent) (queue : List HotkeyEvent)
    → length queue ≤ hotkey_event_queue_bound
    → length (send_or_report event queue) ≤ hotkey_event_queue_bound
send_or_report-fits event queue h =
    ground (arith, length-append queue (event ∷ []), length-append queue (event_queue_full ∷ []))

module _ (last : ℤ → Option ℕ) (id : ℤ) (now : ℕ) where
  IsApart-from_known :
      (earlier : List Activation)
      → is_debounced (last id) now ≡ false
      → All (IsKnown last) earlier
      → All (IsApart (id, now)) earlier
  IsApart-from_known [] free h = tt
  IsApart-from_known ((other, time) ∷ earlier) free ((t, e, le), hs) = (
    λ same. far t (subst (λ i. last i ≡ some t) (sym same) e) le,
    IsApart-from_known earlier free hs,
  )
    where
      far : (t : ℕ) → last id ≡ some t → time ≤ t → time + hotkey_debounce ≤ now
      far t e le = ground arith

  IsKnown-after :
      (earlier : List Activation)
      → is_debounced (last id) now ≡ false
      → All (IsKnown last) earlier
      → All (IsKnown (insert_activation id now last)) earlier
  IsKnown-after [] free h = tt
  IsKnown-after ((other, time) ∷ earlier) free ((t, e, le), hs) =
      (here (Bool-cases (eqb_ℤ other id)), IsKnown-after earlier free hs)
    where
      here :
          (eqb_ℤ other id ≡ true) ⊎ (eqb_ℤ other id ≡ false)
          → IsKnown (insert_activation id now last) (other, time)
      here (inl same) =
          let same_id : other ≡ id = ground (arith, eq_of_parts other id) in
          let remembered : last id ≡ some t = subst (λ i. last i ≡ some t) same_id e in
          (now, (rw same refl), ground arith)
      here (inr differs) = (t, (rw differs e), le)

activate-IsDispatching :
    (b : NativeBinding) (now : ℕ) (s : HookDispatchState)
    → IsDispatching s
    → IsDispatching (activate b now s)
unfolding activate
activate-IsDispatching b now s v = elim (Bool-cases (is_debounced (s.last_activation b.id) now)) [
  | inl debounced ↦ rw debounced v
  | inr free ↦
      let same : eqb_ℤ b.id b.id ≡ true = ground arith in
      rw free (record {
        paced = (IsApart-from_known s.last_activation b.id now s.activations free v.known, v.paced);
        known = (
          (now, (rw same refl), omega arith),
          IsKnown-after s.last_activation b.id now s.activations free v.known,
        );
        fits = send_or_report-fits (activated b.action) s.events v.fits;
      })
]

dispatch-IsDispatching :
    (vk mask : ℕ) (clock : ℤ → ℕ) (bs : List NativeBinding) (s : HookDispatchState)
    → IsDispatching s
    → IsDispatching (dispatch vk mask clock bs s)
unfolding dispatch
dispatch-IsDispatching vk mask clock [] s v = v
dispatch-IsDispatching vk mask clock (b ∷ bs) s v = elim (Bool-cases (is_pressed vk mask b)) [
  | inl pressed ↦ rw pressed (
      dispatch-IsDispatching vk mask clock bs (activate b (clock b.id) s)
        (activate-IsDispatching b (clock b.id) s v))
  | inr other ↦ rw other (dispatch-IsDispatching vk mask clock bs s v)
]

-- A change of the modifiers or of the bindings touches none of it.
same_activations :
    (s t : HookDispatchState)
    → t.activations ≡ s.activations
    → t.last_activation ≡ s.last_activation
    → t.events ≡ s.events
    → IsDispatching s
    → IsDispatching t
same_activations s t a l e v = record {
  paced = rw a v.paced;
  known = rw (a, l) v.known;
  fits = rw e v.fits;
}

handle_event-IsDispatching :
    (vk : ℕ) (is_down alt_flag : Bool) (clock : ℤ → ℕ) (s : HookDispatchState)
    → IsDispatching s
    → IsDispatching (handle_event vk is_down alt_flag clock s)
unfolding handle_event
handle_event-IsDispatching vk is_down alt_flag clock s v =
    let modifiers = (update_modifiers vk is_down alt_flag s.modifiers).1 in
    let is_mod = (update_modifiers vk is_down alt_flag s.modifiers).0 in
    let moved : IsDispatching (record s { modifiers = modifiers }) =
      same_activations s (record s { modifiers = modifiers }) refl refl refl v in
    elim (Bool-cases (not is_down || is_mod)) [
      | inl quiet ↦ rw quiet moved
      | inr pressed ↦ rw pressed (
          dispatch-IsDispatching vk (held_mask modifiers) clock s.bindings
            (record s { modifiers = modifiers }) moved)
    ]

activate_found-IsDispatching :
    (found : Option NativeBinding) (now : ℕ) (s : HookDispatchState)
    → IsDispatching s
    → IsDispatching (activate_found found now s)
unfolding activate_found
activate_found-IsDispatching none now s v = v
activate_found-IsDispatching (some b) now s v = activate-IsDispatching b now s v

handle-IsDispatching :
    (i : Input) (s : HookDispatchState) → IsDispatching s → IsDispatching (handle i s)
unfolding handle handle_hotkey
handle-IsDispatching (key_event vk is_down alt_flag clock) s v =
    handle_event-IsDispatching vk is_down alt_flag clock s v
handle-IsDispatching (hotkey_message id now) s v =
    activate_found-IsDispatching (find (λ b. eqb_ℤ b.id id) s.bindings) now s v
handle-IsDispatching (rebound bindings) s v =
    same_activations s (record s { bindings = bindings }) refl refl refl v
handle-IsDispatching drained s v = record { paced = v.paced; known = v.known; fits = omega arith }

handle_all-IsDispatching :
    (inputs : List Input) (s : HookDispatchState)
    → IsDispatching s
    → IsDispatching (handle_all inputs s)
handle_all-IsDispatching [] s v = v
handle_all-IsDispatching (i ∷ later) s v =
    handle_all-IsDispatching later (handle i s) (handle-IsDispatching i s v)

-- Through any run of key events, hotkey messages, replaced bindings and receipts, at whatever times
-- the clock reads, two activations of one hotkey are at least 50 milliseconds apart, and no more
-- events wait than the queue's bound.
pub handle_all-IsPaced :
    (inputs : List Input) (bindings : List NativeBinding)
    → IsPaced (handle_all inputs (installed bindings)).activations
      × (length (handle_all inputs (installed bindings)).events ≤ hotkey_event_queue_bound)
handle_all-IsPaced inputs bindings =
    let start : IsDispatching (installed bindings) = record {
      paced = tt;
      known = tt;
      fits = omega arith;
    } in
    let v = handle_all-IsDispatching inputs (installed bindings) start in (v.paced, v.fits)
