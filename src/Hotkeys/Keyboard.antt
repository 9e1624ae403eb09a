-- ===== src/Hotkeys/Keyboard.antt =====
-- Key events and the hotkeys that they activate: `ModifierState`, `HookDispatchState::handle_event`
-- and the `WM_HOTKEY` branch of `run_hotkey_loop` in crates/hotkeys/src/lib.rs. An `Instant` is a
-- number of nanoseconds. The events that are sent are a list, with the bound of the channel.
pub mod Debounce
use Prim.Native.Nat.{bit_or}
use silk_studio.Prelude.{
  ℕ, ◌+◌, ◌-◌, ◌*◌, Bool, true, false, not, ◌&&◌, ◌||◌, List, [], ◌∷◌, ◌++◌, Option, none, some,
  ltb, ◌==◌, if◌then◌else◌, length, find,
}
use silk_studio.Prelude.Int.{ℤ, eqb_ℤ}
use silk_studio.Prelude.Text.{Text}
use silk_studio.Hotkeys.Bindings.{HotkeyAction, NativeBinding}

pub record ModifierState : Type 0 where
  pub lctrl : Bool
  pub rctrl : Bool
  pub lshift : Bool
  pub rshift : Bool
  pub lalt : Bool
  pub ralt : Bool
  pub lwin : Bool
  pub rwin : Bool

abbrev pub ctrl_held : ModifierState → Bool
ctrl_held m = m.lctrl || m.rctrl

abbrev pub shift_held : ModifierState → Bool
shift_held m = m.lshift || m.rshift

abbrev pub alt_held : ModifierState → Bool
alt_held m = m.lalt || m.ralt

abbrev pub win_held : ModifierState → Bool
win_held m = m.lwin || m.rwin

abbrev set_bit : Bool → ℕ → ℕ → ℕ
set_bit held bit mask = if held then bit_or mask bit else mask

-- `ModifierState::mask`
unfoldable pub held_mask : ModifierState → ℕ
held_mask m =
    set_bit (win_held m) 0x0008
      (set_bit (shift_held m) 0x0004 (set_bit (ctrl_held m) 0x0002 (set_bit (alt_held m) 0x0001 0)))

-- The last arm of `update`: a key that is no modifier brings the flag of the Alt keys.
abbrev pub update_alt : Bool → ModifierState → ModifierState
update_alt alt_flag m =
    if alt_flag
    then (if alt_held m then m else record m { lalt = true })
    else record m { lalt = false; ralt = false }

-- `ModifierState::update`, with its answer whether the key is a modifier.
unfoldable pub update_modifiers : ℕ → Bool → Bool → ModifierState → Bool × ModifierState
update_modifiers vk is_down alt_flag m =
    if vk == 0x11
    then (true, record m { lctrl = is_down; rctrl = is_down })
    else if vk == 0xA2
    then (true, record m { lctrl = is_down })
    else if vk == 0xA3
    then (true, record m { rctrl = is_down })
    else if vk == 0x10
    then (true, record m { lshift = is_down; rshift = is_down })
    else if vk == 0xA0
    then (true, record m { lshift = is_down })
    else if vk == 0xA1
    then (true, record m { rshift = is_down })
    else if vk == 0x12
    then (true, record m { lalt = is_down; ralt = is_down })
    else if vk == 0xA4
    then (true, record m { lalt = is_down })
    else if vk == 0xA5
    then (true, record m { ralt = is_down })
    else if vk == 0x5B
    then (true, record m { lwin = is_down })
    else if vk == 0x5C
    then (true, record m { rwin = is_down })
    else (false, update_alt alt_flag m)

pub data HotkeyEvent : Type 0 where
  activated : HotkeyAction → HotkeyEvent
  registration_failed : HotkeyAction → Text → ℕ → HotkeyEvent
  event_queue_full stopped : HotkeyEvent

-- `HOTKEY_EVENT_QUEUE_BOUND` and `HOTKEY_DEBOUNCE`
abbrev pub hotkey_event_queue_bound : ℕ
hotkey_event_queue_bound = 64

abbrev pub hotkey_debounce : ℕ
hotkey_debounce = 50 * 1000000

-- An activation: the binding's id, and the time that was read for it.
abbrev pub Activation : Type 0
Activation = ℤ × ℕ

-- `HookDispatchState`, the map as a function. The activations are kept beside it, latest first:
-- the program has them only in the events that it sends.
pub record HookDispatchState : Type 0 where
  pub bindings : List NativeBinding
  pub events : List HotkeyEvent
  pub modifiers : ModifierState
  pub last_activation : ℤ → Option ℕ
  pub activations : List Activation

-- `SyncSender::try_send`, where nobody receives between two sends of one event.
abbrev pub try_send : HotkeyEvent → List HotkeyEvent → Bool × List HotkeyEvent
try_send event queue =
    if ltb (length queue) hotkey_event_queue_bound
    then (true, queue ++ event ∷ [])
    else (false, queue)

-- The event, or the notice that the queue is full.
abbrev pub send_or_report : HotkeyEvent → List HotkeyEvent → List HotkeyEvent
send_or_report event queue =
    let (sent, next) = try_send event queue in
    if sent then next else (try_send event_queue_full next).1

-- `now.duration_since(previous) < HOTKEY_DEBOUNCE`; the difference stops at 0.
abbrev pub is_debounced : Option ℕ → ℕ → Bool
is_debounced none now = false
is_debounced (some previous) now = ltb (now - previous) hotkey_debounce

abbrev pub insert_activation : ℤ → ℕ → (ℤ → Option ℕ) → ℤ → Option ℕ
insert_activation id now last i = if eqb_ℤ i id then some now else last i

-- An activation at a time, unless one of the same id was just before.
unfoldable pub activate : NativeBinding → ℕ → HookDispatchState → HookDispatchState
activate b now s = if is_debounced (s.last_activation b.id) now then s else record s {
  last_activation = insert_activation b.id now s.last_activation;
  events = send_or_report (activated b.action) s.events;
  activations = (b.id, now) ∷ s.activations;
}

abbrev pub is_pressed : ℕ → ℕ → NativeBinding → Bool
is_pressed vk mask b = b.virtual_key == vk && b.modifiers == mask

-- The loop of `handle_event` over the bindings; `clock` gives the time that is read for each.
unfoldable pub dispatch :
    (vk mask : ℕ) (clock : ℤ → ℕ) → List NativeBinding → HookDispatchState → HookDispatchState
unfolding activate
dispatch vk mask clock [] s = s
dispatch vk mask clock (b ∷ bs) s =
    dispatch vk mask clock bs (if is_pressed vk mask b then activate b (clock b.id) s else s)

-- `HookDispatchState::handle_event`
unfoldable pub handle_event :
    (vk : ℕ) (is_down alt_flag : Bool) (clock : ℤ → ℕ) → HookDispatchState → HookDispatchState
unfolding dispatch update_modifiers held_mask
handle_event vk is_down alt_flag clock s =
    let (is_mod, modifiers) = update_modifiers vk is_down alt_flag s.modifiers in
    let next = record s { modifiers = modifiers } in
    if not is_down || is_mod then next else dispatch vk (held_mask modifiers) clock s.bindings next

unfoldable pub activate_found : Option NativeBinding → ℕ → HookDispatchState → HookDispatchState
unfolding activate
activate_found none now s = s
activate_found (some b) now s = activate b now s

-- The `WM_HOTKEY` branch.
unfoldable pub handle_hotkey : ℤ → ℕ → HookDispatchState → HookDispatchState
unfolding activate_found
handle_hotkey id now s = activate_found (find (λ b. eqb_ℤ b.id id) s.bindings) now s

-- What reaches the hook's state: a key event, a hotkey message, a replaced set of bindings, or the
-- receiver taking the events that wait.
pub data Input : Type 0 where
  key_event : (vk : ℕ) (is_down alt_flag : Bool) (clock : ℤ → ℕ) → Input
  hotkey_message : ℤ → ℕ → Input
  rebound : List NativeBinding → Input
  drained : Input

unfoldable pub handle : Input → HookDispatchState → HookDispatchState
unfolding handle_event handle_hotkey
handle (key_event vk is_down alt_flag clock) s = handle_event vk is_down alt_flag clock s
handle (hotkey_message id now) s = handle_hotkey id now s
handle (rebound bindings) s = record s { bindings = bindings }
handle drained s = record s { events = [] }

-- A run of inputs, the earliest first.
abbrev pub handle_all : List Input → HookDispatchState → HookDispatchState
handle_all [] s = s
handle_all (i ∷ later) s = handle_all later (handle i s)

abbrev pub no_modifier_held : ModifierState
no_modifier_held = record {
  lctrl = false;
  rctrl = false;
  lshift = false;
  rshift = false;
  lalt = false;
  ralt = false;
  lwin = false;
  rwin = false;
}

-- The state when the hook is installed.
abbrev pub installed : List NativeBinding → HookDispatchState
installed bindings = record {
  bindings = bindings;
  events = [];
  modifiers = no_modifier_held;
  last_activation = λ i. none;
  activations = [];
}
