-- ===== src/Hotkeys/Bindings/Replaced.antt =====
-- The replacement of a set of bindings: the `Replace` command of `run_hotkey_loop`. The answer of
-- `RegisterHotKey` is a parameter of the model, one answer for each binding of the command.
use silk_studio.Prelude.{
  Bool, not, ◌&&◌, true, false, List, [], ◌∷◌, filter, ok, err, if◌then◌else◌,
}
use silk_studio.Prelude.Int.{ℤ, eqb_ℤ}
use silk_studio.Hotkeys.Native.{parse_native_chord}
use silk_studio.Hotkeys.Bindings.{
  HotkeyBinding, NativeBinding, to_native_bindings, plan_replacement, id_seen,
}

-- What the loop keeps from one message to the next.
pub record HotkeyLoop : Type 0 where
  pub current_bindings : List HotkeyBinding
  pub succeeded_hotkey_ids : List ℤ
  pub dispatch_bindings : List NativeBinding

abbrev pub remove_hotkey_id : ℤ → List ℤ → List ℤ
remove_hotkey_id id = filter (λ i. not (eqb_ℤ i id))

-- `BTreeSet::insert`
abbrev pub insert_hotkey_id : ℤ → List ℤ → List ℤ
insert_hotkey_id id ids = if id_seen id ids then ids else id ∷ ids

abbrev pub unregister_bindings : List HotkeyBinding → List ℤ → List ℤ
unregister_bindings [] ids = ids
unregister_bindings (b ∷ bs) ids = unregister_bindings bs (remove_hotkey_id b.id ids)

-- What `RegisterHotKey` answers for a binding's id, modifiers and virtual key.
abbrev pub Registers : Type 0
Registers = HotkeyBinding → Bool

abbrev pub is_native : HotkeyBinding → Bool
is_native b = elim (parse_native_chord b.chord) [ ok parsed ↦ true | err why ↦ false ]

abbrev pub register_one : Registers → HotkeyBinding → List ℤ → List ℤ
register_one answers b ids = if is_native b && answers b then insert_hotkey_id b.id ids else ids

abbrev pub register_bindings : Registers → List HotkeyBinding → List ℤ → List ℤ
register_bindings answers [] ids = ids
register_bindings answers (b ∷ bs) ids = register_bindings answers bs (register_one answers b ids)

-- The start of `run_hotkey_loop`, once the hook is installed.
unfoldable pub start_loop : Registers → List HotkeyBinding → HotkeyLoop
start_loop answers initial = record {
  current_bindings = initial;
  succeeded_hotkey_ids = register_bindings answers initial [];
  dispatch_bindings = to_native_bindings initial;
}

-- `ControlMessage::Replace`
unfoldable pub replace_bindings : Registers → List HotkeyBinding → HotkeyLoop → HotkeyLoop
replace_bindings answers bindings s =
    let plan = plan_replacement s.current_bindings bindings in
    record {
      current_bindings = bindings;
      succeeded_hotkey_ids =
          register_bindings answers plan.added
            (unregister_bindings plan.removed s.succeeded_hotkey_ids);
      dispatch_bindings = to_native_bindings bindings;
    }

-- Commands, the earliest first, each with the window system's answers.
abbrev pub run_replacements : List (Registers × List HotkeyBinding) → HotkeyLoop → HotkeyLoop
run_replacements [] s = s
run_replacements ((answers, bindings) ∷ later) s =
    run_replacements later (replace_bindings answers bindings s)
