-- ===== src/Hotkeys.antt =====
-- Global hotkeys (crates/hotkeys/src/lib.rs): native chords, the check of a set of bindings, its
-- replacement, and the dispatch of key events.
pub mod Native
pub mod Bindings
pub mod Keyboard
pub mod Configured
pub mod Examples
