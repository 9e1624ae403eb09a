-- ===== src/Config.antt =====
-- The settings that the program accepts (crates/configuration).
pub mod Chords
pub mod Settings
pub mod Examples
