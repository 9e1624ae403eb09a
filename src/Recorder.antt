-- ===== src/Recorder.antt =====
-- The recorder engine (crates/recorder-engine): its lifecycle states and the snapshots it takes.
pub mod State
pub mod Saving
mod Examples
