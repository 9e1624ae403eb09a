-- ===== src/AudioSync.antt =====
-- Audio synchronization (crates/audio-sync/src/lib.rs): conversion of a source's chunks to the
-- encoder's format, on the shared timeline.
pub mod Frame
pub mod Samples
pub mod Synchronizer
pub mod Examples
