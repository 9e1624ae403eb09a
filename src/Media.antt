-- ===== src/Media.antt =====
-- The media types that the crates share (crates/media-types).
pub mod TimeBase
pub mod Packet
pub mod Snapshot
pub mod Timeline
pub mod Rescale
mod Examples
