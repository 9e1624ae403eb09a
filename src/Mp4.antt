-- ===== src/Mp4.antt =====
-- The MP4 muxer (crates/muxer/src/mp4_muxer.rs), less what the `mp4` crate writes and reads.
pub mod Bytes
pub mod Bits
pub mod Nal
pub mod Obu
pub mod Error
pub mod Codec
pub mod Normalize
pub mod Samples
pub mod Boxes
pub mod Parameters
pub mod Tracks
pub mod Publish
mod Examples
pub mod Hevc
