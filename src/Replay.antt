-- ===== src/Replay.antt =====
-- The replay buffer (crates/replay-buffer).
pub mod Buffer
pub mod Operations
pub mod Snapshots
pub mod Index
pub mod Eviction
pub mod Retention
pub mod Accounting
pub mod Calls
pub mod Branches
pub mod Ordering
pub mod Steps
pub mod Gathered
pub mod Clip
pub mod Normalized
pub mod Examples
