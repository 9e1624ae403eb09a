-- ===== src/Export.antt =====
-- Clip export (crates/clip-export): the target-byte planner and the bounded job queue.
pub mod Planner
pub mod Queue
mod Examples
