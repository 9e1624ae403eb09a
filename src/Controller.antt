-- ===== src/Controller.antt =====
-- The application controller (crates/app-controller): so far its save jobs.
pub mod Jobs
pub mod Examples
