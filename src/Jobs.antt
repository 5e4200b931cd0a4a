-- ===== src/Jobs.antt =====
-- backend/jobs: the durable AI jobs.
pub mod Models
pub mod Service
pub mod Dispatcher
