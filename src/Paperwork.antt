-- ===== src/Paperwork.antt =====
-- paperwork: the operational paperwork of a shift, its revisions and its arithmetic.
pub mod Values
pub mod Models
pub mod Schemas
pub mod Service
pub mod CountSheet
pub mod Counts
pub mod Daily
