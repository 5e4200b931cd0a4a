-- ===== src/Web.antt =====
-- The routes that sign a caller in.
pub mod Auth
