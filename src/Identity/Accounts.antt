-- ===== src/Identity/Accounts.antt =====
-- identity/accounts.py, by topic.
pub mod Lockout
pub mod Login
