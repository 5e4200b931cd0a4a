-- ===== src/Identity/Sessions.antt =====
-- identity/sessions.py: access sessions, the rotation of their renewal tokens, and revocation.
pub mod Defs
pub mod Operations
pub mod PinChange
pub mod Resolve
pub mod Revocation
pub mod Replay
pub mod NewPin
pub mod Revoked
pub mod Kept
pub mod KeptElsewhere
pub mod History
