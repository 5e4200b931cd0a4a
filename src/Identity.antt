-- ===== src/Identity.antt =====
-- backend/identity: accounts, PINs, sessions, elevation, idempotency and rate limits.
pub mod Crypto
pub mod Normalization
pub mod Pins
pub mod Models
pub mod Tokens
pub mod Accounts
pub mod Sessions
pub mod Elevation
pub mod RateLimits
pub mod Administration
pub mod Json
pub mod Idempotency
pub mod Browser
