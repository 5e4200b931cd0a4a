-- ===== src/Tests.antt =====
-- The theorems at concrete inputs, and runs of the model.
mod Samples
mod Accounts
mod Sessions
mod Elevation
mod RateLimits
mod Idempotency
mod Administration
mod SignIn
mod Web
mod Jobs
mod Paperwork
mod Dispatcher
mod CountSheets
mod Rosters
mod Lists
