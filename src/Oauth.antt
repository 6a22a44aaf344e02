-- ===== src/Oauth.antt =====
-- The self-host OAuth server, gubbi/oauth/: its SQLite tables, the storage and rate-limit layers over
-- them, the MCP provider and the login form.
pub mod Table
pub mod Db
pub mod Storage
pub mod RateLimit
pub mod Cleanup
pub mod Atomic
pub mod Rotation
pub mod Provider
pub mod Codes
pub mod Races
pub mod Revocation
pub mod Expiry
pub mod Login
pub mod Lockout
pub mod Grants
pub mod Selfhost
mod Samples
mod Tests
mod RequestTests
