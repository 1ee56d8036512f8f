-- ===== src/Config.antt =====
-- The platform's configuration: internal/config/config.go.
pub mod Settings
pub mod Files
pub mod Overrides
pub mod Startup
pub mod Ranges
pub mod Adopted
pub mod Writes
pub mod RoundTrip
pub mod Accepted
pub mod Tests
