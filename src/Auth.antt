-- ===== src/Auth.antt =====
-- The Authorization header: internal/auth/auth.go.
mod Tests
pub mod Header
pub mod Middleware
pub mod Agreement
