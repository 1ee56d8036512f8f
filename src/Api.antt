-- ===== src/Api.antt =====
-- The HTTP API's administration: internal/api, with the start of cmd/platform/main.go.
pub mod Policies
pub mod Updates
pub mod Decimal
pub mod Retentions
pub mod Host
pub mod Restart
pub mod Safety
pub mod Requests
pub mod Recovery
pub mod Completion
pub mod Forwarding
pub mod Editable
pub mod Editor
pub mod Adoption
pub mod Tokens
pub mod Edits
pub mod Limiter
pub mod Limits
pub mod Tests
