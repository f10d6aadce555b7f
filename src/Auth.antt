-- ===== src/Auth.antt =====
-- Who may do what: backend/domains/auth (identity.go and authz.go).
pub mod Identity
pub mod Authorize
pub mod Grants
pub mod Policy
pub mod Decision
pub mod Granting
pub mod Session
mod Tests
