-- ===== src/Auth/Session.antt =====
-- Logins, sessions and password setup: backend/domains/auth/session_service.go, password.go and
-- email.go, over the stores of backend/storage/sqlite.
pub mod Password
pub mod Db
pub mod Store
pub mod Service
pub mod Requests
pub mod Keeping
pub mod Lock
pub mod LockedOut
pub mod Spending
pub mod Tokens
pub mod Resolving
pub mod Hashing
mod Tests
