-- ===== src/Schedule.antt =====
-- The generation of a season's schedule: backend/domains/matches/scheduling.go.
pub mod Generate
pub mod Counting
pub mod Weeks
pub mod Mirror
pub mod Halves
mod Tests
