-- ===== src/Scoresheet.antt =====
-- The validation of a submitted scoresheet: backend/domains/matches/scoresheet.go, over the
-- handicap spot of logic/handicap.go; and what round_service.go shows of a pairing and keeps of it.
pub mod Spot
pub mod Sheet
pub mod Rounds
pub mod Growth
pub mod Leads
pub mod EarlyStop
pub mod Legal
pub mod Majority
pub mod Display
pub mod LowerRated
pub mod Snapshots
pub mod Resave
pub mod Whole
mod Tests
