-- ===== src/Pushback.antt =====
-- Pushing back the unplayed matches of a season by some weeks.
pub mod Db
pub mod Service
pub mod Shift
pub mod Applying
pub mod Previewing
mod Tests
