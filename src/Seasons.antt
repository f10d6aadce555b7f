-- ===== src/Seasons.antt =====
-- Closing and reopening a season.
pub mod Close
pub mod Closing
mod Tests
