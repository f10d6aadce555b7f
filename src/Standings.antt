-- ===== src/Standings.antt =====
-- The standings of a season, computed from its completed matches.
pub mod Table
pub mod Rows
pub mod Columns
pub mod Totals
pub mod Order
mod Tests
