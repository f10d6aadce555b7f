-- ===== src/Weeks.antt =====
-- The week workflow: the validation of a week's matches, closing and reopening, and the preview of
-- the close; and what is proved of these.
pub mod Db
pub mod Messages
pub mod Validate
pub mod Config
pub mod Store
pub mod Service
pub mod Ready
pub mod Loading
pub mod Changes
pub mod Commit
pub mod Closing
pub mod Flags
pub mod Closable
mod Tests
