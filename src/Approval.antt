-- ===== src/Approval.antt =====
-- Match approval: the tables it reads and writes, the guarded statements of the store, the services
-- over them, and what is proved of these.
pub mod Db
pub mod Guards
pub mod Store
pub mod Service
pub mod Rules
pub mod Frame
pub mod Promises
pub mod Actions
pub mod Soundness
pub mod Edits
pub mod Results
pub mod Accept
pub mod Requests
pub mod Safety
pub mod Scores
pub mod Locks
pub mod Causes
pub mod Stale
pub mod OpenChecks
mod Tests
