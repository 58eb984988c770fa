-- ===== src/Db.antt =====
-- backend/src/db/index.ts: the state store over SQLite. `Tables` has the rows and the connection,
-- `Statements` the prepared statements, `Store` the operations.
pub mod Tables
pub mod Statements
pub mod Store
pub mod Views
pub mod Invariant
pub mod Claiming
pub mod Trace
pub mod Keeps
pub mod Transitions
pub mod Finishing
pub mod Enqueueing
pub mod Attempts
pub mod Locks
pub mod Numbering
