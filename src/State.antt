-- ===== src/State.antt =====
-- Package core/state.
pub mod Backend
pub mod Object
pub mod Db
pub mod Revert
pub mod View
pub mod Reads
pub mod Undo
pub mod Trail
pub mod Methods
pub mod Setters
pub mod Operations
pub mod Lifecycle
pub mod Search
pub mod Counters
pub mod Kept
pub mod Snapshot
pub mod Transactions
pub mod Worlds
pub mod Promises
pub mod Answers
pub mod Commit
pub mod Codec
pub mod Locks
pub mod Multi
pub mod Accessors
pub mod Samples
mod Runs
