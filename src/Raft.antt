-- ===== src/Raft.antt =====
-- internal/raft: the log, the node's state, and the node's handlers and steps.
pub mod Types
pub mod Node
pub mod Errors
pub mod Log
pub mod Merge
pub mod Persist
pub mod Vote
pub mod Append
pub mod Commit
pub mod Election
pub mod Propose
pub mod Apply
pub mod Compact
pub mod Install
pub mod Recover
pub mod Configure
pub mod Replicate
pub mod SendSnapshot
pub mod Rounds
pub mod Barrier
pub mod Read
pub mod Status
pub mod Progress
pub mod System
pub mod Guarantees
pub mod FileStore
pub mod Examples
