-- ===== src/Raft/Guarantees.antt =====
-- The properties of the node of internal/raft/node.go that its clients and its peers rely on.
pub mod Vote
pub mod Append
pub mod Quorum
pub mod Commit
pub mod Conflict
pub mod Apply
pub mod Replay
pub mod Recover
pub mod Restart
pub mod Election
pub mod Replicate
pub mod Counters
pub mod Barrier
pub mod Serving
pub mod CaughtUp
pub mod Read
pub mod Chunks
pub mod Deliver
pub mod Transfer
pub mod Refused
pub mod Lifetime
pub mod Leaders
