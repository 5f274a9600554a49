-- ===== src/Raft.antt =====
-- raft/*.go: one node of the consensus protocol. The node's mutex makes each handler, and each
-- block between `Lock` and `Unlock`, one step; a step that faults is `none`.
pub mod Node
pub mod Invariant
pub mod AppendEntries
pub mod RequestVote
pub mod Persist
pub mod Leader
pub mod Election
pub mod Applier
mod Examples
