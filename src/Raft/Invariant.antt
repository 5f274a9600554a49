-- ===== src/Raft/Invariant.antt =====
-- The indices of a node.
use sisyphus_db.Prelude.{◌≤◌, ◌<◌, length}
use sisyphus_db.Raft.Node.{Raft}

-- What is applied is committed, and what is committed is in the log.
pub record IsValid (rf : Raft) : Type 0 where
  pub applied_le : rf.last_applied ≤ rf.commit_index
  pub commit_lt : rf.commit_index < length rf.log
