-- ===== src/Raft/Leader/Replication.antt =====
-- A leader's call that a follower accepts.
use sisyphus_db.Prelude.{ℕ, ◌+◌, ◌-◌, ◌≤◌, arith}
use sisyphus_db.Prelude.{List, length, drop}
use sisyphus_db.Prelude.{length-take, length-drop}
use sisyphus_db.Raft.Node.{LogEntry, Raft}
use sisyphus_db.Raft.Leader.{batch, max_batch}

-- The batch is the stretch of the log from `next` on, of at most 100 entries.
pub length-batch :
    (log : List LogEntry) (next : ℕ)
    → next ≤ length log
    → (length (batch log next) ≤ max_batch) × (next + length (batch log next) ≤ length log)
unfolding batch
length-batch log next h = ground (
  arith,
  length-take (length log - next) (drop next log),
  length-take (next + max_batch - next) (drop next log),
  length-drop next log,
)
