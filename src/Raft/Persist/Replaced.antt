-- ===== src/Raft/Persist/Replaced.antt =====
-- Entries that take the place of others in a log whose file is longer.
use sisyphus_db.Prelude.{
  ℕ, ◌+◌, ◌^◌, ◌≤◌, ◌<◌, ◌≡◌, refl, ap, List, map, length, length-map, drop-all, some, arith,
}
use sisyphus_db.RaftWal.{Wal}
use sisyphus_db.RaftWal.Append.{fresh, appended}
use sisyphus_db.Raft.Node.{LogEntry, Raft, persist, make, to_wal_entry}
use sisyphus_db.Raft.Persist.{saved, persist-saved}

nothing_unsaved :
    (w : Wal) (log : List LogEntry) → length log ≤ w.last_persisted + 1 → saved w log ≡ w
nothing_unsaved w log short =
    ap (λ es. appended w (fresh w.last_persisted es))
      (drop-all (w.last_persisted + 1) (map to_wal_entry log)
        (omega (arith, length-map to_wal_entry log, short)))

-- A log that ends at or below the last index in the WAL, with any entries in the place of those in the
-- file, as a leader's call leaves it behind a conflict: `persist` reports no fault and writes none of
-- them, and a restart on the file has the log that a restart had before the change.
pub restart_loses_replaced :
    (rf : Raft) (log : List LogEntry) (now : ℕ)
    → length log < 2 ^ 32
    → length log ≤ rf.wal.last_persisted + 1
    → (rf' : Raft) × (persist (record rf { log = log }) ≡ some rf')
      × (rf'.log ≡ log)
      × ((make rf.peers rf.me rf'.wal.file now).log ≡ (make rf.peers rf.me rf.wal.file now).log)
restart_loses_replaced rf log now room short = (
  record rf { log = log; wal = saved rf.wal log },
  persist-saved (record rf { log = log }) room,
  refl,
  ap (λ w. (make rf.peers rf.me w.file now).log) (nothing_unsaved rf.wal log short),
)
