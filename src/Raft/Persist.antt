-- ===== src/Raft/Persist.antt =====
-- What `persist` writes (raft/persist.go).
pub mod Restart
pub mod Replaced
use sisyphus_db.Prelude.{
  ℕ, ◌+◌, ◌^◌, ◌<◌, ◌≡◌, refl, List, [], ◌∷◌, map, length, drop, drop-all, some, arith,
}
use sisyphus_db.Prelude.{length-map, ltb, Bool-cases, inl, inr, false}
use sisyphus_db.RaftWal.{Wal, WalEntry}
use sisyphus_db.RaftWal.Append.{fresh, appended, append_entries-fresh}
use sisyphus_db.Raft.Node.{LogEntry, Raft, persist, to_wal_entry}

-- The entries of the log that `persist` adds to the file.
abbrev pub unsaved : Wal → List LogEntry → List WalEntry
unsaved w log = fresh w.last_persisted (drop (w.last_persisted + 1) (map to_wal_entry log))

abbrev pub saved : Wal → List LogEntry → Wal
saved w log = appended w (unsaved w log)

-- `persist` never faults, and changes nothing but the WAL.
pub persist-saved :
    (rf : Raft)
    → length rf.log < 2 ^ 32
    → persist rf ≡ some (record rf { wal = saved rf.wal rf.log })
unfolding persist
persist-saved rf h = elim (Bool-cases (ltb 0 (length rf.log))) [
  | inl more ↦ rw (
    more,
    append_entries-fresh rf.wal (map to_wal_entry rf.log)
        (omega (arith, length-map to_wal_entry rf.log)),
  )
  | inr empty ↦ rw (
    empty,
    drop-all (rf.wal.last_persisted + 1) (map to_wal_entry rf.log)
        (omega (arith, length-map to_wal_entry rf.log, zero_length empty)),
  )
]
  where
    zero_length : ltb 0 (length rf.log) ≡ false → length rf.log ≡ 0
    zero_length e = ground arith
