-- ===== src/RaftWal/Examples.antt =====
-- A small WAL: a run, and the theorems at it.
use sisyphus_db.Prelude.{ℕ, ◌≡◌, refl, List, [], ◌∷◌, false, arith}
use sisyphus_db.RaftWal.{Wal, WalEntry, HardState}
use sisyphus_db.RaftWal.{recover_entries, done, last_index}
use sisyphus_db.RaftWal.RoundTrip.{Rec, log_rec, state_rec, encode_recs}
use sisyphus_db.RaftWal.RoundTrip.{recover_entries-encode_recs}

abbrev wal_entry : ℕ → ℕ → WalEntry
wal_entry i t = record { record_type = 0; index = i; term = t; command = 7 ∷ 8 ∷ [] }

abbrev state_5 : HardState
state_5 = record { term = 5; vote = 2; commit = 1 }

abbrev recs : List Rec
recs = log_rec (wal_entry 1 1) ∷ state_rec state_5 ∷ log_rec (wal_entry 2 5) ∷ []

abbrev wal : Wal
wal = record { file = encode_recs recs; last_persisted = 0; sync_requested = false }

recover_entries-encode_recs_example : recover_entries wal ≡ (
  done (wal_entry 1 1 ∷ wal_entry 2 5 ∷ []) state_5,
  record wal { last_persisted = last_index 0 (wal_entry 1 1 ∷ wal_entry 2 5 ∷ []) },
)
recover_entries-encode_recs_example = recover_entries-encode_recs wal recs refl (omega arith)
