-- ===== src/Store/Start.antt =====
-- kv/store.go: `NewKVStore`. The directories exist, and the node of Raft is a part of its own.
use sisyphus_db.Prelude.{ℕ, ◌+◌, ◌%◌, ◌^◌, true, false, List, [], ◌∷◌, none, length, Bytes}
use sisyphus_db.Prelude.{◌==◌, if◌then◌else◌, Outcome, ok, ◌>>=◌}
use sisyphus_db.Arena.{Arena, ArenaError, put}
use sisyphus_db.StorageWal.{
  Entry, Recovered, done, failed, stuck, recover, open_wal, cmd_put, cmd_delete,
}
use sisyphus_db.Store.Disk.{refresh_sstables}
use sisyphus_db.Store.{Store, MemTable, TableFile, assign, new_mem_table, map_limit}

-- An entry of another command is not stored, and its key gets the offset 0.
unfoldable pub replay_put : Entry → Arena → Outcome ArenaError (ℕ × Arena)
replay_put e a =
    if e.cmd == cmd_put
    then put a e.key e.value false
    else if e.cmd == cmd_delete
    then put a e.key e.value true
    else ok (0, a)

unfoldable pub replay_entry : Entry → MemTable → Outcome ArenaError MemTable
replay_entry e t = do
  (offset, arena) ← replay_put e t.arena
  ok (record {
    index = assign e.key offset t.index;
    arena = arena;
    size = (t.size + (length e.key + length e.value)) % 2 ^ 32;
    wal = t.wal;
    segment = t.segment;
  })

unfoldable pub replay : List Entry → MemTable → Outcome ArenaError MemTable
replay [] t = ok t
replay (e ∷ es) t = do t' ← replay_entry e t; replay es t'

-- The error of `Recover` is dropped, with the entries in front of it.
unfoldable pub recovered_entries : Recovered → List Entry
recovered_entries (done es lsn) = es
recovered_entries (failed e lsn rest) = []
recovered_entries stuck = []

-- On a directory of logs, the number of the log that `FindActiveFile` finds, and the tables on disk.
-- `walSeq` is not set.
unfoldable pub new_kv_store : (ℕ → Bytes) → ℕ → List TableFile → Outcome ArenaError Store
new_kv_store wal_dir seq_id tables =
    let (result, w) = recover (open_wal (wal_dir seq_id)) in
    do
      t ← replay (recovered_entries result) (new_mem_table map_limit w seq_id)
      readers ← refresh_sstables tables
      ok (record {
        active = t;
        frozen = none;
        wal_dir = wal_dir;
        wal_seq = 0;
        flush_requested = false;
        waiting = [];
        tables = tables;
      })
