-- ===== src/Store.antt =====
-- kv/store.go and kv/lib.go: the tables in memory, the commands that Raft delivers, and the part of
-- `Get` in front of the tables on disk. The mutex makes each function one step.
pub mod Index
pub mod Lookup
pub mod Apply
pub mod Memory
pub mod Client
pub mod Disk
pub mod Keys
pub mod Items
pub mod Written
pub mod Refresh
pub mod Flush
pub mod Stale
pub mod Start
pub mod Replay
mod Examples
mod DiskExamples
mod ReplayExamples
use sisyphus_db.Prelude.{
  ℕ, zero, suc, ◌+◌, ◌%◌, ◌^◌, ◌*◌, Bool, true, false, List, [], ◌∷◌, length, Option, none, some,
}
use sisyphus_db.Prelude.{ltb, ◌==◌, if◌then◌else◌, Bytes, bytes_eq, Outcome, ok, err, panic, ◌>>=◌}
use sisyphus_db.Prelude.{ℤ, pos, negsuc}
use sisyphus_db.Prelude.{Found, missing, tombstone, value}
use sisyphus_db.Raft.Node.{LogEntry, Raft, start}
use sisyphus_db.Arena.{Arena, ArenaError, new_arena, put, get}
use sisyphus_db.StorageWal.{Wal, Entry, open_wal, cmd_put, cmd_delete}

-- 10 MB
abbrev pub map_limit : ℕ
map_limit = 10 * 1024 * 1024

-- The Go map from keys to offsets of the arena, with one pair for each key.
unfoldable pub lookup : Bytes → List (Bytes × ℕ) → Option ℕ
lookup key [] = none
lookup key ((k, offset) ∷ index) =
    let rest = lookup key index in if bytes_eq k key then some offset else rest

unfoldable pub assign : Bytes → ℕ → List (Bytes × ℕ) → List (Bytes × ℕ)
assign key offset [] = (key, offset) ∷ []
assign key offset ((k, o) ∷ index) =
    let rest = assign key offset index in
    if bytes_eq k key then (k, offset) ∷ index else (k, o) ∷ rest

-- `segment` is the number in the path of the log.
pub record MemTable : Type 0 where
  pub index : List (Bytes × ℕ)
  pub arena : Arena
  pub size : ℕ
  pub wal : Wal
  pub segment : ℕ

unfoldable pub new_mem_table : ℕ → Wal → ℕ → MemTable
new_mem_table size new_wal segment = record {
  index = [];
  arena = new_arena size;
  size = 0;
  wal = new_wal;
  segment = segment;
}

-- A file of the directory of tables.
pub record TableFile : Type 0 where
  pub name : Bytes
  pub contents : Bytes

-- `wal_dir` is the contents of the files of the directory by their number, empty for a missing one.
-- `waiting` has the keys of `notifyChans`, and `tables` the .sst files of the other directory.
pub record Store : Type 0 where
  pub active : MemTable
  pub frozen : Option MemTable
  pub wal_dir : ℕ → Bytes
  pub wal_seq : ℕ
  pub flush_requested : Bool
  pub waiting : List ℕ
  pub tables : List TableFile

-- `applyInternal` is the caller, and has no frozen table then, so the wait for it is not entered.
unfoldable pub rotate_table : Store → Store
rotate_table s = record s {
  active = new_mem_table map_limit (open_wal (s.wal_dir (s.wal_seq + 1))) (s.wal_seq + 1);
  frozen = some s.active;
  wal_seq = s.wal_seq + 1;
  flush_requested = true;
}

unfoldable pub check_entry : Outcome ArenaError (Bytes × Bool) → Outcome ArenaError Found
check_entry (ok (val, is_tombstone)) = ok (if is_tombstone then tombstone else value val)
check_entry (err e) = ok missing
check_entry panic = panic

unfoldable pub check_table : MemTable → Bytes → Outcome ArenaError Found
unfolding check_entry
check_table table key = elim (lookup key table.index) [
  | none ↦ ok missing
  | some offset ↦ check_entry (get table.arena offset)
]

unfoldable pub check_frozen : Option MemTable → Bytes → Outcome ArenaError Found
check_frozen none key = ok missing
check_frozen (some table) key = check_table table key

-- `Get` up to the tables on disk, where it goes on if the key is missing.
unfoldable pub get_memory : Store → Bytes → Outcome ArenaError Found
get_memory s key = do
  first ← check_table s.active key
  elim first [
    | missing ↦ check_frozen s.frozen key
    | tombstone ↦ ok tombstone
    | value val ↦ ok (value val)
  ]

pub data StoreError : Type 0 where
  write_stall : StoreError
  put_failed : ArenaError → StoreError

-- From `Arena.Put` on; a panic of `Put` does not exist.
unfoldable pub store_entry : Bytes → Bytes → Bool → Store → Option StoreError × Store
store_entry key val is_delete s = elim (put s.active.arena key val is_delete) [
  | err e ↦ (some (put_failed e), s)
  | panic ↦ (none, s)
  | ok (offset, arena) ↦ (
    none,
    record s {
      active = record {
        index = assign key offset s.active.index;
        arena = arena;
        size = (s.active.size + (1 + 2 + 4 + length key + length val)) % 2 ^ 32;
        wal = s.active.wal;
        segment = s.active.segment;
      };
    },
  )
]

-- The error, if there is one, and the store.
unfoldable pub apply_internal : Bytes → Bytes → Bool → Store → Option StoreError × Store
apply_internal key val is_delete s =
    if ltb map_limit (s.active.size + (1 + 2 + 4 + length key + length val))
    then elim s.frozen [
      | some table ↦ (some write_stall, s)
      | none ↦ store_entry key val is_delete (rotate_table s)
    ]
    else store_entry key val is_delete s

pub record RaftCmd : Type 0 where
  pub op : ℕ
  pub key : Bytes
  pub value : Bytes

pub record OpResult : Type 0 where
  pub value : Bytes
  pub error : Option StoreError

-- The operations of `kv` have the numbers of those of the log. One that is neither of the two does
-- nothing, and is no error.
unfoldable pub apply_cmd : RaftCmd → Store → Option StoreError × Store
apply_cmd cmd s =
    if cmd.op == cmd_put
    then apply_internal cmd.key cmd.value false s
    else if cmd.op == cmd_delete
    then apply_internal cmd.key [] true s
    else (none, s)

unfoldable pub is_waiting : ℕ → List ℕ → Bool
is_waiting index [] = false
is_waiting index (i ∷ is) = let rest = is_waiting index is in if i == index then true else rest

unfoldable pub forget : ℕ → List ℕ → List ℕ
forget index [] = []
forget index (i ∷ is) = let rest = forget index is in if i == index then rest else i ∷ rest

-- The result goes to the client that waits for the index, if there is one.
unfoldable pub notify : ℕ → RaftCmd → Option StoreError → Store → Option OpResult × Store
notify index cmd error s =
    if is_waiting index s.waiting
    then (
      some (record { value = cmd.value; error = error }),
      record s { waiting = forget index s.waiting },
    )
    else (none, s)

-- One message of the loop of `readAppliedLogs`; `unmarshal` is that of JSON, and a command that it
-- refuses is skipped.
unfoldable pub read_applied : (Bytes → Option RaftCmd) → LogEntry → Store → Option OpResult × Store
read_applied unmarshal msg s = elim (unmarshal msg.command) [
  | none ↦ (none, s)
  | some cmd ↦ let (error, s') = apply_cmd cmd s in notify msg.index cmd error s'
]

unfoldable pub read_applied_logs : (Bytes → Option RaftCmd) → List LogEntry → Store → Store
read_applied_logs unmarshal [] s = s
read_applied_logs unmarshal (msg ∷ msgs) s =
    let (result, s') = read_applied unmarshal msg s in read_applied_logs unmarshal msgs s'

-- `Put` up to the lock of the store: the index to wait for, or `none`, the error "not leader". `marshal`
-- is that of JSON.
unfoldable pub propose : (RaftCmd → Bytes) → Bytes → Bytes → Bool → Raft → Option ℤ × Raft
propose marshal key val is_delete rf =
    let cmd : RaftCmd = record {
      op = if is_delete then cmd_delete else cmd_put;
      key = key;
      value = val;
    } in
    let ((index, term, is_leader), rf') = start (marshal cmd) rf in
    if is_leader then (some index, rf') else (none, rf')

-- `notifyChans[index] = ch`, a step of its own behind `Start`: the entry can be applied in between. A
-- node that leads returns no negative index.
unfoldable pub await : ℤ → Store → Store
await (pos index) s = record s { waiting = index ∷ forget index s.waiting }
await (negsuc n) s = s

-- The branch of `Put` that waited two seconds.
unfoldable pub time_out : ℕ → Store → Store
time_out index s = record s { waiting = forget index s.waiting }
