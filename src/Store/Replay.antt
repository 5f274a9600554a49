-- ===== src/Store/Replay.antt =====
-- What `NewKVStore` reads out of the log.
use sisyphus_db.Store.Refresh.{IsSound, refresh_sstables-IsSound}
use sisyphus_db.Prelude.{
  ℕ, ◌+◌, ◌%◌, ◌^◌, ◌≤◌, ◌<◌, ◌≡◌, ◌⊎◌, refl, sym, ap, ◌∙◌, arith, Bool, false, Bool-cases, inl,
  inr, List, [], ◌∷◌, ◌++◌, none, some, length, Bytes, All,
}
use sisyphus_db.Prelude.{
  ◌==◌, le→not_ltb, lt→ltb, if◌then◌else◌, ok, err, bytes_eq, bytes_eq-eq, Found, missing,
}
use sisyphus_db.Arena.{ArenaError, Arena, new_arena, arena_full, put, entry_size, encode_arena}
use sisyphus_db.Arena.RoundTrip.{put-Appended}
use sisyphus_db.StorageWal.{Entry, Wal, done, recover, open_wal, cmd_put, cmd_delete}
use sisyphus_db.Store.{
  Store, MemTable, TableFile, lookup, new_mem_table, map_limit, check_table, get_memory,
  apply_internal, store_entry, put_failed,
}
use sisyphus_db.Store.Lookup.{
  IsReadable, IsTable-IsReadable, found_of, size_of, with_entry, with_entry-same, with_entry-other,
  with_entry-IsReadable,
}
use sisyphus_db.Store.Apply.{new_mem_table-IsTable, get_memory-parts, or_frozen, or_frozen-missing}
use sisyphus_db.Store.Flush.{check_frozen-none}
use sisyphus_db.Store.Start.{replay_put, replay_entry, replay, recovered_entries, new_kv_store}

abbrev pub is_delete_of : Entry → Bool
is_delete_of e = e.cmd == cmd_delete

-- A put or a delete, with a key below 64 KB and a value below 4 GB.
abbrev pub Replays : Entry → Type 0
Replays e =
    ((e.cmd ≡ cmd_put) ⊎ (e.cmd ≡ cmd_delete)) × (length e.key < 2 ^ 16) × (length e.value < 2 ^ 32)

-- What the entries say of a key, the last one first.
abbrev pub last_found : Bytes → List Entry → Found → Found
last_found key [] f = f
last_found key (e ∷ es) f =
    last_found key es (if bytes_eq e.key key then found_of e.value (is_delete_of e) else f)

-- The bytes that the entries take in the arena, and those that the table counts for them.
abbrev pub arena_bytes : List Entry → ℕ
arena_bytes [] = 0
arena_bytes (e ∷ es) = entry_size e.key e.value (is_delete_of e) + arena_bytes es

abbrev pub counted_bytes : List Entry → ℕ
counted_bytes [] = 0
counted_bytes (e ∷ es) = (length e.key + length e.value) + counted_bytes es

put_room :
    (a : Arena) (key val : Bytes) (d : Bool)
    → a.offset + entry_size key val d ≤ a.cap
    → (a' : Arena) × (put a key val d ≡ ok (a.offset, a'))
unfolding put
put_room a key val d room = (
  record a { bytes = a.bytes ++ encode_arena key val d; offset = a.offset + entry_size key val d },
  rw (le→not_ltb a.cap (a.offset + entry_size key val d) room, put) refl,
)

put_full :
    (a : Arena) (key val : Bytes) (d : Bool)
    → a.cap < a.offset + entry_size key val d
    → put a key val d ≡ err arena_full
unfolding put
put_full a key val d full = rw (lt→ltb a.cap (a.offset + entry_size key val d) full, put) refl

replay_put-Replays :
    (e : Entry) (a : Arena)
    → (e.cmd ≡ cmd_put) ⊎ (e.cmd ≡ cmd_delete)
    → replay_put e a ≡ put a e.key e.value (is_delete_of e)
unfolding replay_put
replay_put-Replays e a (inl c) = simp c refl
replay_put-Replays e a (inr c) = simp c refl

abbrev counted_table : Entry → ℕ → Arena → MemTable → MemTable
counted_table e offset a' t = record (with_entry t e.key e.value offset a') {
  size = (t.size + (length e.key + length e.value)) % 2 ^ 32;
}

replay_entry-put :
    (e : Entry) (t : MemTable) (offset : ℕ) (a' : Arena)
    → replay_put e t.arena ≡ ok (offset, a')
    → replay_entry e t ≡ ok (counted_table e offset a' t)
unfolding replay_entry
replay_entry-put e t offset a' p = rw (p, replay_entry) refl

check_table-size :
    (t : MemTable) (n : ℕ) (key : Bytes)
    → check_table (record t { size = n }) key ≡ check_table t key
unfolding check_table
check_table-size t n key = refl

-- A table behind the replay of entries.
record Replayed (es : List Entry) (t t' : MemTable) : Type 0 where
  pub found :
      (key : Bytes) (f : Found)
      → check_table t key ≡ ok f
      → check_table t' key ≡ ok (last_found key es f)
  pub offset : t'.arena.offset ≡ t.arena.offset + arena_bytes es
  pub cap : t'.arena.cap ≡ t.arena.cap
  pub size : t'.size ≡ (t.size + counted_bytes es) % 2 ^ 32

replay_entry-Replayed :
    (e : Entry) (t : MemTable)
    → IsReadable t
    → Replays e
    → t.arena.offset + entry_size e.key e.value (is_delete_of e) ≤ t.arena.cap
    → (t' : MemTable) × (replay_entry e t ≡ ok t') × IsReadable t' × Replayed (e ∷ []) t t'
replay_entry-Replayed e t h (cmd, short_key, short_val) room =
    let d = is_delete_of e in
    let offset = t.arena.offset in
    let (a', stored) = put_room t.arena e.key e.value d room in
    let added = put-Appended t.arena e.key e.value d offset a' stored in
    let readable = with_entry-IsReadable t e.key e.value d offset a' h stored short_key short_val in
    let n = (t.size + (length e.key + length e.value)) % 2 ^ 32 in
    (
      counted_table e offset a' t,
      replay_entry-put e t offset a' (replay_put-Replays e t.arena cmd ∙ stored),
      record { arena = readable.arena; stored = readable.stored },
      record {
        found = λ key f before.
            check_table-size (with_entry t e.key e.value offset a') n key
            ∙ elim (Bool-cases (bytes_eq e.key key)) [
              | inl same ↦ rw same (
                  ap (check_table (with_entry t e.key e.value offset a'))
                    (sym (bytes_eq-eq e.key key same))
                  ∙ with_entry-same t e.key e.value d offset a' h stored short_key short_val)
              | inr other ↦ rw other (
                  with_entry-other t e.key e.value d offset a' h stored short_key short_val key
                    other
                  ∙ before)
            ];
        offset = omega (arith, added.offset_after);
        cap = added.cap;
        size = omega arith;
      },
    )

replay-cons :
    (e : Entry) (es : List Entry) (t t' : MemTable)
    → replay_entry e t ≡ ok t'
    → replay (e ∷ es) t ≡ replay es t'
unfolding replay
replay-cons e es t t' step = rw (step, replay) refl

replay-Replayed :
    (es : List Entry) (t : MemTable)
    → IsReadable t
    → All Replays es
    → t.arena.offset + arena_bytes es ≤ t.arena.cap
    → t.size < 2 ^ 32
    → (t' : MemTable) × (replay es t ≡ ok t') × Replayed es t t'
unfolding replay
replay-Replayed [] t h all room small = (
  t,
  refl,
  record { found = λ key f before. before; offset = omega arith; cap = refl; size = omega arith },
)
replay-Replayed (e ∷ es) t h all room small =
    let (t₁, step, h₁, one) = replay_entry-Replayed e t h all.0 (omega arith) in
    let (t', steps, more) =
      replay-Replayed es t₁ h₁ all.1 (omega (arith, one.offset, one.cap))
        (omega (arith, one.size)) in
    (
      t',
      replay-cons e es t t₁ step ∙ steps,
      record {
        found = λ key f before. more.found key _ (one.found key f before);
        offset = omega (arith, one.offset, more.offset);
        cap = more.cap ∙ one.cap;
        size = omega (arith, one.size, more.size);
      },
    )

store_entry-full :
    (key val : Bytes) (d : Bool) (s : Store)
    → put s.active.arena key val d ≡ err arena_full
    → store_entry key val d s ≡ (some (put_failed arena_full), s)
unfolding store_entry
store_entry-full key val d s full = rw (full, store_entry) refl

apply_internal-full :
    (key val : Bytes) (d : Bool) (s : Store)
    → s.active.size + size_of key val ≤ map_limit
    → s.active.arena.cap < s.active.arena.offset + entry_size key val d
    → apply_internal key val d s ≡ (some (put_failed arena_full), s)
unfolding apply_internal
apply_internal-full key val d s room full =
    rw
      (
        le→not_ltb map_limit (s.active.size + size_of key val) room,
        store_entry-full key val d s (put_full s.active.arena key val d full),
        apply_internal,
      )
      refl

-- The start of a store on the entries of a log.
record Started (wal_dir : ℕ → Bytes) (seq_id : ℕ) (tables : List TableFile) (es : List Entry)
    : Type 0 where
  pub store : Store
  pub returned : new_kv_store wal_dir seq_id tables ≡ ok store
  pub no_frozen : store.frozen ≡ none
  pub replayed :
      Replayed es
        (new_mem_table map_limit (recover (open_wal (wal_dir seq_id))).1 seq_id)
        store.active

new_kv_store-Started :
    (wal_dir : ℕ → Bytes) (seq_id lsn : ℕ) (tables : List TableFile) (es : List Entry)
    → (recover (open_wal (wal_dir seq_id))).0 ≡ done es lsn
    → All Replays es
    → arena_bytes es ≤ map_limit
    → IsSound tables
    → Started wal_dir seq_id tables es
unfolding new_kv_store new_mem_table new_arena recovered_entries
new_kv_store-Started wal_dir seq_id lsn tables es read all room sound =
    let w = (recover (open_wal (wal_dir seq_id))).1 in
    let empty = new_mem_table map_limit w seq_id in
    let (t', done_, replayed) =
      replay-Replayed es empty (IsTable-IsReadable empty (new_mem_table-IsTable w seq_id)) all
        (omega (arith, room)) (omega arith) in
    let s : Store = record {
      active = t';
      frozen = none;
      wal_dir = wal_dir;
      wal_seq = 0;
      flush_requested = false;
      waiting = [];
      tables = tables;
    } in
    record {
      store = s;
      returned =
          rw (read, done_, (refresh_sstables-IsSound {E = ArenaError} tables sound).1, new_kv_store)
            refl;
      no_frozen = refl;
      replayed = replayed;
    }

empty_table :
    (w : Wal) (n : ℕ) (key : Bytes) → check_table (new_mem_table map_limit w n) key ≡ ok missing
unfolding check_table new_mem_table lookup
empty_table w n key = refl

-- A store that starts on a log whose entries are puts and deletes: it starts, and a key reads as its last
-- entry says, or is missing from memory if it has none. The conditions are that `Recover` returns the
-- entries, keys below 64 KB and values below 4 GB, that the entries fit the arena, and that no table
-- on disk makes `OpenSSTable` fault.
pub new_kv_store-last_found :
    (wal_dir : ℕ → Bytes) (seq_id lsn : ℕ) (tables : List TableFile) (es : List Entry)
    → (recover (open_wal (wal_dir seq_id))).0 ≡ done es lsn
    → All Replays es
    → arena_bytes es ≤ map_limit
    → IsSound tables
    → (s : Store) × (new_kv_store wal_dir seq_id tables ≡ ok s)
      × ((key : Bytes) → get_memory s key ≡ ok (last_found key es missing))
new_kv_store-last_found wal_dir seq_id lsn tables es read all room sound =
    let h = new_kv_store-Started wal_dir seq_id lsn tables es read all room sound in
    (
      h.store,
      h.returned,
      λ key.
          get_memory-parts h.store key (ok (last_found key es missing))
            (h.replayed.found key missing (empty_table _ _ key))
          ∙ ap (or_frozen (ok (last_found key es missing)))
              (check_frozen-none h.store key h.no_frozen)
          ∙ or_frozen-missing (ok (last_found key es missing)),
    )

new_table-size :
    (w : Wal) (n : ℕ)
    → ((new_mem_table map_limit w n).size ≡ 0)
      × ((new_mem_table map_limit w n).arena.offset ≡ 0)
      × ((new_mem_table map_limit w n).arena.cap ≡ map_limit)
unfolding new_mem_table new_arena
new_table-size w n = (refl, refl, refl)

-- A store that starts on a log of puts and deletes that fit the arena, with no table on disk that makes
-- `OpenSSTable` fault: it starts, and counts no headers of the entries, so that a command that fits
-- what the table counts, but not what is left of the arena, is refused as "arena full". The table is not
-- rotated, and nothing changes, so that the command is refused each time.
pub new_kv_store-undercounts :
    (wal_dir : ℕ → Bytes) (seq_id lsn : ℕ) (tables : List TableFile) (es : List Entry)
    → (recover (open_wal (wal_dir seq_id))).0 ≡ done es lsn
    → All Replays es
    → arena_bytes es ≤ map_limit
    → IsSound tables
    → (key val : Bytes) (is_delete : Bool) → counted_bytes es + size_of key val ≤ map_limit
    → map_limit < arena_bytes es + entry_size key val is_delete
    → (s : Store) × (new_kv_store wal_dir seq_id tables ≡ ok s)
      × (apply_internal key val is_delete s ≡ (some (put_failed arena_full), s))
new_kv_store-undercounts wal_dir seq_id lsn tables es read all room sound key val is_delete counted
      full =
    let h = new_kv_store-Started wal_dir seq_id lsn tables es read all room sound in
    let (size, offset, cap) = new_table-size (recover (open_wal (wal_dir seq_id))).1 seq_id in
    (
      h.store,
      h.returned,
      apply_internal-full key val is_delete h.store (omega (arith, h.replayed.size, size, counted))
          (omega (arith, h.replayed.offset, h.replayed.cap, offset, cap, full)),
    )
