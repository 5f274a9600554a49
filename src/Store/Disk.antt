-- ===== src/Store/Disk.antt =====
-- kv/store.go and kv/lib.go: the tables on disk, in `Get`, `CreateSSTable` and `FlushWorker`. A
-- directory is the list of its .sst files; a write or a removal of a file succeeds.
use sisyphus_db.Prelude.{
  ℕ, zero, suc, ◌+◌, ◌/◌, ◌%◌, Bool, true, false, List, [], ◌∷◌, ◌++◌, map, length, none, some,
}
use sisyphus_db.Prelude.{
  ltb, ◌==◌, if◌then◌else◌, Bytes, bytes_lt, Outcome, ok, err, panic, ◌>>=◌, Found, missing,
  tombstone, value,
}
use sisyphus_db.Arena.{ArenaError, get}
use sisyphus_db.Sstable.{new_builder, close_builder}
use sisyphus_db.Sstable.Items.{Item}
use sisyphus_db.Sstable.RoundTrip.{add_items}
use sisyphus_db.Sstable.Reader.{ReaderError, Reader, lookup_file, open_sstable}
use sisyphus_db.Store.{Store, MemTable, TableFile, lookup, get_memory}

-- `%d`, with enough fuel for the digits.
unfoldable pub decimal : ℕ → ℕ → Bytes
decimal zero n = []
decimal (suc fuel) n =
    let front = decimal fuel (n / 10) in
    if ltb n 10 then (48 + n) ∷ [] else front ++ ((48 + n % 10) ∷ [])

-- `fmt.Sprintf("L%d_%d.sst", level, stamp)`
unfoldable pub table_name : ℕ → ℕ → Bytes
table_name level stamp =
    76
    ∷ (decimal (level + 1) level
        ++ (95 ∷ (decimal (stamp + 1) stamp ++ (46 ∷ 115 ∷ 115 ∷ 116 ∷ []))))

-- `sort.Reverse` on the names: the greatest name comes first.
unfoldable pub insert_file : TableFile → List TableFile → List TableFile
insert_file f [] = f ∷ []
insert_file f (g ∷ gs) =
    let rest = insert_file f gs in if bytes_lt f.name g.name then g ∷ rest else f ∷ (g ∷ gs)

unfoldable pub newest_first : List TableFile → List TableFile
newest_first [] = []
newest_first (f ∷ fs) = insert_file f (newest_first fs)

-- A file that fails is skipped.
unfoldable pub or_next :
    Outcome ReaderError Found → Outcome ArenaError Found → Outcome ArenaError Found
or_next (ok missing) rest = rest
or_next (ok tombstone) rest = ok tombstone
or_next (ok (value val)) rest = ok (value val)
or_next (err e) rest = rest
or_next panic rest = panic

unfoldable pub or_disk :
    Outcome ArenaError Found → Outcome ArenaError Found → Outcome ArenaError Found
or_disk (ok missing) rest = rest
or_disk (ok tombstone) rest = ok tombstone
or_disk (ok (value val)) rest = ok (value val)
or_disk (err e) rest = err e
or_disk panic rest = panic

-- `sort.Strings`
unfoldable pub insert_key : Bytes → List Bytes → List Bytes
insert_key key [] = key ∷ []
insert_key key (k ∷ ks) =
    let rest = insert_key key ks in if bytes_lt k key then k ∷ rest else key ∷ (k ∷ ks)

unfoldable pub sort_keys : List Bytes → List Bytes
sort_keys [] = []
sort_keys (k ∷ ks) = insert_key k (sort_keys ks)

-- The entry of a key. An error of the arena is dropped, and leaves no value.
unfoldable pub table_item : MemTable → Bytes → Outcome ArenaError Item
table_item t key =
    let offset : ℕ = elim (lookup key t.index) [ none ↦ 0 | some o ↦ o ] in
    elim (get t.arena offset) [
      | ok (val, is_tombstone) ↦ ok (record { key = key; value = val; is_tombstone = is_tombstone })
      | err e ↦ ok (record { key = key; value = []; is_tombstone = false })
      | panic ↦ panic
    ]

unfoldable pub table_items : MemTable → List Bytes → Outcome ArenaError (List Item)
table_items t [] = ok []
table_items t (key ∷ keys) = do
  item ← table_item t key
  items ← table_items t keys
  ok (item ∷ items)

-- The readers that `refreshSSTables` leaves. A file that does not open is left out, and a fault of
-- `OpenSSTable` ends the program. Nothing else reads them.
unfoldable pub open_readers : {E : Type 0} → List TableFile → Outcome E (List Reader)
open_readers [] = ok []
open_readers (f ∷ fs) = elim (open_sstable f.contents) [
  | ok r ↦ open_readers fs >>= λ rs. ok (r ∷ rs)
  | err e ↦ open_readers fs
  | panic ↦ panic
]

unfoldable pub refresh_sstables : {E : Type 0} → List TableFile → Outcome E (List Reader)
refresh_sstables fs = open_readers (newest_first fs)

-- The frozen table went to disk: its log is removed, and its place is free.
unfoldable pub flushed : ℕ → MemTable → Bytes → Store → Store
flushed stamp t file s = record s {
  frozen = none;
  tables = record { name = table_name 0 stamp; contents = file } ∷ s.tables;
  wal_dir = λ n. if n == t.segment then [] else s.wal_dir n;
}

module _ (sum64 : Bytes → ℕ) where
  unfoldable pub search_tables : List TableFile → Bytes → Outcome ArenaError Found
  search_tables [] key = ok missing
  search_tables (f ∷ fs) key = or_next (lookup_file sum64 f.contents key) (search_tables fs key)

  -- The whole of `Get`: the tables in memory, then those on disk.
  unfoldable pub get_found : Store → Bytes → Outcome ArenaError Found
  get_found s key = or_disk (get_memory s key) (search_tables (newest_first s.tables) key)

  -- The second half of `CreateSSTable`, on a number of keys.
  unfoldable pub write_items : ℕ → List Item → Outcome ArenaError Bytes
  write_items count items = elim (add_items sum64 items (new_builder count)) [
    | none ↦ panic
    | some b ↦ ok (close_builder b)
  ]

  -- The file that `CreateSSTable` writes.
  unfoldable pub create_sstable : MemTable → Outcome ArenaError Bytes
  create_sstable t = do
    let keys = sort_keys (map (λ p. p.0) t.index)
    items ← table_items t keys
    write_items (length keys) items

  -- One round of `FlushWorker` at a time stamp, with `refreshSSTables` behind it.
  unfoldable pub flush : ℕ → Store → Outcome ArenaError Store
  flush stamp s = elim s.frozen [
    | none ↦ ok s
    | some t ↦ do
      file ← create_sstable t
      let s' = flushed stamp t file s
      readers ← refresh_sstables s'.tables
      ok s'
  ]

  -- `FlushWorker` at a signal, which it takes out of the channel. One round leaves no frozen table.
  unfoldable pub flush_worker : ℕ → Store → Outcome ArenaError Store
  flush_worker stamp s =
      if s.flush_requested then flush stamp (record s { flush_requested = false }) else ok s

-- What `Get` returns.
unfoldable pub answer : Found → Bytes × Bool
answer missing = ([], false)
answer tombstone = ([], false)
answer (value val) = (val, true)

unfoldable pub get_value : (Bytes → ℕ) → Store → Bytes → Outcome ArenaError (Bytes × Bool)
get_value sum64 s key = do found ← get_found sum64 s key; ok (answer found)
