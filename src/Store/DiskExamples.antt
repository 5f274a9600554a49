-- ===== src/Store/DiskExamples.antt =====
-- The theorems on the tables on disk at concrete inputs.
use sisyphus_db.Prelude.{panic, ◌≢◌}
use sisyphus_db.Sstable.Items.{IsSorted}
use sisyphus_db.Sstable.Reader.{open_sstable}
use sisyphus_db.Sstable.Lookup.{open_sstable-add_items}
use sisyphus_db.Prelude.{
  ◌^◌, ◌<◌, ◌≡◌, refl, sym, ◌∙◌, arith, true, false, none, some, [], ◌∷◌, length, Bytes, bytes_lt,
  bytes_eq, ok, inl, inr, missing, value, le_bytes, le_value, take_padded,
}
use sisyphus_db.Arena.{Arena, put, get, get_value, slice, new_arena, encode_arena, entry_size}
use sisyphus_db.StorageWal.{open_wal}
use sisyphus_db.Bloom.{new_filter, add, add_bits, or_at, bit_pos}
use sisyphus_db.Sstable.{
  Builder, close_builder, new_builder, add_item, index_key, write_item, encode_item, encode_index,
}
use sisyphus_db.Sstable.Lookup.{lookup_file-In}
use sisyphus_db.Sstable.Reader.{lookup_file}
use sisyphus_db.Sstable.Examples.{two_items, hash, built_two, two_items-built, small_file}
use sisyphus_db.Store.{
  Store, MemTable, TableFile, new_mem_table, map_limit, lookup, assign, get_memory, check_table,
  check_frozen,
}
use sisyphus_db.Store.Lookup.{IsTable, with_entry, with_entry-IsTable}
use sisyphus_db.Store.Apply.{new_mem_table-IsTable}
use sisyphus_db.Store.Disk.{
  table_name, decimal, insert_key, sort_keys, table_item, table_items, write_items, create_sstable,
  flush_worker, get_found,
}
use sisyphus_db.Store.Flush.{flush_worker-get_found}
use sisyphus_db.Store.Stale.{get_found-stale}

abbrev key_b : Bytes
key_b = 98 ∷ []

abbrev empty_table : MemTable
empty_table = new_mem_table map_limit (open_wal []) 0

abbrev one_entry : Arena
one_entry = record { bytes = 0 ∷ 1 ∷ 0 ∷ 1 ∷ 0 ∷ 0 ∷ 0 ∷ 98 ∷ 7 ∷ []; cap = map_limit; offset = 9 }

abbrev one_key : MemTable
one_key = with_entry empty_table key_b (7 ∷ []) 0 one_entry

put-one_entry : put empty_table.arena key_b (7 ∷ []) false ≡ ok (0, one_entry)
unfolding new_mem_table new_arena put entry_size encode_arena le_bytes
put-one_entry = refl

one_key-IsTable : IsTable one_key
unfolding new_mem_table
one_key-IsTable =
    with_entry-IsTable empty_table key_b (7 ∷ []) false 0 one_entry
      (new_mem_table-IsTable (open_wal []) 0) put-one_entry (omega arith) (omega arith)

-- The file of the table.
abbrev one_builder : Builder
one_builder = record {
  file = 0 ∷ 1 ∷ 0 ∷ 1 ∷ 0 ∷ 0 ∷ 0 ∷ 98 ∷ 7 ∷ [];
  index = record { key = key_b; offset = 0 } ∷ [];
  filter = record { bitset = 2 ∷ 0 ∷ []; k = 7; m = 16 };
  current_offset = 9;
  block_start = 0;
}

create_sstable-one_key : create_sstable hash one_key ≡ ok (close_builder one_builder)
unfolding create_sstable write_items table_items table_item sort_keys insert_key lookup assign
    new_mem_table get get_value slice le_value take_padded add_item add add_bits or_at bit_pos
    index_key write_item encode_item new_builder new_filter le_bytes bytes_eq
create_sstable-one_key = refl

one_file : length (close_builder one_builder) < 2 ^ 30
unfolding close_builder encode_index le_bytes
one_file = omega arith

two_in_order : IsSorted two_items
unfolding bytes_lt
two_in_order = ((refl, tt), (tt, tt))

-- A store with the table frozen, and an older file of level 0.
abbrev frozen_store : Store
frozen_store = record {
  active = empty_table;
  frozen = some one_key;
  wal_dir = λ n. [];
  wal_seq = 1;
  flush_requested = true;
  waiting = [];
  tables = record { name = table_name 0 8; contents = close_builder built_two } ∷ [];
}

old_sound : open_sstable (close_builder built_two) ≢ panic
old_sound fault =
    let (r, opened) =
      open_sstable-add_items hash two_items 2 built_two two_items-built
        ((omega arith, omega arith, refl), ((omega arith, omega arith, refl), tt)) two_in_order
        small_file in
    absurd (let both = sym opened ∙ fault in cc)

one_key-lookup : lookup key_b one_key.index ≡ some 0
unfolding lookup assign new_mem_table bytes_eq
one_key-lookup = refl

names_ascend : bytes_lt (table_name 0 9) (table_name 0 8) ≡ false
unfolding bytes_lt table_name decimal
names_ascend = refl

key_b-not_above : bytes_lt key_b (97 ∷ []) ≡ false
unfolding bytes_lt
key_b-not_above = refl

flush_worker-get_found_example :
    (s' : Store) × (flush_worker hash 9 frozen_store ≡ ok s')
    × (s'.frozen ≡ none)
    × (get_found hash s' (97 ∷ []) ≡ get_found hash frozen_store (97 ∷ []))
flush_worker-get_found_example =
    flush_worker-get_found hash 9 frozen_store one_key (close_builder one_builder) refl refl
      one_key-IsTable create_sstable-one_key one_file (old_sound, tt) (97 ∷ []) key_b 0
      (inl names_ascend, tt) one_key-lookup key_b-not_above

-- A store whose file of level 0 has a newer value of the key than its file of level 1.
abbrev old_file : TableFile
old_file = record { name = table_name 1 1; contents = close_builder built_two }

abbrev new_file : TableFile
new_file = record { name = table_name 0 9; contents = close_builder one_builder }

abbrev two_levels : Store
two_levels = record {
  active = empty_table;
  frozen = none;
  wal_dir = λ n. [];
  wal_seq = 1;
  flush_requested = false;
  waiting = [];
  tables = old_file ∷ (new_file ∷ []);
}

nothing_in_memory : get_memory two_levels key_b ≡ ok missing
unfolding get_memory check_table check_frozen lookup new_mem_table
nothing_in_memory = refl

old_value : lookup_file hash (close_builder built_two) key_b ≡ ok (value (1 ∷ 2 ∷ []))
unfolding bytes_lt
old_value =
    lookup_file-In hash two_items 2 built_two two_items-built
      ((omega arith, omega arith, refl), ((omega arith, omega arith, refl), tt))
      ((refl, tt), (tt, tt)) small_file
      (record { key = key_b; value = 1 ∷ 2 ∷ []; is_tombstone = false }) (inr (inl refl))

get_found-stale_example : get_found hash two_levels key_b ≡ ok (value (1 ∷ 2 ∷ []))
get_found-stale_example =
    get_found-stale hash two_levels old_file (new_file ∷ []) 1 key_b (1 ∷ 2 ∷ []) false refl refl
      ((9, refl), tt) nothing_in_memory old_value
