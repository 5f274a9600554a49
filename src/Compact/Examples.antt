-- ===== src/Compact/Examples.antt =====
-- The theorems on the compaction at concrete inputs.
use sisyphus_db.Prelude.{panic}
use sisyphus_db.Store.Refresh.{IsSound}
use sisyphus_db.Prelude.{
  ℕ, ◌<◌, ◌≡◌, ◌⊎◌, refl, arith, true, false, List, [], ◌∷◌, length, Bytes, ok, some, none, ◌++◌,
  bytes_lt, take_padded, le_value, le_bytes,
}
use sisyphus_db.Sstable.{
  Builder, SstableIterator, new_builder, new_iterator, encode_item, next, next_key, next_value,
  read_some,
}
use sisyphus_db.Sstable.Items.{Item, IsSorted}
use sisyphus_db.Sstable.RoundTrip.{add_items}
use sisyphus_db.Store.{Store, TableFile, new_mem_table, map_limit}
use sisyphus_db.StorageWal.{open_wal}
use sisyphus_db.Store.Disk.{table_name}
use sisyphus_db.Compact.{merge, get_files_for_level, check_and_compact, max_level_files}
use sisyphus_db.Compact.Lists.{found_in, first_found, live}
use sisyphus_db.Compact.Streams.{AllRead, merge-first_found}
use sisyphus_db.Compact.Level.{Compacted, check_and_compact_ends}

abbrev no_hash : Bytes → ℕ
no_hash bs = 0

abbrev put_a : Item
put_a = record { key = 97 ∷ []; value = 1 ∷ []; is_tombstone = false }

abbrev put_b : Item
put_b = record { key = 98 ∷ []; value = 2 ∷ []; is_tombstone = false }

abbrev delete_a : Item
delete_a = record { key = 97 ∷ []; value = []; is_tombstone = true }

abbrev newer : SstableIterator
newer = new_iterator (encode_item (97 ∷ []) [] true)

abbrev older : SstableIterator
older = new_iterator (encode_item (97 ∷ []) (1 ∷ []) false ++ encode_item (98 ∷ []) (2 ∷ []) false)

abbrev two_lists : List (List Item)
two_lists = (delete_a ∷ []) ∷ ((put_a ∷ (put_b ∷ [])) ∷ [])

reads_both : AllRead two_lists (newer ∷ (older ∷ []))
unfolding new_iterator next next_key next_value read_some encode_item take_padded le_value le_bytes
reads_both = ((refl, refl, refl), ((refl, refl, (refl, refl, refl)), tt))

a_before_b : bytes_lt (97 ∷ []) (98 ∷ []) ≡ true
unfolding bytes_lt
a_before_b = refl

merge-first_found_example :
    (out : List Item) × (b : Builder) × (add_items no_hash out (new_builder 10) ≡ some b)
    × (merge no_hash 4 true (newer ∷ (older ∷ [])) (new_builder 10) ≡ ok b)
    × IsSorted out
    × ((key : Bytes) → found_in key out ≡ live true (first_found key two_lists))
merge-first_found_example =
    merge-first_found no_hash 4 10 true two_lists (newer ∷ (older ∷ [])) reads_both
      ((tt, tt), (((a_before_b, tt), (tt, tt)), tt)) (omega arith)

abbrev level_file : ℕ → TableFile
level_file stamp = record { name = table_name 0 stamp; contents = encode_item (97 ∷ []) [] true }

abbrev four_files : Store
four_files = record {
  active = new_mem_table map_limit (open_wal []) 0;
  frozen = none;
  wal_dir = λ n. [];
  wal_seq = 0;
  flush_requested = false;
  waiting = [];
  tables = level_file 1 ∷ (level_file 4 ∷ (level_file 3 ∷ (level_file 2 ∷ [])));
}

check_and_compact_ends_example :
    ((length (get_files_for_level 0 four_files.tables) < max_level_files)
      × (check_and_compact no_hash 0 5 four_files ≡ ok four_files))
    ⊎ ((s' : Store) × Compacted 0 5 four_files s'
        × ((check_and_compact no_hash 0 5 four_files ≡ ok s')
            ⊎ ((check_and_compact no_hash 0 5 four_files ≡ panic) × (¬ IsSound s'.tables))))
check_and_compact_ends_example = check_and_compact_ends no_hash 0 5 four_files
