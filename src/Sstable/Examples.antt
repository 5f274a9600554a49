-- ===== src/Sstable/Examples.antt =====
-- The theorems on the tables on disk at concrete inputs.
use sisyphus_db.Prelude.{◌⊎◌, All, bytes_eq, bytes_lt}
use sisyphus_db.Sstable.Items.{In, found_item}
use sisyphus_db.Prelude.{ℕ, ◌≡◌, refl, arith, true, false, some, List, [], ◌∷◌, Bytes, length}
use sisyphus_db.Sstable.{Builder, new_builder, close_builder}
use sisyphus_db.Prelude.{◌<◌, ◌^◌, ◌≢◌, ok, err, missing, bytes_lt, bytes_eq, le_bytes}
use sisyphus_db.Bloom.{add, add_bits, or_at, bit_pos, new_filter}
use sisyphus_db.Sstable.{add_item, index_key, write_item, encode_item, encode_index}
use sisyphus_db.Sstable.Lookup.{reader_get-close_builder}
use sisyphus_db.Sstable.Reader.{Reader, stuck, open_sstable, reader_get, lookup_file}
use sisyphus_db.Sstable.Reader.Ends.{reader_ends}
use sisyphus_db.Sstable.Items.{Item}
use sisyphus_db.Sstable.RoundTrip.{add_items}

-- `a` is deleted, `b` has a value.
abbrev pub two_items : List Item
two_items =
    record { key = 97 ∷ []; value = []; is_tombstone = true }
    ∷ (record { key = 98 ∷ []; value = 1 ∷ 2 ∷ []; is_tombstone = false } ∷ [])

-- A hash, the length of the key.
abbrev pub hash : Bytes → ℕ
hash key = length key

-- The builder behind the two entries.
abbrev pub built_two : Builder
built_two = record {
  file = 1 ∷ 1 ∷ 0 ∷ 0 ∷ 0 ∷ 0 ∷ 0 ∷ 97 ∷ (0 ∷ 1 ∷ 0 ∷ 2 ∷ 0 ∷ 0 ∷ 0 ∷ 98 ∷ 1 ∷ 2 ∷ []);
  index = record { key = 97 ∷ []; offset = 0 } ∷ [];
  filter = record { bitset = 2 ∷ 0 ∷ 0 ∷ []; k = 7; m = 24 };
  current_offset = 18;
  block_start = 0;
}

pub two_items-built : add_items hash two_items (new_builder 2) ≡ some built_two
unfolding add_item add add_bits or_at bit_pos index_key write_item encode_item new_builder
    new_filter le_bytes
two_items-built = refl

pub small_file : length (close_builder built_two) < 2 ^ 30
unfolding close_builder encode_index le_bytes
small_file = omega arith

reader_get-close_builder_example :
    ((e : Item) × In e two_items
      × (e.key ≡ 98 ∷ [])
      × (lookup_file hash (close_builder built_two) (98 ∷ []) ≡ ok (found_item e)))
    ⊎ (All (λ x. bytes_eq x.key (98 ∷ []) ≡ false) two_items
        × (lookup_file hash (close_builder built_two) (98 ∷ []) ≡ ok missing))
    ⊎ All (λ x. bytes_lt x.key (98 ∷ []) ≡ true) two_items
unfolding bytes_lt
reader_get-close_builder_example =
    reader_get-close_builder hash two_items 2 built_two two_items-built
      ((omega arith, omega arith, refl), ((omega arith, omega arith, refl), tt))
      ((refl, tt), (tt, tt)) small_file (98 ∷ [])

-- A file that is too short for a footer.
reader_ends_example :
    (open_sstable (7 ∷ 7 ∷ []) ≢ err stuck)
    × ((r : Reader) (target : Bytes) → reader_get hash r target ≢ err stuck)
reader_ends_example = reader_ends hash (7 ∷ 7 ∷ [])
