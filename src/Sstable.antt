-- ===== src/Sstable.antt =====
-- sstable/builder.go and sstable/iterator.go: the file of a table on disk. Writes succeed.
pub mod Items
pub mod RoundTrip
pub mod Reader
pub mod Build
pub mod Suffix
pub mod Block
pub mod Lookup
pub mod Examples
use sisyphus_db.Prelude.{
  ℕ, zero, suc, ◌+◌, ◌-◌, ◌*◌, ◌/◌, ◌%◌, ◌^◌, Bool, true, false, Option, none, some, List, [], ◌∷◌,
  ◌++◌,
}
use sisyphus_db.Prelude.{
  ltb, leb, ◌==◌, ◌||◌, if◌then◌else◌, length, take, drop, Bytes, le_bytes, le_value, take_padded,
}
use sisyphus_db.Bloom.{BloomFilter, new_filter, add}

abbrev pub block_size : ℕ
block_size = 4 * 1024

pub record IndexEntry : Type 0 where
  pub key : Bytes
  pub offset : ℕ

pub record Builder : Type 0 where
  pub file : Bytes
  pub index : List IndexEntry
  pub filter : BloomFilter
  pub current_offset : ℕ
  pub block_start : ℕ

unfoldable pub new_builder : ℕ → Builder
new_builder key_count = record {
  file = [];
  index = [];
  filter = new_filter key_count;
  current_offset = 0;
  block_start = 0;
}

-- What `Add` writes: header(1), key length(2), value length(4), key, and the value if it is kept.
unfoldable pub encode_item : Bytes → Bytes → Bool → Bytes
encode_item key val is_tombstone =
    (if is_tombstone then 1 else 0)
    ∷ (le_bytes 2 (length key)
        ++ (le_bytes 4 (if is_tombstone then 0 else length val)
            ++ (key ++ (if is_tombstone then [] else val))))

-- "Sparse Index: logic"
unfoldable pub index_key : Bytes → Builder → Builder
index_key key b =
    if b.current_offset == 0 || ltb block_size (b.current_offset - b.block_start)
    then record b {
      index = b.index ++ (record { key = key; offset = b.current_offset } ∷ []);
      block_start = b.current_offset;
    }
    else b

unfoldable pub write_item : Bytes → Bytes → Bool → Builder → Builder
write_item key val is_tombstone b = record b {
  file = b.file ++ encode_item key val is_tombstone;
  current_offset =
      b.current_offset + (1 + 2 + 4 + length key + (if is_tombstone then 0 else length val));
}

unfoldable pub encode_index : List IndexEntry → Bytes
encode_index [] = []
encode_index (e ∷ es) =
    (le_bytes 2 (length e.key) ++ (e.key ++ le_bytes 8 e.offset)) ++ encode_index es

-- The file that `Close` leaves: the entries, the index, the filter, and the two offsets.
unfoldable pub close_builder : Builder → Bytes
close_builder b =
    let index = encode_index b.index in
    b.file
    ++ (index
        ++ (b.filter.bitset
            ++ (le_bytes 8 b.current_offset ++ le_bytes 8 (b.current_offset + length index))))

module _ (sum64 : Bytes → ℕ) where
  -- `none` is the fault of the filter.
  unfoldable pub add_item : Bytes → Bytes → Bool → Builder → Option Builder
  add_item key val is_tombstone b = elim (add sum64 key b.filter) [
    | none ↦ none
    | some filter ↦
        some (write_item key val is_tombstone (index_key key (record b { filter = filter })))
  ]

-- `rest` is the part of the file behind the position.
pub record SstableIterator : Type 0 where
  pub rest : Bytes
  pub key : Bytes
  pub value : Bytes
  pub is_tombstone : Bool
  pub valid : Bool

-- The most that one `File.Read` reads: 1 GB, by the `os` package.
abbrev pub max_read : ℕ
max_read = 2 ^ 30

-- One `File.Read` into a zeroed buffer: at the end of the file an error, before it a part may be read.
unfoldable pub read_some : ℕ → Bytes → Option (Bytes × Bytes)
read_some zero bs = some ([], bs)
read_some (suc n) [] = none
read_some (suc n) (b ∷ bs) =
    if leb (suc n) max_read
    then some (take_padded (suc n) (b ∷ bs), drop (suc n) (b ∷ bs))
    else some (take_padded (suc n) (take max_read (b ∷ bs)), drop max_read (b ∷ bs))

-- What a `Next` that meets the end of the file leaves.
abbrev pub stop : SstableIterator → SstableIterator
stop it = record it { valid = false }

unfoldable pub next_value : ℕ → Bytes → SstableIterator → SstableIterator
next_value val_len rest it =
    if it.is_tombstone
    then record it { value = []; rest = rest }
    else elim (read_some val_len rest) [
      | none ↦ stop (record it { rest = rest })
      | some (val, rest') ↦ record it { value = val; rest = rest' }
    ]

unfoldable pub next_key : Bytes → SstableIterator → SstableIterator
next_key rest it = elim (read_some 6 rest) [
  | none ↦ stop (record it { rest = rest })
  | some (lens, rest') ↦ elim (read_some (le_value (take 2 lens)) rest') [
    | none ↦ stop (record it { rest = rest' })
    | some (key, rest'') ↦ next_value (le_value (drop 2 lens)) rest'' (record it { key = key })
  ]
]

unfoldable pub next : SstableIterator → SstableIterator
next it =
    if it.valid
    then elim (read_some 1 it.rest) [
      | none ↦ stop it
      | some (header, rest) ↦ next_key rest (record it { is_tombstone = le_value header == 1 })
    ]
    else it

-- `NewIterator` on a file with the given contents.
unfoldable pub new_iterator : Bytes → SstableIterator
new_iterator contents =
    next (record { rest = contents; key = []; value = []; is_tombstone = false; valid = true })
