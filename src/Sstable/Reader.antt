-- ===== src/Sstable/Reader.antt =====
-- sstable/reader.go: a table on disk that is opened for lookups. An allocation of any size succeeds, and
-- only a negative size is a fault.
pub mod Search
pub mod Scan
pub mod Parse
pub mod Ends
use sisyphus_db.Prelude.{
  ℕ, zero, suc, ◌+◌, ◌-◌, ◌/◌, ◌^◌, Bool, true, false, not, Option, none, some, List, [], ◌∷◌, ◌++◌,
}
use sisyphus_db.Prelude.{
  ltb, leb, ◌==◌, ◌||◌, if◌then◌else◌, length, take, drop, get_elem?, Bytes, le_value, take_padded,
}
use sisyphus_db.Prelude.{
  Outcome, ok, err, panic, ◌>>=◌, bytes_lt, bytes_eq, Found, missing, tombstone, value,
}
use sisyphus_db.Bloom.{BloomFilter, load, maybe_contains}
use sisyphus_db.Sstable.{IndexEntry, read_some}

-- `stuck` is no value of the program: the fuel ran out.
pub data ReaderError : Type 0 where
  too_small seek_failed read_failed stuck : ReaderError

pub record Reader : Type 0 where
  pub file : Bytes
  pub index : List IndexEntry
  pub filter : BloomFilter

-- `Seek` to an offset that is read as an `int64`, then a `Read` of `n` bytes.
unfoldable pub read_at : Bytes → ℕ → ℕ → Outcome ReaderError (Bytes × Bytes)
read_at file offset n =
    if leb (2 ^ 63) offset
    then err seek_failed
    else elim (read_some n (drop offset file)) [ none ↦ err read_failed | some r ↦ ok r ]

-- `binary.Read` of `n` bytes: all of them or an error.
unfoldable pub read_word : ℕ → Bytes → Option (ℕ × Bytes)
read_word n bs = if ltb (length bs) n then none else some (le_value (take n bs), drop n bs)

-- `Read` of `bytes.Reader`, which reports the end also for an empty buffer.
unfoldable pub read_buffer : ℕ → Bytes → Option (Bytes × Bytes)
read_buffer n [] = none
read_buffer n (b ∷ bs) = some (take_padded n (b ∷ bs), drop n (b ∷ bs))

-- One entry of the index and what follows; `none` is the `break`.
unfoldable pub parse_entry : Bytes → Option (IndexEntry × Bytes)
parse_entry bs = elim (read_word 2 bs) [
  | none ↦ none
  | some (key_len, rest) ↦ elim (read_buffer key_len rest) [
    | none ↦ none
    | some (key, rest') ↦ elim (read_word 8 rest') [
      | none ↦ none
      | some (offset, rest'') ↦ some (record { key = key; offset = offset }, rest'')
    ]
  ]
]

-- "Parse Bytes": an entry takes two bytes at least, so the length of the bytes is fuel enough.
unfoldable pub parse_index : ℕ → Bytes → Option (List IndexEntry)
parse_index fuel [] = some []
parse_index zero (b ∷ bs) = none
parse_index (suc fuel) (b ∷ bs) = elim (parse_entry (b ∷ bs)) [
  | none ↦ some []
  | some (e, rest) ↦ elim (parse_index fuel rest) [ none ↦ none | some es ↦ some (e ∷ es) ]
]

-- From the index that was read on. A slice of a negative length is a fault.
unfoldable pub open_filter : Bytes → ℕ → Option (List IndexEntry) → Outcome ReaderError Reader
open_filter file filter_offset none = err stuck
open_filter file filter_offset (some index) =
    if ltb (length file) (filter_offset + 16) then panic else do
      (filter_bytes, _) ← read_at file filter_offset (length file - filter_offset - 16)
      ok (record { file = file; index = index; filter = load filter_bytes })

-- Behind the footer.
unfoldable pub open_parts : Bytes → ℕ → ℕ → Outcome ReaderError Reader
open_parts file index_offset filter_offset =
    if leb (2 ^ 63) index_offset
    then err seek_failed
    else if ltb filter_offset index_offset || leb (2 ^ 63) filter_offset
    then panic
    else do
      (index_bytes, _) ← read_at file index_offset (filter_offset - index_offset)
      open_filter file filter_offset (parse_index (length index_bytes) index_bytes)

-- `OpenSSTable` on a file with the given contents.
unfoldable pub open_sstable : Bytes → Outcome ReaderError Reader
open_sstable file = if ltb (length file) 16 then err too_small else do
  (footer, _) ← read_at file (length file - 16) 16
  open_parts file (le_value (take 8 footer)) (le_value (drop 8 footer))

-- `sort.Search` on the range from `i` to `j`; the range is halved, so its length is fuel enough.
unfoldable pub search_index : ℕ → ℕ → ℕ → (ℕ → Bool) → ℕ
search_index zero i j f = i
search_index (suc fuel) i j f = elim (ltb i j) [
  | false ↦ i
  | true ↦ elim (f ((i + j) / 2)) [
    | false ↦ search_index fuel ((i + j) / 2 + 1) j f
    | true ↦ search_index fuel i ((i + j) / 2) f
  ]
]

-- `r.index[i].key > targetKey`
unfoldable pub key_above : List IndexEntry → Bytes → ℕ → Bool
key_above index target i = elim (get_elem? index i) [
  | none ↦ false
  | some e ↦ bytes_lt target e.key
]

-- The match of a key: the value is read only if the entry is no tombstone.
unfoldable pub read_found : Bool → ℕ → Bytes → Outcome ReaderError Found
read_found is_tombstone val_len rest =
    if is_tombstone then ok tombstone else elim (read_some val_len rest) [
      | none ↦ err read_failed
      | some (val, rest') ↦ ok (value val)
    ]

-- One entry of the block: the header, the lengths, the key, and what follows.
pub record BlockEntry : Type 0 where
  pub is_tombstone : Bool
  pub val_len : ℕ
  pub key : Bytes
  pub rest : Bytes

unfoldable pub read_entry : ℕ → Bytes → Outcome ReaderError BlockEntry
read_entry header bs = elim (read_some 6 bs) [
  | none ↦ err read_failed
  | some (lens, rest) ↦ elim (read_some (le_value (take 2 lens)) rest) [
    | none ↦ err read_failed
    | some (key, rest') ↦ ok (record {
      is_tombstone = header == 1;
      val_len = le_value (drop 2 lens);
      key = key;
      rest = rest';
    })
  ]
]

-- "Skip Value"; a seek behind the end leaves nothing to read.
unfoldable pub skip_value : BlockEntry → Bytes
skip_value e = if e.is_tombstone then e.rest else drop e.val_len e.rest

-- The loop over the block, which goes on to the end of the file. Each round takes a byte at least, so
-- the length of the rest of the file is fuel enough.
unfoldable pub scan_block : ℕ → Bytes → Bytes → Outcome ReaderError Found
scan_block fuel [] target = ok missing
scan_block zero (b ∷ bs) target = err stuck
scan_block (suc fuel) (b ∷ bs) target = elim (read_entry b bs) [
  | err e ↦ err e
  | panic ↦ panic
  | ok e ↦ elim (bytes_eq e.key target) [
    | true ↦ read_found e.is_tombstone e.val_len e.rest
    | false ↦ elim (bytes_lt target e.key) [
      | true ↦ ok missing
      | false ↦ scan_block fuel (skip_value e) target
    ]
  ]
]

-- From the block on that may hold the key.
unfoldable pub search_block : Reader → Bytes → Outcome ReaderError Found
search_block r target =
    let n = length r.index in
    let idx = search_index n 0 n (key_above r.index target) in
    if idx == 0 then ok missing else elim (get_elem? r.index (idx - 1)) [
      | none ↦ panic
      | some e ↦
          if leb (2 ^ 63) e.offset
          then err seek_failed
          else scan_block (length (drop e.offset r.file)) (drop e.offset r.file) target
    ]

module _ (sum64 : Bytes → ℕ) where
  -- A filter of no bits is a fault.
  unfoldable pub reader_get : Reader → Bytes → Outcome ReaderError Found
  reader_get r target = elim (maybe_contains sum64 target r.filter) [
    | none ↦ panic
    | some false ↦ ok missing
    | some true ↦ search_block r target
  ]

  -- `OpenSSTable`, then `Get`.
  unfoldable pub lookup_file : Bytes → Bytes → Outcome ReaderError Found
  lookup_file file target = do r ← open_sstable file; reader_get r target
