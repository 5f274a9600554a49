-- ===== src/Compact.antt =====
-- kv/compact.go: the merge of the files of a level into one file of the next level. A
-- run is one step, with no flush in between; the run that it starts on the next level is another step.
pub mod Lists
pub mod Steps
pub mod Ends
pub mod Streams
pub mod Keys
pub mod Round
pub mod Merge
pub mod Level
mod Examples
use sisyphus_db.Prelude.{
  ℕ, zero, suc, ◌+◌, Bool, true, false, List, [], ◌∷◌, ◌++◌, Option, none, some,
}
use sisyphus_db.Prelude.{
  ltb, leb, ◌==◌, ◌&&◌, if◌then◌else◌, length, Bytes, bytes_eq, bytes_lt, Outcome, ok, err, panic,
  ◌>>=◌,
}
use sisyphus_db.Sstable.{
  Builder, SstableIterator, new_builder, close_builder, add_item, new_iterator, next,
}
use sisyphus_db.Sstable.Items.{Item}
use sisyphus_db.Sstable.Reader.{ReaderError, Reader, open_sstable}
use sisyphus_db.Store.{Store, TableFile}
use sisyphus_db.Store.Disk.{decimal, table_name, newest_first, refresh_sstables}

abbrev pub max_level_files : ℕ
max_level_files = 4

unfoldable pub has_prefix : Bytes → Bytes → Bool
has_prefix [] bs = true
has_prefix (p ∷ ps) [] = false
has_prefix (p ∷ ps) (b ∷ bs) = let rest = has_prefix ps bs in if p == b then rest else false

-- `fmt.Sprintf("L%d_", level)`
unfoldable pub level_prefix : ℕ → Bytes
level_prefix level = 76 ∷ (decimal (level + 1) level ++ (95 ∷ []))

unfoldable pub of_level : ℕ → TableFile → Bool
of_level level f = has_prefix (level_prefix level) f.name

unfoldable pub level_files : ℕ → List TableFile → List TableFile
level_files level [] = []
level_files level (f ∷ fs) =
    let rest = level_files level fs in if of_level level f then f ∷ rest else rest

unfoldable pub get_files_for_level : ℕ → List TableFile → List TableFile
get_files_for_level level fs = newest_first (level_files level fs)

-- `os.Remove` of the files of a level.
unfoldable pub remove_level : ℕ → List TableFile → List TableFile
remove_level level [] = []
remove_level level (f ∷ fs) =
    let rest = remove_level level fs in if of_level level f then rest else f ∷ rest

-- Those that have no entry are left out.
unfoldable pub open_iterators : List TableFile → List SstableIterator
open_iterators [] = []
open_iterators (f ∷ fs) =
    let it = new_iterator f.contents in
    let rest = open_iterators fs in if it.valid then it ∷ rest else rest

unfoldable pub lesser : Bytes → Option Bytes → Option Bytes
lesser key none = some key
lesser key (some k) = if bytes_lt key k then some key else some k

-- "Find min key": `none` if no iterator is valid.
unfoldable pub least : Option Bytes → List SstableIterator → Option Bytes
least min_key [] = min_key
least min_key (it ∷ its) = least (if it.valid then lesser it.key min_key else min_key) its

-- "Resolve collisions": the entry of the first iterator at the key.
unfoldable pub winner : Bytes → List SstableIterator → Option Item
winner key [] = none
winner key (it ∷ its) =
    let rest = winner key its in
    if it.valid && bytes_eq it.key key
    then some (record { key = key; value = it.value; is_tombstone = it.is_tombstone })
    else rest

unfoldable pub advance : Bytes → List SstableIterator → List SstableIterator
advance key [] = []
advance key (it ∷ its) = (if it.valid && bytes_eq it.key key then next it else it) ∷ advance key its

-- What the iterators can still read, in bytes, and one more for each.
unfoldable pub remaining : List SstableIterator → ℕ
remaining [] = 0
remaining (it ∷ its) = (if it.valid then 1 + length it.rest else 0) + remaining its

-- The end of the fuel.
pub data MergeError : Type 0 where
  stuck : MergeError

module _ (sum64 : Bytes → ℕ) where
  -- A tombstone of the bottom level is not written, nor is a round without a winner.
  unfoldable pub emit : Bool → Option Item → Builder → Option Builder
  emit is_bottom none b = some b
  emit is_bottom (some e) b =
      if e.is_tombstone && is_bottom then some b else add_item sum64 e.key e.value e.is_tombstone b

  -- The loop of the merge, on fuel: `stuck` is the end of the fuel, and a panic that of the filter.
  unfoldable pub merge : ℕ → Bool → List SstableIterator → Builder → Outcome MergeError Builder
  merge zero is_bottom its b = err stuck
  merge (suc fuel) is_bottom its b = elim (least none its) [
    | none ↦ ok b
    | some key ↦ elim (emit is_bottom (winner key its) b) [
      | none ↦ panic
      | some b' ↦ merge fuel is_bottom (advance key its) b'
    ]
  ]

  -- `CheckAndCompact` at a time stamp, up to the start of the run on the next level.
  unfoldable pub check_and_compact : ℕ → ℕ → Store → Outcome MergeError Store
  check_and_compact level stamp s =
      let files = get_files_for_level level s.tables in
      let its = open_iterators files in
      if ltb (length files) max_level_files then ok s else do
        b ← merge (suc (remaining its)) (leb max_level_files (level + 1)) its (new_builder 10000)
        let new : TableFile = record {
          name = table_name (level + 1) stamp;
          contents = close_builder b;
        }
        let s' : Store = record s { tables = new ∷ remove_level level s.tables }
        readers ← refresh_sstables s'.tables
        ok s'
