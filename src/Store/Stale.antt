-- ===== src/Store/Stale.antt =====
-- `Get` on files of several levels.
use sisyphus_db.Prelude.{inl}
use sisyphus_db.Prelude.{
  ℕ, ◌≡◌, refl, ap, ap₂, ◌∙◌, false, List, ◌∷◌, All, Bytes, ok, Outcome, Found, missing, bytes_lt,
}
use sisyphus_db.Prelude.{[], true, Bool}
use sisyphus_db.Arena.{ArenaError}
use sisyphus_db.Sstable.Reader.{lookup_file}
use sisyphus_db.Store.{Store, TableFile, get_memory}
use sisyphus_db.Store.Lookup.{found_of}
use sisyphus_db.Store.Disk.{
  decimal, table_name, newest_first, or_next, or_disk, search_tables, get_found,
}
use sisyphus_db.Store.Flush.{search_tables-new, IsBehind}

-- A file of level 0, which a flush has written.
abbrev pub IsFlushed : TableFile → Type 0
IsFlushed g = (stamp : ℕ) × (g.name ≡ table_name 0 stamp)

table_name-levels : (a b : ℕ) → bytes_lt (table_name 1 a) (table_name 0 b) ≡ false
unfolding table_name decimal bytes_lt
table_name-levels a b = refl

not_before :
    (sum64 : Bytes → ℕ) (old : TableFile) (a : ℕ) (key : Bytes) (fs : List TableFile)
    → old.name ≡ table_name 1 a
    → All IsFlushed fs
    → All (IsBehind sum64 old key) fs
not_before sum64 old a key [] e h = tt
not_before sum64 old a key (g ∷ fs) e h =
    (inl (ap₂ bytes_lt e h.0.1 ∙ table_name-levels a h.0.0), not_before sum64 old a key fs e h.1)

first_answers :
    (v : Bytes) (d : Bool) (rest : Outcome ArenaError Found)
    → or_disk (ok missing) (or_next (ok (found_of v d)) rest) ≡ ok (found_of v d)
unfolding or_disk or_next
first_answers v true rest = refl
first_answers v false rest = refl

-- A key that no table in memory has and that a file of level 1 has: `Get` answers with this file, whatever
-- the files of level 0 in the directory say of the key.
pub get_found-stale :
    (sum64 : Bytes → ℕ) (s : Store) (old : TableFile) (newer : List TableFile) (a : ℕ)
    (key v : Bytes) (d : Bool)
    → s.tables ≡ old ∷ newer
    → old.name ≡ table_name 1 a
    → All IsFlushed newer
    → get_memory s key ≡ ok missing
    → lookup_file sum64 old.contents key ≡ ok (found_of v d)
    → get_found sum64 s key ≡ ok (found_of v d)
unfolding get_found
get_found-stale sum64 s old newer a key v d tables named flushed absent found =
    ap₂ or_disk absent (
      ap (λ l. search_tables sum64 (newest_first l) key) tables
      ∙ search_tables-new sum64 old key newer (not_before sum64 old a key newer named flushed)
      ∙ ap (λ o. or_next o (search_tables sum64 (newest_first newer) key)) found)
    ∙ first_answers v d (search_tables sum64 (newest_first newer) key)
