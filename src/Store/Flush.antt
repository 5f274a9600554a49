-- ===== src/Store/Flush.antt =====
-- `FlushWorker` and `Get` together.
use sisyphus_db.Prelude.{◌>>=◌, ◌⊎◌, panic}
use sisyphus_db.Sstable.Reader.{ReaderError}
use sisyphus_db.Store.Disk.{flushed, refresh_sstables}
use sisyphus_db.Store.Refresh.{IsSound, newest_first-All, refresh_sstables-IsSound}
use sisyphus_db.Store.Written.{open_sstable-create_sstable}
use sisyphus_db.Prelude.{true}
use sisyphus_db.Store.Disk.{flush_worker}
use sisyphus_db.Prelude.{
  ℕ, ◌^◌, ◌<◌, ◌≡◌, refl, sym, ap, ap₂, ◌∙◌, false, List, [], ◌∷◌, All, Bytes, none, some, length,
  inl, inr, Bool-cases,
}
use sisyphus_db.Prelude.{ok, err, panic, Outcome, Found, missing, tombstone, value, bytes_lt}
use sisyphus_db.Arena.{ArenaError}
use sisyphus_db.Sstable.Reader.{lookup_file}
use sisyphus_db.Store.{Store, MemTable, TableFile, lookup, check_table, check_frozen, get_memory}
use sisyphus_db.Store.Lookup.{IsTable}
use sisyphus_db.Store.Apply.{or_frozen, get_memory-parts}
use sisyphus_db.Store.Disk.{
  table_name, insert_file, newest_first, or_next, or_disk, search_tables, get_found, create_sstable,
  flush,
}
use sisyphus_db.Store.Written.{lookup_file-create_sstable}

newest_first-front :
    (f : TableFile) (fs : List TableFile)
    → All (λ g. bytes_lt f.name g.name ≡ false) fs
    → insert_file f fs ≡ f ∷ fs
unfolding insert_file
newest_first-front f [] h = refl
newest_first-front f (g ∷ fs) h = rw (h.0, insert_file) refl

pub newest_first-newest :
    (f : TableFile) (fs : List TableFile)
    → All (λ g. bytes_lt f.name g.name ≡ false) fs
    → newest_first (f ∷ fs) ≡ f ∷ newest_first fs
unfolding newest_first
newest_first-newest f fs h =
    newest_first-front f (newest_first fs)
      (newest_first-All (λ g. bytes_lt f.name g.name ≡ false) fs h)

-- What the frozen table says is asked of the first file instead.
moved :
    (c : Outcome ArenaError Found) (f : Found) (rest : Outcome ArenaError Found)
    → or_disk (or_frozen c (ok missing)) (or_next (ok f) rest) ≡ or_disk (or_frozen c (ok f)) rest
unfolding or_disk or_next
moved (ok missing) missing rest = refl
moved (ok missing) tombstone rest = refl
moved (ok missing) (value v) rest = refl
moved (ok tombstone) f rest = refl
moved (ok (value v)) f rest = refl
moved (err e) f rest = refl
moved panic f rest = refl

-- A lookup with this result goes on to the next file.
abbrev pub IsSkipped : Outcome ReaderError Found → Type 0
IsSkipped o = (o ≡ ok missing) ⊎ ((e : ReaderError) × (o ≡ err e))

or_next-IsSkipped :
    (o : Outcome ReaderError Found) (rest : Outcome ArenaError Found)
    → IsSkipped o
    → or_next o rest ≡ rest
unfolding or_next
or_next-IsSkipped o rest (inl none_there) = ap (λ x. or_next x rest) none_there
or_next-IsSkipped o rest (inr (e, failed)) = ap (λ x. or_next x rest) failed

module _ (sum64 : Bytes → ℕ) (new : TableFile) (key : Bytes) where
  -- A file is asked behind the new one, or does not have the key.
  abbrev pub IsBehind : TableFile → Type 0
  IsBehind g = (bytes_lt new.name g.name ≡ false) ⊎ IsSkipped (lookup_file sum64 g.contents key)

  search_tables-insert_file :
      (fs : List TableFile)
      → All IsBehind fs
      → search_tables sum64 (insert_file new fs) key
        ≡ or_next (lookup_file sum64 new.contents key) (search_tables sum64 fs key)
  unfolding search_tables insert_file
  search_tables-insert_file [] h = refl
  search_tables-insert_file (g ∷ fs) h = elim (Bool-cases (bytes_lt new.name g.name)) [
    | inr behind ↦ rw (behind, insert_file) refl
    | inl before ↦ elim h.0 [
      | inl behind ↦ absurd (cc)
      | inr skipped ↦
          let rest = search_tables sum64 fs key in
          rw (before, insert_file)
            (or_next-IsSkipped (lookup_file sum64 g.contents key)
                (search_tables sum64 (insert_file new fs) key) skipped
              ∙ search_tables-insert_file fs h.1
              ∙ ap (or_next (lookup_file sum64 new.contents key))
                  (sym (or_next-IsSkipped (lookup_file sum64 g.contents key) rest skipped)))
    ]
  ]

  pub search_tables-new :
      (fs : List TableFile)
      → All IsBehind fs
      → search_tables sum64 (newest_first (new ∷ fs)) key
        ≡ or_next (lookup_file sum64 new.contents key) (search_tables sum64 (newest_first fs) key)
  unfolding newest_first
  search_tables-new fs h =
      search_tables-insert_file (newest_first fs) (newest_first-All IsBehind fs h)

check_frozen-some :
    (s : Store) (t : MemTable) (key : Bytes)
    → s.frozen ≡ some t
    → check_frozen s.frozen key ≡ check_table t key
unfolding check_frozen
check_frozen-some s t key e = ap (λ x. check_frozen x key) e

pub check_frozen-none :
    (s : Store) (key : Bytes) → s.frozen ≡ none → check_frozen s.frozen key ≡ ok missing
unfolding check_frozen
check_frozen-none s key e = ap (λ x. check_frozen x key) e

-- The store before and after, through the parts of `Get`.
get_found-moved :
    (sum64 : Bytes → ℕ) (s s' : Store) (t : MemTable) (new : TableFile) (key : Bytes) (f : Found)
    → s.frozen ≡ some t
    → s'.frozen ≡ none
    → s'.active ≡ s.active
    → s'.tables ≡ new ∷ s.tables
    → All (IsBehind sum64 new key) s.tables
    → check_table t key ≡ ok f
    → lookup_file sum64 new.contents key ≡ ok f
    → get_found sum64 s' key ≡ get_found sum64 s key
unfolding get_found
get_found-moved sum64 s s' t new key f frozen free active tables behind in_table in_file =
    let c = check_table s.active key in
    let rest = search_tables sum64 (newest_first s.tables) key in
    let after : get_memory s' key ≡ or_frozen c (ok missing) =
      get_memory-parts s' key c (ap (λ a. check_table a key) active)
      ∙ ap (or_frozen c) (check_frozen-none s' key free) in
    let before : get_memory s key ≡ or_frozen c (ok f) =
      get_memory-parts s key c refl
      ∙ ap (or_frozen c) (check_frozen-some s t key frozen ∙ in_table) in
    let disk : search_tables sum64 (newest_first s'.tables) key ≡ or_next (ok f) rest =
      ap (λ l. search_tables sum64 (newest_first l) key) tables
      ∙ search_tables-new sum64 new key s.tables behind
      ∙ ap (λ o. or_next o rest) in_file in
    ap₂ or_disk after disk ∙ moved c f rest ∙ ap (λ o. or_disk o rest) (sym before)

flush_worker-some :
    (sum64 : Bytes → ℕ) (stamp : ℕ) (s : Store) (t : MemTable) (file : Bytes)
    → s.flush_requested ≡ true
    → s.frozen ≡ some t
    → create_sstable sum64 t ≡ ok file
    → flush_worker sum64 stamp s ≡ (
        refresh_sstables (record { name = table_name 0 stamp; contents = file } ∷ s.tables)
        >>= λ readers. ok (flushed stamp t file (record s { flush_requested = false })))
unfolding flush_worker flush flushed
flush_worker-some sum64 stamp s t file signal frozen made = simp (signal, frozen, made) refl

-- The flush worker at a signal, at a time stamp: it succeeds, frees the place of the frozen table, and
-- changes no answer of `Get` for a key that is not above all keys of that table. The conditions are a
-- valid frozen table; a file below 1 GB; that no file in the directory makes `OpenSSTable` fault; and
-- that a file whose name comes before that of the new one, such as any of a higher level, does not have
-- the key.
pub flush_worker-get_found :
    (sum64 : Bytes → ℕ) (stamp : ℕ) (s : Store) (t : MemTable) (file : Bytes)
    → s.flush_requested ≡ true
    → s.frozen ≡ some t
    → IsTable t
    → create_sstable sum64 t ≡ ok file
    → length file < 2 ^ 30
    → IsSound s.tables
    → (key last : Bytes) (offset : ℕ)
    → All (IsBehind sum64 (record { name = table_name 0 stamp; contents = file }) key) s.tables
    → lookup last t.index ≡ some offset
    → bytes_lt last key ≡ false
    → (s' : Store) × (flush_worker sum64 stamp s ≡ ok s')
      × (s'.frozen ≡ none)
      × (get_found sum64 s' key ≡ get_found sum64 s key)
unfolding flushed
flush_worker-get_found sum64 stamp s t file signal frozen h made small sound key last offset behind
      there not_above =
    let (f, in_table, in_file) =
      lookup_file-create_sstable sum64 t file key last offset h made small there not_above in
    let new : TableFile = record { name = table_name 0 stamp; contents = file } in
    let (rs, opened) =
      refresh_sstables-IsSound {E = ArenaError} (new ∷ s.tables)
        (open_sstable-create_sstable sum64 t file h made small, sound) in
    let s' = flushed stamp t file (record s { flush_requested = false }) in
    (
      s',
      flush_worker-some sum64 stamp s t file signal frozen made
          ∙ ap (λ o. o >>= λ readers. ok s') opened,
      refl,
      get_found-moved sum64 s s' t new key f frozen refl refl refl behind in_table in_file,
    )
