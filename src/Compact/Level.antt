-- ===== src/Compact/Level.antt =====
-- A run of `CheckAndCompact` on a directory.
use sisyphus_db.Prelude.{
  ℕ, suc, ◌+◌, ◌<◌, ◌≤◌, ◌≡◌, ◌⊎◌, refl, arith, Bool-cases, inl, inr, List, [], ◌∷◌, length, ltb,
  leb, ltb→lt, lt→ltb, le→not_ltb, not_ltb→le, ok, Bytes,
}
use sisyphus_db.Sstable.{Builder, new_builder, close_builder}
use sisyphus_db.Bloom.Bounds.{new_filter-IsFilter}
use sisyphus_db.Store.{Store, TableFile}
use sisyphus_db.Store.Disk.{table_name, refresh_sstables}
use sisyphus_db.Store.Refresh.{IsSound, refresh_sstables_cases}
use sisyphus_db.Prelude.{panic, ap, ◌∙◌, ◌>>=◌}
use sisyphus_db.Compact.{
  MergeError, of_level, level_files, remove_level, get_files_for_level, max_level_files,
  open_iterators, merge, remaining, check_and_compact,
}
use sisyphus_db.Compact.Ends.{merge_ends}

removed : (level : ℕ) (fs : List TableFile) → level_files level (remove_level level fs) ≡ []
unfolding level_files remove_level
removed level [] = refl
removed level (f ∷ fs) = elim (Bool-cases (of_level level f)) [
  | inl inside ↦ rw (inside, remove_level) (removed level fs)
  | inr outside ↦
      rw (outside, remove_level, level_files) (rw (outside, level_files) (removed level fs))
]

-- What a run leaves that does its work: a file of the next level in place of those of the level.
pub record Compacted (level stamp : ℕ) (s s' : Store) : Type 0 where
  pub full : max_level_files ≤ length (get_files_for_level level s.tables)
  pub new : TableFile
  pub named : new.name ≡ table_name (level + 1) stamp
  pub store : s' ≡ record s { tables = new ∷ remove_level level s.tables }
  pub gone : level_files level (remove_level level s.tables) ≡ []

module _ (sum64 : Bytes → ℕ) (level stamp : ℕ) (s : Store) where
  few_files :
      length (get_files_for_level level s.tables) < max_level_files
      → check_and_compact sum64 level stamp s ≡ ok s
  unfolding check_and_compact
  few_files few =
      rw
        (
          lt→ltb (length (get_files_for_level level s.tables)) max_level_files few,
          check_and_compact,
        )
        refl

  compacted : Builder → Store
  compacted b = record s {
    tables =
        record { name = table_name (level + 1) stamp; contents = close_builder b }
        ∷ remove_level level s.tables;
  }

  many_files :
      (b : Builder)
      → max_level_files ≤ length (get_files_for_level level s.tables)
      → merge sum64
          (suc (remaining (open_iterators (get_files_for_level level s.tables))))
          (leb max_level_files (level + 1))
          (open_iterators (get_files_for_level level s.tables))
          (new_builder 10000)
        ≡ ok b
      → check_and_compact sum64 level stamp s
        ≡ (refresh_sstables (compacted b).tables >>= λ readers. ok (compacted b))
  unfolding check_and_compact compacted
  many_files b many merged =
      rw
        (
          le→not_ltb (length (get_files_for_level level s.tables)) max_level_files many,
          merged,
          check_and_compact,
        )
        refl

  many_Compacted :
      (b : Builder)
      → max_level_files ≤ length (get_files_for_level level s.tables)
      → Compacted level stamp s (compacted b)
  unfolding compacted
  many_Compacted b many = record {
    full = many;
    new = record { name = table_name (level + 1) stamp; contents = close_builder b };
    named = refl;
    store = refl;
    gone = removed level s.tables;
  }

-- A run of the compaction of a level always ends, whatever the files hold. With fewer than four files of
-- the level it changes nothing. Otherwise the directory has one new file of the next level, no file of
-- the run's own level among the older ones, and all files of other levels; and the run succeeds, or, if
-- `OpenSSTable` has a fault on some file of that directory, ends the program when the readers are
-- refreshed.
pub check_and_compact_ends :
    (sum64 : Bytes → ℕ) (level stamp : ℕ) (s : Store)
    → ((length (get_files_for_level level s.tables) < max_level_files)
        × (check_and_compact sum64 level stamp s ≡ ok s))
      ⊎ ((s' : Store) × Compacted level stamp s s'
          × ((check_and_compact sum64 level stamp s ≡ ok s')
              ⊎ ((check_and_compact sum64 level stamp s ≡ panic) × (¬ IsSound s'.tables))))
unfolding new_builder
check_and_compact_ends sum64 level stamp s =
    let files = get_files_for_level level s.tables in
    elim (Bool-cases (ltb (length files) max_level_files)) [
      | inl few ↦
          let lt = ltb→lt (length files) max_level_files few in
          inl (lt, few_files sum64 level stamp s lt)
      | inr many ↦
          let le = not_ltb→le (length files) max_level_files many in
          let its = open_iterators files in
          let (b, done) =
            merge_ends sum64 (suc (remaining its)) (leb max_level_files (level + 1)) its
              (new_builder 10000) (new_filter-IsFilter 10000) (omega arith) in
          let ran = many_files sum64 level stamp s b le done in
          inr (
            compacted sum64 level stamp s b,
            many_Compacted sum64 level stamp s b le,
            elim (refresh_sstables_cases {E = MergeError}
                (compacted sum64 level stamp s b).tables) [
                  | inl (rs, opened) ↦
                      inl (ran ∙ ap (λ o. o >>= λ r. ok (compacted sum64 level stamp s b)) opened)
                  | inr (fault, bad) ↦
                      inr
                        (ran ∙ ap (λ o. o >>= λ r. ok (compacted sum64 level stamp s b)) fault, bad)
                ],
          )
    ]
