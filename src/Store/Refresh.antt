-- ===== src/Store/Refresh.antt =====
-- `refreshSSTables` (kv/compact.go) on a directory.
use sisyphus_db.Prelude.{
  ◌≡◌, ◌≢◌, ◌⊎◌, refl, Bool-cases, inl, inr, List, [], ◌∷◌, All, bytes_lt, Outcome, ok, err, panic,
}
use sisyphus_db.Sstable.Reader.{Reader, open_sstable}
use sisyphus_db.Store.{TableFile}
use sisyphus_db.Store.Disk.{insert_file, newest_first, open_readers, refresh_sstables}

-- `OpenSSTable` has no fault on any of the files, as on a footer with impossible offsets.
abbrev pub IsSound : List TableFile → Type 0
IsSound fs = All (λ f. open_sstable f.contents ≢ panic) fs

insert_file-All :
    (P : TableFile → Type 0) (f : TableFile) (fs : List TableFile)
    → P f
    → All P fs
    → All P (insert_file f fs)
unfolding insert_file
insert_file-All P f [] p h = (p, tt)
insert_file-All P f (g ∷ fs) p h = elim (Bool-cases (bytes_lt f.name g.name)) [
  | inl before ↦ rw (before, insert_file) (h.0, insert_file-All P f fs p h.1)
  | inr behind ↦ rw (behind, insert_file) (p, h)
]

pub newest_first-All :
    (P : TableFile → Type 0) (fs : List TableFile) → All P fs → All P (newest_first fs)
unfolding newest_first
newest_first-All P [] h = tt
newest_first-All P (f ∷ fs) h =
    insert_file-All P f (newest_first fs) h.0 (newest_first-All P fs h.1)

opened_cases :
    {E A : Type 0} (o : Outcome E A)
    → ((a : A) × (o ≡ ok a)) ⊎ ((e : E) × (o ≡ err e)) ⊎ (o ≡ panic)
opened_cases (ok a) = inl (a, refl)
opened_cases (err e) = inr (inl (e, refl))
opened_cases panic = inr (inr refl)

open_readers_cases :
    {E : Type 0} (fs : List TableFile)
    → ((rs : List Reader) × (open_readers {E = E} fs ≡ ok rs))
      ⊎ ((open_readers {E = E} fs ≡ panic) × (¬ IsSound fs))
unfolding open_readers
open_readers_cases {E = E} [] = inl ([], refl)
open_readers_cases {E = E} (f ∷ fs) = elim (opened_cases (open_sstable f.contents)) [
  | inr (inr fault) ↦ inr (rw (fault, open_readers) refl, λ sound. sound.0 fault)
  | inr (inl (e, failed)) ↦ elim (open_readers_cases {E = E} fs) [
    | inl (rs, more) ↦ inl (rs, rw (failed, open_readers) more)
    | inr (fault, bad) ↦ inr (rw (failed, open_readers) fault, λ sound. bad sound.1)
  ]
  | inl (r, opened) ↦ elim (open_readers_cases {E = E} fs) [
    | inl (rs, more) ↦ inl (r ∷ rs, rw (opened, more, open_readers) refl)
    | inr (fault, bad) ↦ inr (rw (opened, fault, open_readers) refl, λ sound. bad sound.1)
  ]
]

pub refresh_sstables_cases :
    {E : Type 0} (fs : List TableFile)
    → ((rs : List Reader) × (refresh_sstables {E = E} fs ≡ ok rs))
      ⊎ ((refresh_sstables {E = E} fs ≡ panic) × (¬ IsSound fs))
unfolding refresh_sstables
refresh_sstables_cases {E = E} fs = elim (open_readers_cases {E = E} (newest_first fs)) [
  | inl done ↦ inl done
  | inr (fault, bad) ↦
      inr (fault, λ sound. bad (newest_first-All (λ f. open_sstable f.contents ≢ panic) fs sound))
]

pub refresh_sstables-IsSound :
    {E : Type 0} (fs : List TableFile)
    → IsSound fs
    → (rs : List Reader) × (refresh_sstables {E = E} fs ≡ ok rs)
refresh_sstables-IsSound {E} fs sound = elim (refresh_sstables_cases {E = E} fs) [
  | inl done ↦ done
  | inr (fault, bad) ↦ absurd (bad sound)
]
