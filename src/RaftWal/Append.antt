-- ===== src/RaftWal/Append.antt =====
-- What `AppendEntries` writes.
use sisyphus_db.Prelude.{Bool, ℕ, suc, ◌+◌, ◌-◌, ◌%◌, ◌^◌, ◌<◌, ◌≡◌, refl, ◌∙◌, true, false}
use sisyphus_db.Prelude.{List, [], ◌∷◌, ◌++◌, map, length, drop, drop-all, inl, inr}
use sisyphus_db.Prelude.{append_assoc, append-nil, arith, leb, if◌then◌else◌, Bool-cases, leb→le}
use sisyphus_db.Prelude.{Bytes, ok, ◌==◌, ◌||◌, le→leb, le→not_ltb}
use sisyphus_db.RaftWal.{
  WalEntry, Wal, flush, encode_entry, append_loop, append_entries, last_index,
}
use sisyphus_db.RaftWal.RoundTrip.{Rec, log_rec, encode_rec, encode_recs}

-- The entries that the loop does not skip.
abbrev pub fresh : ℕ → List WalEntry → List WalEntry
fresh lp [] = []
fresh lp (e ∷ es) = let rest = fresh lp es in if leb e.index lp then rest else e ∷ rest

abbrev pub log_recs : List WalEntry → List Rec
log_recs = map log_rec

-- The file with the given entries behind it.
abbrev pub appended : Wal → List WalEntry → Wal
appended w [] = w
appended w (e ∷ es) = record w {
  file = w.file ++ encode_recs (log_recs (e ∷ es));
  last_persisted = last_index e.index es;
  sync_requested = true;
}

append_loop-fresh :
    (lp : ℕ) (es : List WalEntry) (buf : Bytes) (highest : ℕ)
    → append_loop lp es (buf, highest)
      ≡ (buf ++ encode_recs (log_recs (fresh lp es)), last_index highest (fresh lp es))
unfolding append_loop encode_rec last_index
append_loop-fresh lp [] buf highest = rw append-nil
append_loop-fresh lp (e ∷ es) buf highest = elim (Bool-cases (leb e.index lp)) [
  | inl old ↦ rw (old) (append_loop-fresh lp es buf highest)
  | inr new ↦ rw (new) (append_loop-fresh lp es (buf ++ encode_entry e) e.index ∙ rw append_assoc)
]

or-true : (b : Bool) → (b || true) ≡ true
or-true true = refl
or-true false = refl

flush-appended :
    (w : Wal) (es : List WalEntry)
    → flush w (encode_recs (log_recs es), last_index w.last_persisted es) ≡ appended w es
unfolding encode_rec encode_entry last_index
flush-appended w [] = refl
flush-appended w (e ∷ es) = refl

last_log_idx : (n : ℕ) → suc n < 2 ^ 32 → (0 + suc n + 2 ^ 32 - 1) % 2 ^ 32 ≡ n
last_log_idx n h = omega arith

offset : (lp : ℕ) → lp + 1 < 2 ^ 32 → (lp + 2 ^ 32 - 0 + 1) % 2 ^ 32 ≡ lp + 1
offset lp h = omega arith

suc_nonzero : (n : ℕ) → (suc n == 0) ≡ false
suc_nonzero n = ground arith

module _ (w : Wal) (e : WalEntry) (es : List WalEntry) (h : length (e ∷ es) < 2 ^ 32) where
  append_entries_old :
      leb (length es) w.last_persisted ≡ true
      → append_entries w (e ∷ es) 0
        ≡ ok (appended w (fresh w.last_persisted (drop (w.last_persisted + 1) (e ∷ es))))
  unfolding append_entries
  append_entries_old old = rw (
    last_log_idx (length es) h,
    old,
    drop-all (w.last_persisted + 1) (e ∷ es) (omega (arith, leb→le _ _ old)),
  )

  append_entries_new :
      leb (length es) w.last_persisted ≡ false
      → append_entries w (e ∷ es) 0
        ≡ ok (appended w (fresh w.last_persisted (drop (w.last_persisted + 1) (e ∷ es))))
  unfolding append_entries
  append_entries_new new =
      let below : w.last_persisted < length es = ground arith in
      rw (
        last_log_idx (length es) h,
        new,
        suc_nonzero (length es),
        le→leb 0 w.last_persisted (omega arith),
        offset w.last_persisted (omega arith),
        le→not_ltb (suc (length es)) (w.last_persisted + 1) (omega arith),
        append_loop-fresh w.last_persisted (drop (w.last_persisted + 1) (e ∷ es)) []
            w.last_persisted,
        flush-appended w (fresh w.last_persisted (drop (w.last_persisted + 1) (e ∷ es))),
      )

-- `AppendEntries(entries, 0)` never fails. It appends to the file, in order, the records of the
-- entries behind position `lastPersisted` whose index is above `lastPersisted`, and none else.
pub append_entries-fresh :
    (w : Wal) (entries : List WalEntry)
    → length entries < 2 ^ 32
    → append_entries w entries 0
      ≡ ok (appended w (fresh w.last_persisted (drop (w.last_persisted + 1) entries)))
unfolding append_entries
append_entries-fresh w [] h = rw (
  or-true (leb 4294967295 w.last_persisted),
  drop-all {A = WalEntry} (w.last_persisted + 1) [] (omega arith),
)
append_entries-fresh w (e ∷ es) h = elim (Bool-cases (leb (length es) w.last_persisted)) [
  | inl old ↦ append_entries_old w e es h old
  | inr new ↦ append_entries_new w e es h new
]
