-- ===== src/RaftWal/RoundTrip.antt =====
-- What `RecoverEntries` reads back of a file of whole records.
use sisyphus_db.Prelude.{ℕ, zero, suc, ◌+◌, ◌^◌, ◌<◌, ◌≡◌, refl, ◌∙◌, List, [], ◌∷◌, ◌++◌}
use sisyphus_db.Prelude.{length, length-append, append_assoc, append-nil, All, arith}
use sisyphus_db.Prelude.{Bytes, le_bytes, uint32_round, read_full-append, ok}
use sisyphus_db.RaftWal.{WalEntry, HardState, done, Wal, encode_entry, encode_hard_state}
use sisyphus_db.RaftWal.{read_entry, read_hard_state, recover_loop, recover_entries, no_state}
use sisyphus_db.RaftWal.{record_type_log, last_index}

-- The two kinds of record that the file holds.
pub data Rec : Type 0 where
  log_rec : WalEntry → Rec
  state_rec : HardState → Rec

unfoldable pub encode_rec : Rec → Bytes
encode_rec (log_rec e) = encode_entry e
encode_rec (state_rec h) = encode_hard_state h

abbrev pub encode_recs : List Rec → Bytes
encode_recs [] = []
encode_recs (r ∷ rs) = encode_rec r ++ encode_recs rs

-- The entries and the last hard state of a sequence of records.
abbrev pub entries_of : List Rec → List WalEntry
entries_of [] = []
entries_of (log_rec e ∷ rs) = e ∷ entries_of rs
entries_of (state_rec h ∷ rs) = entries_of rs

abbrev pub state_of : HardState → List Rec → HardState
state_of h [] = h
state_of h (log_rec e ∷ rs) = state_of h rs
state_of h (state_rec h' ∷ rs) = state_of h' rs

-- The fields fit the words that they are written in.
abbrev pub FitsEntry : WalEntry → Type 0
FitsEntry e =
    (e.record_type ≡ record_type_log)
    × (e.index < 2 ^ 32)
    × (e.term < 2 ^ 32)
    × (length e.command < 2 ^ 32)

abbrev pub FitsState : HardState → Type 0
FitsState h = (h.term < 2 ^ 32) × (h.vote < 2 ^ 32) × (h.commit < 2 ^ 32)

abbrev pub FitsRec : Rec → Type 0
FitsRec (log_rec e) = FitsEntry e
FitsRec (state_rec h) = FitsState h

abbrev entry_body : WalEntry → Bytes
entry_body e =
    le_bytes 4 e.index ++ (le_bytes 4 e.term ++ (le_bytes 4 (length e.command) ++ e.command))

abbrev entry_header : WalEntry → Bytes
entry_header e = le_bytes 4 e.index ++ (le_bytes 4 e.term ++ le_bytes 4 (length e.command))

read_entry-encode :
    (e : WalEntry) (rest : Bytes) → FitsEntry e → read_entry (entry_body e ++ rest) ≡ ok (e, rest)
unfolding read_entry le_bytes
read_entry-encode e rest h =
    rw
      (
        read_full-append 12 (entry_header e) (e.command ++ rest) refl,
        uint32_round (length e.command) h.3,
        read_full-append (length e.command) e.command rest refl,
        uint32_round e.index h.1,
        uint32_round e.term h.2,
      )
      (cc)

abbrev state_body : HardState → Bytes
state_body h = le_bytes 4 h.term ++ (le_bytes 4 h.vote ++ le_bytes 4 h.commit)

read_hard_state-encode :
    (s : HardState) (rest : Bytes)
    → FitsState s
    → read_hard_state (state_body s ++ rest) ≡ ok (s, rest)
unfolding read_hard_state le_bytes
read_hard_state-encode s rest h = rw (
  read_full-append 12 (state_body s) rest refl,
  uint32_round s.term h.0,
  uint32_round s.vote h.1,
  uint32_round s.commit h.2,
)

-- One record takes one round.
recover_loop-rec :
    (fuel : ℕ) (r : Rec) (rest : Bytes) (entries : List WalEntry) (state : HardState)
    → FitsRec r
    → recover_loop (suc fuel) (encode_rec r ++ rest) entries state
      ≡ recover_loop fuel rest (entries ++ entries_of (r ∷ [])) (state_of state (r ∷ []))
unfolding recover_loop encode_rec encode_entry encode_hard_state
recover_loop-rec fuel (log_rec e) rest entries state h =
    rw (read_entry-encode e rest h, recover_loop)
recover_loop-rec fuel (state_rec s) rest entries state h =
    rw (append-nil, read_hard_state-encode s rest h, recover_loop)

encode_rec-nonempty : (r : Rec) → 0 < length (encode_rec r)
unfolding encode_rec encode_entry encode_hard_state
encode_rec-nonempty (log_rec e) = omega arith
encode_rec-nonempty (state_rec s) = omega arith

recover_loop-recs :
    (rs : List Rec) (fuel : ℕ) (entries : List WalEntry) (state : HardState)
    → length (encode_recs rs) < fuel
    → All FitsRec rs
    → recover_loop fuel (encode_recs rs) entries state
      ≡ done (entries ++ entries_of rs) (state_of state rs)
recover_loop-recs rs zero entries state hf h = elim hf [ ]
recover_loop-recs [] (suc fuel) entries state hf h = rw append-nil (unfold recover_loop in refl)
recover_loop-recs (r ∷ rs) (suc fuel) entries state hf h =
    recover_loop-rec fuel r (encode_recs rs) entries state h.0
    ∙ recover_loop-recs rs fuel (entries ++ entries_of (r ∷ [])) (state_of state (r ∷ []))
        (omega (arith, length-append (encode_rec r) (encode_recs rs), encode_rec-nonempty r)) h.1
    ∙ split r
  where
    split :
        (r : Rec)
        → done
            ((entries ++ entries_of (r ∷ [])) ++ entries_of rs)
            (state_of (state_of state (r ∷ [])) rs)
          ≡ done (entries ++ entries_of (r ∷ rs)) (state_of state (r ∷ rs))
    split (log_rec e) = rw append_assoc
    split (state_rec s) = rw append-nil

-- `RecoverEntries` on a file of whole records returns the log entries in the order they were
-- written, with the last hard state, and remembers the index of the last entry.
pub recover_entries-encode_recs :
    (w : Wal) (rs : List Rec)
    → w.file ≡ encode_recs rs
    → All FitsRec rs
    → recover_entries w ≡ (
      done (entries_of rs) (state_of no_state rs),
      record w { last_persisted = last_index w.last_persisted (entries_of rs) },
    )
unfolding recover_entries
recover_entries-encode_recs w rs e h =
    rw (e, recover_loop-recs rs (length (encode_recs rs) + 1) [] no_state (omega arith) h)
