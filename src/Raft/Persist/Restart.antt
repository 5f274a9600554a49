-- ===== src/Raft/Persist/Restart.antt =====
-- A restart: `Make` on the WAL file that a node has written.
use sisyphus_db.Prelude.{ℕ, ◌+◌, ◌-◌, ◌^◌, ◌<◌, ◌≡◌, refl, sym, ap, ap₂, ◌∙◌}
use sisyphus_db.Prelude.{List, [], ◌∷◌, ◌++◌, map, drop, All, length, some, arith}
use sisyphus_db.Prelude.{pos, minus_one, uint32, uint32-lt, Bytes, append-nil, append_assoc}
use sisyphus_db.Prelude.{lt→not_leb}
use sisyphus_db.RaftWal.{Wal, WalEntry, HardState, done, create_or_open, no_state}
use sisyphus_db.RaftWal.{last_index, persist_hard_state, encode_hard_state, record_type_log}
use sisyphus_db.RaftWal.RoundTrip.{
  Rec, log_rec, state_rec, encode_recs, encode_rec, entries_of, state_of, FitsRec, FitsEntry,
  recover_entries-encode_recs,
}
use sisyphus_db.RaftWal.Append.{fresh, appended, log_recs}
use sisyphus_db.Raft.Node.{
  LogEntry, Raft, make, blank, read_persist, restore, log_of_wal, hard_state,
}
use sisyphus_db.Raft.Node.{persist, persist_state, to_wal_entry, from_wal_entry, sentinel}
use sisyphus_db.Raft.Persist.{saved, unsaved, persist-saved}

-- The log that `readPersist` leaves.
abbrev pub restored_log : List WalEntry → List LogEntry
restored_log [] = sentinel ∷ []
restored_log (e ∷ es) = map from_wal_entry (e ∷ es)

log_of_wal-map :
    (es : List WalEntry)
    → All (λ e. e.record_type ≡ record_type_log) es
    → log_of_wal es ≡ map from_wal_entry es
unfolding log_of_wal from_wal_entry
log_of_wal-map [] h = refl
log_of_wal-map (e ∷ es) h = rw (h.0) (ap (◌∷◌ (from_wal_entry e)) (log_of_wal-map es h.1))

entries_of-types :
    (rs : List Rec) → All FitsRec rs → All (λ e. e.record_type ≡ record_type_log) (entries_of rs)
entries_of-types [] h = tt
entries_of-types (log_rec e ∷ rs) h = (h.0.0, entries_of-types rs h.1)
entries_of-types (state_rec s ∷ rs) h = entries_of-types rs h.1

restore_done :
    (es : List WalEntry) (h : HardState) (rf : Raft)
    → rf.log ≡ sentinel ∷ []
    → All (λ e. e.record_type ≡ record_type_log) es
    → ((restore (done es h) rf).log ≡ restored_log es)
      × (0 < h.term
          → ((restore (done es h) rf).current_term ≡ h.term)
            × ((restore (done es h) rf).voted_for ≡ pos h.vote)
            × ((restore (done es h) rf).commit_index ≡ h.commit))
unfolding restore
restore_done [] h rf fresh_log types = ground arith
restore_done (e ∷ es) h rf fresh_log types = ground (arith, log_of_wal-map (e ∷ es) types)

-- A node restarted on a file of whole records has the log entries of the file, or the sentinel alone
-- if there are none, and the term, the vote and the commit index of the last hard state, if the term there is not 0.
pub restart_restores :
    (peers me now : ℕ) (contents : Bytes) (rs : List Rec)
    → contents ≡ encode_recs rs
    → All FitsRec rs
    → 0 < (state_of no_state rs).term
    → let node = make peers me contents now in
      (node.log ≡ restored_log (entries_of rs))
      × (node.current_term ≡ (state_of no_state rs).term)
      × (node.voted_for ≡ pos (state_of no_state rs).vote)
      × (node.commit_index ≡ (state_of no_state rs).commit)
unfolding make blank read_persist create_or_open
restart_restores peers me now contents rs e fits some_term =
    let start = blank peers me contents now in
    let read = recover_entries-encode_recs start.wal rs e fits in
    let rest : Raft = record start {
      wal = record start.wal { last_persisted = last_index 0 (entries_of rs) };
    } in
    let (log, state) =
      restore_done (entries_of rs) (state_of no_state rs) rest refl (entries_of-types rs fits) in
    let (t, v, c) = state some_term in rw (read) (log, t, v, c)

-- The entry is not at index 0, and its fields fit the words of the file.
abbrev pub FitsLog : LogEntry → Type 0
FitsLog e = (0 < e.index) × (e.index < 2 ^ 32) × (e.term < 2 ^ 32) × (length e.command < 2 ^ 32)

wal_entry_round : (e : LogEntry) → FitsLog e → from_wal_entry (to_wal_entry e) ≡ e
unfolding from_wal_entry to_wal_entry
wal_entry_round e h = ground arith

wal_entry_fits :
    (e : LogEntry) → FitsLog e → FitsEntry (to_wal_entry e) × (0 < (to_wal_entry e).index)
unfolding to_wal_entry
wal_entry_fits e h = ground arith

-- A log of entries behind the sentinel is written whole by the first `persist`.
fresh-zero :
    (es : List LogEntry) → All FitsLog es → fresh 0 (map to_wal_entry es) ≡ map to_wal_entry es
fresh-zero [] h = refl
fresh-zero (e ∷ es) h =
    rw (lt→not_leb (to_wal_entry e).index 0 (wal_entry_fits e h.0).1)
      (ap (◌∷◌ (to_wal_entry e)) (fresh-zero es h.1))

map_round : (es : List LogEntry) → All FitsLog es → map from_wal_entry (map to_wal_entry es) ≡ es
map_round [] h = refl
map_round (e ∷ es) h = ap₂ (λ x xs. x ∷ xs) (wal_entry_round e h.0) (map_round es h.1)

FitsRec-append : (rs ss : List Rec) → All FitsRec rs → All FitsRec ss → All FitsRec (rs ++ ss)
FitsRec-append [] ss h k = k
FitsRec-append (r ∷ rs) ss h k = (h.0, FitsRec-append rs ss h.1 k)

FitsRec-log_recs :
    (es : List LogEntry) → All FitsLog es → All FitsRec (log_recs (map to_wal_entry es))
FitsRec-log_recs [] h = tt
FitsRec-log_recs (e ∷ es) h = ((wal_entry_fits e h.0).0, FitsRec-log_recs es h.1)

encode_recs-append : (rs ss : List Rec) → encode_recs (rs ++ ss) ≡ encode_recs rs ++ encode_recs ss
encode_recs-append [] ss = refl
encode_recs-append (r ∷ rs) ss =
    ap (λ b. encode_rec r ++ b) (encode_recs-append rs ss)
    ∙ sym (append_assoc (encode_rec r) (encode_recs rs) (encode_recs ss))

entries_of-append :
    (rs : List Rec) (ss : List Rec) → entries_of rs ≡ [] → entries_of (rs ++ ss) ≡ entries_of ss
entries_of-append [] ss h = refl
entries_of-append (log_rec e ∷ rs) ss h = cc
entries_of-append (state_rec s ∷ rs) ss h = entries_of-append rs ss h

entries_of-log_recs : (es : List WalEntry) → entries_of (log_recs es) ≡ es
entries_of-log_recs [] = refl
entries_of-log_recs (e ∷ es) = ap (◌∷◌ e) (entries_of-log_recs es)

file-appended :
    (w : Wal) (es : List WalEntry) → (appended w es).file ≡ w.file ++ encode_recs (log_recs es)
file-appended w [] = sym (append-nil w.file)
file-appended w (e ∷ es) = refl

make-log :
    (peers me now : ℕ) (contents : Bytes) (rs : List Rec)
    → contents ≡ encode_recs rs
    → All FitsRec rs
    → (make peers me contents now).log ≡ restored_log (entries_of rs)
unfolding make blank read_persist create_or_open
make-log peers me now contents rs e fits =
    let start = blank peers me contents now in
    let read = recover_entries-encode_recs start.wal rs e fits in
    let rest : Raft = record start {
      wal = record start.wal { last_persisted = last_index 0 (entries_of rs) };
    } in
    rw (read)
      (restore_done (entries_of rs) (state_of no_state rs) rest refl (entries_of-types rs fits)).0

-- `persist` never writes the sentinel, and a restart does not put it back: a node whose WAL holds no
-- entry yet, and whose log holds some behind the sentinel, writes them and comes back with a log that
-- lacks the sentinel, so that each entry stands one place before its index.
pub restart_loses_sentinel :
    (rf : Raft) (e : LogEntry) (es : List LogEntry) (rs : List Rec) (now : ℕ)
    → rf.log ≡ sentinel ∷ e ∷ es
    → All FitsLog (e ∷ es)
    → length rf.log < 2 ^ 32
    → rf.wal.file ≡ encode_recs rs
    → All FitsRec rs
    → entries_of rs ≡ []
    → rf.wal.last_persisted ≡ 0
    → (rf' : Raft) × (persist rf ≡ some rf') × ((make rf.peers rf.me rf'.wal.file now).log ≡ e ∷ es)
restart_loses_sentinel rf e es rs now l fits room file fits_rs no_entries lp = (
  record rf { wal = saved rf.wal rf.log },
  persist-saved rf room,
  make-log rf.peers rf.me now (saved rf.wal rf.log).file (rs ++ written) on_disk
        (FitsRec-append rs written fits_rs (FitsRec-log_recs (e ∷ es) fits))
      ∙ ap restored_log (
          entries_of-append rs written no_entries ∙ entries_of-log_recs (map to_wal_entry (e ∷ es)))
      ∙ map_round (e ∷ es) fits,
)
  where
    written : List Rec
    written = log_recs (map to_wal_entry (e ∷ es))

    all_unsaved : unsaved rf.wal rf.log ≡ map to_wal_entry (e ∷ es)
    all_unsaved =
        ap₂ (λ n log. fresh n (drop (n + 1) (map to_wal_entry log))) lp l ∙ fresh-zero (e ∷ es) fits

    on_disk : (saved rf.wal rf.log).file ≡ encode_recs (rs ++ written)
    on_disk =
        file-appended rf.wal (unsaved rf.wal rf.log)
        ∙ ap₂ (λ f u. f ++ encode_recs (log_recs u)) file all_unsaved
        ∙ sym (encode_recs-append rs written)

state_of-append :
    (h : HardState) (rs ss : List Rec) → state_of h (rs ++ ss) ≡ state_of (state_of h rs) ss
state_of-append h [] ss = refl
state_of-append h (log_rec e ∷ rs) ss = state_of-append h rs ss
state_of-append h (state_rec s ∷ rs) ss = state_of-append s rs ss

module _ (rf : Raft) (rs : List Rec) (now : ℕ) (some_term : 0 < rf.current_term)
    (small : rf.current_term < 2 ^ 32) (small_commit : rf.commit_index < 2 ^ 32)
    (file : rf.wal.file ≡ encode_recs rs) (fits : All FitsRec rs) where
  abbrev last : List Rec
  last = state_rec (hard_state rf) ∷ []

  on_disk : (persist_state rf).wal.file ≡ encode_recs (rs ++ last)
  unfolding persist_state persist_hard_state encode_rec
  on_disk =
      ap (λ f. f ++ encode_hard_state (hard_state rf)) file
      ∙ sym (encode_recs-append rs last ∙ ap (λ b. encode_recs rs ++ b) (append-nil _))

  last_state : state_of no_state (rs ++ last) ≡ hard_state rf
  last_state = state_of-append no_state rs last

  last_fits : All FitsRec last
  last_fits = ((omega arith, uint32-lt rf.voted_for, omega arith), tt)

  restart_state :
      let node = make rf.peers rf.me (persist_state rf).wal.file now in
      (node.current_term ≡ rf.current_term)
      × (node.voted_for ≡ pos (uint32 rf.voted_for))
      × (node.commit_index ≡ rf.commit_index)
  restart_state =
      let (_, t, v, c) =
        restart_restores rf.peers rf.me now (persist_state rf).wal.file (rs ++ last) on_disk
          (FitsRec-append rs last fits last_fits) (rw (last_state) (omega arith)) in
      (
        t ∙ ap (λ (h : HardState). h.term) last_state ∙ omega arith,
        v ∙ ap (λ (h : HardState). pos h.vote) last_state,
        c ∙ ap (λ (h : HardState). h.commit) last_state ∙ omega arith,
      )

  -- The term, the vote for a candidate and the commit index survive a restart behind `persistState`.
  pub restart_keeps_vote :
      (c : ℕ)
      → c < 2 ^ 32
      → rf.voted_for ≡ pos c
      → let node = make rf.peers rf.me (persist_state rf).wal.file now in
        (node.current_term ≡ rf.current_term)
        × (node.voted_for ≡ rf.voted_for)
        × (node.commit_index ≡ rf.commit_index)
  unfolding uint32
  restart_keeps_vote c small_id vote =
      let (t, v, i) = restart_state in (t, v ∙ vote_word c small_id vote, i)
    where
      vote_word :
          (c : ℕ) → c < 2 ^ 32 → rf.voted_for ≡ pos c → pos (uint32 rf.voted_for) ≡ rf.voted_for
      vote_word c small_id vote = ground arith

  -- A vote that was cleared is written as the word 2^32 - 1, and comes back as that number and not
  -- as -1.
  pub restart_garbles_vote :
      rf.voted_for ≡ minus_one
      → let node = make rf.peers rf.me (persist_state rf).wal.file now in
        (node.current_term ≡ rf.current_term) × (node.voted_for ≡ pos (2 ^ 32 - 1))
  unfolding uint32
  restart_garbles_vote vote =
      let (t, v, _) = restart_state in (t, v ∙ ap (λ x. pos (uint32 x)) vote)
