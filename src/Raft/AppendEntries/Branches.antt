-- ===== src/Raft/AppendEntries/Branches.antt =====
-- The branches of the handler `AppendEntries`, each with its reply and the node that it leaves.
use sisyphus_db.Prelude.{ℕ, ◌+◌, ◌^◌, ◌≤◌, ◌<◌, ◌≡◌, refl, ap, ◌∙◌, inl, inr}
use sisyphus_db.Prelude.{List, [], ◌∷◌, ◌++◌, length, take, drop, get_elem?, some, arith}
use sisyphus_db.Prelude.{length-append, length-take, length-drop, ltb, if◌then◌else◌}
use sisyphus_db.Prelude.{Bool-cases, get_elem?-lt, le→not_ltb, lt→not_leb, minus_one}
use sisyphus_db.Prelude.{take-append-drop, ==_iff, min}
use sisyphus_db.RaftWal.{Wal}
use sisyphus_db.Raft.Node.{LogEntry, Raft, persist_state}
use sisyphus_db.Raft.Persist.{saved, persist-saved}
use sisyphus_db.Raft.AppendEntries.{
  AppendEntriesArgs, append_entries, check_log, accept, accepted, follow, merge, update_commit,
}
use sisyphus_db.Raft.AppendEntries.Merge.{
  reconcile, merge-reconcile, length-reconcile, length-reconcile_le,
}

-- The entry at `i` is there and has term `t`.
abbrev pub HasTerm : List LogEntry → ℕ → ℕ → Type 0
HasTerm log i t = (e : LogEntry) × (get_elem? log i ≡ some e) × (e.term ≡ t)

-- The log after the merge, by the description of Merge.
abbrev pub new_log : AppendEntriesArgs → List LogEntry → List LogEntry
new_log args log =
    take (args.prev_log_index + 1) log
    ++ reconcile (drop (args.prev_log_index + 1) log) args.entries

reconcile_nothing : (old : List LogEntry) → reconcile old [] ≡ old
unfolding reconcile
reconcile_nothing [] = refl
reconcile_nothing (l ∷ old) = refl

-- A heartbeat leaves the log as it is.
pub new_log_nothing :
    (args : AppendEntriesArgs) (log : List LogEntry) → args.entries ≡ [] → new_log args log ≡ log
new_log_nothing args log h =
    ap
      (λ new.
        take (args.prev_log_index + 1) log ++ reconcile (drop (args.prev_log_index + 1) log) new)
      h
    ∙ ap (λ old. take (args.prev_log_index + 1) log ++ old)
        (reconcile_nothing (drop (args.prev_log_index + 1) log))
    ∙ take-append-drop (args.prev_log_index + 1) log

-- The WAL after the merge of a log.
abbrev wal_after : AppendEntriesArgs → Wal → List LogEntry → Wal
wal_after args w log = if ltb 0 (length args.entries) then saved w log else w

abbrev merged : AppendEntriesArgs → Raft → Raft
merged args rf =
    let log = merge rf.log (args.prev_log_index + 1) args.entries in
    record rf { log = log; wal = wal_after args rf.wal log }

accept-eq :
    (args : AppendEntriesArgs) (rf : Raft)
    → length (merge rf.log (args.prev_log_index + 1) args.entries) < 2 ^ 32
    → accept args rf ≡ some (accepted rf.current_term, update_commit args (merged args rf))
unfolding accept
accept-eq args rf h = elim (Bool-cases (ltb 0 (length args.entries))) [
  | inl more ↦ rw (
    more,
    persist-saved (record rf { log = merge rf.log (args.prev_log_index + 1) args.entries }) h,
    accept,
  )
  | inr empty ↦ rw (empty, accept)
]

pub length-new_log :
    (args : AppendEntriesArgs) (log : List LogEntry)
    → args.prev_log_index < length log
    → (args.prev_log_index + length args.entries < length (new_log args log))
      × (length (new_log args log) ≤ length log + length args.entries)
length-new_log args log h =
    let rest = drop (args.prev_log_index + 1) log in
    omega (
      arith,
      length-append (take (args.prev_log_index + 1) log) (reconcile rest args.entries),
      length-take (args.prev_log_index + 1) log,
      length-drop (args.prev_log_index + 1) log,
      length-reconcile rest args.entries,
      length-reconcile_le rest args.entries,
    )

-- The commit index after an accepted call.
abbrev pub new_commit : AppendEntriesArgs → ℕ → ℕ
new_commit args c =
    if ltb c args.leader_commit
    then min args.leader_commit (args.prev_log_index + length args.entries)
    else c

commit-update_commit :
    (args : AppendEntriesArgs) (rf : Raft)
    → (update_commit args rf).commit_index ≡ new_commit args rf.commit_index
unfolding update_commit
commit-update_commit args rf = ground arith

log-update_commit : (args : AppendEntriesArgs) (rf : Raft) → (update_commit args rf).log ≡ rf.log
unfolding update_commit
log-update_commit args rf = ground arith

term-update_commit :
    (args : AppendEntriesArgs) (rf : Raft) → (update_commit args rf).current_term ≡ rf.current_term
unfolding update_commit
term-update_commit args rf = ground arith

applied-update_commit :
    (args : AppendEntriesArgs) (rf : Raft) → (update_commit args rf).last_applied ≡ rf.last_applied
unfolding update_commit
applied-update_commit args rf = ground arith

vote-update_commit :
    (args : AppendEntriesArgs) (rf : Raft) → (update_commit args rf).voted_for ≡ rf.voted_for
unfolding update_commit
vote-update_commit args rf = ground arith

-- What an accepted call leaves.
pub record Accepted (args : AppendEntriesArgs) (rf rf' : Raft) : Type 0 where
  pub log : rf'.log ≡ new_log args rf.log
  pub term : rf'.current_term ≡ args.term
  pub commit : rf'.commit_index ≡ new_commit args rf.commit_index
  pub applied : rf'.last_applied ≡ rf.last_applied
  pub vote : rf'.voted_for ≡ minus_one

module _ (now : ℕ) (args : AppendEntriesArgs) (rf : Raft) where
  -- A call of the current or a later term, whose previous entry the follower has, is accepted.
  pub append_entries_accepts :
      rf.current_term ≤ args.term
      → HasTerm rf.log args.prev_log_index args.prev_log_term
      → length rf.log + length args.entries < 2 ^ 32
      → (rf' : Raft) × (append_entries now args rf ≡ some (accepted args.term, rf'))
        × Accepted args rf rf'
  unfolding append_entries check_log follow persist_state
  append_entries_accepts current (e, here, same) room =
      let node = follow now args rf in
      let inside = get_elem?-lt rf.log args.prev_log_index here in
      let merges = merge-reconcile rf.log args.entries (args.prev_log_index + 1) (omega arith) in
      (
        update_commit args (merged args node),
        rw (
          le→not_ltb args.term rf.current_term current,
          lt→not_leb (length rf.log) args.prev_log_index inside,
          here,
          (==_iff e.term args.prev_log_term).1 same,
          accept-eq args node (rw merges (omega (arith, length-new_log args rf.log inside))),
        ),
        record {
          log = log-update_commit args (merged args node) ∙ merges;
          term = term-update_commit args (merged args node);
          commit = commit-update_commit args (merged args node);
          applied = applied-update_commit args (merged args node);
          vote = vote-update_commit args (merged args node);
        },
      )
