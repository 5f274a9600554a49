-- ===== src/Raft/AppendEntries.antt =====
-- raft/appendEntries.go: the handler `AppendEntries` of a follower.
pub mod Merge
pub mod Branches
pub mod Conflict
pub mod Safety
pub mod Guarantees
use sisyphus_db.Prelude.{
  ℕ, zero, suc, ◌+◌, ◌≡◌, ℤ, pos, minus_one, Bool, true, false, ltb, leb, ◌==◌,
}
use sisyphus_db.Prelude.{List, [], ◌∷◌, ◌++◌, length, take, get_elem?, Option, none, some}
use sisyphus_db.Prelude.{if◌then◌else◌}
use sisyphus_db.Raft.Node.{LogEntry, Raft, follower, persist, persist_state}

pub record AppendEntriesArgs : Type 0 where
  pub term : ℕ
  pub leader_id : ℤ
  pub prev_log_index : ℕ
  pub prev_log_term : ℕ
  pub entries : List LogEntry
  pub leader_commit : ℕ

pub record AppendEntriesReply : Type 0 where
  pub term : ℕ
  pub success : Bool
  pub conflict_index : ℕ
  pub conflict_term : ℤ

-- One round of the merge; `index < len(rf.log)` is the case that there is an entry at `index`.
unfoldable pub merge_one : List LogEntry → ℕ → LogEntry → List LogEntry
merge_one log index entry = elim (get_elem? log index) [
  | none ↦ log ++ (entry ∷ [])
  | some old ↦ if old.term == entry.term then log else take index log ++ (entry ∷ [])
]

-- The loop of "Append Entries (Safe Merge)", from `index` on.
unfoldable pub merge : List LogEntry → ℕ → List LogEntry → List LogEntry
merge log index [] = log
merge log index (entry ∷ entries) = merge (merge_one log index entry) (index + 1) entries

-- The backward scan for the first entry of the conflicting term: `n` positions are left.
unfoldable pub first_of_term : List LogEntry → ℕ → ℕ → ℕ → ℕ
first_of_term log term zero found = found
first_of_term log term (suc i) found = elim (get_elem? log i) [
  | none ↦ found
  | some e ↦ elim (e.term == term) [ true ↦ first_of_term log term i i | false ↦ found ]
]

-- "Heartbeat & State Management"
unfoldable pub follow : ℕ → AppendEntriesArgs → Raft → Raft
follow now args rf = persist_state (record rf {
  current_term = args.term;
  state = follower;
  voted_for = minus_one;
  leader_id = args.leader_id;
  last_reset_time = now;
})

-- "Update Commit Index"
unfoldable pub update_commit : AppendEntriesArgs → Raft → Raft
update_commit args rf =
    let last_new = args.prev_log_index + length args.entries in
    if ltb rf.commit_index args.leader_commit
    then record rf {
      commit_index = if ltb args.leader_commit last_new then args.leader_commit else last_new;
      commit_signal = true;
    }
    else rf

abbrev pub accepted : ℕ → AppendEntriesReply
accepted term = record { term = term; success = true; conflict_index = 0; conflict_term = pos 0 }

-- From the merge on.
unfoldable pub accept : AppendEntriesArgs → Raft → Option (AppendEntriesReply × Raft)
accept args rf =
    let rf' = record rf { log = merge rf.log (args.prev_log_index + 1) args.entries } in
    elim (if ltb 0 (length args.entries) then persist rf' else some rf') [
      | none ↦ none
      | some rf'' ↦ some (accepted rf''.current_term, update_commit args rf'')
    ]

-- "Log Consistency Check"
unfoldable pub check_log : AppendEntriesArgs → Raft → Option (AppendEntriesReply × Raft)
check_log args rf =
    if leb (length rf.log) args.prev_log_index
    then some (
      record {
        term = rf.current_term;
        success = false;
        conflict_index = length rf.log;
        conflict_term = minus_one;
      },
      rf,
    )
    else elim (get_elem? rf.log args.prev_log_index) [
      | none ↦ none
      | some e ↦
          if e.term == args.prev_log_term
          then accept args rf
          else some (
            record {
              term = rf.current_term;
              success = false;
              conflict_index = first_of_term rf.log e.term (args.prev_log_index + 1) 0;
              conflict_term = pos e.term;
            },
            rf,
          )
    ]

unfoldable pub append_entries : ℕ → AppendEntriesArgs → Raft → Option (AppendEntriesReply × Raft)
append_entries now args rf =
    if ltb args.term rf.current_term
    then some (
      record { term = rf.current_term; success = false; conflict_index = 0; conflict_term = pos 0 },
      rf,
    )
    else check_log args (follow now args rf)
