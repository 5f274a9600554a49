-- ===== src/Raft/RequestVote.antt =====
-- raft/requestVotes.go
pub mod Voting
pub mod Once
use sisyphus_db.Prelude.{
  ℕ, ◌-◌, ◌≡◌, ℤ, minus_one, ◌==ℤ◌, Bool, true, false, ◌&&◌, ◌||◌, ltb, leb, ◌==◌,
}
use sisyphus_db.Prelude.{length, get_elem?, Option, none, some, if◌then◌else◌}
use sisyphus_db.Raft.Node.{LogEntry, Raft, follower, persist_state}

pub record RequestVoteArgs : Type 0 where
  pub term : ℕ
  pub candidate_id : ℤ
  pub last_log_index : ℕ
  pub last_log_term : ℕ

pub record RequestVoteReply : Type 0 where
  pub term : ℕ
  pub vote_granted : Bool

-- "We can become a follower": the step to a higher term.
unfoldable pub step_down : RequestVoteArgs → Raft → Raft
step_down args rf =
    if ltb rf.current_term args.term
    then persist_state (record rf {
      current_term = args.term;
      state = follower;
      voted_for = minus_one;
      leader_id = minus_one;
    })
    else rf

-- The candidate's log is at least as up to date as one that ends in term `t` at index `i`.
unfoldable pub log_ok : RequestVoteArgs → ℕ → ℕ → Bool
log_ok args t i = ltb t args.last_log_term || args.last_log_term == t && leb i args.last_log_index

unfoldable pub decide_vote : ℕ → RequestVoteArgs → ℕ → Raft → RequestVoteReply × Raft
decide_vote now args last_term rf =
    if (rf.voted_for ==ℤ minus_one || rf.voted_for ==ℤ args.candidate_id)
      && log_ok args last_term (length rf.log - 1)
    then (
      record { term = rf.current_term; vote_granted = true },
      record (persist_state (record rf { voted_for = args.candidate_id; state = follower })) {
        last_reset_time = now;
      },
    )
    else (record { term = rf.current_term; vote_granted = false }, rf)

-- `rf.log[len(rf.log)-1]` faults on an empty log.
unfoldable pub request_vote : ℕ → RequestVoteArgs → Raft → Option (RequestVoteReply × Raft)
request_vote now args rf =
    if ltb args.term rf.current_term
    then some (record { term = rf.current_term; vote_granted = false }, rf)
    else elim (get_elem? rf.log (length rf.log - 1)) [
      | none ↦ none
      | some last ↦ some (decide_vote now args last.term (step_down args rf))
    ]
