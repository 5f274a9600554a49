-- ===== src/Raft/Election.antt =====
-- raft/raft.go: `startElection`, the count of the votes, and the decision of `ticker`.
pub mod Majority
use sisyphus_db.Prelude.{ℕ, zero, suc, ◌+◌, ◌-◌, ◌/◌, ◌≡◌, ℤ, pos, minus_one, Bool, true, false}
use sisyphus_db.Prelude.{List, [], ◌∷◌, length, get_elem?, Option, none, some, ltb, leb, ◌==◌}
use sisyphus_db.Prelude.{◌&&◌, if◌then◌else◌}
use sisyphus_db.Raft.Node.{
  LogEntry, Raft, State, follower, candidate, leader, is_leader, persist_state,
}
use sisyphus_db.Raft.RequestVote.{RequestVoteArgs, RequestVoteReply}

abbrev pub is_candidate : State → Bool
is_candidate follower = false
is_candidate candidate = true
is_candidate leader = false

unfoldable pub become_candidate : ℕ → Raft → Raft
become_candidate now rf = persist_state (record rf {
  state = candidate;
  current_term = rf.current_term + 1;
  voted_for = pos rf.me;
  last_reset_time = now;
})

-- The request that goes to every peer; `rf.log[lastLogIndex]` faults on an empty log.
unfoldable pub start_election : ℕ → Raft → Option (RequestVoteArgs × Raft)
start_election now rf =
    let rf' = become_candidate now rf in
    elim (get_elem? rf'.log (length rf'.log - 1)) [
      | none ↦ none
      | some last ↦ some (
        record {
          term = rf'.current_term;
          candidate_id = pos rf'.me;
          last_log_index = length rf'.log - 1;
          last_log_term = last.term;
        },
        rf',
      )
    ]

unfoldable pub votes_required : Raft → ℕ
votes_required rf = rf.peers / 2 + 1

-- `nextIndex[p] = len(log)` and `matchIndex[p] = 0` for every peer.
unfoldable pub become_leader : Raft → Raft
become_leader rf = record rf {
  state = leader;
  leader_id = pos rf.me;
  next_index = λ p. if ltb p rf.peers then length rf.log else rf.next_index p;
  match_index = λ p. if ltb p rf.peers then 0 else rf.match_index p;
}

-- One reply to the election of `term`, on `votesReceived` and the node.
unfoldable pub handle_vote : ℕ → RequestVoteReply → ℕ × Raft → ℕ × Raft
handle_vote term reply (votes, rf) =
    if is_candidate rf.state && rf.current_term == term
    then if ltb rf.current_term reply.term
      then (
        votes,
        persist_state (record rf {
          current_term = reply.term;
          state = follower;
          voted_for = minus_one;
          leader_id = minus_one;
        }),
      )
      else if reply.vote_granted
      then (suc votes, if suc votes == votes_required rf then become_leader rf else rf)
      else (votes, rf)
    else (votes, rf)

-- The replies in the order in which they take the mutex; the count starts with the node's own vote.
unfoldable pub count_votes : ℕ → List RequestVoteReply → ℕ × Raft → ℕ × Raft
count_votes term [] s = s
count_votes term (reply ∷ replies) s = count_votes term replies (handle_vote term reply s)

-- What `ticker` does after its sleep, with the random timeout as an argument.
pub data Tick : Type 0 where
  heartbeats elect wait : Tick

unfoldable pub tick : ℕ → ℕ → Raft → Tick
tick now timeout rf =
    if is_leader rf.state
    then heartbeats
    else if ltb timeout (now - rf.last_reset_time)
    then elect
    else wait
