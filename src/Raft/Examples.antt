-- ===== src/Raft/Examples.antt =====
-- Concrete nodes: runs of the handlers, and the theorems at these inputs.
use sisyphus_db.Raft.Persist.Replaced.{restart_loses_replaced}
use sisyphus_db.Prelude.{map}
use sisyphus_db.Raft.Node.{to_wal_entry}
use sisyphus_db.RaftWal.RoundTrip.{log_rec}
use sisyphus_db.Prelude.{inl, inr}
use sisyphus_db.Prelude.{
  ℕ, zero, suc, ◌+◌, ◌-◌, ◌*◌, ◌^◌, ◌≤◌, ◌<◌, ◌≡◌, ◌≢◌, refl, ◌⊎◌, inr, arith, ◌↔◌,
}
use sisyphus_db.Prelude.{true, false, List, [], ◌∷◌, ◌++◌, length, take, get_elem?, some}
use sisyphus_db.Prelude.{pos, minus_one}
use sisyphus_db.Raft.Node.{LogEntry, Raft, follower, leader, sentinel}
use sisyphus_db.Raft.Node.{is_leader}
use sisyphus_db.Raft.Invariant.{IsValid}
use sisyphus_db.Raft.AppendEntries.{
  AppendEntriesArgs, AppendEntriesReply, append_entries, accepted, merge, merge_one,
}
use sisyphus_db.Raft.AppendEntries.Branches.{HasTerm, Accepted}
use sisyphus_db.Raft.AppendEntries.Conflict.{IsFirstOf, Kept, append_entries_conflict}
use sisyphus_db.Raft.AppendEntries.Safety.{NoConflict}
use sisyphus_db.Raft.AppendEntries.Guarantees.{
  append_entries_cases, append_entries_matches, append_entries_redelivered,
  append_entries_keeps_committed, append_entries-IsValid, append_entries_commit_drops,
}
use sisyphus_db.Raft.RequestVote.{
  RequestVoteArgs, RequestVoteReply, request_vote, decide_vote, step_down, log_ok,
}
use sisyphus_db.Raft.RequestVote.Voting.{UpToDate, VoteFree, Granted, voted, request_vote-Granted}
use sisyphus_db.Raft.RequestVote.Once.{Ballots, one_vote_per_term, append_entries_second_vote}
use sisyphus_db.Raft.Node.{persist, persist_state, make}
use sisyphus_db.Raft.Persist.Restart.{
  restart_restores, restart_loses_sentinel, restart_keeps_vote, restart_garbles_vote,
}
use sisyphus_db.RaftWal.{HardState}
use sisyphus_db.RaftWal.RoundTrip.{Rec, state_rec, encode_recs}
use sisyphus_db.Raft.Leader.{handle_reply, advance_match, heartbeat_args, commit_loop, can_commit}
use sisyphus_db.Raft.Leader.{replicas, of_term, term_at, batch}
use sisyphus_db.Raft.Leader.Commit.{IsReplicated, handle_reply_commits, handle_reply_commits_all}
use sisyphus_db.Raft.Leader.Backtrack.{backtrack_progress}
use sisyphus_db.Raft.Election.{start_election, become_candidate, count_votes}
use sisyphus_db.Raft.Election.Majority.{granted, election_majority, election_alone}
use sisyphus_db.Raft.Applier.{apply_ready}
use sisyphus_db.Raft.Applier.Delivery.{apply_ready_in_order}

abbrev entry : ℕ → ℕ → LogEntry
entry i t = record { index = i; term = t; command = [] }

-- Terms 0, 1, 1, 2, of which index 1 is committed.
abbrev node : Raft
node = record {
  peers = 3;
  me = 0;
  leader_id = minus_one;
  current_term = 2;
  voted_for = pos 0;
  log = sentinel ∷ entry 1 1 ∷ entry 2 1 ∷ entry 3 2 ∷ [];
  wal = record { file = []; last_persisted = 0; sync_requested = false };
  commit_index = 1;
  last_applied = 0;
  next_index = λ _. 0;
  match_index = λ _. 0;
  state = follower;
  last_reset_time = 0;
  triggered = false;
  commit_signal = false;
}

-- Overwrites index 3 by an entry of term 3 and adds another.
abbrev call : AppendEntriesArgs
call = record {
  term = 3;
  leader_id = pos 1;
  prev_log_index = 2;
  prev_log_term = 1;
  entries = entry 3 3 ∷ entry 4 3 ∷ [];
  leader_commit = 3;
}

node-IsValid : IsValid node
node-IsValid = record { applied_le = omega arith; commit_lt = omega arith }

call-NoConflict : NoConflict 1 call node.log
call-NoConflict i j l e at le p q = absurd (omega arith)

merged_log :
    merge node.log 3 call.entries ≡ sentinel ∷ entry 1 1 ∷ entry 2 1 ∷ entry 3 3 ∷ entry 4 3 ∷ []
unfolding merge merge_one
merged_log = refl

append_entries_matches_example :
    (rf' : Raft) × (append_entries 7 call node ≡ some (accepted 3, rf'))
    × HasTerm rf'.log (2 + 1 + 1) 3
    × (take (2 + 1) rf'.log ≡ take (2 + 1) node.log)
append_entries_matches_example =
    append_entries_matches 7 call node (omega arith) (entry 2 1, refl, refl) (omega arith) 1
      (entry 4 3) refl

append_entries_keeps_committed_example :
    (reply : AppendEntriesReply) × (rf' : Raft) × (append_entries 7 call node ≡ some (reply, rf'))
    × (take (1 + 1) rf'.log ≡ take (1 + 1) node.log)
    × (rf'.commit_index < length rf'.log)
append_entries_keeps_committed_example =
    append_entries_keeps_committed 7 call node (omega arith) call-NoConflict (omega arith)

append_entries-IsValid_example :
    (reply : AppendEntriesReply) × (rf' : Raft) × (append_entries 7 call node ≡ some (reply, rf'))
    × (1 ≤ rf'.commit_index)
    × IsValid rf'
append_entries-IsValid_example =
    append_entries-IsValid 7 call node node-IsValid call-NoConflict (omega arith) (omega arith)

append_entries_redelivered_example :
    (rf' rf'' : Raft) × (append_entries 7 call node ≡ some (accepted 3, rf'))
    × (append_entries 8 call rf' ≡ some (accepted 3, rf''))
    × (rf''.log ≡ rf'.log)
append_entries_redelivered_example =
    append_entries_redelivered 7 call node 8 (omega arith) (entry 2 1, refl, refl) (omega arith)

append_entries_cases_example :
    (reply : AppendEntriesReply) × (rf' : Raft) × (append_entries 7 call node ≡ some (reply, rf'))
    × (((reply.success ≡ true) × (2 ≤ 3) × HasTerm node.log 2 1 × Accepted call node rf')
        ⊎ ((reply.success ≡ false) × ((3 < 2) ⊎ ¬ HasTerm node.log 2 1) × Kept node rf'))
append_entries_cases_example = append_entries_cases 7 call node (omega arith)

-- A late heartbeat that ends at index 0, from a leader that has committed more.
abbrev late_call : AppendEntriesArgs
late_call = record call { prev_log_index = 0; prev_log_term = 0; entries = []; term = 2 }

append_entries_commit_drops_example :
    (rf' : Raft) × (append_entries 7 late_call node ≡ some (accepted 2, rf'))
    × (rf'.commit_index < 1)
append_entries_commit_drops_example =
    append_entries_commit_drops 7 late_call node (omega arith) (sentinel, refl, refl) (omega arith)
      (omega arith) (omega arith)

-- The follower has term 2 at index 3.
abbrev conflicting_call : AppendEntriesArgs
conflicting_call = record call { prev_log_index = 3; prev_log_term = 3; entries = [] }

append_entries_conflict_example :
    (k : ℕ) × (rf' : Raft) × (append_entries 7 conflicting_call node
      ≡ some (record { term = 3; success = false; conflict_index = k; conflict_term = pos 2 }, rf'))
    × IsFirstOf node.log 2 3 k
    × Kept node rf'
append_entries_conflict_example =
    append_entries_conflict 7 conflicting_call node (omega arith) (entry 3 2) refl (omega arith)

-- Votes.
abbrev free_node : Raft
free_node = record node { voted_for = minus_one }

abbrev ask : ℕ → RequestVoteArgs
ask c = record { term = 2; candidate_id = pos c; last_log_index = 3; last_log_term = 2 }

abbrev yes_reply : RequestVoteReply
yes_reply = record { term = 2; vote_granted = true }

first_vote : request_vote 5 (ask 1) free_node ≡ some (yes_reply, voted 5 (ask 1) free_node)
unfolding request_vote decide_vote step_down log_ok
first_vote = refl

request_vote-Granted_example :
    (2 ≤ 2)
    × VoteFree (ask 1) free_node
    × (last : LogEntry) × (get_elem? free_node.log 3 ≡ some last)
    × UpToDate (ask 1) last 4
    × (yes_reply.term ≡ 2)
    × Granted (ask 1) free_node (voted 5 (ask 1) free_node)
request_vote-Granted_example =
    request_vote-Granted 5 (ask 1) free_node yes_reply (voted 5 (ask 1) free_node) first_vote refl

second_vote :
    request_vote 6 (ask 1) (voted 5 (ask 1) free_node)
    ≡ some (yes_reply, voted 6 (ask 1) (voted 5 (ask 1) free_node))
unfolding request_vote decide_vote step_down log_ok persist_state
second_vote = refl

one_vote_per_term_example : (ask 1).candidate_id ≡ (ask 1).candidate_id
one_vote_per_term_example =
    one_vote_per_term 5 6 1 (ask 1) (ask 1) yes_reply yes_reply free_node
      (voted 5 (ask 1) free_node) (voted 5 (ask 1) free_node)
      (voted 6 (ask 1) (voted 5 (ask 1) free_node)) first_vote refl refl Ballots.here second_vote
      refl refl

-- The node has voted for 0; a heartbeat of term 2 and a request of node 2 make it vote again.
append_entries_second_vote_example :
    (rf' rf'' : Raft) × (r : RequestVoteReply) × (append_entries 7 late_call node
      ≡ some (accepted 2, rf'))
    × (request_vote 8 (ask 2) rf' ≡ some (r, rf''))
    × (r.vote_granted ≡ true)
    × (r.term ≡ 2)
    × (rf''.voted_for ≡ pos 2)
append_entries_second_vote_example =
    append_entries_second_vote 7 8 late_call (ask 2) node (entry 3 2) refl refl refl
      (sentinel, refl, refl) (omega arith) refl (inr (refl, omega arith))

-- The node as a leader, whose next call to server 1 starts at index 3.
abbrev ld : Raft
ld = record node { state = leader; next_index = λ _. 3 }

abbrev heartbeat : AppendEntriesArgs
heartbeat = record {
  term = 2;
  leader_id = pos 0;
  prev_log_index = 2;
  prev_log_term = 1;
  entries = entry 3 2 ∷ [];
  leader_commit = 1;
}

heartbeat_sent : heartbeat_args 2 1 ld ≡ some heartbeat
unfolding heartbeat_args batch term_at
heartbeat_sent = refl

-- A follower that has nothing at index 3, and one that has another term at index 2.
abbrev short_node : Raft
short_node = record node { log = sentinel ∷ entry 1 1 ∷ entry 2 1 ∷ [] }

abbrev other_node : Raft
other_node = record node { log = sentinel ∷ entry 1 0 ∷ entry 2 0 ∷ [] }

other_node-differs : ¬ HasTerm other_node.log 2 1
other_node-differs (e, here, same) = ground arith

other_node-NotBehind :
    (j : ℕ) (l e : LogEntry)
    → 2 < j
    → get_elem? ld.log j ≡ some l
    → get_elem? other_node.log 2 ≡ some e
    → l.term ≢ e.term
other_node-NotBehind zero l e lt p q = absurd (omega arith)
other_node-NotBehind (suc zero) l e lt p q = absurd (omega arith)
other_node-NotBehind (suc (suc zero)) l e lt p q = absurd (omega arith)
other_node-NotBehind (suc (suc (suc zero))) l e lt p q = ground arith
other_node-NotBehind (suc (suc (suc (suc j)))) l e lt p q = cc

backtrack_progress_example :
    (reply : AppendEntriesReply) × (f' : Raft) × (append_entries 7 heartbeat other_node
      ≡ some (reply, f'))
    × (reply.success ≡ false)
    × (1 ≤ (handle_reply 1 heartbeat reply ld).next_index 1)
    × ((handle_reply 1 heartbeat reply ld).next_index 1 < 3)
backtrack_progress_example =
    backtrack_progress 7 2 1 ld other_node heartbeat heartbeat_sent (omega arith) (omega arith)
      (omega arith) (omega arith) (omega arith) other_node-differs other_node-NotBehind

abbrev success : AppendEntriesReply
success = accepted 2

abbrev after_success : Raft
after_success = handle_reply 1 heartbeat success ld

handle_reply_commits_example :
    (after_success.commit_index ≡ 1)
    ⊎ ((1 < after_success.commit_index)
        × (after_success.commit_index < length after_success.log)
        × IsReplicated after_success after_success.commit_index)
handle_reply_commits_example =
    handle_reply_commits 1 heartbeat success ld (omega arith) refl after_success refl
      (record { applied_le = omega arith; commit_lt = omega arith }) (omega arith)

after_success-IsReplicated : IsReplicated after_success 3
unfolding handle_reply advance_match commit_loop can_commit replicas of_term
after_success-IsReplicated = record {
  quorum = 1 ∷ (0 ∷ []);
  peers = (omega arith, (omega arith, tt));
  hold = (inr (omega arith), (inl refl, tt));
  majority = omega arith;
  own_term = (entry 3 2, refl, refl);
}

handle_reply_commits_all_example : 3 ≤ after_success.commit_index
handle_reply_commits_all_example =
    handle_reply_commits_all 1 heartbeat success ld (omega arith) refl after_success refl 3
      after_success-IsReplicated

-- An election of three.
abbrev ballot : RequestVoteArgs
ballot = record { term = 3; candidate_id = pos 0; last_log_index = 3; last_log_term = 2 }

started : start_election 9 node ≡ some (ballot, become_candidate 9 node)
unfolding start_election become_candidate persist_state
started = refl

abbrev votes : List RequestVoteReply
votes = record { term = 3; vote_granted = true } ∷ record { term = 3; vote_granted = false } ∷ []

election_majority_example :
    (is_leader (count_votes 3 votes (1, become_candidate 9 node)).1.state ≡ true)
    ↔ (3 < 2 * (1 + granted votes))
election_majority_example =
    election_majority 9 node ballot (become_candidate 9 node) votes started (omega arith)
      (omega arith)

abbrev lone_node : Raft
lone_node = record node { peers = 1 }

started_alone : start_election 9 lone_node ≡ some (ballot, become_candidate 9 lone_node)
unfolding start_election become_candidate persist_state
started_alone = refl

election_alone_example :
    is_leader (count_votes 3 [] (1, become_candidate 9 lone_node)).1.state ≡ false
election_alone_example =
    election_alone 9 lone_node ballot (become_candidate 9 lone_node) [] started_alone (omega arith)

apply_ready_in_order_example :
    (out : List LogEntry) × (rf' : Raft) × (apply_ready node ≡ some (out, rf'))
    × (take (rf'.last_applied + 1) rf'.log ≡ (sentinel ∷ []) ++ out)
    × (rf'.last_applied ≡ rf'.commit_index)
    × IsValid rf'
apply_ready_in_order_example = apply_ready_in_order node node-IsValid

-- Restarts.
abbrev state_2 : HardState
state_2 = record { term = 2; vote = 1; commit = 0 }

abbrev on_disk : List Rec
on_disk = state_rec state_2 ∷ []

restart_restores_example :
    let restarted = make 3 0 (encode_recs on_disk) 0 in
    (restarted.log ≡ sentinel ∷ [])
    × (restarted.current_term ≡ 2)
    × (restarted.voted_for ≡ pos 1)
    × (restarted.commit_index ≡ 0)
restart_restores_example =
    restart_restores 3 0 0 (encode_recs on_disk) on_disk refl (omega arith) (omega arith)

abbrev written_node : Raft
written_node = record node {
  wal = record { file = encode_recs on_disk; last_persisted = 0; sync_requested = false };
}

-- A node whose file has three entries, the last two of term 1.
abbrev replaced_node : Raft
replaced_node = record node {
  wal = record {
    file =
        encode_recs (map (λ e. log_rec (to_wal_entry e)) (entry 1 1 ∷ entry 2 1 ∷ entry 3 1 ∷ []));
    last_persisted = 3;
    sync_requested = false;
  };
}

restart_loses_replaced_example :
    (rf' : Raft) × (persist (record replaced_node { log = sentinel ∷ entry 1 1 ∷ entry 2 2 ∷ [] })
      ≡ some rf')
    × (rf'.log ≡ sentinel ∷ entry 1 1 ∷ entry 2 2 ∷ [])
    × ((make 3 0 rf'.wal.file 4).log ≡ (make 3 0 replaced_node.wal.file 4).log)
restart_loses_replaced_example =
    restart_loses_replaced replaced_node (sentinel ∷ entry 1 1 ∷ entry 2 2 ∷ []) 4 (omega arith)
      (omega arith)

restart_loses_sentinel_example :
    (rf' : Raft) × (persist written_node ≡ some rf')
    × ((make 3 0 rf'.wal.file 4).log ≡ entry 1 1 ∷ entry 2 1 ∷ entry 3 2 ∷ [])
restart_loses_sentinel_example =
    restart_loses_sentinel written_node (entry 1 1) (entry 2 1 ∷ entry 3 2 ∷ []) on_disk 4 refl
      (omega arith) (omega arith) refl (omega arith) refl refl

restart_keeps_vote_example :
    let restarted = make 3 0 (persist_state written_node).wal.file 4 in
    (restarted.current_term ≡ 2) × (restarted.voted_for ≡ pos 0) × (restarted.commit_index ≡ 1)
restart_keeps_vote_example =
    restart_keeps_vote written_node on_disk 4 (omega arith) (omega arith) (omega arith) refl
      (omega arith) 0 (omega arith) refl

abbrev free_written : Raft
free_written = record written_node { voted_for = minus_one }

restart_garbles_vote_example :
    let restarted = make 3 0 (persist_state free_written).wal.file 4 in
    (restarted.current_term ≡ 2) × (restarted.voted_for ≡ pos (2 ^ 32 - 1))
restart_garbles_vote_example =
    restart_garbles_vote free_written on_disk 4 (omega arith) (omega arith) (omega arith) refl
      (omega arith) refl
