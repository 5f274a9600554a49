-- ===== src/Rpc/Examples.antt =====
-- The theorems on the calls between nodes at concrete inputs.
use sisyphus_db.Prelude.{◌≡◌, refl, arith, true, false, some, [], ◌∷◌, pos, Outcome, err}
use sisyphus_db.Raft.Node.{Raft, LogEntry, blank, sentinel}
use sisyphus_db.Raft.RequestVote.{RequestVoteArgs, RequestVoteReply, request_vote}
use sisyphus_db.Raft.AppendEntries.{
  AppendEntriesArgs, append_entries, accepted, check_log, accept, follow, update_commit,
}
use sisyphus_db.Rpc.{
  RpcError, VoteResponse, AppendResponse, live, canceled, request_canceled, vote_request,
  append_request, serve_vote, serve_append, vote_reply, append_reply,
}
use sisyphus_db.Rpc.Direct.{serve-direct}

abbrev follower_node : Raft
follower_node = record (blank 3 0 [] 0) { current_term = 1; log = sentinel ∷ [] }

abbrev late_vote : RequestVoteArgs
late_vote = record { term = 0; candidate_id = pos 2; last_log_index = 0; last_log_term = 0 }

abbrev refused : RequestVoteReply
refused = record { term = 1; vote_granted = false }

abbrev one_entry : AppendEntriesArgs
one_entry = record {
  term = 1;
  leader_id = pos 1;
  prev_log_index = 0;
  prev_log_term = 0;
  entries = record { index = 1; term = 1; command = 7 ∷ [] } ∷ [];
  leader_commit = 0;
}

vote_refused : request_vote 5 late_vote follower_node ≡ some (refused, follower_node)
unfolding request_vote
vote_refused = refl

entry_accepted : (rf' : Raft) × (append_entries 5 one_entry follower_node ≡ some (accepted 1, rf'))
unfolding append_entries check_log accept follow update_commit sisyphus_db.Raft.Node.persist_state
    sisyphus_db.Raft.Node.persist sisyphus_db.Raft.AppendEntries.merge
    sisyphus_db.Raft.AppendEntries.merge_one sisyphus_db.RaftWal.append_entries
    sisyphus_db.RaftWal.persist_hard_state blank sisyphus_db.RaftWal.create_or_open
entry_accepted = (_, refl)

serve-direct_example :
    (voting : Outcome RpcError VoteResponse) × (serve_vote live true 5
        (some (vote_request late_vote))
        follower_node
      ≡ some (voting, follower_node))
    × (vote_reply voting ≡ some (some refused))
    × (appending : Outcome RpcError AppendResponse) × (serve_append live live true 5
          (some (append_request one_entry))
          follower_node
        ≡ some (appending, entry_accepted.0))
    × (append_reply appending ≡ some (some (accepted 1)))
    × (serve_append live canceled true 5 (some (append_request one_entry)) follower_node
        ≡ some (err request_canceled, entry_accepted.0))
serve-direct_example =
    serve-direct 5 follower_node follower_node entry_accepted.0 late_vote refused vote_refused
      (omega arith, omega arith, omega arith, omega arith) (omega arith) one_entry (accepted 1)
      entry_accepted.1
      (
        omega arith,
        omega arith,
        omega arith,
        omega arith,
        ((omega arith, omega arith), tt),
        omega arith,
      )
      (omega arith, omega arith, omega arith)
