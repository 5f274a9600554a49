-- ===== src/Rpc/Direct.antt =====
-- A call over gRPC against a call of the handler itself.
use sisyphus_db.Prelude.{
  ℕ, ◌^◌, ◌<◌, ◌≡◌, refl, ap, ◌∙◌, true, List, [], ◌∷◌, map, All, some, ok, err,
}
use sisyphus_db.Prelude.{pos, int32, int32-small, FitsInt32, int32-FitsInt32}
use sisyphus_db.Raft.Node.{Raft, LogEntry}
use sisyphus_db.Raft.RequestVote.{RequestVoteArgs, RequestVoteReply, request_vote}
use sisyphus_db.Raft.AppendEntries.{AppendEntriesArgs, AppendEntriesReply, append_entries}
use sisyphus_db.Prelude.{Outcome}
use sisyphus_db.Rpc.{
  ◌>>=◌, RpcError, VoteResponse, AppendResponse, request_canceled, Context, live, canceled,
  vote_request, entry_message, append_request, natural, vote_args, log_entry, log_entries,
  append_args, vote_response, append_response, ensure_ready, answer_vote, serve_vote, answer_append,
  serve_append, vote_reply, append_reply,
}

natural-int32 : (n : ℕ) → n < 2 ^ 31 → natural (int32 (pos n)) ≡ some n
unfolding natural
natural-int32 n h = ap natural (int32-small n h)

abbrev pub FitsVote : RequestVoteArgs → Type 0
FitsVote args =
    (args.term < 2 ^ 31)
    × FitsInt32 args.candidate_id
    × (args.last_log_index < 2 ^ 31)
    × (args.last_log_term < 2 ^ 31)

abbrev pub FitsLogEntry : LogEntry → Type 0
FitsLogEntry e = (e.term < 2 ^ 31) × (e.index < 2 ^ 31)

abbrev pub FitsAppend : AppendEntriesArgs → Type 0
FitsAppend args =
    (args.term < 2 ^ 31)
    × FitsInt32 args.leader_id
    × (args.prev_log_index < 2 ^ 31)
    × (args.prev_log_term < 2 ^ 31)
    × All FitsLogEntry args.entries
    × (args.leader_commit < 2 ^ 31)

abbrev pub FitsReply : AppendEntriesReply → Type 0
FitsReply reply =
    (reply.term < 2 ^ 31) × (reply.conflict_index < 2 ^ 31) × FitsInt32 reply.conflict_term

vote_args-request :
    (args : RequestVoteArgs) → FitsVote args → vote_args (vote_request args) ≡ some args
unfolding vote_args vote_request
vote_args-request args (h0, h1, h2, h3) =
    simp
      (
        natural-int32 args.term h0,
        int32-FitsInt32 args.candidate_id h1,
        natural-int32 args.last_log_index h2,
        natural-int32 args.last_log_term h3,
      )
      refl

log_entry-message : (e : LogEntry) → FitsLogEntry e → log_entry (entry_message e) ≡ some e
unfolding log_entry entry_message
log_entry-message e (h0, h1) = simp (natural-int32 e.term h0, natural-int32 e.index h1) refl

log_entries-messages :
    (es : List LogEntry) → All FitsLogEntry es → log_entries (map entry_message es) ≡ some es
unfolding log_entries
log_entries-messages [] h = refl
log_entries-messages (e ∷ es) h =
    rw (log_entry-message e h.0, log_entries-messages es h.1, log_entries) refl

append_args-request :
    (args : AppendEntriesArgs) → FitsAppend args → append_args (append_request args) ≡ some args
unfolding append_args append_request
append_args-request args (h0, h1, h2, h3, h4, h5) =
    simp
      (
        natural-int32 args.term h0,
        int32-FitsInt32 args.leader_id h1,
        natural-int32 args.prev_log_index h2,
        natural-int32 args.prev_log_term h3,
        log_entries-messages args.entries h4,
        natural-int32 args.leader_commit h5,
      )
      refl

vote_reply-response :
    (reply : RequestVoteReply)
    → reply.term < 2 ^ 31
    → vote_reply (ok (vote_response reply)) ≡ some (some reply)
unfolding vote_reply vote_response
vote_reply-response reply h = simp (natural-int32 reply.term h) refl

append_reply-response :
    (reply : AppendEntriesReply)
    → FitsReply reply
    → append_reply (ok (append_response reply)) ≡ some (some reply)
unfolding append_reply append_response
append_reply-response reply (h0, h1, h2) =
    simp
      (
        natural-int32 reply.term h0,
        natural-int32 reply.conflict_index h1,
        int32-FitsInt32 reply.conflict_term h2,
      )
      refl

answer_vote-some :
    (now : ℕ) (args : RequestVoteArgs) (rf rf' : Raft) (reply : RequestVoteReply)
    → request_vote now args rf ≡ some (reply, rf')
    → answer_vote now args rf ≡ (ok (vote_response reply), rf')
unfolding answer_vote
answer_vote-some now args rf rf' reply e = rw (e, answer_vote) refl

answer_append-some :
    (now : ℕ) (args : AppendEntriesArgs) (rf rf' : Raft) (reply : AppendEntriesReply)
    → append_entries now args rf ≡ some (reply, rf')
    → answer_append live now args rf ≡ (ok (append_response reply), rf')
unfolding answer_append
answer_append-some now args rf rf' reply e = rw (e, answer_append) refl

answer_append-canceled :
    (now : ℕ) (args : AppendEntriesArgs) (rf rf' : Raft) (reply : AppendEntriesReply)
    → append_entries now args rf ≡ some (reply, rf')
    → answer_append canceled now args rf ≡ (err request_canceled, rf')
unfolding answer_append
answer_append-canceled now args rf rf' reply e = rw (e, answer_append) refl

serve_append-ready :
    (after : Context) (now : ℕ) (args : AppendEntriesArgs) (rf : Raft)
    → FitsAppend args
    → serve_append live after true now (some (append_request args)) rf
      ≡ some (answer_append after now args rf)
unfolding serve_append ensure_ready
serve_append-ready after now args rf fits =
    ap (λ a. a >>= λ x. some (answer_append after now x rf)) (append_args-request args fits)

-- Requests and replies whose numbers fit 32 bits, over the server of a node that is ready: a sender gets
-- the reply that the handler of the node gives to a direct call, and the node changes as it does there,
-- for RequestVote and for AppendEntries. When the context of an AppendEntries ends during the call, the
-- node changes all the same, and the sender gets no reply.
pub serve-direct :
    (now : ℕ) (rf vote_rf append_rf : Raft)
    → (vote : RequestVoteArgs) (voted : RequestVoteReply)
    → request_vote now vote rf ≡ some (voted, vote_rf)
    → FitsVote vote
    → voted.term < 2 ^ 31
    → (args : AppendEntriesArgs) (reply : AppendEntriesReply)
    → append_entries now args rf ≡ some (reply, append_rf)
    → FitsAppend args
    → FitsReply reply
    → (voting : Outcome RpcError VoteResponse) × (serve_vote live true now
          (some (vote_request vote))
          rf
        ≡ some (voting, vote_rf))
      × (vote_reply voting ≡ some (some voted))
      × (appending : Outcome RpcError AppendResponse) × (serve_append live live true now
            (some (append_request args))
            rf
          ≡ some (appending, append_rf))
      × (append_reply appending ≡ some (some reply))
      × (serve_append live canceled true now (some (append_request args)) rf
          ≡ some (err request_canceled, append_rf))
unfolding serve_vote ensure_ready
serve-direct now rf vote_rf append_rf vote voted done_vote fits_vote fits_voted args reply
      done_append fits fits_reply =
    (
      ok (vote_response voted),
      ap (λ a. a >>= λ x. some (answer_vote now x rf)) (vote_args-request vote fits_vote)
          ∙ ap some (answer_vote-some now vote rf vote_rf voted done_vote),
      vote_reply-response voted fits_voted,
      ok (append_response reply),
      serve_append-ready live now args rf fits
          ∙ ap some (answer_append-some now args rf append_rf reply done_append),
      append_reply-response reply fits_reply,
      serve_append-ready canceled now args rf fits
          ∙ ap some (answer_append-canceled now args rf append_rf reply done_append),
    )
