-- ===== src/Rpc.antt =====
-- api/raft_server.go, with sendRequestVote of raft/raft.go and sendAppendEntries of
-- raft/appendEntries.go: the two calls between nodes. gRPC carries a message as it is, or fails.
pub mod Direct
mod Examples
use sisyphus_db.Prelude.{ℕ, zero, Bool, true, false, List, [], ◌∷◌, map, Option, none, some, Bytes}
use sisyphus_db.Prelude.{ℤ, pos, negsuc, int32, Outcome, ok, err, panic}
use sisyphus_db.Raft.Node.{Raft, LogEntry}
use sisyphus_db.Raft.RequestVote.{RequestVoteArgs, RequestVoteReply, request_vote}
use sisyphus_db.Raft.AppendEntries.{AppendEntriesArgs, AppendEntriesReply, append_entries}

infixl 20 ◌>>=◌
abbrev pub ◌>>=◌ : {A B : Type 0} → Option A → (A → Option B) → Option B
none >>= f = none
some a >>= f = f a

-- The messages of proto/raft.proto; the numbers are `int32`.
pub record VoteRequest : Type 0 where
  pub term : ℤ
  pub candidate_id : ℤ
  pub last_log_index : ℤ
  pub last_log_term : ℤ

pub record VoteResponse : Type 0 where
  pub term : ℤ
  pub vote_granted : Bool

pub record EntryMessage : Type 0 where
  pub term : ℤ
  pub index : ℤ
  pub command : Bytes

pub record AppendRequest : Type 0 where
  pub term : ℤ
  pub leader_id : ℤ
  pub prev_log_index : ℤ
  pub prev_log_term : ℤ
  pub entries : List EntryMessage
  pub leader_commit : ℤ

pub record AppendResponse : Type 0 where
  pub term : ℤ
  pub success : Bool
  pub conflict_index : ℤ
  pub conflict_term : ℤ

-- `ctx.Err()`
pub data Context : Type 0 where
  live canceled deadline_exceeded other : Context

pub data RpcError : Type 0 where
  request_canceled request_late internal not_initialized invalid_argument : RpcError

unfoldable pub vote_request : RequestVoteArgs → VoteRequest
vote_request args = record {
  term = int32 (pos args.term);
  candidate_id = int32 args.candidate_id;
  last_log_index = int32 (pos args.last_log_index);
  last_log_term = int32 (pos args.last_log_term);
}

unfoldable pub entry_message : LogEntry → EntryMessage
entry_message e = record {
  term = int32 (pos e.term);
  index = int32 (pos e.index);
  command = e.command;
}

unfoldable pub append_request : AppendEntriesArgs → AppendRequest
append_request args = record {
  term = int32 (pos args.term);
  leader_id = int32 args.leader_id;
  prev_log_index = int32 (pos args.prev_log_index);
  prev_log_term = int32 (pos args.prev_log_term);
  entries = map entry_message args.entries;
  leader_commit = int32 (pos args.leader_commit);
}

-- A node of the model has natural numbers as terms and indices. A negative one is outside the model:
-- `none`, here and in what follows, says nothing of the program.
unfoldable pub natural : ℤ → Option ℕ
natural (pos n) = some n
natural (negsuc n) = none

unfoldable pub vote_args : VoteRequest → Option RequestVoteArgs
vote_args req = do
  term ← natural req.term
  last_log_index ← natural req.last_log_index
  last_log_term ← natural req.last_log_term
  some (record {
    term = term;
    candidate_id = req.candidate_id;
    last_log_index = last_log_index;
    last_log_term = last_log_term;
  })

unfoldable pub log_entry : EntryMessage → Option LogEntry
log_entry e = do
  term ← natural e.term
  index ← natural e.index
  some (record { index = index; term = term; command = e.command })

unfoldable pub log_entries : List EntryMessage → Option (List LogEntry)
log_entries [] = some []
log_entries (e ∷ es) = do entry ← log_entry e; entries ← log_entries es; some (entry ∷ entries)

unfoldable pub append_args : AppendRequest → Option AppendEntriesArgs
append_args req = do
  entries ← log_entries req.entries
  term ← natural req.term
  prev_log_index ← natural req.prev_log_index
  prev_log_term ← natural req.prev_log_term
  leader_commit ← natural req.leader_commit
  some (record {
    term = term;
    leader_id = req.leader_id;
    prev_log_index = prev_log_index;
    prev_log_term = prev_log_term;
    entries = entries;
    leader_commit = leader_commit;
  })

unfoldable pub vote_response : RequestVoteReply → VoteResponse
vote_response reply = record { term = int32 (pos reply.term); vote_granted = reply.vote_granted }

unfoldable pub append_response : AppendEntriesReply → AppendResponse
append_response reply = record {
  term = int32 (pos reply.term);
  success = reply.success;
  conflict_index = int32 (pos reply.conflict_index);
  conflict_term = int32 reply.conflict_term;
}

-- `none` is no error.
unfoldable pub ensure_ready : Context → Bool → Option RpcError
ensure_ready live true = none
ensure_ready live false = some not_initialized
ensure_ready canceled is_ready = some request_canceled
ensure_ready deadline_exceeded is_ready = some request_late
ensure_ready other is_ready = some internal

-- The call behind its conversion, where `none` of the handler is its fault.
unfoldable pub answer_vote : ℕ → RequestVoteArgs → Raft → Outcome RpcError VoteResponse × Raft
answer_vote now args rf = elim (request_vote now args rf) [
  | none ↦ (panic, rf)
  | some (reply, rf') ↦ (ok (vote_response reply), rf')
]

-- The handler of the server; a request of `none` is nil.
unfoldable pub serve_vote :
    Context → Bool → ℕ → Option VoteRequest → Raft → Option (Outcome RpcError VoteResponse × Raft)
serve_vote ctx is_ready now req rf = elim (ensure_ready ctx is_ready) [
  | some e ↦ some (err e, rf)
  | none ↦ elim req [
    | none ↦ some (err invalid_argument, rf)
    | some r ↦ vote_args r >>= λ args. some (answer_vote now args rf)
  ]
]

-- `after` is the context behind the call.
unfoldable pub answer_append :
    Context → ℕ → AppendEntriesArgs → Raft → Outcome RpcError AppendResponse × Raft
answer_append after now args rf = elim (append_entries now args rf) [
  | none ↦ (panic, rf)
  | some (reply, rf') ↦ (
    elim after [
      | live ↦ ok (append_response reply)
      | canceled ↦ err request_canceled
      | deadline_exceeded ↦ err request_canceled
      | other ↦ err request_canceled
    ],
    rf',
  )
]

unfoldable pub serve_append :
    Context
    → Context
    → Bool
    → ℕ
    → Option AppendRequest
    → Raft
    → Option (Outcome RpcError AppendResponse × Raft)
serve_append ctx after is_ready now req rf = elim (ensure_ready ctx is_ready) [
  | some e ↦ some (err e, rf)
  | none ↦ elim req [
    | none ↦ some (err invalid_argument, rf)
    | some r ↦ append_args r >>= λ args. some (answer_append after now args rf)
  ]
]

-- What the sender reads of the response; the inner `none` is the result `false`.
unfoldable pub vote_reply : Outcome RpcError VoteResponse → Option (Option RequestVoteReply)
vote_reply (ok res) = do
  term ← natural res.term
  some (some (record { term = term; vote_granted = res.vote_granted }))
vote_reply (err e) = some none
vote_reply panic = some none

unfoldable pub append_reply : Outcome RpcError AppendResponse → Option (Option AppendEntriesReply)
append_reply (ok res) = do
  term ← natural res.term
  conflict_index ← natural res.conflict_index
  some (
      some (record {
        term = term;
        success = res.success;
        conflict_index = conflict_index;
        conflict_term = res.conflict_term;
      }))
append_reply (err e) = some none
append_reply panic = some none
