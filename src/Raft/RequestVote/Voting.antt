-- ===== src/Raft/RequestVote/Voting.antt =====
-- Who gets a vote, and how often.
use sisyphus_db.Prelude.{ℕ, ◌+◌, ◌-◌, ◌%◌, ◌^◌, ◌≤◌, ◌<◌, ◌≡◌, ap, ap₂, ◌∙◌, ◌⊎◌, inl, inr, arith}
use sisyphus_db.Prelude.{◌++◌, length, get_elem?, some, none, Option, true, false, ltb}
use sisyphus_db.Prelude.{minus_one, ◌==ℤ◌, ==ℤ-eq, uint32, Bytes}
use sisyphus_db.Prelude.{Bool-cases, Option-cases, ltb→lt, Bool, ◌&&◌, ◌||◌}
use sisyphus_db.RaftWal.{HardState, encode_hard_state, persist_hard_state}
use sisyphus_db.Raft.Node.{LogEntry, Raft, follower, persist_state}
use sisyphus_db.Raft.RequestVote.{
  RequestVoteArgs, RequestVoteReply, request_vote, step_down, decide_vote, log_ok,
}

-- Raft's order on logs: by the term of the last entry, then by its index.
abbrev pub UpToDate : RequestVoteArgs → LogEntry → ℕ → Type 0
UpToDate args last n =
    (last.term < args.last_log_term)
    ⊎ ((args.last_log_term ≡ last.term) × (n ≤ args.last_log_index + 1))

log_ok-UpToDate :
    (args : RequestVoteArgs) (last : LogEntry) (n : ℕ)
    → log_ok args last.term (n - 1) ≡ true
    → UpToDate args last n
unfolding log_ok
log_ok-UpToDate args last n h = ground arith

abbrev pub disk_state : RequestVoteArgs → ℕ → ℕ → HardState
disk_state args t c = record {
  term = t % 2 ^ 32;
  vote = uint32 args.candidate_id;
  commit = c % 2 ^ 32;
}

-- What a granted vote leaves: the vote, in the term of the request, written behind all else.
pub record Granted (args : RequestVoteArgs) (rf rf' : Raft) : Type 0 where
  pub term : rf'.current_term ≡ args.term
  pub vote : rf'.voted_for ≡ args.candidate_id
  pub state : rf'.state ≡ follower
  pub log : rf'.log ≡ rf.log
  pub on_disk :
      (before : Bytes) × (rf'.wal.file
        ≡ before ++ encode_hard_state (disk_state args args.term rf.commit_index))

step_down_term :
    (args : RequestVoteArgs) (rf : Raft)
    → rf.current_term ≤ args.term
    → ((step_down args rf).current_term ≡ args.term)
      × ((step_down args rf).log ≡ rf.log)
      × ((step_down args rf).commit_index ≡ rf.commit_index)
unfolding step_down persist_state
step_down_term args rf h = ground arith

and-left : (a b : Bool) → (a && b) ≡ true → a ≡ true
and-left a b h = ground arith

and-right : (a b : Bool) → (a && b) ≡ true → b ≡ true
and-right a b h = ground arith

-- The node after the vote is given.
abbrev pub voted : ℕ → RequestVoteArgs → Raft → Raft
voted now args rf =
    record (persist_state (record rf { voted_for = args.candidate_id; state = follower })) {
      last_reset_time = now;
    }

abbrev may_vote : RequestVoteArgs → Raft → Bool
may_vote args rf = rf.voted_for ==ℤ minus_one || rf.voted_for ==ℤ args.candidate_id

abbrev yes_pair : ℕ → RequestVoteArgs → Raft → RequestVoteReply × Raft
yes_pair now args rf = (record { term = rf.current_term; vote_granted = true }, voted now args rf)

abbrev no_pair : Raft → RequestVoteReply × Raft
no_pair rf = (record { term = rf.current_term; vote_granted = false }, rf)

decide_vote_granted :
    (now : ℕ) (args : RequestVoteArgs) (t : ℕ) (rf : Raft) (r : RequestVoteReply) (rf' : Raft)
    → decide_vote now args t rf ≡ (r, rf')
    → r.vote_granted ≡ true
    → (rf' ≡ voted now args rf)
      × (may_vote args rf ≡ true)
      × (log_ok args t (length rf.log - 1) ≡ true)
      × (r.term ≡ rf.current_term)
unfolding decide_vote
decide_vote_granted now args t rf r rf' e g =
    elim (Bool-cases (may_vote args rf && log_ok args t (length rf.log - 1))) [
      | inl pass ↦
          let e' : yes_pair now args rf ≡ (r, rf') = (rw (pass) at e) in
          (cc, and-left _ _ pass, and-right _ _ pass, cc)
      | inr fail ↦ let e' : no_pair rf ≡ (r, rf') = (rw (fail) at e) in absurd (refused e')
    ]
  where
    refused : no_pair rf ≡ (r, rf') → ⊥
    refused e' = cc

request_vote_inv :
    (now : ℕ) (args : RequestVoteArgs) (rf : Raft) (r : RequestVoteReply) (rf' : Raft)
    → request_vote now args rf ≡ some (r, rf')
    → r.vote_granted ≡ true
    → (rf.current_term ≤ args.term)
      × (last : LogEntry) × (get_elem? rf.log (length rf.log - 1) ≡ some last)
      × (decide_vote now args last.term (step_down args rf) ≡ (r, rf'))
unfolding request_vote
request_vote_inv now args rf r rf' e g = elim (Bool-cases (ltb args.term rf.current_term)) [
  | inl old ↦ absurd (refused (rw (old) at e))
  | inr current ↦ elim (Option-cases (get_elem? rf.log (length rf.log - 1))) [
    | inl gone ↦ absurd (faulted (rw (current, gone) at e))
    | inr (last, here) ↦ (ground arith, last, here, decided last (rw (current, here) at e))
  ]
]
  where
    refused : ◌≡◌ {A = Option (RequestVoteReply × Raft)} (some (no_pair rf)) (some (r, rf')) → ⊥
    refused e' = cc

    faulted : ◌≡◌ {A = Option (RequestVoteReply × Raft)} none (some (r, rf')) → ⊥
    faulted e' = cc

    decided :
        (last : LogEntry)
        → some (decide_vote now args last.term (step_down args rf)) ≡ some (r, rf')
        → decide_vote now args last.term (step_down args rf) ≡ (r, rf')
    decided last e' = cc

-- The vote was free, or already the candidate's, in the term of the request.
abbrev pub VoteFree : RequestVoteArgs → Raft → Type 0
VoteFree args rf =
    (rf.current_term < args.term) ⊎ (rf.voted_for ≡ minus_one) ⊎ (rf.voted_for ≡ args.candidate_id)

vote_free :
    (args : RequestVoteArgs) (rf : Raft)
    → may_vote args (step_down args rf) ≡ true
    → VoteFree args rf
unfolding step_down persist_state
vote_free args rf h = elim (Bool-cases (ltb rf.current_term args.term)) [
  | inl newer ↦ inl (ltb→lt _ _ newer)
  | inr same ↦
      let h' : may_vote args rf ≡ true = (rw (same) at h) in
      elim (Bool-cases (rf.voted_for ==ℤ minus_one)) [
        | inl free ↦ inr (inl (==ℤ-eq _ _ free))
        | inr not_free ↦ inr (inr (==ℤ-eq _ _ (rw (not_free) at h')))
      ]
]

-- A vote is granted only in a term that is not past, to a candidate whose log is at least as up to
-- date, if the vote was free; it is then recorded, and stands at the end of the WAL file.
pub request_vote-Granted :
    (now : ℕ) (args : RequestVoteArgs) (rf : Raft) (r : RequestVoteReply) (rf' : Raft)
    → request_vote now args rf ≡ some (r, rf')
    → r.vote_granted ≡ true
    → (rf.current_term ≤ args.term)
      × VoteFree args rf
      × (last : LogEntry) × (get_elem? rf.log (length rf.log - 1) ≡ some last)
      × UpToDate args last (length rf.log)
      × (r.term ≡ args.term)
      × Granted args rf rf'
unfolding persist_state persist_hard_state
request_vote-Granted now args rf r rf' e g =
    let (current, last, here, decided) = request_vote_inv now args rf r rf' e g in
    let node = step_down args rf in
    let (to, may, up_to_date, replied) =
      decide_vote_granted now args last.term node r rf' decided g in
    let (term, log, commit) = step_down_term args rf current in
    (
      current,
      vote_free args rf may,
      last,
      here,
      log_ok-UpToDate args last (length rf.log) (rw (log) at up_to_date),
      replied ∙ term,
      record {
        term = ap (λ (x : Raft). x.current_term) to ∙ term;
        vote = ap (λ (x : Raft). x.voted_for) to;
        state = ap (λ (x : Raft). x.state) to;
        log = ap (λ (x : Raft). x.log) to ∙ log;
        on_disk = (
          node.wal.file,
          ap (λ (x : Raft). x.wal.file) to
              ∙ ap₂ (λ (t c : ℕ). node.wal.file ++ encode_hard_state (disk_state args t c)) term
                  commit,
        );
      },
    )
