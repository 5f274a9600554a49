-- ===== src/Raft/RequestVote/Once.antt =====
-- One vote in a term, and how `AppendEntries` undoes it.
use sisyphus_db.Prelude.{ℕ, ◌-◌, ◌^◌, ◌≤◌, ◌<◌, ◌≡◌, refl, sym, ◌∙◌, ◌⊎◌, inr, arith}
use sisyphus_db.Prelude.{[], length, get_elem?, some, true, le→not_ltb}
use sisyphus_db.Prelude.{pos, minus_one, ==ℤ-eq}
use sisyphus_db.Raft.Node.{LogEntry, Raft, persist_state}
use sisyphus_db.Raft.AppendEntries.{AppendEntriesArgs, append_entries, accepted}
use sisyphus_db.Raft.AppendEntries.Branches.{HasTerm, new_log_nothing, append_entries_accepts}
use sisyphus_db.Raft.RequestVote.{
  RequestVoteArgs, RequestVoteReply, request_vote, step_down, decide_vote, log_ok,
}
use sisyphus_db.Raft.RequestVote.Voting.{VoteFree, UpToDate, voted, request_vote-Granted}

-- The node is past term `t`, or in it with its vote given to `c`.
abbrev pub VotedIn : ℕ → ℕ → Raft → Type 0
VotedIn t c rf = (t < rf.current_term) ⊎ ((rf.current_term ≡ t) × (rf.voted_for ≡ pos c))

-- Nodes that a series of vote requests leads to.
pub data Ballots (s : Raft) : Raft → Type 0 where
  here : Ballots s s
  next :
      {t u : Raft}
      → Ballots s t
      → (now : ℕ) (args : RequestVoteArgs) (r : RequestVoteReply)
      → request_vote now args t ≡ some (r, u)
      → Ballots s u

module _ (now : ℕ) (args : RequestVoteArgs) (rf : Raft) (r : RequestVoteReply) (rf' : Raft) where
  request_vote-VotedIn :
      request_vote now args rf ≡ some (r, rf') → (t c : ℕ) → VotedIn t c rf → VotedIn t c rf'
  unfolding request_vote decide_vote step_down persist_state
  request_vote-VotedIn e t c v = ground (arith, ==ℤ-eq (pos c) args.candidate_id)

Ballots-VotedIn : {s u : Raft} (t c : ℕ) → VotedIn t c s → Ballots s u → VotedIn t c u
Ballots-VotedIn t c v here = v
Ballots-VotedIn t c v (next {t = m} {u = u} b now args r e) =
    request_vote-VotedIn now args m r u e t c (Ballots-VotedIn t c v b)

voted_same :
    (args : RequestVoteArgs) (rf : Raft) (t c : ℕ)
    → rf.current_term ≤ args.term
    → VoteFree args rf
    → args.term ≡ t
    → VotedIn t c rf
    → args.candidate_id ≡ pos c
voted_same args rf t c current free same v = ground arith

-- Through any series of vote requests, a node that granted its vote to a candidate grants no other
-- candidate a vote in the same term.
pub one_vote_per_term :
    (n₁ n₂ c : ℕ) (a₁ a₂ : RequestVoteArgs) (r₁ r₂ : RequestVoteReply) (s t u v : Raft)
    → request_vote n₁ a₁ s ≡ some (r₁, t)
    → r₁.vote_granted ≡ true
    → a₁.candidate_id ≡ pos c
    → Ballots t u
    → request_vote n₂ a₂ u ≡ some (r₂, v)
    → r₂.vote_granted ≡ true
    → r₂.term ≡ r₁.term
    → a₂.candidate_id ≡ a₁.candidate_id
one_vote_per_term n₁ n₂ c a₁ a₂ r₁ r₂ s t u v e₁ g₁ id between e₂ g₂ same =
    let (_, _, _, _, _, t₁, left) = request_vote-Granted n₁ a₁ s r₁ t e₁ g₁ in
    let (current, free, _, _, _, t₂, _) = request_vote-Granted n₂ a₂ u r₂ v e₂ g₂ in
    let start : VotedIn r₁.term c t = inr (left.term ∙ sym t₁, left.vote ∙ id) in
    voted_same a₂ u r₁.term c current free (sym t₂ ∙ same) (Ballots-VotedIn r₁.term c start between)
    ∙ sym id

UpToDate-log_ok :
    (args : RequestVoteArgs) (last : LogEntry) (n : ℕ)
    → UpToDate args last n
    → log_ok args last.term (n - 1) ≡ true
unfolding log_ok
UpToDate-log_ok args last n h = ground arith

-- A vote that is free goes to a candidate whose log is up to date.
request_vote_free :
    (now : ℕ) (args : RequestVoteArgs) (rf : Raft) (last : LogEntry)
    → args.term ≡ rf.current_term
    → rf.voted_for ≡ minus_one
    → get_elem? rf.log (length rf.log - 1) ≡ some last
    → UpToDate args last (length rf.log)
    → (r : RequestVoteReply) × (rf' : Raft) × (request_vote now args rf ≡ some (r, rf'))
      × (r.vote_granted ≡ true)
      × (r.term ≡ rf.current_term)
      × (rf'.voted_for ≡ args.candidate_id)
unfolding request_vote decide_vote step_down persist_state
request_vote_free now args rf last same free end up = (
  record { term = rf.current_term; vote_granted = true },
  voted now args rf,
  rw (
    le→not_ltb args.term rf.current_term (omega arith),
    end,
    le→not_ltb rf.current_term args.term (omega arith),
    free,
    UpToDate-log_ok args last (length rf.log) up,
  ),
  refl,
  refl,
  refl,
)

-- The handler `AppendEntries` forgets the vote of the term: whoever had it, after a call of the same
-- term that is accepted the node votes in that term for any candidate with an up-to-date log.
pub append_entries_second_vote :
    (now later : ℕ) (args : AppendEntriesArgs) (b : RequestVoteArgs) (rf : Raft) (last : LogEntry)
    → args.term ≡ rf.current_term
    → b.term ≡ rf.current_term
    → args.entries ≡ []
    → HasTerm rf.log args.prev_log_index args.prev_log_term
    → length rf.log < 2 ^ 32
    → get_elem? rf.log (length rf.log - 1) ≡ some last
    → UpToDate b last (length rf.log)
    → (rf' rf'' : Raft) × (r : RequestVoteReply) × (append_entries now args rf
        ≡ some (accepted args.term, rf'))
      × (request_vote later b rf' ≡ some (r, rf''))
      × (r.vote_granted ≡ true)
      × (r.term ≡ rf.current_term)
      × (rf''.voted_for ≡ b.candidate_id)
append_entries_second_vote now later args b rf last same same' none_sent has room end up =
    let (rf', eq, done) =
      append_entries_accepts now args rf (omega arith) has (rw (none_sent) (omega arith)) in
    let kept : rf'.log ≡ rf.log = done.log ∙ new_log_nothing args rf.log none_sent in
    let (r, rf'', eq', yes_, t, v) =
      request_vote_free later b rf' last (same' ∙ sym (done.term ∙ same)) done.vote (rw (kept) end)
        (rw (kept) up) in
    (rf', rf'', r, eq, eq', yes_, t ∙ done.term ∙ same, v)
