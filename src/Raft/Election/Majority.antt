-- ===== src/Raft/Election/Majority.antt =====
-- When a candidate becomes the leader.
use sisyphus_db.Prelude.{ℕ, suc, ◌+◌, ◌*◌, ◌/◌, ◌≤◌, ◌<◌, ◌≡◌, ◌⊎◌, inl, inr}
use sisyphus_db.Prelude.{true, false, List, [], ◌∷◌, All, some, arith}
use sisyphus_db.Prelude.{◌↔◌, Bool-cases, if◌then◌else◌}
use sisyphus_db.Raft.Node.{Raft, is_leader, persist_state}
use sisyphus_db.Raft.RequestVote.{RequestVoteArgs, RequestVoteReply}
use sisyphus_db.Raft.Election.{
  start_election, become_candidate, handle_vote, count_votes, votes_required, become_leader,
  is_candidate,
}

-- The votes among the replies.
abbrev pub granted : List RequestVoteReply → ℕ
granted [] = 0
granted (r ∷ rs) = let rest = granted rs in if r.vote_granted then suc rest else rest

handle_vote_step :
    (term : ℕ) (r : RequestVoteReply) (v : ℕ) (rf : Raft)
    → let s = handle_vote term r (v, rf) in
      (s.0 ≤ v + granted (r ∷ []))
      × (v ≤ s.0)
      × (s.1.peers ≡ rf.peers)
      × ((is_leader s.1.state ≡ is_leader rf.state)
          ⊎ (is_leader s.1.state ≡ false)
          ⊎ ((s.0 ≡ votes_required rf) × (v < s.0)))
unfolding handle_vote become_leader persist_state
handle_vote_step term r v rf = ground arith

leader_votes :
    (term : ℕ) (rs : List RequestVoteReply) (v : ℕ) (rf : Raft)
    → is_leader (count_votes term rs (v, rf)).1.state ≡ true
    → (is_leader rf.state ≡ true) ⊎ ((v < rf.peers / 2 + 1) × (rf.peers / 2 + 1 ≤ v + granted rs))
unfolding count_votes votes_required
leader_votes term [] v rf h = inl h
leader_votes term (r ∷ rs) v rf h =
    let s = handle_vote term r (v, rf) in
    ground (
      arith,
      handle_vote_step term r v rf,
      leader_votes term rs (handle_vote term r (v, rf)).0 (handle_vote term r (v, rf)).1 h,
    )

-- The replies are of the candidate's term or an earlier one.
abbrev pub Within : ℕ → RequestVoteReply → Type 0
Within t r = r.term ≤ t

handle_vote_leads :
    (term : ℕ) (r : RequestVoteReply) (v : ℕ) (rf : Raft)
    → is_candidate rf.state ≡ true
    → rf.current_term ≡ term
    → v < rf.peers / 2 + 1
    → Within term r
    → let s = handle_vote term r (v, rf) in
      (is_leader s.1.state ≡ true)
      ⊎ ((is_candidate s.1.state ≡ true)
          × (s.1.current_term ≡ term)
          × (s.1.peers ≡ rf.peers)
          × (s.0 < rf.peers / 2 + 1)
          × (s.0 ≡ v + granted (r ∷ [])))
unfolding handle_vote become_leader persist_state votes_required
handle_vote_leads term r v rf cand same low within = ground arith

handle_vote_stays :
    (term : ℕ) (r : RequestVoteReply) (v : ℕ) (rf : Raft)
    → is_leader rf.state ≡ true
    → is_leader (handle_vote term r (v, rf)).1.state ≡ true
unfolding handle_vote become_leader persist_state
handle_vote_stays term r v rf h = ground arith

count_votes_stays :
    (term : ℕ) (rs : List RequestVoteReply) (v : ℕ) (rf : Raft)
    → is_leader rf.state ≡ true
    → is_leader (count_votes term rs (v, rf)).1.state ≡ true
unfolding count_votes
count_votes_stays term [] v rf h = h
count_votes_stays term (r ∷ rs) v rf h =
    count_votes_stays term rs (handle_vote term r (v, rf)).0 (handle_vote term r (v, rf)).1
      (handle_vote_stays term r v rf h)

votes_lead :
    (term : ℕ) (rs : List RequestVoteReply) (v : ℕ) (rf : Raft)
    → is_candidate rf.state ≡ true
    → rf.current_term ≡ term
    → v < rf.peers / 2 + 1
    → All (Within term) rs
    → rf.peers / 2 + 1 ≤ v + granted rs
    → is_leader (count_votes term rs (v, rf)).1.state ≡ true
unfolding count_votes
votes_lead term [] v rf cand same low within enough = absurd (omega arith)
votes_lead term (r ∷ rs) v rf cand same low within enough =
    elim (handle_vote_leads term r v rf cand same low within.0) [
      | inl leads ↦
          count_votes_stays term rs (handle_vote term r (v, rf)).0 (handle_vote term r (v, rf)).1
            leads
      | inr (cand', same', peers, low', votes) ↦
          votes_lead term rs (handle_vote term r (v, rf)).0 (handle_vote term r (v, rf)).1 cand'
            same' (rw (peers) low') within.1 (rw (peers, votes) (more r enough))
    ]
  where
    more :
        (r : RequestVoteReply)
        → rf.peers / 2 + 1 ≤ v + granted (r ∷ rs)
        → rf.peers / 2 + 1 ≤ v + granted (r ∷ []) + granted rs
    more r h = ground arith

start_election_candidate :
    (now : ℕ) (rf : Raft) (args : RequestVoteArgs) (c : Raft)
    → start_election now rf ≡ some (args, c)
    → (is_candidate c.state ≡ true)
      × (is_leader c.state ≡ false)
      × (c.current_term ≡ args.term)
      × (c.peers ≡ rf.peers)
      × (args.term ≡ rf.current_term + 1)
unfolding start_election become_candidate persist_state
start_election_candidate now rf args c e = ground arith

-- An election with more than one peer makes the candidate the leader exactly if its own vote and
-- those that the replies grant are more than half of the peers, counted with this node's own place in
-- the list. No reply may be of a later term.
pub election_majority :
    (now : ℕ) (rf : Raft) (args : RequestVoteArgs) (c : Raft) (replies : List RequestVoteReply)
    → start_election now rf ≡ some (args, c)
    → 2 ≤ rf.peers
    → All (Within args.term) replies
    → (is_leader (count_votes args.term replies (1, c)).1.state ≡ true)
      ↔ (rf.peers < 2 * (1 + granted replies))
election_majority now rf args c replies e two within =
    let (cand, not_leader, same, peers, _) = start_election_candidate now rf args c e in
    (
      λ leads. ground (arith, leader_votes args.term replies 1 c leads),
      λ enough.
          votes_lead args.term replies 1 c cand same (rw (peers) (omega arith)) within
            (rw (peers) (omega arith)),
    )

-- A node whose list of peers holds at most itself never becomes the leader, whatever is counted.
pub election_alone :
    (now : ℕ) (rf : Raft) (args : RequestVoteArgs) (c : Raft) (replies : List RequestVoteReply)
    → start_election now rf ≡ some (args, c)
    → rf.peers ≤ 1
    → is_leader (count_votes args.term replies (1, c)).1.state ≡ false
election_alone now rf args c replies e one =
    let (cand, not_leader, same, peers, _) = start_election_candidate now rf args c e in
    elim (Bool-cases (is_leader (count_votes args.term replies (1, c)).1.state)) [
      | inl leads ↦ absurd (ground (arith, leader_votes args.term replies 1 c leads))
      | inr no_leader ↦ no_leader
    ]
