-- ===== src/Raft/Leader/Commit.antt =====
-- The commit rule of the leader.
use sisyphus_db.Prelude.{ℕ, zero, suc, ◌-◌, ◌*◌, ◌≤◌, ◌<◌, ◌≡◌, refl, ◌⊎◌, inl, inr, arith}
use sisyphus_db.Prelude.{
  true, false, List, [], ◌∷◌, All, length, get_elem?, Bool-cases, ◌==◌, lt→ltb, le→leb, lt→not_leb,
  not_==→ne, ◌+◌, ◌/◌,
}
use sisyphus_db.Prelude.{Option-cases, ==_iff, sym, ap, ◌∙◌, le→not_ltb, get_elem?-lt}
use native.Mathlib.Decide.{dec_lt, dec_le}
use sisyphus_db.Raft.Node.{LogEntry, Raft}
use sisyphus_db.Raft.Invariant.{IsValid}
use sisyphus_db.Raft.AppendEntries.{AppendEntriesArgs, AppendEntriesReply}
use sisyphus_db.Raft.AppendEntries.Branches.{HasTerm}
use sisyphus_db.Raft.Leader.{
  handle_reply, advance_match, commit_loop, can_commit, of_term, replicas,
}

-- A peer holds the entry: the node itself, or one whose match index has reached it.
abbrev pub Holds : ℕ → (ℕ → ℕ) → ℕ → ℕ → Type 0
Holds me match_index n p = (p ≡ me) ⊎ (n ≤ match_index p)

-- A set of peers below a number, from the greatest down.
abbrev pub Below : ℕ → List ℕ → Type 0
Below n [] = Unit
Below n (p ∷ ps) = (p < n) × Below p ps

-- More than half of the peers hold the entry, and the entry is of the node's own term.
pub record IsReplicated (rf : Raft) (n : ℕ) : Type 0 where
  pub quorum : List ℕ
  pub peers : Below rf.peers quorum
  pub hold : All (Holds rf.me rf.match_index n) quorum
  pub majority : rf.peers < 2 * length quorum
  pub own_term : HasTerm rf.log n rf.current_term

replicas-me :
    (me : ℕ) (m : ℕ → ℕ) (i n : ℕ) (ps : List ℕ)
    → n ≤ me
    → Below n ps
    → All (Holds me m i) ps
    → length ps + 1 ≤ replicas me m i n
unfolding replicas
replicas-me me m i zero [] le h k = omega arith
replicas-me me m i zero (p ∷ ps) le h k = absurd (omega (arith, h.0))
replicas-me me m i (suc n) [] le h k = ground (arith, replicas-me me m i n [])
replicas-me me m i (suc n) (p ∷ ps) le h k = elim (dec_lt p n) [
  | yes lt ↦ ground (arith, replicas-me me m i n (p ∷ ps) (omega arith) (lt, h.1) k)
  | no last ↦
      let at : p ≡ n = omega (arith, h.0) in
      let rest = replicas-me me m i n ps (omega arith) (rw (← at) h.1) k.1 in
      elim k.0 [
        | inl own ↦ absurd (omega (arith, own))
        | inr reached ↦ ground (arith, rest, at, reached, ap m at)
      ]
]

-- No set of holders is greater than the count.
length-replicas :
    (me : ℕ) (m : ℕ → ℕ) (i n : ℕ) (ps : List ℕ)
    → Below n ps
    → All (Holds me m i) ps
    → length ps ≤ replicas me m i n
unfolding replicas
length-replicas me m i zero [] h k = omega arith
length-replicas me m i zero (p ∷ ps) h k = absurd (omega (arith, h.0))
length-replicas me m i (suc n) [] h k = omega arith
length-replicas me m i (suc n) (p ∷ ps) h k = elim (dec_lt p n) [
  | yes lt ↦ ground (arith, length-replicas me m i n (p ∷ ps) (lt, h.1) k)
  | no last ↦
      let at : p ≡ n = omega (arith, h.0) in
      let rest : Below n ps = rw (← at) h.1 in
      elim (dec_le n me) [
        | yes le ↦ ground (arith, replicas-me me m i n ps le rest k.1)
        | no above ↦ elim k.0 [
          | inl own ↦ absurd (omega (arith, own))
          | inr reached ↦ ground (arith, length-replicas me m i n ps rest k.1, at, reached, ap m at)
        ]
      ]
]

-- A set of holders as great as the count, with the node itself if it is below `n`.
record Holders (me : ℕ) (m : ℕ → ℕ) (i n : ℕ) : Type 0 where
  pub set : List ℕ
  pub below : Below n set
  pub hold : All (Holds me m i) set
  pub counted :
      (n ≤ me → length set + 1 ≡ replicas me m i n) × (me < n → length set ≡ replicas me m i n)

Holders-suc : (me : ℕ) (m : ℕ → ℕ) (i n : ℕ) → Holders me m i n → Holders me m i (suc n)
unfolding replicas
Holders-suc me m i n h = elim (Bool-cases (n == me)) [
  | inl own ↦
      let at : n ≡ me = (==_iff n me).0 own in
      record {
        set = n ∷ h.set;
        below = (omega arith, h.below);
        hold = (inl at, h.hold);
        counted = (
          λ le. absurd (omega (arith, at, le)),
          λ lt. rw own (omega (arith, h.counted.0 (omega (arith, at)))),
        );
      }
  | inr other ↦ elim (dec_le i (m n)) [
    | yes reached ↦ record {
      set = n ∷ h.set;
      below = (omega arith, h.below);
      hold = (inr reached, h.hold);
      counted = (
        λ le. rw (other, le→leb i (m n) reached) (omega (arith, h.counted.0 (omega (arith, le)))),
        λ lt.
            rw (other, le→leb i (m n) reached)
              (omega (arith, h.counted.1 (omega (arith, not_==→ne n me other, lt)))),
      );
    }
    | no short ↦ record {
      set = h.set;
      below = Below-suc n h.set h.below;
      hold = h.hold;
      counted = (
        λ le.
            rw (other, lt→not_leb i (m n) (omega (arith, short))) (h.counted.0 (omega (arith, le))),
        λ lt.
            rw (other, lt→not_leb i (m n) (omega (arith, short)))
              (h.counted.1 (omega (arith, not_==→ne n me other, lt))),
      );
    }
  ]
]
  where
    Below-suc : (n : ℕ) (ps : List ℕ) → Below n ps → Below (suc n) ps
    Below-suc n [] h = tt
    Below-suc n (p ∷ ps) h = (omega (arith, h.0), h.1)

holders : (me : ℕ) (m : ℕ → ℕ) (i n : ℕ) → Holders me m i n
unfolding replicas
holders me m i zero = record {
  set = [];
  below = tt;
  hold = tt;
  counted = (λ le. refl, λ lt. absurd (omega (arith, lt)));
}
holders me m i (suc n) = Holders-suc me m i n (holders me m i n)

of_term-HasTerm : (log : List LogEntry) (i t : ℕ) → of_term log i t ≡ true → HasTerm log i t
unfolding of_term
of_term-HasTerm log i t h = elim (Option-cases (get_elem? log i)) [
  | inl gone ↦ absurd (bad (rw (gone, of_term) at h))
  | inr (e, here) ↦ (e, here, (==_iff e.term t).0 (rw (here, of_term) at h))
]
  where
    bad : false ≡ true → ⊥
    bad e = cc

HasTerm-of_term : (log : List LogEntry) (i t : ℕ) → HasTerm log i t → of_term log i t ≡ true
unfolding of_term
HasTerm-of_term log i t (e, here, same) = rw (here, of_term) ((==_iff e.term t).1 same)

can_commit-IsReplicated :
    (rf : Raft) (n : ℕ) → rf.me < rf.peers → can_commit rf n ≡ true → IsReplicated rf n
unfolding can_commit
can_commit-IsReplicated rf n member h =
    let hs = holders rf.me rf.match_index n rf.peers in
    let counted = hs.counted.1 member in
    record {
      quorum = hs.set;
      peers = hs.below;
      hold = hs.hold;
      majority = ground (arith, counted);
      own_term = of_term-HasTerm rf.log n rf.current_term (ground arith);
    }

IsReplicated-can_commit : (rf : Raft) (n : ℕ) → IsReplicated rf n → can_commit rf n ≡ true
unfolding can_commit
IsReplicated-can_commit rf n h =
    let own = HasTerm-of_term rf.log n rf.current_term h.own_term in
    let most = length-replicas rf.me rf.match_index n rf.peers h.quorum h.peers h.hold in
    let more : rf.peers / 2 < replicas rf.me rf.match_index n rf.peers =
      omega (arith, most, h.majority) in
    rw (lt→ltb (rf.peers / 2) (replicas rf.me rf.match_index n rf.peers) more, own) refl

-- What the loop leaves alone.
pub record SameButCommit (rf rf' : Raft) : Type 0 where
  pub log : rf'.log ≡ rf.log
  pub term : rf'.current_term ≡ rf.current_term
  pub match_index : rf'.match_index ≡ rf.match_index
  pub next_index : rf'.next_index ≡ rf.next_index
  pub peers : rf'.peers ≡ rf.peers
  pub me : rf'.me ≡ rf.me
  pub applied : rf'.last_applied ≡ rf.last_applied

pub commit_loop_frame : (n : ℕ) (rf : Raft) → SameButCommit rf (commit_loop n rf)
unfolding commit_loop
commit_loop_frame zero rf = ground arith
commit_loop_frame (suc n) rf = ground (arith, commit_loop_frame n rf)

commit_loop_sound :
    (n : ℕ) (rf : Raft)
    → ((commit_loop n rf).commit_index ≡ rf.commit_index)
      ⊎ ((rf.commit_index < (commit_loop n rf).commit_index)
          × ((commit_loop n rf).commit_index ≤ n)
          × (can_commit rf (commit_loop n rf).commit_index ≡ true))
unfolding commit_loop
commit_loop_sound zero rf = inl refl
commit_loop_sound (suc n) rf = ground (arith, commit_loop_sound n rf)

commit_loop_complete :
    (n : ℕ) (rf : Raft) (k : ℕ)
    → k ≤ n
    → rf.commit_index < k
    → can_commit rf k ≡ true
    → k ≤ (commit_loop n rf).commit_index
unfolding commit_loop
commit_loop_complete zero rf k h lt c = absurd (omega arith)
commit_loop_complete (suc n) rf k h lt c = ground (arith, commit_loop_complete n rf k)

module _ (server : ℕ) (args : AppendEntriesArgs) (reply : AppendEntriesReply) (rf : Raft) where
  advance_match_frame :
      ((advance_match server args rf).commit_index ≡ rf.commit_index)
      × ((advance_match server args rf).log ≡ rf.log)
      × ((advance_match server args rf).last_applied ≡ rf.last_applied)
      × ((advance_match server args rf).me ≡ rf.me)
      × ((advance_match server args rf).peers ≡ rf.peers)
  unfolding advance_match
  advance_match_frame = ground arith

  pub handle_reply_success :
      reply.term ≤ rf.current_term
      → reply.success ≡ true
      → handle_reply server args reply rf
        ≡ commit_loop (length (advance_match server args rf).log - 1) (advance_match server args rf)
  unfolding handle_reply
  handle_reply_success current yes_ = rw (le→not_ltb rf.current_term reply.term current, yes_)

IsReplicated-frame : (a b : Raft) (n : ℕ) → SameButCommit a b → IsReplicated a n → IsReplicated b n
IsReplicated-frame a b n same h = record {
  quorum = h.quorum;
  peers = rw (same.peers) h.peers;
  hold = rw (same.me, same.match_index) h.hold;
  majority = rw (same.peers) h.majority;
  own_term = rw (same.log, same.term) h.own_term;
}

IsReplicated-unframe :
    (a b : Raft) (n : ℕ) → SameButCommit a b → IsReplicated b n → IsReplicated a n
IsReplicated-unframe a b n same h = record {
  quorum = h.quorum;
  peers = rw (same.peers) at h.peers;
  hold = rw (same.me, same.match_index) at h.hold;
  majority = rw (same.peers) at h.majority;
  own_term = rw (same.log, same.term) at h.own_term;
}

module _ (server : ℕ) (args : AppendEntriesArgs) (reply : AppendEntriesReply) (rf : Raft) where
  -- After a success of the node's own term the commit index is what it was, or it has moved forward
  -- to an entry inside the log that is of the node's own term and that more than half of the peers hold:
  -- the node itself, and peers whose match index has reached it. The node is one of the peers.
  pub handle_reply_commits :
      reply.term ≤ rf.current_term
      → reply.success ≡ true
      → (rf' : Raft) → handle_reply server args reply rf ≡ rf'
      → IsValid rf
      → rf.me < rf.peers
      → (rf'.commit_index ≡ rf.commit_index)
        ⊎ ((rf.commit_index < rf'.commit_index)
            × (rf'.commit_index < length rf'.log)
            × IsReplicated rf' rf'.commit_index)
  handle_reply_commits current yes_ rf' e valid member =
      rw (← (sym (handle_reply_success server args reply rf current yes_) ∙ e)) go
    where
      a : Raft
      a = advance_match server args rf

      n : ℕ
      n = length a.log - 1

      same : SameButCommit a (commit_loop n a)
      same = commit_loop_frame n a

      start :
          (a.commit_index ≡ rf.commit_index)
          × (a.log ≡ rf.log)
          × (a.last_applied ≡ rf.last_applied)
          × (a.me ≡ rf.me)
          × (a.peers ≡ rf.peers)
      start = advance_match_frame server args reply rf

      go :
          ((commit_loop n a).commit_index ≡ rf.commit_index)
          ⊎ ((rf.commit_index < (commit_loop n a).commit_index)
              × ((commit_loop n a).commit_index < length (commit_loop n a).log)
              × IsReplicated (commit_loop n a) (commit_loop n a).commit_index)
      go = elim (commit_loop_sound n a) [
        | inl stays ↦ inl (stays ∙ start.0)
        | inr (up, low, can) ↦ inr (
          omega (arith, start.0),
          rw (same.log) (omega (arith, ap length start.1, valid.commit_lt)),
          IsReplicated-frame a (commit_loop n a) (commit_loop n a).commit_index same (
              can_commit-IsReplicated a (commit_loop n a).commit_index
                (omega (arith, start.3, start.4, member)) can),
        )
      ]

  -- After a success of the node's own term no entry of the log that is of the node's own term and
  -- that more than half of the peers hold is left above the commit index: there is no such entry with a
  -- set of peers, each the node itself or one whose match index has reached it, that is a majority.
  pub handle_reply_commits_all :
      reply.term ≤ rf.current_term
      → reply.success ≡ true
      → (rf' : Raft) → handle_reply server args reply rf ≡ rf'
      → (k : ℕ) → IsReplicated rf' k
      → k ≤ rf'.commit_index
  handle_reply_commits_all current yes_ rf' e k held =
      let e' = sym (handle_reply_success server args reply rf current yes_) ∙ e in
      rw (← e') (go (rw (e') held))
    where
      a : Raft
      a = advance_match server args rf

      n : ℕ
      n = length a.log - 1

      same : SameButCommit a (commit_loop n a)
      same = commit_loop_frame n a

      grows : a.commit_index ≤ (commit_loop n a).commit_index
      grows = ground (arith, commit_loop_sound n a)

      go : IsReplicated (commit_loop n a) k → k ≤ (commit_loop n a).commit_index
      go h =
          let held_a = IsReplicated-unframe a (commit_loop n a) k same h in
          elim (dec_lt a.commit_index k) [
            | yes up ↦
                commit_loop_complete n a k (omega (arith, get_elem?-lt a.log k held_a.own_term.1))
                  up (IsReplicated-can_commit a k held_a)
            | no low ↦ omega (arith, grows)
          ]
