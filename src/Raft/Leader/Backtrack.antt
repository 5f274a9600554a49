-- ===== src/Raft/Leader/Backtrack.antt =====
-- The jump back of `nextIndex` after a refusal.
use sisyphus_db.Prelude.{
  ℕ, zero, suc, ◌+◌, ◌-◌, ◌≤◌, ◌<◌, ◌≡◌, ◌≢◌, refl, sym, ap, ◌∙◌, inl, inr, arith,
}
use sisyphus_db.Prelude.{true, false, List, length, get_elem?, some, ◌==◌}
use sisyphus_db.Prelude.{Bool-cases, Option-cases, pos, minus_one, ◌==ℤ◌}
use sisyphus_db.Prelude.{get_elem?-some, get_elem?-none, ==_iff, not_==→ne, le→not_ltb, ==_refl}
use native.Mathlib.Decide.{dec_le}
use sisyphus_db.Raft.Node.{LogEntry, Raft}
use sisyphus_db.Raft.AppendEntries.{AppendEntriesArgs, AppendEntriesReply, append_entries}
use sisyphus_db.Raft.AppendEntries.Branches.{HasTerm}
use sisyphus_db.Raft.AppendEntries.Conflict.{append_entries_short, append_entries_conflict}
use sisyphus_db.Raft.Leader.{backtrack, handle_reply, last_of_term, heartbeat_args, term_at, batch}

-- The search finds the last entry of the term.
last_of_term-some :
    (log : List LogEntry) (t n i : ℕ)
    → last_of_term log (pos t) n ≡ some i
    → (i < n) × HasTerm log i t
unfolding last_of_term
last_of_term-some log t zero i h = cc
last_of_term-some log t (suc n) i h = elim (Option-cases (get_elem? log n)) [
  | inl gone ↦
      let (lt, has) = last_of_term-some log t n i (rw (gone, last_of_term) at h) in
      (omega arith, has)
  | inr (e, here) ↦ elim (Bool-cases (pos e.term ==ℤ pos t)) [
    | inl same ↦
        let at_n : n ≡ i = found (rw (here, same, last_of_term) at h) in
        (omega arith, (e, rw (← at_n) here, (==_iff e.term t).0 same))
    | inr other ↦
        let (lt, has) = last_of_term-some log t n i (rw (here, other, last_of_term) at h) in
        (omega arith, has)
  ]
]
  where
    found : some n ≡ some i → n ≡ i
    found e = cc

-- The result is at least 1, and below `m` if what it is taken from is.
backtrack_below :
    (log : List LogEntry) (reply : AppendEntriesReply) (m : ℕ)
    → 2 ≤ m
    → reply.conflict_index < m
    → ((i : ℕ) → last_of_term log reply.conflict_term (length log) ≡ some i → i + 1 < m)
    → (1 ≤ backtrack log reply) × (backtrack log reply < m)
unfolding backtrack
backtrack_below log reply m two ci jump =
    elim (Option-cases (last_of_term log reply.conflict_term (length log))) [
      | inl gone ↦ ground arith
      | inr (i, found) ↦ ground (arith, jump i found)
    ]

backtrack_short :
    (log : List LogEntry) (reply : AppendEntriesReply) (m : ℕ)
    → reply.conflict_term ≡ minus_one
    → 2 ≤ m
    → reply.conflict_index < m
    → (1 ≤ backtrack log reply) × (backtrack log reply < m)
unfolding backtrack
backtrack_short log reply m short two ci = ground arith

pub heartbeat_args_inv :
    (term server : ℕ) (ld : Raft) (args : AppendEntriesArgs)
    → heartbeat_args term server ld ≡ some args
    → (args.term ≡ term)
      × (args.prev_log_index ≡ ld.next_index server - 1)
      × (args.prev_log_term ≡ term_at ld.log (ld.next_index server - 1))
      × (args.entries ≡ batch ld.log (ld.next_index server))
      × (args.leader_commit ≡ ld.commit_index)
unfolding heartbeat_args
heartbeat_args_inv term server ld args h = ground arith

pub HasTerm-term_at :
    (log : List LogEntry) (i t : ℕ) → i < length log → t ≡ term_at log i → HasTerm log i t
unfolding term_at
HasTerm-term_at log i t h e =
    let (l, here) = get_elem?-some log i h in (l, here, sym (rw (here, term_at) at e))

-- What a refusal of the leader's own term leaves.
refused :
    (server : ℕ) (args : AppendEntriesArgs) (reply : AppendEntriesReply) (ld : Raft)
    → reply.term ≤ ld.current_term
    → reply.success ≡ false
    → (handle_reply server args reply ld).next_index server ≡ backtrack ld.log reply
unfolding handle_reply
refused server args reply ld low no_success =
    rw (le→not_ltb ld.current_term reply.term low, no_success, ==_refl server) refl

module _ (now term server : ℕ) (ld f : Raft) (args : AppendEntriesArgs)
    (sent : heartbeat_args term server ld ≡ some args) (above : 2 ≤ ld.next_index server)
    (inside : ld.next_index server ≤ length ld.log) (current : f.current_term ≤ args.term)
    (some_log : 0 < length f.log) (own : args.term ≤ ld.current_term) where
  -- The term of the follower's entry does not stand behind the previous entry in the leader's log.
  abbrev pub NotBehind : Type 0
  NotBehind =
      (j : ℕ) (l e : LogEntry)
      → args.prev_log_index < j
      → get_elem? ld.log j ≡ some l
      → get_elem? f.log args.prev_log_index ≡ some e
      → l.term ≢ e.term

  prev : args.prev_log_index + 1 ≡ ld.next_index server
  prev = omega (arith, (heartbeat_args_inv term server ld args sent).1)

  -- The leader's own entry there has the term that it sent.
  own_prev : HasTerm ld.log args.prev_log_index args.prev_log_term
  own_prev =
      let (_, at, t, _, _) = heartbeat_args_inv term server ld args sent in
      HasTerm-term_at ld.log args.prev_log_index args.prev_log_term (omega (arith, prev))
        (t ∙ ap (term_at ld.log) (sym at))

  conflict_jump :
      (e : LogEntry)
      → get_elem? f.log args.prev_log_index ≡ some e
      → e.term ≢ args.prev_log_term
      → NotBehind
      → (i : ℕ) → last_of_term ld.log (pos e.term) (length ld.log) ≡ some i
      → i + 1 < ld.next_index server
  conflict_jump e here other behind i found =
      let (_, (l, at, same)) = last_of_term-some ld.log e.term (length ld.log) i found in
      let (own, own_at, own_same) = own_prev in
      elim (dec_le i args.prev_log_index) [
        | yes le ↦ elim (Bool-cases (i == args.prev_log_index)) [
          | inl eq ↦ absurd (
              other (
                sym same
                ∙ ground
                    (arith, clash i l own at own_at (==_eq i args.prev_log_index eq), own_same)))
          | inr ne ↦ omega (arith, prev, not_==→ne i args.prev_log_index ne)
        ]
        | no gt ↦ absurd (behind i l e (omega arith) at here same)
      ]
    where
      clash :
          (i : ℕ) (l own : LogEntry)
          → get_elem? ld.log i ≡ some l
          → get_elem? ld.log args.prev_log_index ≡ some own
          → i ≡ args.prev_log_index
          → l.term ≡ own.term
      clash i l own p q e = cc (p, q, e)

      ==_eq : (a b : ℕ) → (a == b) ≡ true → a ≡ b
      ==_eq a b h = (==_iff a b).0 h

  -- A refusal for the log makes progress: if the previous entry is not the first one and the term
  -- that the follower has there does not come later in the leader's log, the leader's handling of the
  -- reply makes the next index of the follower, where the next call starts, strictly smaller, and not
  -- smaller than 1. The leader is in the term of the call.
  pub backtrack_progress :
      ¬ HasTerm f.log args.prev_log_index args.prev_log_term
      → NotBehind
      → (reply : AppendEntriesReply) × (f' : Raft) × (append_entries now args f ≡ some (reply, f'))
        × (reply.success ≡ false)
        × (1 ≤ (handle_reply server args reply ld).next_index server)
        × ((handle_reply server args reply ld).next_index server < ld.next_index server)
  backtrack_progress differs behind = elim (Option-cases (get_elem? f.log args.prev_log_index)) [
    | inl gone ↦
        let short : length f.log ≤ args.prev_log_index =
          get_elem?-none f.log args.prev_log_index gone in
        let (f', eq, _) = append_entries_short now args f current short in
        let reply : AppendEntriesReply = record {
          term = args.term;
          success = false;
          conflict_index = length f.log;
          conflict_term = minus_one;
        } in
        let (lo, hi) =
          backtrack_short ld.log reply (ld.next_index server) refl above (omega (arith, prev)) in
        let next = refused server args reply ld own refl in
        (reply, f', eq, refl, omega (arith, lo, next), omega (arith, hi, next))
    | inr (e, here) ↦
        let other : e.term ≢ args.prev_log_term = λ same. differs (e, here, same) in
        let (k, f', eq, first, _) = append_entries_conflict now args f current e here other in
        let reply : AppendEntriesReply = record {
          term = args.term;
          success = false;
          conflict_index = k;
          conflict_term = pos e.term;
        } in
        let (lo, hi) =
          backtrack_below ld.log reply (ld.next_index server) above
            (omega (arith, prev, first.below)) (conflict_jump e here other behind) in
        let next = refused server args reply ld own refl in
        (reply, f', eq, refl, omega (arith, lo, next), omega (arith, hi, next))
  ]
