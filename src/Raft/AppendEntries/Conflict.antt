-- ===== src/Raft/AppendEntries/Conflict.antt =====
-- The refusals of the handler `AppendEntries`: what the reply tells the leader.
use sisyphus_db.Prelude.{ℕ, zero, suc, ◌+◌, ◌≤◌, ◌<◌, ◌≡◌, ◌≢◌, refl, ◌⊎◌, inl, inr, arith}
use sisyphus_db.Prelude.{List, length, get_elem?, some, false, ◌==◌}
use sisyphus_db.Prelude.{Bool-cases, ==_iff, le→not_ltb, lt→ltb, lt→not_leb, le→leb, get_elem?-lt}
use sisyphus_db.Prelude.{get_elem?-some, pos, minus_one}
use sisyphus_db.Prelude.{==_refl, ne→not_==}
use native.Mathlib.Numerals.{add-one}
use sisyphus_db.Raft.Node.{LogEntry, Raft, persist_state}
use sisyphus_db.Raft.AppendEntries.{
  AppendEntriesArgs, AppendEntriesReply, append_entries, check_log, follow, first_of_term,
}
use sisyphus_db.Raft.AppendEntries.Branches.{HasTerm}

-- From `k` to `i` all entries have term `t`, and the entry before `k` has not.
pub record IsFirstOf (log : List LogEntry) (t i k : ℕ) : Type 0 where
  pub below : k ≤ i
  pub run : (j : ℕ) → k ≤ j → j ≤ i → HasTerm log j t
  pub start :
      (k ≡ 0) ⊎ ((j : ℕ) × (e : LogEntry) × (k ≡ suc j) × (get_elem? log j ≡ some e) × (e.term ≢ t))

not_eq : (a b : ℕ) → (a == b) ≡ false → a ≢ b
not_eq a b h = ground arith

module _ (log : List LogEntry) (t i : ℕ) where
  first_of_term-IsFirstOf :
      (n : ℕ)
      → n ≤ i
      → n ≤ length log
      → ((j : ℕ) → n ≤ j → j ≤ i → HasTerm log j t)
      → IsFirstOf log t i (first_of_term log t n n)
  unfolding first_of_term
  first_of_term-IsFirstOf zero b l all = record { below = omega arith; run = all; start = inl refl }
  first_of_term-IsFirstOf (suc n) b l all =
      let (e, here) = get_elem?-some log n (omega arith) in
      elim (Bool-cases (e.term == t)) [
        | inl same ↦
            rw (here, same, first_of_term)
              (first_of_term-IsFirstOf n (omega arith) (omega arith)
                (extend e here ((==_iff e.term t).0 same)))
        | inr other ↦
            rw (here, other, first_of_term)
              (record {
                below = b;
                run = all;
                start = inr (n, e, refl, here, not_eq e.term t other);
              })
      ]
    where
      extend :
          (e : LogEntry)
          → get_elem? log n ≡ some e
          → e.term ≡ t
          → (j : ℕ) → n ≤ j
          → j ≤ i
          → HasTerm log j t
      extend e here same j lo hi = elim (Bool-cases (n == j)) [
        | inl eq ↦ (e, rw (← (==_iff n j).0 eq) here, same)
        | inr ne ↦ all j (ground arith) hi
      ]

first_of_term_start :
    (log : List LogEntry) (i : ℕ) (e : LogEntry)
    → get_elem? log i ≡ some e
    → first_of_term log e.term (i + 1) 0 ≡ first_of_term log e.term i i
unfolding first_of_term
first_of_term_start log i e here = rw (add-one i) (rw (here, ==_refl e.term, first_of_term))

-- What a refused call leaves alone.
pub record Kept (rf rf' : Raft) : Type 0 where
  pub log : rf'.log ≡ rf.log
  pub commit : rf'.commit_index ≡ rf.commit_index
  pub applied : rf'.last_applied ≡ rf.last_applied
  pub term : rf.current_term ≤ rf'.current_term

module _ (now : ℕ) (args : AppendEntriesArgs) (rf : Raft) where
  follow-Kept : rf.current_term ≤ args.term → Kept rf (follow now args rf)
  unfolding follow persist_state
  follow-Kept current = record { log = refl; commit = refl; applied = refl; term = current }

  -- A call from an earlier term is answered with the node's own term, and changes nothing.
  pub append_entries_stale :
      args.term < rf.current_term
      → (reply : AppendEntriesReply) × (append_entries now args rf ≡ some (reply, rf))
        × (reply.success ≡ false)
        × (reply.term ≡ rf.current_term)
  unfolding append_entries
  append_entries_stale old = (
    record { term = rf.current_term; success = false; conflict_index = 0; conflict_term = pos 0 },
    rw (lt→ltb args.term rf.current_term old),
    refl,
    refl,
  )

  -- A log that is too short is reported with its length, and with no term.
  pub append_entries_short :
      rf.current_term ≤ args.term
      → length rf.log ≤ args.prev_log_index
      → (rf' : Raft) × (append_entries now args rf
          ≡ some (
            record {
              term = args.term;
              success = false;
              conflict_index = length rf.log;
              conflict_term = minus_one;
            },
            rf',
          ))
        × Kept rf rf'
  unfolding append_entries check_log follow persist_state
  append_entries_short current short = (
    follow now args rf,
    rw (
      le→not_ltb args.term rf.current_term current,
      le→leb (length rf.log) args.prev_log_index short,
    ),
    follow-Kept current,
  )

  -- Another term at the previous index is reported with the first index of its run.
  pub append_entries_conflict :
      rf.current_term ≤ args.term
      → (e : LogEntry) → get_elem? rf.log args.prev_log_index ≡ some e
      → e.term ≢ args.prev_log_term
      → (k : ℕ) × (rf' : Raft) × (append_entries now args rf
          ≡ some (
            record {
              term = args.term;
              success = false;
              conflict_index = k;
              conflict_term = pos e.term;
            },
            rf',
          ))
        × IsFirstOf rf.log e.term args.prev_log_index k
        × Kept rf rf'
  unfolding append_entries check_log follow persist_state first_of_term
  append_entries_conflict current e here other =
      let i = args.prev_log_index in
      let inside = get_elem?-lt rf.log i here in
      (
        first_of_term rf.log e.term i i,
        follow now args rf,
        rw (
          le→not_ltb args.term rf.current_term current,
          lt→not_leb (length rf.log) i inside,
          here,
          ne→not_== e.term args.prev_log_term other,
          first_of_term_start rf.log i e here,
        ),
        first_of_term-IsFirstOf rf.log e.term i i (omega arith) (omega arith)
            (λ j lo hi. at_end j (omega arith)),
        follow-Kept current,
      )
    where
      at_end : (j : ℕ) → j ≡ args.prev_log_index → HasTerm rf.log j e.term
      at_end j eq = (e, rw eq here, refl)
