-- ===== src/Raft/AppendEntries/Guarantees.antt =====
-- The handler `AppendEntries` as a whole.
use sisyphus_db.Prelude.{ℕ, ◌+◌, ◌^◌, ◌≤◌, ◌<◌, ◌≡◌, refl, sym, ap, ◌∙◌, ◌⊎◌, inl, inr, arith}
use sisyphus_db.Prelude.{length, take, get_elem?, some, true, false, length-take}
use sisyphus_db.Prelude.{Option-cases, get_elem?-lt, get_elem?-take, get_elem?-none}
use native.Mathlib.Nat.{le_trans}
use native.Mathlib.Decide.{dec_lt, ℕ_discrete}
use sisyphus_db.Raft.Node.{LogEntry, Raft}
use sisyphus_db.Raft.Invariant.{IsValid}
use sisyphus_db.Raft.AppendEntries.{AppendEntriesArgs, AppendEntriesReply, append_entries, accepted}
use sisyphus_db.Raft.AppendEntries.Branches.{
  HasTerm, Accepted, new_log, new_commit, length-new_log, append_entries_accepts,
}
use sisyphus_db.Raft.AppendEntries.Conflict.{
  Kept, append_entries_stale, append_entries_short, append_entries_conflict,
}
use sisyphus_db.Raft.AppendEntries.Safety.{
  NoConflict, HasTerm-new_log, take-new_log, take_committed, new_log_idem,
}

module _ (now : ℕ) (args : AppendEntriesArgs) (rf : Raft)
    (room : length rf.log + length args.entries < 2 ^ 32) where
  -- On every input, with the log and the entries sent below 2^32 entries together, the handler
  -- answers: it accepts if the term is current and the previous entry matches, and then leaves the
  -- merged log; otherwise it refuses and keeps log and indices.
  pub append_entries_cases :
      (reply : AppendEntriesReply) × (rf' : Raft) × (append_entries now args rf ≡ some (reply, rf'))
      × (((reply.success ≡ true)
            × (rf.current_term ≤ args.term)
            × HasTerm rf.log args.prev_log_index args.prev_log_term
            × Accepted args rf rf')
          ⊎ ((reply.success ≡ false)
              × ((args.term < rf.current_term)
                  ⊎ ¬ HasTerm rf.log args.prev_log_index args.prev_log_term)
              × Kept rf rf'))
  append_entries_cases = elim (dec_lt args.term rf.current_term) [
    | yes old ↦
        let (reply, eq, no_success, t) = append_entries_stale now args rf old in
        (
          reply,
          rf,
          eq,
          inr (
            no_success,
            inl old,
            record { log = refl; commit = refl; applied = refl; term = omega arith },
          ),
        )
    | no not_old ↦ elim (Option-cases (get_elem? rf.log args.prev_log_index)) [
      | inl gone ↦
          let (rf', eq, kept) =
            append_entries_short now args rf (omega arith)
              (get_elem?-none rf.log args.prev_log_index gone) in
          (_, rf', eq, inr (refl, inr (λ has. cc (gone, has.1)), kept))
      | inr (e, here) ↦ elim (ℕ_discrete e.term args.prev_log_term) [
        | yes same ↦
            let (rf', eq, done) =
              append_entries_accepts now args rf (omega arith) (e, here, same) room in
            (_, rf', eq, inl (refl, omega arith, (e, here, same), done))
        | no other ↦
            let (k, rf', eq, first, kept) =
              append_entries_conflict now args rf (omega arith) e here other in
            (_, rf', eq, inr (refl, inr (λ has. other (same_term e here has)), kept))
      ]
    ]
  ]
    where
      same_term :
          (e : LogEntry)
          → get_elem? rf.log args.prev_log_index ≡ some e
          → HasTerm rf.log args.prev_log_index args.prev_log_term
          → e.term ≡ args.prev_log_term
      same_term e here (x, there, t) = ground arith

commit_grows :
    (args : AppendEntriesArgs) (c : ℕ)
    → c ≤ args.prev_log_index + length args.entries
    → c ≤ new_commit args c
commit_grows args c reach = ground arith

commit_drops :
    (args : AppendEntriesArgs) (c : ℕ)
    → args.prev_log_index + length args.entries < c
    → c < args.leader_commit
    → new_commit args c < c
commit_drops args c low high = ground arith

commit_inside :
    (args : AppendEntriesArgs) (c n : ℕ)
    → c + 1 ≤ n
    → args.prev_log_index + length args.entries < n
    → new_commit args c < n
commit_inside args c n a b = ground arith

-- What stood committed in `rf` stands in `rf'`, and the commit index is inside the log.
abbrev pub Committed : Raft → Raft → Type 0
Committed rf rf' =
    (take (rf.commit_index + 1) rf'.log ≡ take (rf.commit_index + 1) rf.log)
    × (rf'.commit_index < length rf'.log)

Accepted-Committed :
    (args : AppendEntriesArgs) (rf rf' : Raft)
    → rf.commit_index < length rf.log
    → NoConflict rf.commit_index args rf.log
    → HasTerm rf.log args.prev_log_index args.prev_log_term
    → Accepted args rf rf'
    → Committed rf rf'
Accepted-Committed args rf rf' below safe has done =
    let inside = get_elem?-lt rf.log args.prev_log_index has.1 in
    let c = rf.commit_index in
    let same = take_committed args rf.log inside c below safe in
    let long : c + 1 ≤ length (new_log args rf.log) = omega (
      arith,
      ap length same,
      length-take (c + 1) (new_log args rf.log),
      length-take (c + 1) rf.log,
    ) in
    (
      rw (done.log) same,
      rw (done.log, done.commit)
          (commit_inside args c (length (new_log args rf.log)) long
            (length-new_log args rf.log inside).0),
    )

module _ (now : ℕ) (args : AppendEntriesArgs) (rf : Raft) where
  -- After an accepted call the log has, behind the previous entry, an entry with the term of each
  -- entry sent, at its place, and the log up to the previous entry is what it was.
  pub append_entries_matches :
      rf.current_term ≤ args.term
      → HasTerm rf.log args.prev_log_index args.prev_log_term
      → length rf.log + length args.entries < 2 ^ 32
      → (i : ℕ) (e : LogEntry) → get_elem? args.entries i ≡ some e
      → (rf' : Raft) × (append_entries now args rf ≡ some (accepted args.term, rf'))
        × HasTerm rf'.log (args.prev_log_index + 1 + i) e.term
        × (take (args.prev_log_index + 1) rf'.log ≡ take (args.prev_log_index + 1) rf.log)
  append_entries_matches current has room i e sent =
      let (rf', eq, done) = append_entries_accepts now args rf current has room in
      let inside = get_elem?-lt rf.log args.prev_log_index has.1 in
      (
        rf',
        eq,
        rw (done.log) (HasTerm-new_log args rf.log inside i e sent),
        rw (done.log) (take-new_log args rf.log inside),
      )

  -- A call that is delivered twice leaves the log that it leaves the first time.
  pub append_entries_redelivered :
      (later : ℕ)
      → rf.current_term ≤ args.term
      → HasTerm rf.log args.prev_log_index args.prev_log_term
      → length rf.log + length args.entries + length args.entries < 2 ^ 32
      → (rf' rf'' : Raft) × (append_entries now args rf ≡ some (accepted args.term, rf'))
        × (append_entries later args rf' ≡ some (accepted args.term, rf''))
        × (rf''.log ≡ rf'.log)
  append_entries_redelivered later current has room =
      let (rf', eq, done) = append_entries_accepts now args rf current has (omega arith) in
      let inside = get_elem?-lt rf.log args.prev_log_index has.1 in
      let (lo, hi) = length-new_log args rf.log inside in
      let m = args.prev_log_index + 1 in
      let same : take m rf'.log ≡ take m rf.log = rw (done.log) (take-new_log args rf.log inside) in
      let there : get_elem? rf'.log args.prev_log_index ≡ some has.0 =
        sym (get_elem?-take m args.prev_log_index rf'.log (omega arith))
        ∙ ap (λ l. get_elem? l args.prev_log_index) same
        ∙ get_elem?-take m args.prev_log_index rf.log (omega arith)
        ∙ has.1 in
      let (rf'', eq', again) =
        append_entries_accepts later args rf' (rw (done.term) (omega arith)) (has.0, there, has.2)
          (rw (done.log) (omega arith)) in
      (rf', rf'', eq, eq', again.log ∙ rw (done.log) (new_log_idem args rf.log inside))

  -- If no entry sent contradicts a committed one, then, accepted or refused, the call leaves the
  -- committed part of the log as it is, and the commit index inside the log.
  pub append_entries_keeps_committed :
      rf.commit_index < length rf.log
      → NoConflict rf.commit_index args rf.log
      → length rf.log + length args.entries < 2 ^ 32
      → (reply : AppendEntriesReply) × (rf' : Raft) × (append_entries now args rf
          ≡ some (reply, rf'))
        × (take (rf.commit_index + 1) rf'.log ≡ take (rf.commit_index + 1) rf.log)
        × (rf'.commit_index < length rf'.log)
  append_entries_keeps_committed inside safe room =
      let (reply, rf', eq, cases) = append_entries_cases now args rf room in
      let (same, lt) : Committed rf rf' = elim cases [
        | inl (_, _, has, done) ↦ Accepted-Committed args rf rf' inside safe has done
        | inr (_, _, kept) ↦
            (ap (take (rf.commit_index + 1)) kept.log, rw (kept.log, kept.commit) inside)
      ] in
      (reply, rf', eq, same, lt)

  -- If no entry sent contradicts a committed one, and the call reaches as far as the node has
  -- committed, the commit index does not move back, and the indices stay in order.
  pub append_entries-IsValid :
      IsValid rf
      → NoConflict rf.commit_index args rf.log
      → rf.commit_index ≤ args.prev_log_index + length args.entries
      → length rf.log + length args.entries < 2 ^ 32
      → (reply : AppendEntriesReply) × (rf' : Raft) × (append_entries now args rf
          ≡ some (reply, rf'))
        × (rf.commit_index ≤ rf'.commit_index)
        × IsValid rf'
  append_entries-IsValid valid safe reach room =
      let (reply, rf', eq, cases) = append_entries_cases now args rf room in
      let (le, ok) : (rf.commit_index ≤ rf'.commit_index) × IsValid rf' = elim cases [
        | inl (_, _, has, done) ↦
            let grows : rf.commit_index ≤ rf'.commit_index =
              rw (done.commit) (commit_grows args rf.commit_index reach) in
            (
              grows,
              record {
                applied_le = rw (done.applied) (le_trans valid.applied_le grows);
                commit_lt = (Accepted-Committed args rf rf' valid.commit_lt safe has done).1;
              },
            )
        | inr (_, _, kept) ↦ (
          omega (arith, kept.commit),
          record {
            applied_le = rw (kept.applied, kept.commit) valid.applied_le;
            commit_lt = rw (kept.log, kept.commit) valid.commit_lt;
          },
        )
      ] in
      (reply, rf', eq, le, ok)

  -- An accepted call that ends below the commit index, from a leader that has committed more, moves
  -- the commit index back.
  pub append_entries_commit_drops :
      rf.current_term ≤ args.term
      → HasTerm rf.log args.prev_log_index args.prev_log_term
      → args.prev_log_index + length args.entries < rf.commit_index
      → rf.commit_index < args.leader_commit
      → length rf.log + length args.entries < 2 ^ 32
      → (rf' : Raft) × (append_entries now args rf ≡ some (accepted args.term, rf'))
        × (rf'.commit_index < rf.commit_index)
  append_entries_commit_drops current has low high room =
      let (rf', eq, done) = append_entries_accepts now args rf current has room in
      (rf', eq, rw (done.commit) (commit_drops args rf.commit_index low high))
