-- ===== src/Raft/AppendEntries/Safety.antt =====
-- What an accepted `AppendEntries` guarantees of the log.
use sisyphus_db.Prelude.{ℕ, zero, suc, ◌+◌, ◌-◌, ◌≤◌, ◌<◌, ◌≡◌, refl, sym, ap, ap₂, ◌∙◌, arith}
use sisyphus_db.Prelude.{List, [], ◌∷◌, ◌++◌, length, take, drop, get_elem?, some}
use sisyphus_db.Prelude.{inl, inr, Bool-cases, ==_iff, ==_refl, ◌==◌}
use sisyphus_db.Prelude.{length-take, length-drop, get_elem?-append_ge, get_elem?-drop}
use sisyphus_db.Prelude.{take-append, take-append_le, take-append_ge, drop-append, take-append-drop}
use sisyphus_db.Prelude.{take-take}
use native.Mathlib.Decide.{dec_le}
use sisyphus_db.Raft.Node.{LogEntry}
use sisyphus_db.Raft.AppendEntries.{AppendEntriesArgs}
use sisyphus_db.Raft.AppendEntries.Merge.{reconcile}
use sisyphus_db.Raft.AppendEntries.Branches.{HasTerm, new_log}

-- Every new entry stands in the result, at least in its term.
HasTerm-reconcile :
    (old new : List LogEntry) (i : ℕ) (e : LogEntry)
    → get_elem? new i ≡ some e
    → HasTerm (reconcile old new) i e.term
unfolding reconcile
HasTerm-reconcile [] new i e h = (e, h, refl)
HasTerm-reconcile (l ∷ old) [] i e h = cc
HasTerm-reconcile (l ∷ old) (n ∷ new) zero e h = elim (Bool-cases (l.term == n.term)) [
  | inl same ↦ rw (same) (l, refl, (==_iff l.term e.term).0 (ground (arith)))
  | inr other ↦ rw (other) (n, refl, ground arith)
]
HasTerm-reconcile (l ∷ old) (n ∷ new) (suc i) e h = elim (Bool-cases (l.term == n.term)) [
  | inl same ↦ rw (same) (HasTerm-reconcile old new i e h)
  | inr other ↦ rw (other) (e, h, refl)
]

-- Reconciling a second time changes nothing.
reconcile_same : (new : List LogEntry) → reconcile new new ≡ new
unfolding reconcile
reconcile_same [] = refl
reconcile_same (e ∷ new) = rw (==_refl e.term) (ap (◌∷◌ e) (reconcile_same new))

reconcile_idem : (old new : List LogEntry) → reconcile (reconcile old new) new ≡ reconcile old new
unfolding reconcile
reconcile_idem [] new = reconcile_same new
reconcile_idem (l ∷ old) [] = refl
reconcile_idem (l ∷ old) (n ∷ new) = elim (Bool-cases (l.term == n.term)) [
  | inl same ↦ rw (same) (rw (same) (ap (◌∷◌ l) (reconcile_idem old new)))
  | inr other ↦ rw (other) (rw (==_refl n.term) (ap (◌∷◌ n) (reconcile_same new)))
]

-- The two logs have the same terms at the positions below `k` that both have.
abbrev pub AgreeBelow : ℕ → List LogEntry → List LogEntry → Type 0
AgreeBelow k old new =
    (i : ℕ) (l e : LogEntry)
    → i < k
    → get_elem? old i ≡ some l
    → get_elem? new i ≡ some e
    → l.term ≡ e.term

-- A part of the log with which the new entries agree is not touched.
take-reconcile :
    (k : ℕ) (old new : List LogEntry)
    → k ≤ length old
    → AgreeBelow k old new
    → take k (reconcile old new) ≡ take k old
unfolding reconcile
take-reconcile zero old new h agree = refl
take-reconcile (suc k) [] new h agree = absurd (omega arith)
take-reconcile (suc k) (l ∷ old) [] h agree = refl
take-reconcile (suc k) (l ∷ old) (n ∷ new) h agree =
    rw ((==_iff l.term n.term).1 (agree 0 l n (omega arith) refl refl)) (
      ap (◌∷◌ l) (
        take-reconcile k old new (omega arith)
          (λ i a b lt p q. agree (suc i) a b (omega arith) p q)))

-- No new entry contradicts one that stands at or below index `c`.
abbrev pub NoConflict : ℕ → AppendEntriesArgs → List LogEntry → Type 0
NoConflict c args log =
    (i j : ℕ) (l e : LogEntry)
    → args.prev_log_index + 1 + i ≡ j
    → j ≤ c
    → get_elem? log j ≡ some l
    → get_elem? args.entries i ≡ some e
    → l.term ≡ e.term

module _ (args : AppendEntriesArgs) (log : List LogEntry)
    (inside : args.prev_log_index < length log) where
  length_kept : length (take (args.prev_log_index + 1) log) ≡ args.prev_log_index + 1
  length_kept = omega (arith, length-take (args.prev_log_index + 1) log)

  pub HasTerm-new_log :
      (i : ℕ) (e : LogEntry)
      → get_elem? args.entries i ≡ some e
      → HasTerm (new_log args log) (args.prev_log_index + 1 + i) e.term
  HasTerm-new_log i e h =
      let (x, at, same) =
        HasTerm-reconcile (drop (args.prev_log_index + 1) log) args.entries i e h in
      (
        x,
        get_elem?-append_ge (take (args.prev_log_index + 1) log)
              (reconcile (drop (args.prev_log_index + 1) log) args.entries) i
              (args.prev_log_index + 1 + i) (omega (arith, length_kept))
            ∙ at,
        same,
      )

  pub take-new_log :
      take (args.prev_log_index + 1) (new_log args log) ≡ take (args.prev_log_index + 1) log
  take-new_log =
      take-append (args.prev_log_index + 1) (take (args.prev_log_index + 1) log)
        (reconcile (drop (args.prev_log_index + 1) log) args.entries) length_kept

  -- What stands up to index `c` survives, if no new entry contradicts it.
  pub take_committed :
      (c : ℕ)
      → c < length log
      → NoConflict c args log
      → take (c + 1) (new_log args log) ≡ take (c + 1) log
  take_committed c here safe = elim (dec_le (c + 1) (args.prev_log_index + 1)) [
    | yes low ↦
        take-append_le (c + 1) (take (args.prev_log_index + 1) log)
          (reconcile (drop (args.prev_log_index + 1) log) args.entries) (omega (arith, length_kept))
        ∙ take-take (c + 1) (args.prev_log_index + 1) log low
    | no high ↦
        let m = args.prev_log_index + 1 in
        let n = c - args.prev_log_index in
        let k : m + n ≡ c + 1 = omega arith in
        take-append_ge m n (c + 1) (take m log) (reconcile (drop m log) args.entries) length_kept k
        ∙ ap (λ rest. take m log ++ rest)
            (take-reconcile n (drop m log) args.entries (omega (arith, length-drop m log))
              (λ i l e lt p q.
                safe i (m + i) l e refl (omega arith)
                  (sym (get_elem?-drop m i (m + i) log refl) ∙ p) q))
        ∙ sym (take-append_ge m n (c + 1) (take m log) (drop m log) length_kept k)
        ∙ ap (take (c + 1)) (take-append-drop m log)
  ]

  -- The same call a second time leaves the log as it is.
  pub new_log_idem : new_log args (new_log args log) ≡ new_log args log
  new_log_idem =
      ap₂ (λ front back. front ++ reconcile back args.entries) take-new_log
        (drop-append (args.prev_log_index + 1) (take (args.prev_log_index + 1) log)
          (reconcile (drop (args.prev_log_index + 1) log) args.entries) length_kept)
      ∙ ap (λ rest. take (args.prev_log_index + 1) log ++ rest)
          (reconcile_idem (drop (args.prev_log_index + 1) log) args.entries)
