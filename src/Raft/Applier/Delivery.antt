-- ===== src/Raft/Applier/Delivery.antt =====
-- What the store gets from `applier`.
use sisyphus_db.Prelude.{ℕ, zero, suc, ◌+◌, ◌-◌, ◌<◌, ◌≡◌, refl, sym, ap, ◌∙◌, arith, false}
use sisyphus_db.Prelude.{List, [], ◌∷◌, ◌++◌, length, take, drop, some}
use sisyphus_db.Prelude.{append-nil, append_assoc, get_elem?-some, leb, Bool-cases, inl, inr}
use sisyphus_db.Prelude.{take-get, take-add}
use native.Mathlib.Numerals.{add-one}
use sisyphus_db.Raft.Node.{LogEntry, Raft}
use sisyphus_db.Raft.Invariant.{IsValid}
use sisyphus_db.Raft.Applier.{collect, apply_ready}

collect-take :
    (n : ℕ) (log : List LogEntry) (i : ℕ) (out : List LogEntry)
    → i + n < length log
    → collect n log i out ≡ some (out ++ take n (drop (i + 1) log))
unfolding collect
collect-take zero log i out h = rw append-nil
collect-take (suc n) log i out h =
    let (e, here) = get_elem?-some log (i + 1) (omega arith) in
    rw (here, collect)
      (collect-take n log (i + 1) (out ++ (e ∷ [])) (omega arith)
        ∙ rw (append_assoc) (
            rw (add-one (i + 1)) (ap (λ l. some (out ++ l)) (sym (take-get n (i + 1) log e here)))))

-- The committed entries that are not applied yet.
abbrev pub ready : Raft → List LogEntry
ready rf = take (rf.commit_index - rf.last_applied) (drop (rf.last_applied + 1) rf.log)

-- With its indices in order a node hands over exactly the committed entries that were not applied,
-- in log order, does not fault, and has applied all that is committed.
pub apply_ready-ready :
    (rf : Raft)
    → IsValid rf
    → apply_ready rf
      ≡ some (ready rf, record rf { last_applied = rf.commit_index; commit_signal = false })
unfolding apply_ready
apply_ready-ready rf valid = elim (Bool-cases (leb rf.commit_index rf.last_applied)) [
  | inl none_new ↦
      let e : rf.last_applied ≡ rf.commit_index = ground (arith, valid.applied_le) in
      let z : rf.commit_index - rf.last_applied ≡ 0 = omega arith in
      rw (none_new, z)
        (ap (λ k. some ([], record rf { last_applied = k; commit_signal = false })) e)
  | inr more ↦ rw (
    more,
    collect-take (rf.commit_index - rf.last_applied) rf.log rf.last_applied []
        (omega (arith, valid.applied_le, valid.commit_lt)),
  )
]

-- A round of `applier` extends the applied part of the log by exactly what it hands over: entries
-- reach the store in log order, none twice and none left out.
pub apply_ready_in_order :
    (rf : Raft)
    → IsValid rf
    → (out : List LogEntry) × (rf' : Raft) × (apply_ready rf ≡ some (out, rf'))
      × (take (rf'.last_applied + 1) rf'.log ≡ take (rf.last_applied + 1) rf.log ++ out)
      × (rf'.last_applied ≡ rf'.commit_index)
      × IsValid rf'
apply_ready_in_order rf valid = (
  ready rf,
  record rf { last_applied = rf.commit_index; commit_signal = false },
  apply_ready-ready rf valid,
  take-add (rf.last_applied + 1) (rf.commit_index - rf.last_applied) (rf.commit_index + 1) rf.log
      (omega (arith, valid.applied_le)),
  refl,
  record { applied_le = omega arith; commit_lt = valid.commit_lt },
)
