-- ===== src/Raft/Applier.antt =====
-- raft/raft.go: `applier`, one round behind a signal on `commitCh`.
pub mod Delivery
use sisyphus_db.Prelude.{
  ℕ, zero, suc, ◌+◌, ◌-◌, List, [], ◌∷◌, ◌++◌, get_elem?, Option, none, some, leb,
}
use sisyphus_db.Prelude.{if◌then◌else◌, false}
use sisyphus_db.Raft.Node.{LogEntry, Raft}

-- The loop that takes the ready entries; `n` rounds are left. An index behind the log is a fault.
unfoldable pub collect : ℕ → List LogEntry → ℕ → List LogEntry → Option (List LogEntry)
collect zero log last_applied out = some out
collect (suc n) log last_applied out = elim (get_elem? log (last_applied + 1)) [
  | none ↦ none
  | some e ↦ collect n log (last_applied + 1) (out ++ (e ∷ []))
]

-- The entries that go to the store, in order, and the node after the round.
unfoldable pub apply_ready : Raft → Option (List LogEntry × Raft)
apply_ready rf =
    if leb rf.commit_index rf.last_applied
    then some ([], record rf { commit_signal = false })
    else elim (collect (rf.commit_index - rf.last_applied) rf.log rf.last_applied []) [
      | none ↦ none
      | some out ↦ some (out, record rf { last_applied = rf.commit_index; commit_signal = false })
    ]
