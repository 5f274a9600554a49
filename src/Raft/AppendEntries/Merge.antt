-- ===== src/Raft/AppendEntries/Merge.antt =====
-- The merge loop against a description by recursion on both logs.
use sisyphus_db.Prelude.{ℕ, ◌+◌, ◌≤◌, ◌≡◌, refl, sym, ap₂, ◌∙◌, true, false, inl, inr}
use sisyphus_db.Prelude.{List, [], ◌∷◌, ◌++◌, length, take, drop, arith}
use sisyphus_db.Prelude.{append-nil, append_assoc, length-append, length-take, take-append}
use sisyphus_db.Prelude.{
  take-append-drop, get_elem?-append_length, get_elem?-end, if◌then◌else◌, Bool-cases, ◌==◌,
}
use sisyphus_db.Raft.Node.{LogEntry}
use sisyphus_db.Raft.AppendEntries.{merge, merge_one}

-- Entries that agree in term are kept; from the first that does not, the new ones stand.
unfoldable pub reconcile : List LogEntry → List LogEntry → List LogEntry
reconcile [] new = new
reconcile (l ∷ old) [] = l ∷ old
reconcile (l ∷ old) (e ∷ new) =
    let rest = reconcile old new in if l.term == e.term then l ∷ rest else e ∷ new

merge_one-end :
    (front : List LogEntry) (e : LogEntry)
    → merge_one (front ++ []) (length front) e ≡ (front ++ (e ∷ [])) ++ []
unfolding merge_one
merge_one-end front e = rw (append-nil, append-nil) (rw (get_elem?-end front, merge_one))

merge_one-match :
    (front : List LogEntry) (l : LogEntry) (old : List LogEntry) (e : LogEntry)
    → (l.term == e.term) ≡ true
    → merge_one (front ++ (l ∷ old)) (length front) e ≡ (front ++ (l ∷ [])) ++ old
unfolding merge_one
merge_one-match front l old e h =
    rw (get_elem?-append_length front l old, h, merge_one) (rw append_assoc)

merge_one-conflict :
    (front : List LogEntry) (l : LogEntry) (old : List LogEntry) (e : LogEntry)
    → (l.term == e.term) ≡ false
    → merge_one (front ++ (l ∷ old)) (length front) e ≡ (front ++ (e ∷ [])) ++ []
unfolding merge_one
merge_one-conflict front l old e h =
    rw
      (
        get_elem?-append_length front l old,
        h,
        take-append (length front) front (l ∷ old) refl,
        merge_one,
      )
      (rw append-nil)

length-snoc : (front : List LogEntry) (e : LogEntry) → length front + 1 ≡ length (front ++ (e ∷ []))
length-snoc front e = omega (arith, length-append front (e ∷ []))

merge-reconcile_front :
    (new front old : List LogEntry)
    → merge (front ++ old) (length front) new ≡ front ++ reconcile old new
unfolding merge reconcile
merge-reconcile_front [] front [] = refl
merge-reconcile_front [] front (l ∷ old) = refl
merge-reconcile_front (e ∷ new) front [] =
    ap₂ (λ log i. merge log i new) (merge_one-end front e) (length-snoc front e)
    ∙ merge-reconcile_front new (front ++ (e ∷ [])) []
    ∙ append_assoc front (e ∷ []) new
merge-reconcile_front (e ∷ new) front (l ∷ old) = elim (Bool-cases (l.term == e.term)) [
  | inl same ↦
      ap₂ (λ log i. merge log i new) (merge_one-match front l old e same) (length-snoc front l)
      ∙ merge-reconcile_front new (front ++ (l ∷ [])) old
      ∙ rw (append_assoc, same)
  | inr other ↦
      ap₂ (λ log i. merge log i new) (merge_one-conflict front l old e other) (length-snoc front e)
      ∙ merge-reconcile_front new (front ++ (e ∷ [])) []
      ∙ rw (append_assoc, other)
]

-- The loop keeps the log below the index, and reconciles what stands from there on.
pub merge-reconcile :
    (log new : List LogEntry) (index : ℕ)
    → index ≤ length log
    → merge log index new ≡ take index log ++ reconcile (drop index log) new
merge-reconcile log new index h =
    ap₂ (λ l i. merge l i new) (sym (take-append-drop index log)) (sym cut)
    ∙ merge-reconcile_front new (take index log) (drop index log)
  where
    cut : length (take index log) ≡ index
    cut = omega (arith, length-take index log)

-- At least the new entries, and at least as far as they reach.
pub length-reconcile : (old new : List LogEntry) → length new ≤ length (reconcile old new)
unfolding reconcile
length-reconcile [] new = omega arith
length-reconcile (l ∷ old) [] = omega arith
length-reconcile (l ∷ old) (e ∷ new) = ground (arith, length-reconcile old new)

pub length-reconcile_le :
    (old new : List LogEntry) → length (reconcile old new) ≤ length old + length new
unfolding reconcile
length-reconcile_le [] new = omega arith
length-reconcile_le (l ∷ old) [] = omega arith
length-reconcile_le (l ∷ old) (e ∷ new) = ground (arith, length-reconcile_le old new)
