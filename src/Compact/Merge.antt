-- ===== src/Compact/Merge.antt =====
-- The merge of sorted lists as a map from keys to what is known of them.
use sisyphus_db.Prelude.{
  ℕ, zero, suc, ◌<◌, ◌≡◌, refl, sym, ap, ◌∙◌, arith, Bool, true, false, Bool-cases, Option-cases,
  inl, inr, List, Option, none, some, Bytes, All, ◌&&◌,
}
use sisyphus_db.Prelude.{bytes_eq, bytes_eq-eq, bytes_lt, missing}
use mathlib.Core.Path.{subst}
use sisyphus_db.Sstable.Items.{Item, IsSorted}
use sisyphus_db.Compact.Lists.{
  found_in, first_found, live, least_of, winner_of, advance_of, keep, merged, total, NotBelow,
  Above, least_of-NotBelow, least_of-empty,
}
use sisyphus_db.Compact.Round.{
  Above-lists, advance_of-IsSorted, first_found-advance_of, first_found-winner_of,
  found_in-keep_same, found_in-keep_other,
}
use sisyphus_db.Compact.Keys.{
  advance_of-Begins, winner_of-HasKey, HasKey, merged-none, merged-some, Begins-least_of,
  merged-Keys,
}

live_missing : (b : Bool) → live b missing ≡ missing
live_missing true = refl
live_missing false = refl

-- What a round leaves for the rest: smaller and sorted lists of greater keys.
record Left (key : Bytes) (ls : List (List Item)) : Type 0 where
  pub fewer : total (advance_of key ls) < total ls
  pub sorted : All IsSorted (advance_of key ls)
  pub not_below : All (NotBelow key) ls
  pub above : All (Above key) (advance_of key ls)

advance_of-Left :
    (ls : List (List Item)) (key : Bytes)
    → All IsSorted ls
    → least_of none ls ≡ some key
    → Left key ls
advance_of-Left ls key sorted e =
    let (bound, nb) = least_of-NotBelow none ls key sorted e in
    record {
      fewer = advance_of-Begins key ls (Begins-least_of ls key e);
      sorted = advance_of-IsSorted key ls sorted;
      not_below = nb;
      above = Above-lists key ls sorted nb;
    }

merged-Above :
    (fuel : ℕ) (is_bottom : Bool) (key : Bytes) (ls : List (List Item))
    → All (Above key) ls
    → Above key (merged fuel is_bottom ls)
merged-Above fuel is_bottom key ls h = merged-Keys (λ k. bytes_lt key k ≡ true) fuel is_bottom ls h

pub found_in-merged :
    (fuel : ℕ) (is_bottom : Bool) (ls : List (List Item)) (key : Bytes)
    → All IsSorted ls
    → total ls < fuel
    → found_in key (merged fuel is_bottom ls) ≡ live is_bottom (first_found key ls)
found_in-merged zero is_bottom ls key sorted lt = absurd (omega (arith, lt))
found_in-merged (suc fuel) is_bottom ls key sorted lt = elim (Option-cases (least_of none ls)) [
  | inl e ↦
      ap (found_in key) (merged-none fuel is_bottom ls e)
      ∙ sym (ap (live is_bottom) (least_of-empty ls e key) ∙ live_missing is_bottom)
  | inr (m, e) ↦
      let left = advance_of-Left ls m sorted e in
      let rest = merged fuel is_bottom (advance_of m ls) in
      let has = winner_of-HasKey m ls in
      ap (found_in key) (merged-some fuel is_bottom ls m e) ∙ elim (Bool-cases (bytes_eq m key)) [
        | inl same ↦
            subst
              (λ k.
                found_in k (keep is_bottom (winner_of m ls) rest)
                ≡ live is_bottom (first_found k ls))
              (bytes_eq-eq m key same)
              (found_in-keep_same is_bottom m (winner_of m ls) rest has
                  (merged-Above fuel is_bottom m (advance_of m ls) left.above)
                ∙ sym (ap (live is_bottom) (first_found-winner_of m ls sorted left.not_below)))
        | inr other ↦
            found_in-keep_other is_bottom m key (winner_of m ls) rest has other
            ∙ found_in-merged fuel is_bottom (advance_of m ls) key left.sorted
                (omega (arith, lt, left.fewer))
            ∙ ap (live is_bottom) (first_found-advance_of m key ls other)
      ]
]

keep-IsSorted :
    (is_bottom : Bool) (m : Bytes) (w : Option Item) (rest : List Item)
    → HasKey m w
    → Above m rest
    → IsSorted rest
    → IsSorted (keep is_bottom w rest)
keep-IsSorted is_bottom m none rest has above sorted = sorted
keep-IsSorted is_bottom m (some e) rest has above sorted =
    elim (Bool-cases (e.is_tombstone && is_bottom)) [
      | inl skipped ↦ rw skipped sorted
      | inr kept ↦ rw kept (subst (λ k. Above k rest) (sym has) above, sorted)
    ]

pub merged-IsSorted :
    (fuel : ℕ) (is_bottom : Bool) (ls : List (List Item))
    → All IsSorted ls
    → IsSorted (merged fuel is_bottom ls)
merged-IsSorted zero is_bottom ls sorted = tt
merged-IsSorted (suc fuel) is_bottom ls sorted = elim (Option-cases (least_of none ls)) [
  | inl e ↦ rw (merged-none fuel is_bottom ls e) tt
  | inr (m, e) ↦
      let left = advance_of-Left ls m sorted e in
      rw (merged-some fuel is_bottom ls m e) (
        keep-IsSorted is_bottom m (winner_of m ls) (merged fuel is_bottom (advance_of m ls))
          (winner_of-HasKey m ls) (merged-Above fuel is_bottom m (advance_of m ls) left.above)
          (merged-IsSorted fuel is_bottom (advance_of m ls) left.sorted))
]
