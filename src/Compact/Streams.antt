-- ===== src/Compact/Streams.antt =====
-- The merge of iterators is that of the lists of entries that they read.
use sisyphus_db.Prelude.{
  ℕ, zero, suc, ◌<◌, ◌≤◌, ◌≡◌, refl, sym, ap, ap₂, ◌∙◌, arith, Bool, true, false, Bool-cases,
  Option-cases, inl, inr, List, [], ◌∷◌, length, Option, none, some, Bytes, All, ◌&&◌,
  if◌then◌else◌, ok,
}
use sisyphus_db.Prelude.{bytes_eq}
use mathlib.Core.Path.{subst}
use sisyphus_db.Sstable.{Builder, SstableIterator, next, new_builder, add_item}
use sisyphus_db.Sstable.Items.{Item, IsSorted}
use sisyphus_db.Sstable.RoundTrip.{item_of, add_items}
use sisyphus_db.Bloom.Bounds.{IsFilter, new_filter-IsFilter}
use sisyphus_db.Compact.{lesser, least, winner, advance, remaining, emit, merge}
use sisyphus_db.Compact.Lists.{
  least_of, winner_of, drop_key, advance_of, keep, merged, total, found_in, first_found, live,
}
use sisyphus_db.Compact.Ends.{least-valid, least-invalid, merge-none, merge-some, emit-some}
use sisyphus_db.Compact.Steps.{moved, moved-same, moved-other, moved-invalid, left, next-left}
use sisyphus_db.Compact.Keys.{
  drop_key-head, drop_key-other, Begins-least_of, advance_of-Begins, merged-none, merged-some,
}
use sisyphus_db.Compact.Merge.{found_in-merged, merged-IsSorted}

-- The iterator reads the entries, one after the other, and ends behind the last.
abbrev pub Reads : List Item → SstableIterator → Type 0
Reads [] it = it.valid ≡ false
Reads (e ∷ es) it = (it.valid ≡ true) × (item_of it ≡ e) × Reads es (next it)

abbrev pub AllRead : List (List Item) → List SstableIterator → Type 0
AllRead [] [] = Unit
AllRead (es ∷ ls) (it ∷ its) = Reads es it × AllRead ls its
AllRead [] (it ∷ its) = ⊥
AllRead (es ∷ ls) [] = ⊥

least-least_of :
    (acc : Option Bytes) (ls : List (List Item)) (its : List SstableIterator)
    → AllRead ls its
    → least acc its ≡ least_of acc ls
unfolding least
least-least_of acc [] [] h = refl
least-least_of acc [] (it ∷ its) h = absurd h
least-least_of acc (es ∷ ls) [] h = absurd h
least-least_of acc ([] ∷ ls) (it ∷ its) h =
    least-invalid acc it its h.0 ∙ least-least_of acc ls its h.1
least-least_of acc ((e ∷ es) ∷ ls) (it ∷ its) h =
    least-valid acc it its h.0.0
    ∙ ap (λ x. least (lesser x.key acc) its) h.0.1
    ∙ least-least_of (lesser e.key acc) ls its h.1

abbrev won : Bytes → Bool → Item → Option Item → Option Item
won key v e rest =
    if v && bytes_eq e.key key
    then some (record { key = key; value = e.value; is_tombstone = e.is_tombstone })
    else rest

winner-winner_of :
    (key : Bytes) (ls : List (List Item)) (its : List SstableIterator)
    → AllRead ls its
    → winner key its ≡ winner_of key ls
unfolding winner
winner-winner_of key [] [] h = refl
winner-winner_of key [] (it ∷ its) h = absurd h
winner-winner_of key (es ∷ ls) [] h = absurd h
winner-winner_of key ([] ∷ ls) (it ∷ its) h =
    ap₂ (λ v rest. won key v (item_of it) rest) h.0 (winner-winner_of key ls its h.1)
winner-winner_of key ((e ∷ es) ∷ ls) (it ∷ its) h =
    ap₂ (λ v rest. won key v (item_of it) rest) h.0.0 (winner-winner_of key ls its h.1)
    ∙ ap (λ x. won key true x (winner_of key ls)) h.0.1

moved-Reads :
    (key : Bytes) (es : List Item) (it : SstableIterator)
    → Reads es it
    → Reads (drop_key key es) (moved key it)
moved-Reads key [] it h = subst (Reads []) (sym (moved-invalid key it h)) h
moved-Reads key (e ∷ es) it h = elim (Bool-cases (bytes_eq it.key key)) [
  | inl same ↦
      let here = ap (λ x. bytes_eq x.key key) (sym h.1) ∙ same in
      rw (drop_key-head key e es here, moved-same key it h.0 same) h.2
  | inr other ↦
      let there = ap (λ x. bytes_eq x.key key) (sym h.1) ∙ other in
      rw (drop_key-other key e es there, moved-other key it h.0 other) h
]

advance-AllRead :
    (key : Bytes) (ls : List (List Item)) (its : List SstableIterator)
    → AllRead ls its
    → AllRead (advance_of key ls) (advance key its)
unfolding advance
advance-AllRead key [] [] h = tt
advance-AllRead key [] (it ∷ its) h = absurd h
advance-AllRead key (es ∷ ls) [] h = absurd h
advance-AllRead key (es ∷ ls) (it ∷ its) h =
    (moved-Reads key es it h.0, advance-AllRead key ls its h.1)

Reads-left : (es : List Item) (it : SstableIterator) → Reads es it → length es ≤ left it
Reads-left [] it h = omega arith
Reads-left (e ∷ es) it h = omega (arith, Reads-left es (next it) h.2, next-left it h.0)

-- The fuel of `CheckAndCompact` is enough.
pub AllRead-remaining :
    (ls : List (List Item)) (its : List SstableIterator) → AllRead ls its → total ls ≤ remaining its
unfolding remaining
AllRead-remaining [] [] h = omega arith
AllRead-remaining [] (it ∷ its) h = absurd h
AllRead-remaining (es ∷ ls) [] h = absurd h
AllRead-remaining (es ∷ ls) (it ∷ its) h =
    omega (arith, Reads-left es it h.0, AllRead-remaining ls its h.1)

module _ (sum64 : Bytes → ℕ) where
  add_items-cons :
      (x : Item) (rest : List Item) (b b' : Builder)
      → add_item sum64 x.key x.value x.is_tombstone b ≡ some b'
      → add_items sum64 (x ∷ rest) b ≡ add_items sum64 rest b'
  add_items-cons x rest b b' added = rw (added, add_items) refl

  add_items-keep :
      (is_bottom : Bool) (w : Option Item) (rest : List Item) (b b' : Builder)
      → emit sum64 is_bottom w b ≡ some b'
      → add_items sum64 (keep is_bottom w rest) b ≡ add_items sum64 rest b'
  unfolding emit
  add_items-keep is_bottom none rest b b' e =
      let same : b ≡ b' = cc in ap (add_items sum64 rest) same
  add_items-keep is_bottom (some x) rest b b' e = elim (Bool-cases (x.is_tombstone && is_bottom)) [
    | inl skipped ↦
        let same : b ≡ b' = (let here = sym (emit_skipped skipped) ∙ e in cc) in
        rw skipped (ap (add_items sum64 rest) same)
    | inr kept ↦ let added = sym (emit_kept kept) ∙ e in rw kept (add_items-cons x rest b b' added)
  ]
    where
      emit_skipped : x.is_tombstone && is_bottom ≡ true → emit sum64 is_bottom (some x) b ≡ some b
      emit_skipped h = rw (h, emit) refl

      emit_kept :
          x.is_tombstone && is_bottom ≡ false
          → emit sum64 is_bottom (some x) b ≡ add_item sum64 x.key x.value x.is_tombstone b
      emit_kept h = rw (h, emit) refl

  pub merge-merged :
      (fuel : ℕ) (is_bottom : Bool) (ls : List (List Item)) (its : List SstableIterator)
      (b : Builder)
      → IsFilter b.filter
      → AllRead ls its
      → total ls < fuel
      → (b' : Builder) × (add_items sum64 (merged fuel is_bottom ls) b ≡ some b')
        × (merge sum64 fuel is_bottom its b ≡ ok b')
  merge-merged zero is_bottom ls its b f h lt = absurd (omega (arith, lt))
  merge-merged (suc fuel) is_bottom ls its b f h lt = elim (Option-cases (least_of none ls)) [
    | inl e ↦ (
      b,
      ap (λ out. add_items sum64 out b) (merged-none fuel is_bottom ls e),
      merge-none sum64 fuel is_bottom its b (least-least_of none ls its h ∙ e),
    )
    | inr (key, e) ↦
        let (b₁, added, f₁) = emit-some sum64 is_bottom (winner_of key ls) b f in
        let (b', more, done) =
          merge-merged fuel is_bottom (advance_of key ls) (advance key its) b₁ f₁
            (advance-AllRead key ls its h)
            (omega (arith, lt, advance_of-Begins key ls (Begins-least_of ls key e))) in
        let won = ap (λ w. emit sum64 is_bottom w b) (winner-winner_of key ls its h) ∙ added in
        (
          b',
          ap (λ out. add_items sum64 out b) (merged-some fuel is_bottom ls key e)
              ∙ add_items-keep is_bottom (winner_of key ls)
                  (merged fuel is_bottom (advance_of key ls)) b b₁ added
              ∙ more,
          merge-some sum64 fuel is_bottom its b b₁ key (least-least_of none ls its h ∙ e) won
              ∙ done,
        )
  ]

-- The merge of iterators that read sorted lists, on fuel for all entries, writes an ascending list: a key
-- has there what the first list that has it says, and no entry if no list has it; in a merge to the
-- bottom level a tombstone is left out.
pub merge-first_found :
    (sum64 : Bytes → ℕ) (fuel count : ℕ) (is_bottom : Bool) (ls : List (List Item))
    (its : List SstableIterator)
    → AllRead ls its
    → All IsSorted ls
    → total ls < fuel
    → (out : List Item) × (b : Builder) × (add_items sum64 out (new_builder count) ≡ some b)
      × (merge sum64 fuel is_bottom its (new_builder count) ≡ ok b)
      × IsSorted out
      × ((key : Bytes) → found_in key out ≡ live is_bottom (first_found key ls))
unfolding new_builder
merge-first_found sum64 fuel count is_bottom ls its reads sorted lt =
    let (b, added, done) =
      merge-merged sum64 fuel is_bottom ls its (new_builder count) (new_filter-IsFilter count) reads
        lt in
    (
      merged fuel is_bottom ls,
      b,
      added,
      done,
      merged-IsSorted fuel is_bottom ls sorted,
      λ key. found_in-merged fuel is_bottom ls key sorted lt,
    )
