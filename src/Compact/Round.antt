-- ===== src/Compact/Round.antt =====
-- One round of the merge on sorted lists.
use sisyphus_db.Prelude.{
  ◌≡◌, refl, ap, ap₂, ◌∙◌, Bool, true, false, Bool-cases, inl, inr, List, [], ◌∷◌, Option, none,
  some, Bytes, All,
}
use sisyphus_db.Prelude.{
  if◌then◌else◌, ◌&&◌, bytes_eq, bytes_eq_refl, bytes_eq_sym, bytes_eq-eq, bytes_lt, bytes_lt_trans,
  bytes_lt_total, bytes_lt-not_eq, Found, missing, tombstone, value,
}
use mathlib.Core.Path.{subst}
use sisyphus_db.Sstable.Items.{Item, IsSorted, found_item}
use sisyphus_db.Compact.Lists.{
  found_in, or_found, first_found, live, winner_of, drop_key, advance_of, keep, NotBelow, Above,
}
use sisyphus_db.Compact.Keys.{drop_key-other, HasKey}

Above-list :
    (key : Bytes) (es : List Item) → IsSorted es → NotBelow key es → Above key (drop_key key es)
Above-list key [] sorted h = tt
Above-list key (e ∷ es) sorted h = elim (Bool-cases (bytes_eq e.key key)) [
  | inl same ↦ rw same (subst (λ k. Above k es) (bytes_eq-eq e.key key same) sorted.0)
  | inr other ↦
      let lt = bytes_lt_total e.key key h.0 other in rw other (lt, above_tail es lt sorted.0)
]
  where
    above_tail : (xs : List Item) → bytes_lt key e.key ≡ true → Above e.key xs → Above key xs
    above_tail [] lt k = tt
    above_tail (x ∷ xs) lt k = (bytes_lt_trans key e.key x.key lt k.0, above_tail xs lt k.1)

pub Above-lists :
    (key : Bytes) (ls : List (List Item))
    → All IsSorted ls
    → All (NotBelow key) ls
    → All (Above key) (advance_of key ls)
Above-lists key [] sorted h = tt
Above-lists key (es ∷ ls) sorted h =
    (Above-list key es sorted.0 h.0, Above-lists key ls sorted.1 h.1)

drop_key-IsSorted : (key : Bytes) (es : List Item) → IsSorted es → IsSorted (drop_key key es)
drop_key-IsSorted key [] h = tt
drop_key-IsSorted key (e ∷ es) h = elim (Bool-cases (bytes_eq e.key key)) [
  | inl same ↦ rw same h.1
  | inr other ↦ rw other h
]

pub advance_of-IsSorted :
    (key : Bytes) (ls : List (List Item)) → All IsSorted ls → All IsSorted (advance_of key ls)
advance_of-IsSorted key [] h = tt
advance_of-IsSorted key (es ∷ ls) h = (drop_key-IsSorted key es h.0, advance_of-IsSorted key ls h.1)

found_in-Above : (key : Bytes) (es : List Item) → Above key es → found_in key es ≡ missing
found_in-Above key [] h = refl
found_in-Above key (e ∷ es) h =
    let other = bytes_eq_sym key e.key (bytes_lt-not_eq key e.key h.0) in
    rw other (found_in-Above key es h.1)

found_in-drop_key :
    (m key : Bytes) (es : List Item)
    → bytes_eq m key ≡ false
    → found_in key (drop_key m es) ≡ found_in key es
found_in-drop_key m key [] ne = refl
found_in-drop_key m key (e ∷ es) ne = elim (Bool-cases (bytes_eq e.key m)) [
  | inr other ↦ rw other refl
  | inl same ↦
      let at_m = bytes_eq-eq e.key m same in rw (same, ap (λ k. bytes_eq k key) at_m ∙ ne) refl
]

pub first_found-advance_of :
    (m key : Bytes) (ls : List (List Item))
    → bytes_eq m key ≡ false
    → first_found key (advance_of m ls) ≡ first_found key ls
first_found-advance_of m key [] ne = refl
first_found-advance_of m key (es ∷ ls) ne =
    ap₂ or_found (found_in-drop_key m key es ne) (first_found-advance_of m key ls ne)

abbrev pub found_opt : Option Item → Found
found_opt none = missing
found_opt (some e) = found_item e

or_found-item :
    (d : Bool) (v : Bytes) (f : Found)
    → or_found (if d then tombstone else value v) f ≡ (if d then tombstone else value v)
or_found-item true v f = refl
or_found-item false v f = refl

-- What is found of the least key is the entry that wins.
pub first_found-winner_of :
    (key : Bytes) (ls : List (List Item))
    → All IsSorted ls
    → All (NotBelow key) ls
    → first_found key ls ≡ found_opt (winner_of key ls)
first_found-winner_of key [] sorted h = refl
first_found-winner_of key ([] ∷ ls) sorted h = first_found-winner_of key ls sorted.1 h.1
first_found-winner_of key ((e ∷ es) ∷ ls) sorted h = elim (Bool-cases (bytes_eq e.key key)) [
  | inl same ↦ rw same (or_found-item e.is_tombstone e.value (first_found key ls))
  | inr other ↦
      let none_left = found_in-Above key (e ∷ es) (
        subst (Above key) (drop_key-other key e es other) (Above-list key (e ∷ es) sorted.0 h.0)) in
      ap (λ f. or_found f (first_found key ls)) none_left
      ∙ first_found-winner_of key ls sorted.1 h.1
      ∙ ap found_opt (rw other refl)
]

pub found_in-keep_same :
    (is_bottom : Bool) (key : Bytes) (w : Option Item) (rest : List Item)
    → HasKey key w
    → Above key rest
    → found_in key (keep is_bottom w rest) ≡ live is_bottom (found_opt w)
found_in-keep_same false key none rest has above = found_in-Above key rest above
found_in-keep_same true key none rest has above = found_in-Above key rest above
found_in-keep_same is_bottom key (some e) rest has above =
    let same = ap (λ k. bytes_eq k key) has ∙ bytes_eq_refl key in
    go is_bottom e.is_tombstone e.value same
  where
    go :
        (bottom d : Bool) (v : Bytes)
        → bytes_eq e.key key ≡ true
        → found_in key
            (keep bottom (some (record { key = e.key; value = v; is_tombstone = d })) rest)
          ≡ live bottom (if d then tombstone else value v)
    go true true v same = found_in-Above key rest above
    go true false v same = rw same refl
    go false true v same = rw same refl
    go false false v same = rw same refl

pub found_in-keep_other :
    (is_bottom : Bool) (m key : Bytes) (w : Option Item) (rest : List Item)
    → HasKey m w
    → bytes_eq m key ≡ false
    → found_in key (keep is_bottom w rest) ≡ found_in key rest
found_in-keep_other is_bottom m key none rest has ne = refl
found_in-keep_other is_bottom m key (some e) rest has ne =
    let other = ap (λ k. bytes_eq k key) has ∙ ne in
    elim (Bool-cases (e.is_tombstone && is_bottom)) [
      | inl skipped ↦ rw skipped refl
      | inr kept ↦ rw (kept, other) refl
    ]
