-- ===== src/Sstable/Suffix.antt =====
-- The entries of a table from a position on.
use sisyphus_db.Prelude.{
  ℕ, zero, suc, ◌≤◌, ◌≡◌, refl, sym, ap, ◌∙◌, arith, true, false, some, inl, inr,
}
use sisyphus_db.Prelude.{List, [], ◌∷◌, ◌++◌, length, length-append, get_elem?, All}
use sisyphus_db.Prelude.{bytes_lt}
use mathlib.Core.Path.{subst}
use sisyphus_db.Sstable.{encode_item, IndexEntry}
use sisyphus_db.Sstable.Items.{Item, encode_items, IsSorted, In, All-In}
use sisyphus_db.Sstable.Build.{length-encode_item}

pub All-at :
    (P : IndexEntry → Type 0) (l : List IndexEntry) (i : ℕ) (e : IndexEntry)
    → get_elem? l i ≡ some e
    → All P l
    → P e
All-at P [] i e h all = cc
All-at P (x ∷ l) zero e h all = let same : x ≡ e = cc in subst P same all.0
All-at P (x ∷ l) (suc i) e h all = All-at P l i e h all.1

pub In-middle : (before after : List Item) (x : Item) → In x (before ++ (x ∷ after))
In-middle [] after x = inl refl
In-middle (y ∷ before) after x = inr (In-middle before after x)

-- An entry that is not in front of a position stands behind it, if its key is not before that one's.
pub In-suffix :
    (before after : List Item) (x e : Item)
    → IsSorted (before ++ (x ∷ after))
    → In e (before ++ (x ∷ after))
    → bytes_lt e.key x.key ≡ false
    → In e (x ∷ after)
In-suffix [] after x e hs here nlt = here
In-suffix (y ∷ before) after x e hs (inr later) nlt = In-suffix before after x e hs.1 later nlt
In-suffix (y ∷ before) after x e hs (inl same) nlt = absurd (
    let lt : bytes_lt y.key x.key ≡ true =
      All-In (λ z. bytes_lt y.key z.key ≡ true) (before ++ (x ∷ after)) x hs.0
        (In-middle before after x) in
    let no : bytes_lt y.key x.key ≡ false = ap (λ z. bytes_lt z.key x.key) (sym same) ∙ nlt in cc)

pub IsSorted-suffix : (before after : List Item) → IsSorted (before ++ after) → IsSorted after
IsSorted-suffix [] after h = h
IsSorted-suffix (y ∷ before) after h = IsSorted-suffix before after h.1

pub All-suffix :
    (P : Item → Type 0) (before after : List Item) → All P (before ++ after) → All P after
All-suffix P [] after h = h
All-suffix P (y ∷ before) after h = All-suffix P before after h.1

pub length-encode_items : (es : List Item) → length es ≤ length (encode_items es)
length-encode_items [] = omega arith
length-encode_items (e ∷ es) = omega (
  arith,
  length-append (encode_item e.key e.value e.is_tombstone) (encode_items es),
  length-encode_item e.key e.value e.is_tombstone,
  length-encode_items es,
)
