-- ===== src/Compact/Keys.antt =====
-- The keys in one round of the merge on lists.
use sisyphus_db.Prelude.{
  ℕ, zero, suc, ◌≤◌, ◌<◌, ◌≡◌, refl, sym, ap, ◌∙◌, arith, Bool, true, false, Bool-cases,
  Option-cases, inl, inr, List, [], ◌∷◌, Option, none, some, length, Bytes, All,
}
use sisyphus_db.Prelude.{◌&&◌, bytes_eq, bytes_eq_refl}
use mathlib.Core.Path.{subst}
use sisyphus_db.Sstable.Items.{Item}
use sisyphus_db.Compact.Lists.{
  least_of, winner_of, drop_key, advance_of, keep, merged, total, Begins, least_of-Begins,
}

drop_key-length : (key : Bytes) (es : List Item) → length (drop_key key es) ≤ length es
drop_key-length key [] = omega arith
drop_key-length key (e ∷ es) = ground arith

advance_of-total : (key : Bytes) (ls : List (List Item)) → total (advance_of key ls) ≤ total ls
advance_of-total key [] = omega arith
advance_of-total key (es ∷ ls) = omega (arith, drop_key-length key es, advance_of-total key ls)

pub drop_key-head :
    (key : Bytes) (e : Item) (es : List Item)
    → bytes_eq e.key key ≡ true
    → drop_key key (e ∷ es) ≡ es
drop_key-head key e es same = rw same refl

pub drop_key-other :
    (key : Bytes) (e : Item) (es : List Item)
    → bytes_eq e.key key ≡ false
    → drop_key key (e ∷ es) ≡ e ∷ es
drop_key-other key e es other = rw other refl

pub advance_of-Begins :
    (key : Bytes) (ls : List (List Item)) → Begins key ls → total (advance_of key ls) < total ls
advance_of-Begins key [] here = absurd here
advance_of-Begins key ([] ∷ ls) here = omega (arith, advance_of-Begins key ls here)
advance_of-Begins key ((e ∷ es) ∷ ls) (inl same) =
    let eq = ap (λ k. bytes_eq k key) same ∙ bytes_eq_refl key in
    omega (arith, ap length (drop_key-head key e es eq), advance_of-total key ls)
advance_of-Begins key ((e ∷ es) ∷ ls) (inr later) =
    omega (arith, drop_key-length key (e ∷ es), advance_of-Begins key ls later)

-- A property of keys.
abbrev Keys : (Bytes → Type 0) → List Item → Type 0
Keys P es = All (λ e. P e.key) es

drop_key-Keys :
    (P : Bytes → Type 0) (key : Bytes) (es : List Item) → Keys P es → Keys P (drop_key key es)
drop_key-Keys P key [] h = tt
drop_key-Keys P key (e ∷ es) h = elim (Bool-cases (bytes_eq e.key key)) [
  | inl same ↦ rw same h.1
  | inr other ↦ rw other h
]

advance_of-Keys :
    (P : Bytes → Type 0) (key : Bytes) (ls : List (List Item))
    → All (Keys P) ls
    → All (Keys P) (advance_of key ls)
advance_of-Keys P key [] h = tt
advance_of-Keys P key (es ∷ ls) h = (drop_key-Keys P key es h.0, advance_of-Keys P key ls h.1)

Begins-Keys :
    (P : Bytes → Type 0) (key : Bytes) (ls : List (List Item))
    → All (Keys P) ls
    → Begins key ls
    → P key
Begins-Keys P key [] h here = absurd here
Begins-Keys P key ([] ∷ ls) h here = Begins-Keys P key ls h.1 here
Begins-Keys P key ((e ∷ es) ∷ ls) h (inl same) = subst P same h.0.0
Begins-Keys P key ((e ∷ es) ∷ ls) h (inr later) = Begins-Keys P key ls h.1 later

-- The winner has the key that was asked for.
abbrev pub HasKey : Bytes → Option Item → Type 0
HasKey key none = Unit
HasKey key (some e) = e.key ≡ key

pub winner_of-HasKey : (key : Bytes) (ls : List (List Item)) → HasKey key (winner_of key ls)
winner_of-HasKey key [] = tt
winner_of-HasKey key ([] ∷ ls) = winner_of-HasKey key ls
winner_of-HasKey key ((e ∷ es) ∷ ls) = elim (Bool-cases (bytes_eq e.key key)) [
  | inl same ↦ rw same refl
  | inr other ↦ rw other (winner_of-HasKey key ls)
]

pub merged-none :
    (fuel : ℕ) (is_bottom : Bool) (ls : List (List Item))
    → least_of none ls ≡ none
    → merged (suc fuel) is_bottom ls ≡ []
merged-none fuel is_bottom ls e = rw (e, merged) refl

pub merged-some :
    (fuel : ℕ) (is_bottom : Bool) (ls : List (List Item)) (key : Bytes)
    → least_of none ls ≡ some key
    → merged (suc fuel) is_bottom ls
      ≡ keep is_bottom (winner_of key ls) (merged fuel is_bottom (advance_of key ls))
merged-some fuel is_bottom ls key e = rw (e, merged) refl

keep-Keys :
    (P : Bytes → Type 0) (is_bottom : Bool) (key : Bytes) (w : Option Item) (rest : List Item)
    → HasKey key w
    → P key
    → Keys P rest
    → Keys P (keep is_bottom w rest)
keep-Keys P is_bottom key none rest w p h = h
keep-Keys P is_bottom key (some e) rest w p h = elim (Bool-cases (e.is_tombstone && is_bottom)) [
  | inl skipped ↦ rw skipped h
  | inr kept ↦ rw kept (subst P (sym w) p, h)
]

pub Begins-least_of :
    (ls : List (List Item)) (key : Bytes) → least_of none ls ≡ some key → Begins key ls
Begins-least_of ls key e = elim (least_of-Begins none ls key e) [
  | inl never ↦ absurd (cc)
  | inr here ↦ here
]

pub merged-Keys :
    (P : Bytes → Type 0) (fuel : ℕ) (is_bottom : Bool) (ls : List (List Item))
    → All (Keys P) ls
    → Keys P (merged fuel is_bottom ls)
merged-Keys P zero is_bottom ls h = tt
merged-Keys P (suc fuel) is_bottom ls h = elim (Option-cases (least_of none ls)) [
  | inl e ↦ rw (merged-none fuel is_bottom ls e) tt
  | inr (key, e) ↦ rw (merged-some fuel is_bottom ls key e) (
      keep-Keys P is_bottom key (winner_of key ls) (merged fuel is_bottom (advance_of key ls))
        (winner_of-HasKey key ls) (Begins-Keys P key ls h (Begins-least_of ls key e))
        (merged-Keys P fuel is_bottom (advance_of key ls) (advance_of-Keys P key ls h)))
]
