-- ===== src/Store/Keys.antt =====
-- The keys of an index, sorted.
use sisyphus_db.Prelude.{
  ℕ, ◌≡◌, ◌⊎◌, refl, sym, arith, true, false, Bool-cases, inl, inr, List, [], ◌∷◌, map, All, Bytes,
  some,
}
use sisyphus_db.Prelude.{
  bytes_eq, bytes_eq_refl, bytes_eq_sym, bytes_eq-eq, bytes_lt, bytes_lt_trans, bytes_lt_total,
}
use sisyphus_db.Store.{lookup}
use sisyphus_db.Store.Index.{IsDistinct}
use sisyphus_db.Store.Disk.{insert_key, sort_keys}

abbrev pub Ascending : List Bytes → Type 0
Ascending [] = Unit
Ascending (k ∷ ks) = All (λ x. bytes_lt k x ≡ true) ks × Ascending ks

abbrev pub MemKey : Bytes → List Bytes → Type 0
MemKey key [] = ⊥
MemKey key (k ∷ ks) = (key ≡ k) ⊎ MemKey key ks

abbrev pub DistinctKeys : List Bytes → Type 0
DistinctKeys [] = Unit
DistinctKeys (k ∷ ks) = All (λ x. bytes_eq k x ≡ false) ks × DistinctKeys ks

insert_key-All :
    (P : Bytes → Type 0) (key : Bytes) (ks : List Bytes)
    → P key
    → All P ks
    → All P (insert_key key ks)
unfolding insert_key
insert_key-All P key [] p h = (p, tt)
insert_key-All P key (k ∷ ks) p h = elim (Bool-cases (bytes_lt k key)) [
  | inl before ↦ rw (before, insert_key) (h.0, insert_key-All P key ks p h.1)
  | inr behind ↦ rw (behind, insert_key) (p, h)
]

pub sort_keys-All : (P : Bytes → Type 0) (ks : List Bytes) → All P ks → All P (sort_keys ks)
unfolding sort_keys
sort_keys-All P [] h = tt
sort_keys-All P (k ∷ ks) h = insert_key-All P k (sort_keys ks) h.0 (sort_keys-All P ks h.1)

All-lt_trans :
    (key k : Bytes) (ks : List Bytes)
    → bytes_lt key k ≡ true
    → All (λ x. bytes_lt k x ≡ true) ks
    → All (λ x. bytes_lt key x ≡ true) ks
All-lt_trans key k [] lt h = tt
All-lt_trans key k (x ∷ ks) lt h = (bytes_lt_trans key k x lt h.0, All-lt_trans key k ks lt h.1)

insert_key-Ascending :
    (key : Bytes) (ks : List Bytes)
    → All (λ x. bytes_eq key x ≡ false) ks
    → Ascending ks
    → Ascending (insert_key key ks)
unfolding insert_key
insert_key-Ascending key [] ne h = (tt, tt)
insert_key-Ascending key (k ∷ ks) ne h = elim (Bool-cases (bytes_lt k key)) [
  | inl before ↦
      rw (before, insert_key)
        (
          insert_key-All (λ x. bytes_lt k x ≡ true) key ks before h.0,
          insert_key-Ascending key ks ne.1 h.1,
        )
  | inr behind ↦
      let lt = bytes_lt_total k key behind (bytes_eq_sym key k ne.0) in
      rw (behind, insert_key) ((lt, All-lt_trans key k ks lt h.0), h)
]

pub sort_keys-Ascending : (ks : List Bytes) → DistinctKeys ks → Ascending (sort_keys ks)
unfolding sort_keys
sort_keys-Ascending [] h = tt
sort_keys-Ascending (k ∷ ks) h =
    insert_key-Ascending k (sort_keys ks) (sort_keys-All (λ x. bytes_eq k x ≡ false) ks h.0)
      (sort_keys-Ascending ks h.1)

insert_key-here : (key : Bytes) (ks : List Bytes) → MemKey key (insert_key key ks)
unfolding insert_key
insert_key-here key [] = inl refl
insert_key-here key (k ∷ ks) = elim (Bool-cases (bytes_lt k key)) [
  | inl before ↦ rw (before, insert_key) (inr (insert_key-here key ks))
  | inr behind ↦ rw (behind, insert_key) (inl refl)
]

insert_key-MemKey : (key x : Bytes) (ks : List Bytes) → MemKey x ks → MemKey x (insert_key key ks)
unfolding insert_key
insert_key-MemKey key x [] here = absurd here
insert_key-MemKey key x (k ∷ ks) here = elim (Bool-cases (bytes_lt k key)) [
  | inl before ↦
      rw (before, insert_key)
        (elim here [ inl same ↦ inl same | inr later ↦ inr (insert_key-MemKey key x ks later) ])
  | inr behind ↦ rw (behind, insert_key) (inr here)
]

pub sort_keys-MemKey : (x : Bytes) (ks : List Bytes) → MemKey x ks → MemKey x (sort_keys ks)
unfolding sort_keys
sort_keys-MemKey x [] here = absurd here
sort_keys-MemKey x (k ∷ ks) (inl same) = rw same (insert_key-here k (sort_keys ks))
sort_keys-MemKey x (k ∷ ks) (inr later) =
    insert_key-MemKey k x (sort_keys ks) (sort_keys-MemKey x ks later)

abbrev pub keys_of : List (Bytes × ℕ) → List Bytes
keys_of index = map (λ p. p.0) index

keys_of-All :
    (k : Bytes) (index : List (Bytes × ℕ))
    → All (λ p. bytes_eq k p.0 ≡ false) index
    → All (λ x. bytes_eq k x ≡ false) (keys_of index)
keys_of-All k [] h = tt
keys_of-All k (p ∷ index) h = (h.0, keys_of-All k index h.1)

pub keys_of-DistinctKeys :
    (index : List (Bytes × ℕ)) → IsDistinct index → DistinctKeys (keys_of index)
keys_of-DistinctKeys [] h = tt
keys_of-DistinctKeys ((k, o) ∷ index) h = (keys_of-All k index h.0, keys_of-DistinctKeys index h.1)

-- Every key of the index is looked up to an offset, and only these.
abbrev pub Stored : List (Bytes × ℕ) → Bytes → Type 0
Stored index key = (offset : ℕ) × (lookup key index ≡ some offset)

lookup-more :
    (index : List (Bytes × ℕ)) (k : Bytes) (o : ℕ) (key : Bytes)
    → Stored index key
    → Stored ((k, o) ∷ index) key
unfolding lookup
lookup-more index k o key (offset, e) = elim (Bool-cases (bytes_eq k key)) [
  | inl same ↦ (o, rw (same, lookup) refl)
  | inr other ↦ (offset, rw (other, lookup) e)
]

keys-more :
    (index : List (Bytes × ℕ)) (k : Bytes) (o : ℕ) (ks : List Bytes)
    → All (Stored index) ks
    → All (Stored ((k, o) ∷ index)) ks
keys-more index k o [] h = tt
keys-more index k o (key ∷ ks) h = (lookup-more index k o key h.0, keys-more index k o ks h.1)

pub keys_of-Stored : (index : List (Bytes × ℕ)) → All (Stored index) (keys_of index)
unfolding lookup
keys_of-Stored [] = tt
keys_of-Stored ((k, o) ∷ index) = (
  (o, rw (bytes_eq_refl k, lookup) refl),
  keys-more index k o (keys_of index) (keys_of-Stored index),
)

pub lookup-MemKey :
    (key : Bytes) (index : List (Bytes × ℕ)) (offset : ℕ)
    → lookup key index ≡ some offset
    → MemKey key (keys_of index)
unfolding lookup
lookup-MemKey key [] offset e = cc
lookup-MemKey key ((k, o) ∷ index) offset e = elim (Bool-cases (bytes_eq k key)) [
  | inl same ↦ inl (sym (bytes_eq-eq k key same))
  | inr other ↦ inr (lookup-MemKey key index offset (ground arith))
]
