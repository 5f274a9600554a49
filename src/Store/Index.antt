-- ===== src/Store/Index.antt =====
-- The map from keys to offsets.
use sisyphus_db.Prelude.{
  ℕ, ◌≡◌, ◌≢◌, refl, ap, false, List, [], ◌∷◌, some, Bytes, bytes_eq, bytes_eq_refl, bytes_eq-eq,
}
use sisyphus_db.Prelude.{Bool-cases, inl, inr, arith}
use sisyphus_db.Prelude.{All}
use sisyphus_db.Store.{lookup, assign}

pub lookup-assign_same :
    (key : Bytes) (offset : ℕ) (index : List (Bytes × ℕ))
    → lookup key (assign key offset index) ≡ some offset
unfolding lookup assign
lookup-assign_same key offset [] = rw (bytes_eq_refl key) refl
lookup-assign_same key offset ((k, o) ∷ index) = ground (arith, lookup-assign_same key offset index)

pub lookup-assign_other :
    (key k' : Bytes) (offset : ℕ) (index : List (Bytes × ℕ))
    → bytes_eq key k' ≡ false
    → lookup k' (assign key offset index) ≡ lookup k' index
unfolding lookup assign
lookup-assign_other key k' offset [] h = rw h refl
lookup-assign_other key k' offset ((k, o) ∷ index) h = elim (Bool-cases (bytes_eq k key)) [
  | inl same ↦
      (let e : k ≡ key = bytes_eq-eq k key same in ground (arith, ap (λ x. bytes_eq x k') e))
  | inr other ↦ ground (arith, lookup-assign_other key k' offset index h)
]

pub ne→not_bytes_eq : (a b : Bytes) → a ≢ b → bytes_eq a b ≡ false
ne→not_bytes_eq a b h = elim (Bool-cases (bytes_eq a b)) [
  | inl same ↦ absurd (h (bytes_eq-eq a b same))
  | inr other ↦ other
]

-- No key is twice in the index.
abbrev pub IsDistinct : List (Bytes × ℕ) → Type 0
IsDistinct [] = Unit
IsDistinct ((k, o) ∷ index) = All (λ p. bytes_eq k p.0 ≡ false) index × IsDistinct index

assign-All :
    (k key : Bytes) (offset : ℕ) (index : List (Bytes × ℕ))
    → bytes_eq k key ≡ false
    → All (λ p. bytes_eq k p.0 ≡ false) index
    → All (λ p. bytes_eq k p.0 ≡ false) (assign key offset index)
unfolding assign
assign-All k key offset [] ne h = (ne, tt)
assign-All k key offset ((j, o) ∷ index) ne h = elim (Bool-cases (bytes_eq j key)) [
  | inl same ↦ rw (same, assign) h
  | inr other ↦ rw (other, assign) (h.0, assign-All k key offset index ne h.1)
]

pub assign-IsDistinct :
    (key : Bytes) (offset : ℕ) (index : List (Bytes × ℕ))
    → IsDistinct index
    → IsDistinct (assign key offset index)
unfolding assign
assign-IsDistinct key offset [] h = (tt, tt)
assign-IsDistinct key offset ((k, o) ∷ index) h = elim (Bool-cases (bytes_eq k key)) [
  | inl same ↦ rw (same, assign) h
  | inr other ↦
      rw (other, assign)
        (assign-All k key offset index other h.0, assign-IsDistinct key offset index h.1)
]
