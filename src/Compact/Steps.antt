-- ===== src/Compact/Steps.antt =====
-- What one round does to an iterator.
use sisyphus_db.Prelude.{
  ℕ, ◌+◌, ◌≤◌, ◌<◌, ◌≡◌, ◌⊎◌, refl, ap, ap₂, arith, true, false, Bool-cases, inl, inr, [], ◌∷◌,
  length, drop, take, Bytes,
}
use sisyphus_db.Prelude.{if◌then◌else◌, bytes_eq, ◌&&◌, ◌==◌, le_value, take_padded}
use sisyphus_db.Sstable.RoundTrip.{read_some_cases}
use sisyphus_db.Sstable.{SstableIterator, read_some, next, next_key, next_value, stop}

-- What one iterator can still read.
abbrev pub left : SstableIterator → ℕ
left it = if it.valid then 1 + length it.rest else 0

next_value-left :
    (n : ℕ) (rest : Bytes) (it : SstableIterator) → left (next_value n rest it) ≤ 1 + length rest
unfolding next_value
next_value-left n rest it = elim (Bool-cases it.is_tombstone) [
  | inl d ↦ simp d (ground arith)
  | inr d ↦ elim (read_some_cases n rest) [
    | inl e ↦ simp (d, e) (omega arith)
    | inr (x, r, e, le) ↦ simp (d, e) (ground arith)
  ]
]

next_key-left : (rest : Bytes) (it : SstableIterator) → left (next_key rest it) ≤ 1 + length rest
unfolding next_key
next_key-left rest it = elim (read_some_cases 6 rest) [
  | inl e ↦ rw (e, next_key) (omega arith)
  | inr (lens, r, e, le) ↦ elim (read_some_cases (le_value (take 2 lens)) r) [
    | inl e' ↦ rw (e, e', next_key) (omega arith)
    | inr (key, r', e', le') ↦
        rw (e, e', next_key)
          (omega (arith, next_value-left (le_value (drop 2 lens)) r' (record it { key = key })))
  ]
]

next_empty : (it : SstableIterator) → it.valid ≡ true → it.rest ≡ [] → next it ≡ stop it
unfolding next read_some
next_empty it valid e = simp (valid, e) refl

next_header :
    (it : SstableIterator) (b : ℕ) (bs : Bytes)
    → it.valid ≡ true
    → it.rest ≡ b ∷ bs
    → next it ≡ next_key bs (record it { is_tombstone = le_value (b ∷ []) == 1 })
unfolding next read_some le_value take_padded
next_header it b bs valid e = simp (valid, e) refl

rest_cases : (bs : Bytes) → (bs ≡ []) ⊎ ((b : ℕ) × (r : Bytes) × (bs ≡ b ∷ r))
rest_cases [] = inl refl
rest_cases (b ∷ r) = inr (b, r, refl)

left_valid : (it : SstableIterator) → it.valid ≡ true → left it ≡ 1 + length it.rest
left_valid it valid = simp valid refl

-- `Next` reads at least the header.
pub next-left : (it : SstableIterator) → it.valid ≡ true → left (next it) < left it
next-left it valid = elim (rest_cases it.rest) [
  | inl e ↦ omega (arith, left_valid it valid, ap left (next_empty it valid e))
  | inr (b, bs, e) ↦ omega (
    arith,
    left_valid it valid,
    ap length e,
    ap left (next_header it b bs valid e),
    next_key-left bs (record it { is_tombstone = le_value (b ∷ []) == 1 }),
  )
]

-- What one round does to an iterator.
abbrev pub moved : Bytes → SstableIterator → SstableIterator
moved key it = if it.valid && bytes_eq it.key key then next it else it

pub moved-same :
    (key : Bytes) (it : SstableIterator)
    → it.valid ≡ true
    → bytes_eq it.key key ≡ true
    → moved key it ≡ next it
moved-same key it valid same = ap₂ (λ v e. if v && e then next it else it) valid same

pub moved-other :
    (key : Bytes) (it : SstableIterator)
    → it.valid ≡ true
    → bytes_eq it.key key ≡ false
    → moved key it ≡ it
moved-other key it valid other = ap₂ (λ v e. if v && e then next it else it) valid other

pub moved-invalid : (key : Bytes) (it : SstableIterator) → it.valid ≡ false → moved key it ≡ it
moved-invalid key it invalid = ap (λ v. if v && bytes_eq it.key key then next it else it) invalid

pub moved-left : (key : Bytes) (it : SstableIterator) → left (moved key it) ≤ left it
moved-left key it = elim (Bool-cases it.valid) [
  | inl valid ↦ elim (Bool-cases (bytes_eq it.key key)) [
    | inl same ↦ omega (arith, ap left (moved-same key it valid same), next-left it valid)
    | inr other ↦ omega (arith, ap left (moved-other key it valid other))
  ]
  | inr invalid ↦ omega (arith, ap left (moved-invalid key it invalid))
]
