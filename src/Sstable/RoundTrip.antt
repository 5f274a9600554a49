-- ===== src/Sstable/RoundTrip.antt =====
-- What the iterator reads of a file that the builder has written.
use sisyphus_db.Prelude.{
  ℕ, zero, suc, ◌+◌, ◌≡◌, refl, ap, ap₂, arith, Bool, true, Option, none, some,
}
use sisyphus_db.Prelude.{List, [], ◌∷◌, ◌++◌, length, Bytes, le_bytes, take_padded}
use sisyphus_db.Prelude.{
  take_padded-append, drop-append, if◌then◌else◌, le→leb, leb, ◌≤◌, ◌⊎◌, inl, inr, Bool-cases, take,
  drop, length-drop,
}
use sisyphus_db.Bloom.Bounds.{IsFilter, add-IsFilter}
use sisyphus_db.Sstable.{Builder, encode_item, encode_index, index_key, write_item, add_item}
use sisyphus_db.Sstable.Items.{Item}
use sisyphus_db.Sstable.{max_read, SstableIterator, read_some, next}

abbrev pub item_of : SstableIterator → Item
item_of it = record { key = it.key; value = it.value; is_tombstone = it.is_tombstone }

-- The entries under the iterator, as long as it is valid, `n` at most.
abbrev pub read_items : ℕ → SstableIterator → List Item
read_items zero it = []
read_items (suc n) it =
    let rest = read_items n (next it) in if it.valid then item_of it ∷ rest else []

pub read_some-append :
    (n : ℕ) (xs ys : Bytes) → length xs ≡ n → n ≤ max_read → read_some n (xs ++ ys) ≡ some (xs, ys)
unfolding read_some
read_some-append zero [] ys h small = refl
read_some-append zero (x ∷ xs) ys h small = absurd (omega arith)
read_some-append (suc n) [] ys h small = absurd (omega arith)
read_some-append (suc n) (x ∷ xs) ys h small =
    rw (le→leb (suc n) max_read small, read_some)
      (ap₂ (λ a b. some (a, b)) (take_padded-append (suc n) (x ∷ xs) ys h)
        (drop-append (suc n) (x ∷ xs) ys h))

-- A read fails, or leaves no more than there was.
pub read_some_cases :
    (n : ℕ) (bs : Bytes)
    → (read_some n bs ≡ none)
      ⊎ ((x : Bytes) × (r : Bytes) × (read_some n bs ≡ some (x, r)) × (length r ≤ length bs))
unfolding read_some
read_some_cases zero bs = inr ([], bs, refl, omega arith)
read_some_cases (suc n) [] = inl refl
read_some_cases (suc n) (b ∷ bs) = elim (Bool-cases (leb (suc n) max_read)) [
  | inl small ↦
      inr
        (take_padded (suc n) (b ∷ bs), drop n bs, simp small refl, omega (arith, length-drop n bs))
  | inr large ↦ inr (
    take_padded (suc n) (take max_read (b ∷ bs)),
    drop max_read (b ∷ bs),
    simp large refl,
    omega (arith, length-drop max_read (b ∷ bs)),
  )
]

-- A valid iterator.
abbrev pub at_item : Bytes → Bytes → Bytes → Bool → SstableIterator
at_item rest key value is_tombstone = record {
  rest = rest;
  key = key;
  value = value;
  is_tombstone = is_tombstone;
  valid = true;
}

-- A valid iterator in front of `tail`, behind the entries that the loop on `first` has read.
abbrev pub ReadsThen : List Item → Bytes → SstableIterator → Type 0
ReadsThen es tail first =
    (it : SstableIterator) × (it.valid ≡ true)
    × (it.rest ≡ tail)
    × ((m : ℕ) → read_items (length es + m) first ≡ es ++ read_items m (next it))

-- What `Close` writes.
abbrev pub close_tail : Builder → Bytes
close_tail b =
    encode_index b.index
    ++ (b.filter.bitset
        ++ (le_bytes 8 b.current_offset
            ++ le_bytes 8 (b.current_offset + length (encode_index b.index))))

module _ (sum64 : Bytes → ℕ) where
  -- `Add` for one entry after the other.
  abbrev pub add_items : List Item → Builder → Option Builder
  add_items [] b = some b
  add_items (e ∷ es) b = elim (add_item sum64 e.key e.value e.is_tombstone b) [
    | none ↦ none
    | some b' ↦ add_items es b'
  ]

  index_key-file :
      (key : Bytes) (b : Builder)
      → ((index_key key b).file ≡ b.file) × ((index_key key b).filter ≡ b.filter)
  unfolding index_key
  index_key-file key b = ground arith

  pub add_item-some :
      (e : Item) (b : Builder)
      → IsFilter b.filter
      → (b' : Builder) × (add_item sum64 e.key e.value e.is_tombstone b ≡ some b')
        × (b'.file ≡ b.file ++ encode_item e.key e.value e.is_tombstone)
        × IsFilter b'.filter
  unfolding add_item write_item
  add_item-some e b h =
      let (filter, f, h') = add-IsFilter sum64 e.key b.filter h in
      let b₀ : Builder = record b { filter = filter } in
      (
        write_item e.key e.value e.is_tombstone (index_key e.key b₀),
        rw (f, add_item) refl,
        ap (λ x. x ++ encode_item e.key e.value e.is_tombstone) (index_key-file e.key b₀).0,
        rw ((index_key-file e.key b₀).1) h',
      )
