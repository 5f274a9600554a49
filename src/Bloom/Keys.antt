-- ===== src/Bloom/Keys.antt =====
-- A filter knows every key that was added to it.
use sisyphus_db.Prelude.{
  ℕ, zero, suc, ◌≡◌, refl, sym, ap, ◌∙◌, arith, true, false, Option, none, some, List, [], ◌∷◌,
  ◌++◌,
}
use sisyphus_db.Prelude.{Bytes, IsByte, All, ◌==◌, Option-cases, inl, inr, ne→not_==, replicate}
use sisyphus_db.Bloom.{BloomFilter, new_filter, add, add_bits, test_bits, maybe_contains, load}
use sisyphus_db.Bloom.Bounds.{IsFilter, add-IsFilter, new_filter-IsFilter}
use sisyphus_db.Bloom.Members.{
  test_bits-AllHas, AllHas-test_bits, AllHas-kept, add_bits-AllHas, add_bits-All,
}

-- A filter of bytes, with the seven hash functions.
pub record IsValid (bf : BloomFilter) : Type 0 where
  pub filter : IsFilter bf
  pub bytes : All IsByte bf.bitset
  pub hashes : bf.k ≡ 7

replicate-All : (n : ℕ) → All IsByte (replicate n 0)
replicate-All zero = tt
replicate-All (suc n) = (omega arith, replicate-All n)

pub new_filter-IsValid : (n : ℕ) → IsValid (new_filter n)
unfolding new_filter
new_filter-IsValid n = record {
  filter = new_filter-IsFilter n;
  bytes = replicate-All _;
  hashes = refl;
}

-- What `Load` makes of the bytes of a filter is the filter.
pub load-bitset : (bf : BloomFilter) → IsValid bf → load bf.bitset ≡ bf
unfolding load
load-bitset bf h =
    ap (λ m. record { bitset = bf.bitset; k = 7; m = m }) (sym h.filter.bits)
    ∙ ap (λ k. record { bitset = bf.bitset; k = k; m = bf.m }) (sym h.hashes)

module _ (sum64 : Bytes → ℕ) where
  maybe_contains-bits :
      (key : Bytes) (bf : BloomFilter)
      → IsFilter bf
      → maybe_contains sum64 key bf ≡ test_bits bf.k 0 (sum64 key) bf.m bf.bitset
  unfolding maybe_contains
  maybe_contains-bits key bf h =
      let ne : (bf.m == 0) ≡ false = ne→not_== bf.m 0 (λ z. absurd (omega (arith, h.some_bits))) in
      simp ne refl

  add-bits :
      (key : Bytes) (bf bf' : BloomFilter)
      → IsFilter bf
      → add sum64 key bf ≡ some bf'
      → (ys : Bytes) × (add_bits bf.k 0 (sum64 key) bf.m bf.bitset ≡ some ys)
        × (bf' ≡ record bf { bitset = ys })
  unfolding add
  add-bits key bf bf' h e =
      let ne : (bf.m == 0) ≡ false = ne→not_== bf.m 0 (λ z. absurd (omega (arith, h.some_bits))) in
      elim (Option-cases (add_bits bf.k 0 (sum64 key) bf.m bf.bitset)) [
        | inl f ↦ absurd (ground arith)
        | inr (ys, f) ↦ (ys, f, ground arith)
      ]

  -- The key is known then, and so is each key that was known before.
  pub add-Known :
      (key : Bytes) (bf : BloomFilter)
      → IsValid bf
      → (bf' : BloomFilter) × (add sum64 key bf ≡ some bf')
        × IsValid bf'
        × (maybe_contains sum64 key bf' ≡ some true)
        × ((k : Bytes)
            → maybe_contains sum64 k bf ≡ some true
            → maybe_contains sum64 k bf' ≡ some true)
  add-Known key bf h =
      let (bf', e, filter') = add-IsFilter sum64 key bf h.filter in
      let (ys, f, g) = add-bits key bf bf' h.filter e in
      let next : BloomFilter = record bf { bitset = ys } in
      let next_filter : IsFilter next = rw (sym g) filter' in
      (
        next,
        e ∙ ap some g,
        record {
          filter = next_filter;
          bytes = add_bits-All bf.k 0 (sum64 key) bf.m bf.bitset ys h.bytes f;
          hashes = h.hashes;
        },
        maybe_contains-bits key next next_filter
            ∙ test_bits-AllHas bf.k 0 (sum64 key) bf.m ys
                (add_bits-AllHas bf.k 0 (sum64 key) bf.m bf.bitset ys h.bytes f),
        λ k known.
            maybe_contains-bits k next next_filter
            ∙ test_bits-AllHas bf.k 0 (sum64 k) bf.m ys (
                AllHas-kept bf.k 0 (sum64 key) bf.m bf.k 0 (sum64 k) bf.bitset ys h.bytes f (
                  AllHas-test_bits bf.k 0 (sum64 k) bf.m bf.bitset
                    (sym (maybe_contains-bits k bf h.filter) ∙ known))),
      )

  -- `Add` for one key after the other.
  abbrev pub add_keys : List Bytes → BloomFilter → Option BloomFilter
  add_keys [] bf = some bf
  add_keys (key ∷ keys) bf = elim (add sum64 key bf) [ none ↦ none | some bf' ↦ add_keys keys bf' ]

  add_keys-kept :
      (keys : List Bytes) (bf : BloomFilter)
      → IsValid bf
      → (bf' : BloomFilter) × (add_keys keys bf ≡ some bf')
        × IsValid bf'
        × ((k : Bytes)
            → maybe_contains sum64 k bf ≡ some true
            → maybe_contains sum64 k bf' ≡ some true)
  add_keys-kept [] bf h = (bf, refl, h, λ k known. known)
  add_keys-kept (key ∷ keys) bf h =
      let (bf₁, e, h₁, known, kept) = add-Known key bf h in
      let (bf₂, e', h₂, kept') = add_keys-kept keys bf₁ h₁ in
      (bf₂, rw (e, add_keys) e', h₂, λ k has. kept' k (kept k has))

  add_keys-append :
      (before after : List Bytes) (key : Bytes) (bf : BloomFilter)
      → IsValid bf
      → (bf' : BloomFilter) × (add_keys (before ++ (key ∷ after)) bf ≡ some bf')
        × IsValid bf'
        × (maybe_contains sum64 key bf' ≡ some true)
  add_keys-append [] after key bf h =
      let (bf₁, e, h₁, known, kept) = add-Known key bf h in
      let (bf₂, e', h₂, kept') = add_keys-kept after bf₁ h₁ in
      (bf₂, rw (e, add_keys) e', h₂, kept' key known)
  add_keys-append (k ∷ before) after key bf h =
      let (bf₁, e, h₁, known, kept) = add-Known k bf h in
      let (bf₂, e', h₂, has) = add_keys-append before after key bf₁ h₁ in
      (bf₂, rw (e, add_keys) e', h₂, has)

  -- A new filter of any size takes any keys without a fault, and what `Load` makes of its bytes answers
  -- yes for each of them: there are no false negatives.
  pub maybe_contains-add_keys :
      (before : List Bytes) (key : Bytes) (after : List Bytes) (n : ℕ)
      → (bf : BloomFilter) × (add_keys (before ++ (key ∷ after)) (new_filter n) ≡ some bf)
        × (maybe_contains sum64 key (load bf.bitset) ≡ some true)
  maybe_contains-add_keys before key after n =
      let (bf, e, h, known) =
        add_keys-append before after key (new_filter n) (new_filter-IsValid n) in
      (bf, e, ap (maybe_contains sum64 key) (load-bitset bf h) ∙ known)
