-- ===== src/Sstable/Lookup.antt =====
-- The reader on a file that the builder has written from sorted entries.
use sisyphus_db.Prelude.{bytes_lt_total, bytes_eq_sym, bytes_lt-not_eq, bytes_eq-eq, ◌⊎◌}
use sisyphus_db.Prelude.{
  ℕ, ◌^◌, ◌<◌, ◌≡◌, refl, sym, ap, ◌∙◌, arith, true, false, some, inl, inr, Bool-cases,
}
use sisyphus_db.Prelude.{List, [], ◌∷◌, length, All, Bytes, ◌>>=◌, ok, missing}
use sisyphus_db.Prelude.{bytes_lt, bytes_eq}
use sisyphus_db.Bloom.{maybe_contains}
use sisyphus_db.Bloom.Bounds.{maybe_contains-some}
use sisyphus_db.Bloom.Keys.{load-bitset}
use mathlib.Core.Path.{subst}
use sisyphus_db.Sstable.{Builder, IndexEntry, new_builder, close_builder}
use sisyphus_db.Sstable.Items.{Item, FitsItem, IsSorted, In, All-In, found_item}
use sisyphus_db.Sstable.RoundTrip.{add_items}
use sisyphus_db.Sstable.Build.{Built, Built-add_items, Points}
use sisyphus_db.Sstable.Reader.{Reader, open_sstable, lookup_file, reader_get, search_block}
use sisyphus_db.Sstable.Reader.Parse.{FitsEntry, open_sstable-close_builder}
use sisyphus_db.Sstable.Suffix.{In-middle}
use sisyphus_db.Sstable.Block.{reader, offset-Points, search_block-In, search_block-below}

module _ (sum64 : Bytes → ℕ) (es : List Item) (b : Builder) (built : Built sum64 es b)
    (fits : All FitsItem es) (sorted : IsSorted es)
    (small : length (close_builder b) < 2 ^ 30) where
  abbrev opened_reader : Reader
  opened_reader = reader sum64 es b built fits sorted small

  reader_get-true :
      (target : Bytes)
      → maybe_contains sum64 target b.filter ≡ some true
      → reader_get sum64 opened_reader target ≡ search_block opened_reader target
  unfolding reader_get
  reader_get-true target yes_bits =
      rw
        (
          ap (maybe_contains sum64 target) (load-bitset b.filter built.filter) ∙ yes_bits,
          reader_get,
        )
        refl

  reader_get-false :
      (target : Bytes)
      → maybe_contains sum64 target b.filter ≡ some false
      → reader_get sum64 opened_reader target ≡ ok missing
  unfolding reader_get
  reader_get-false target no_bits =
      rw
        (ap (maybe_contains sum64 target) (load-bitset b.filter built.filter) ∙ no_bits, reader_get)
        refl

  pub reader_get-In :
      (e : Item) → In e es → reader_get sum64 opened_reader e.key ≡ ok (found_item e)
  reader_get-In e here =
      reader_get-true e.key (built.known e here)
      ∙ search_block-In sum64 es b built fits sorted small e here

  pub reader_get-below :
      (target : Bytes) (y : Item)
      → All (λ x. bytes_eq x.key target ≡ false) es
      → In y es
      → bytes_lt target y.key ≡ true
      → reader_get sum64 opened_reader target ≡ ok missing
  reader_get-below target y ne here lt =
      let (r, e) = maybe_contains-some sum64 target b.filter built.filter.filter in
      elim (Bool-cases r) [
        | inl t ↦
            reader_get-true target (e ∙ ap some t)
            ∙ search_block-below sum64 es b built fits sorted small target y ne here lt
        | inr f ↦ reader_get-false target (e ∙ ap some f)
      ]

  pub open_sstable-Built : open_sstable (close_builder b) ≡ ok opened_reader
  open_sstable-Built =
      open_sstable-close_builder b built.offset (fits_entries b.index built.entries) small
    where
      fits_entries : (index : List IndexEntry) → All (Points es) index → All FitsEntry index
      fits_entries [] h = tt
      fits_entries (i ∷ index) h = (
        (
          omega (
            arith,
            ap length h.0.key,
            (All-In FitsItem es h.0.item fits
                (subst (In h.0.item) (sym h.0.split) (In-middle h.0.before h.0.after h.0.item))).0,
          ),
          omega (arith, offset-Points sum64 es b built fits sorted small i h.0),
        ),
        fits_entries index h.1,
      )

module _ (sum64 : Bytes → ℕ) (es : List Item) (count : ℕ) (b : Builder)
    (added : add_items sum64 es (new_builder count) ≡ some b) (fits : All FitsItem es)
    (sorted : IsSorted es) (small : length (close_builder b) < 2 ^ 30) where
  added-Built : Built sum64 es b
  added-Built =
      let (b', e', built') = Built-add_items sum64 es count in
      let same : b' ≡ b = (let both = sym e' ∙ added in cc) in subst (Built sum64 es) same built'

  pub open_sstable-add_items : (r : Reader) × (open_sstable (close_builder b) ≡ ok r)
  open_sstable-add_items = (
    opened_reader sum64 es b added-Built fits sorted small,
    open_sstable-Built sum64 es b added-Built fits sorted small,
  )

  pub lookup_file-In :
      (e : Item) → In e es → lookup_file sum64 (close_builder b) e.key ≡ ok (found_item e)
  unfolding lookup_file
  lookup_file-In e here =
      ap (λ o. o >>= λ r. reader_get sum64 r e.key)
        (open_sstable-Built sum64 es b added-Built fits sorted small)
      ∙ reader_get-In sum64 es b added-Built fits sorted small e here

  pub lookup_file-below :
      (target : Bytes) (y : Item)
      → All (λ x. bytes_eq x.key target ≡ false) es
      → In y es
      → bytes_lt target y.key ≡ true
      → lookup_file sum64 (close_builder b) target ≡ ok missing
  unfolding lookup_file
  lookup_file-below target y ne there lt =
      ap (λ o. o >>= λ r. reader_get sum64 r target)
        (open_sstable-Built sum64 es b added-Built fits sorted small)
      ∙ reader_get-below sum64 es b added-Built fits sorted small target y ne there lt

-- A key has an entry, or lies below some entry, or above all of them.
key_cases :
    (es : List Item) (target : Bytes)
    → ((e : Item) × In e es × (e.key ≡ target))
      ⊎ (All (λ x. bytes_eq x.key target ≡ false) es
          × ((y : Item) × In y es × (bytes_lt target y.key ≡ true)))
      ⊎ All (λ x. bytes_lt x.key target ≡ true) es
key_cases [] target = inr (inr tt)
key_cases (e ∷ es) target = elim (Bool-cases (bytes_eq e.key target)) [
  | inl same ↦ inl (e, inl refl, bytes_eq-eq e.key target same)
  | inr other ↦ elim (key_cases es target) [
    | inl (x, there, same) ↦ inl (x, inr there, same)
    | inr (inl (ne, (y, there, lt))) ↦ inr (inl ((other, ne), (y, inr there, lt)))
    | inr (inr below) ↦ elim (Bool-cases (bytes_lt target e.key)) [
      | inl lt ↦ inr (inl ((other, differ es below), (e, inl refl, lt)))
      | inr ge ↦
          let before : bytes_lt e.key target ≡ true =
            bytes_lt_total target e.key ge (bytes_eq_sym e.key target other) in
          inr (inr (before, below))
    ]
  ]
]
  where
    differ :
        (xs : List Item)
        → All (λ x. bytes_lt x.key target ≡ true) xs
        → All (λ x. bytes_eq x.key target ≡ false) xs
    differ [] h = tt
    differ (x ∷ xs) h = (bytes_lt-not_eq x.key target h.0, differ xs h.1)

-- A table that is built of entries with ascending keys, and opened by its file, and any key: the key has
-- an entry, and the reader finds its value or its tombstone; or it has none, and the reader misses it; or
-- it is greater than the keys of all entries. The conditions are keys below 64 KB, no value for a
-- tombstone, and a file below 1 GB.
pub reader_get-close_builder :
    (sum64 : Bytes → ℕ) (es : List Item) (count : ℕ) (b : Builder)
    → add_items sum64 es (new_builder count) ≡ some b
    → All FitsItem es
    → IsSorted es
    → length (close_builder b) < 2 ^ 30
    → (target : Bytes)
    → ((e : Item) × In e es
        × (e.key ≡ target)
        × (lookup_file sum64 (close_builder b) target ≡ ok (found_item e)))
      ⊎ (All (λ x. bytes_eq x.key target ≡ false) es
          × (lookup_file sum64 (close_builder b) target ≡ ok missing))
      ⊎ All (λ x. bytes_lt x.key target ≡ true) es
reader_get-close_builder sum64 es count b added fits sorted small target =
    elim (key_cases es target) [
      | inl (e, here, same) ↦ inl (
        e,
        here,
        same,
        ap (lookup_file sum64 (close_builder b)) (sym same)
            ∙ lookup_file-In sum64 es count b added fits sorted small e here,
      )
      | inr (inl (ne, (y, there, lt))) ↦ inr (
          inl (ne, lookup_file-below sum64 es count b added fits sorted small target y ne there lt))
      | inr (inr above) ↦ inr (inr above)
    ]
