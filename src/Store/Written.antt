-- ===== src/Store/Written.antt =====
-- The file that `CreateSSTable` writes of a table in memory.
use sisyphus_db.Prelude.{panic, ◌≢◌}
use sisyphus_db.Sstable.Reader.{open_sstable}
use sisyphus_db.Sstable.Lookup.{open_sstable-add_items}
use sisyphus_db.Prelude.{
  ℕ, ◌^◌, ◌<◌, ◌≡◌, refl, sym, ap, ap₂, ◌∙◌, arith, true, false, List, [], ◌∷◌, All, Bytes, none,
  some, length, inl, inr, Bool-cases, Option-cases,
}
use sisyphus_db.Prelude.{ok, Found, missing, bytes_eq, bytes_lt, bytes_lt_total}
use mathlib.Core.Path.{subst}
use sisyphus_db.Sstable.{Builder, new_builder, close_builder}
use sisyphus_db.Sstable.Items.{Item, IsSorted, found_item, All-In}
use sisyphus_db.Sstable.RoundTrip.{add_items}
use sisyphus_db.Sstable.Build.{Built-add_items}
use sisyphus_db.Sstable.Reader.{lookup_file}
use sisyphus_db.Sstable.Lookup.{lookup_file-In, lookup_file-below}
use sisyphus_db.Store.{MemTable, lookup, check_table}
use sisyphus_db.Store.Lookup.{IsTable}
use sisyphus_db.Store.Disk.{sort_keys, table_items, create_sstable, write_items}
use sisyphus_db.Store.Keys.{
  keys_of, sort_keys-All, sort_keys-Ascending, sort_keys-MemKey, keys_of-DistinctKeys, Stored,
  keys_of-Stored, lookup-MemKey,
}
use sisyphus_db.Store.Items.{
  Agrees, table_items-Agrees, Agrees-FitsItem, IsSorted-of_keys, In-of_keys, All-of_keys,
  keys_of_items,
}

lookup-head :
    (key k : Bytes) (o : ℕ) (index : List (Bytes × ℕ))
    → bytes_eq k key ≡ true
    → lookup key ((k, o) ∷ index) ≡ some o
unfolding lookup
lookup-head key k o index same = rw (same, lookup) refl

lookup-tail :
    (key k : Bytes) (o : ℕ) (index : List (Bytes × ℕ))
    → bytes_eq k key ≡ false
    → lookup key ((k, o) ∷ index) ≡ lookup key index
unfolding lookup
lookup-tail key k o index other = rw (other, lookup) refl

lookup-none :
    (key : Bytes) (index : List (Bytes × ℕ))
    → lookup key index ≡ none
    → All (λ x. bytes_eq x key ≡ false) (keys_of index)
lookup-none key [] e = tt
lookup-none key ((k, o) ∷ index) e = elim (Bool-cases (bytes_eq k key)) [
  | inl same ↦ absurd (let found = lookup-head key k o index same in cc)
  | inr other ↦ (other, lookup-none key index (sym (lookup-tail key k o index other) ∙ e))
]

check_table-none :
    (t : MemTable) (key : Bytes) → lookup key t.index ≡ none → check_table t key ≡ ok missing
unfolding check_table
check_table-none t key e = rw (e, check_table) refl

module _ (sum64 : Bytes → ℕ) where
  -- The entries of a table in memory that a file has.
  pub record Written (t : MemTable) (file : Bytes) : Type 0 where
    pub items : List Item
    pub builder : Builder
    pub keys : keys_of_items items ≡ sort_keys (keys_of t.index)
    pub agrees : All (Agrees t) items
    pub sorted : IsSorted items
    pub added :
        add_items sum64 items (new_builder (length (sort_keys (keys_of t.index)))) ≡ some builder
    pub closed : file ≡ close_builder builder

  write_items-some :
      (count : ℕ) (es : List Item) (b : Builder)
      → add_items sum64 es (new_builder count) ≡ some b
      → write_items sum64 count es ≡ ok (close_builder b)
  unfolding write_items
  write_items-some count es b added = rw (added, write_items) refl

  create_sstable-items :
      (t : MemTable) (es : List Item)
      → table_items t (sort_keys (keys_of t.index)) ≡ ok es
      → create_sstable sum64 t ≡ write_items sum64 (length (sort_keys (keys_of t.index))) es
  unfolding create_sstable
  create_sstable-items t es items = rw (items, create_sstable) refl

  pub create_sstable-Written :
      (t : MemTable)
      → IsTable t
      → (file : Bytes) × (create_sstable sum64 t ≡ ok file) × Written t file
  create_sstable-Written t h =
      let keys = sort_keys (keys_of t.index) in
      let stored = sort_keys-All (Stored t.index) (keys_of t.index) (keys_of-Stored t.index) in
      let ascending =
        sort_keys-Ascending (keys_of t.index) (keys_of-DistinctKeys t.index h.distinct) in
      let (es, items, same, agrees) = table_items-Agrees t keys h stored in
      let (b, added, built) = Built-add_items sum64 es (length keys) in
      (
        close_builder b,
        create_sstable-items t es items ∙ write_items-some (length keys) es b added,
        record {
          items = es;
          builder = b;
          keys = same;
          agrees = agrees;
          sorted = IsSorted-of_keys es keys same ascending;
          added = added;
          closed = refl;
        },
      )

  lookup_file-stored :
      (t : MemTable) (file key : Bytes) (offset : ℕ)
      → Written t file
      → length file < 2 ^ 30
      → lookup key t.index ≡ some offset
      → (f : Found) × (check_table t key ≡ ok f) × (lookup_file sum64 file key ≡ ok f)
  lookup_file-stored t file key offset w small e =
      let here = sort_keys-MemKey key (keys_of t.index) (lookup-MemKey key t.index offset e) in
      let (x, there, same) = In-of_keys key w.items _ w.keys here in
      let agree = All-In (Agrees t) w.items x w.agrees there in
      (
        found_item x,
        ap (check_table t) (sym same) ∙ agree.1,
        ap₂ (lookup_file sum64) w.closed (sym same)
            ∙ lookup_file-In sum64 w.items _ w.builder w.added (Agrees-FitsItem t w.items w.agrees)
                w.sorted (omega (arith, ap length w.closed)) x there,
      )

  lookup_file-absent :
      (t : MemTable) (file key last : Bytes) (offset : ℕ)
      → Written t file
      → length file < 2 ^ 30
      → lookup key t.index ≡ none
      → lookup last t.index ≡ some offset
      → bytes_lt last key ≡ false
      → lookup_file sum64 file key ≡ ok missing
  lookup_file-absent t file key last offset w small e there not_above =
      let here =
        sort_keys-MemKey last (keys_of t.index) (lookup-MemKey last t.index offset there) in
      let (y, inside, same) = In-of_keys last w.items _ w.keys here in
      let ne =
        All-of_keys (λ x. bytes_eq x key ≡ false) w.items _ w.keys
          (sort_keys-All (λ x. bytes_eq x key ≡ false) (keys_of t.index)
            (lookup-none key t.index e)) in
      let other : bytes_eq last key ≡ false =
        ap (λ k. bytes_eq k key) (sym same)
        ∙ All-In (λ x. bytes_eq x.key key ≡ false) w.items y ne inside in
      let below = ap (bytes_lt key) same ∙ bytes_lt_total last key not_above other in
      ap (λ c. lookup_file sum64 c key) w.closed
      ∙ lookup_file-below sum64 w.items _ w.builder w.added (Agrees-FitsItem t w.items w.agrees)
          w.sorted (omega (arith, ap length w.closed)) key y ne inside below

  -- The file says of a key what the table says.
  pub lookup_file-create_sstable :
      (t : MemTable) (file key last : Bytes) (offset : ℕ)
      → IsTable t
      → create_sstable sum64 t ≡ ok file
      → length file < 2 ^ 30
      → lookup last t.index ≡ some offset
      → bytes_lt last key ≡ false
      → (f : Found) × (check_table t key ≡ ok f) × (lookup_file sum64 file key ≡ ok f)
  lookup_file-create_sstable t file key last offset h made small there not_above =
      let (file', e, w') = create_sstable-Written t h in
      let same : file' ≡ file = (let both = sym e ∙ made in cc) in
      let w : Written t file = subst (Written t) same w' in
      elim (Option-cases (lookup key t.index)) [
        | inl absent ↦ (
          missing,
          check_table-none t key absent,
          lookup_file-absent t file key last offset w small absent there not_above,
        )
        | inr (o, stored) ↦ lookup_file-stored t file key o w small stored
      ]

  pub open_sstable-create_sstable :
      (t : MemTable) (file : Bytes)
      → IsTable t
      → create_sstable sum64 t ≡ ok file
      → length file < 2 ^ 30
      → open_sstable file ≢ panic
  open_sstable-create_sstable t file h made small fault =
      let (file', e, w') = create_sstable-Written t h in
      let same : file' ≡ file = (let both = sym e ∙ made in cc) in
      let w : Written t file = subst (Written t) same w' in
      let (r, opened) =
        open_sstable-add_items sum64 w.items _ w.builder w.added
          (Agrees-FitsItem t w.items w.agrees) w.sorted (omega (arith, ap length w.closed)) in
      absurd (let both = sym (ap open_sstable w.closed ∙ opened) ∙ fault in cc)
