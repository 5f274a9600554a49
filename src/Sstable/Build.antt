-- ===== src/Sstable/Build.antt =====
-- What the builder knows of the entries that were added: the bytes, the sparse index, the filter.
use sisyphus_db.Prelude.{
  ℕ, ◌+◌, ◌-◌, ◌≡◌, ◌⊎◌, refl, sym, ap, ◌∙◌, arith, Bool, true, false, some, inl, inr, Bool-cases,
}
use sisyphus_db.Prelude.{
  List, [], ◌∷◌, ◌++◌, length, length-append, append_assoc, append-nil, All, Bytes, le_bytes, ltb,
  ◌==◌, ◌||◌, if◌then◌else◌,
}
use sisyphus_db.Bloom.{maybe_contains, BloomFilter}
use sisyphus_db.Bloom.Keys.{IsValid, new_filter-IsValid, add-Known}
use sisyphus_db.Sstable.{
  Builder, IndexEntry, new_builder, encode_item, index_key, write_item, add_item, block_size,
}
use sisyphus_db.Sstable.Items.{Item, encode_items, In}
use sisyphus_db.Sstable.RoundTrip.{add_items}

pub length-encode_item :
    (key val : Bytes) (d : Bool)
    → length (encode_item key val d) ≡ 1 + 2 + 4 + length key + (if d then 0 else length val)
unfolding encode_item le_bytes
length-encode_item key val true = omega (arith, length-append key [])
length-encode_item key val false = omega (arith, length-append key val)

pub encode_items-append :
    (es fs : List Item) → encode_items (es ++ fs) ≡ encode_items es ++ encode_items fs
encode_items-append [] fs = refl
encode_items-append (e ∷ es) fs =
    ap (◌++◌ (encode_item e.key e.value e.is_tombstone)) (encode_items-append es fs)
    ∙ sym (
        append_assoc (encode_item e.key e.value e.is_tombstone) (encode_items es) (encode_items fs))

-- An entry of the index is the key and the position of an entry of the table.
pub record Points (es : List Item) (i : IndexEntry) : Type 0 where
  pub before : List Item
  pub item : Item
  pub after : List Item
  pub split : es ≡ before ++ (item ∷ after)
  pub key : i.key ≡ item.key
  pub offset : i.offset ≡ length (encode_items before)

-- The first entry of the index is that of the first entry of the table.
abbrev pub StartsWith : List Item → List IndexEntry → Type 0
StartsWith [] index = index ≡ []
StartsWith (e ∷ es) [] = ⊥
StartsWith (e ∷ es) (i ∷ index) = i.key ≡ e.key

pub record Built (sum64 : Bytes → ℕ) (es : List Item) (b : Builder) : Type 0 where
  pub file : b.file ≡ encode_items es
  pub offset : b.current_offset ≡ length b.file
  pub filter : IsValid b.filter
  pub known : (e : Item) → In e es → maybe_contains sum64 e.key b.filter ≡ some true
  pub entries : All (Points es) b.index
  pub first : StartsWith es b.index

Points-more : (es : List Item) (e : Item) (i : IndexEntry) → Points es i → Points (es ++ (e ∷ [])) i
Points-more es e i p = record {
  before = p.before;
  item = p.item;
  after = p.after ++ (e ∷ []);
  split = ap (λ l. l ++ (e ∷ [])) p.split ∙ append_assoc p.before (p.item ∷ p.after) (e ∷ []);
  key = p.key;
  offset = p.offset;
}

entries-more :
    (es : List Item) (e : Item) (index : List IndexEntry)
    → All (Points es) index
    → All (Points (es ++ (e ∷ []))) index
entries-more es e [] h = tt
entries-more es e (i ∷ index) h = (Points-more es e i h.0, entries-more es e index h.1)

entries-new :
    (es : List Item) (index : List IndexEntry) (i : IndexEntry)
    → All (Points es) index
    → Points es i
    → All (Points es) (index ++ (i ∷ []))
entries-new es [] i h p = (p, tt)
entries-new es (j ∷ index) i h p = (h.0, entries-new es index i h.1 p)

StartsWith-more :
    (x : Item) (es : List Item) (index more : List IndexEntry)
    → StartsWith (x ∷ es) index
    → StartsWith (x ∷ es) (index ++ more)
StartsWith-more x es [] more h = absurd h
StartsWith-more x es (i ∷ index) more h = h

In-snoc : (x e : Item) (es : List Item) → In x (es ++ (e ∷ [])) → In x es ⊎ (x ≡ e)
In-snoc x e [] (inl same) = inr same
In-snoc x e [] (inr later) = absurd later
In-snoc x e (y ∷ es) (inl same) = inl (inl same)
In-snoc x e (y ∷ es) (inr later) = elim (In-snoc x e es later) [
  | inl here ↦ inl (inr here)
  | inr same ↦ inr same
]

-- The index behind a key.
index_key-entries :
    (es : List Item) (e : Item) (b : Builder)
    → b.current_offset ≡ length (encode_items es)
    → All (Points es) b.index
    → All (Points (es ++ (e ∷ []))) (index_key e.key b).index
unfolding index_key
index_key-entries es e b at h =
    elim (Bool-cases (b.current_offset == 0 || ltb block_size (b.current_offset - b.block_start))) [
      | inl new ↦
          rw (new, index_key)
            (entries-new (es ++ (e ∷ [])) b.index
              (record { key = e.key; offset = b.current_offset }) (entries-more es e b.index h)
              (record { before = es; item = e; after = []; split = refl; key = refl; offset = at }))
      | inr old ↦ rw (old, index_key) (entries-more es e b.index h)
    ]

index_key-first :
    (es : List Item) (e : Item) (b : Builder)
    → b.current_offset ≡ length (encode_items es)
    → StartsWith es b.index
    → StartsWith (es ++ (e ∷ [])) (index_key e.key b).index
unfolding index_key
index_key-first [] e b at h =
    let start : b.current_offset == 0 ≡ true = ground arith in rw (start, h, index_key) refl
index_key-first (x ∷ es) e b at h =
    elim (Bool-cases (b.current_offset == 0 || ltb block_size (b.current_offset - b.block_start))) [
      | inl new ↦
          rw (new, index_key) (StartsWith-more x (es ++ (e ∷ [])) b.index _ (front x es b.index h))
      | inr old ↦ rw (old, index_key) (front x es b.index h)
    ]
  where
    front :
        (x : Item) (es : List Item) (index : List IndexEntry)
        → StartsWith (x ∷ es) index
        → StartsWith (x ∷ (es ++ (e ∷ []))) index
    front x es [] h = absurd h
    front x es (i ∷ index) h = h

index_key-rest :
    (key : Bytes) (b : Builder)
    → ((index_key key b).file ≡ b.file)
      × ((index_key key b).filter ≡ b.filter)
      × ((index_key key b).current_offset ≡ b.current_offset)
unfolding index_key
index_key-rest key b = ground arith

module _ (sum64 : Bytes → ℕ) where
  Built-new : (count : ℕ) → Built sum64 [] (new_builder count)
  unfolding new_builder
  Built-new count = record {
    file = refl;
    offset = refl;
    filter = new_filter-IsValid count;
    known = λ e here. absurd here;
    entries = tt;
    first = refl;
  }

  -- `Add` never fails, and what the builder knows grows by the entry.
  Built-add :
      (es : List Item) (e : Item) (b : Builder)
      → Built sum64 es b
      → (b' : Builder) × (add_item sum64 e.key e.value e.is_tombstone b ≡ some b')
        × Built sum64 (es ++ (e ∷ [])) b'
  unfolding add_item write_item
  Built-add es e b h =
      let (filter, f, valid, known, kept) = add-Known sum64 e.key b.filter h.filter in
      let b₀ : Builder = record b { filter = filter } in
      let b₁ = index_key e.key b₀ in
      let rest = index_key-rest e.key b₀ in
      let at : b.current_offset ≡ length (encode_items es) = h.offset ∙ ap length h.file in
      let item = encode_item e.key e.value e.is_tombstone in
      let same_filter : b₁.filter ≡ filter = rest.1 in
      (
        write_item e.key e.value e.is_tombstone b₁,
        rw (f, add_item) refl,
        record {
          file =
              ap (λ x. x ++ item) (rest.0 ∙ h.file)
              ∙ ap (◌++◌ (encode_items es)) (sym (append-nil item))
              ∙ sym (encode_items-append es (e ∷ []));
          offset = omega (
            arith,
            at,
            rest.2,
            ap length rest.0,
            ap length h.file,
            length-append b₁.file item,
            length-encode_item e.key e.value e.is_tombstone,
          );
          filter = rw same_filter valid;
          known = λ x here.
              ap (maybe_contains sum64 x.key) same_filter
              ∙ grown filter x (In-snoc x e es here) known kept h;
          entries = index_key-entries es e b₀ at h.entries;
          first = index_key-first es e b₀ at h.first;
        },
      )
    where
      grown :
          (filter : BloomFilter) (x : Item)
          → In x es ⊎ (x ≡ e)
          → maybe_contains sum64 e.key filter ≡ some true
          → ((k : Bytes)
              → maybe_contains sum64 k b.filter ≡ some true
              → maybe_contains sum64 k filter ≡ some true)
          → Built sum64 es b
          → maybe_contains sum64 x.key filter ≡ some true
      grown filter x (inl old) known kept h = kept x.key (h.known x old)
      grown filter x (inr new) known kept h =
          ap (λ y. maybe_contains sum64 y.key filter) new ∙ known

  Built-adds :
      (es fs : List Item) (b : Builder)
      → Built sum64 es b
      → (b' : Builder) × (add_items sum64 fs b ≡ some b') × Built sum64 (es ++ fs) b'
  Built-adds es [] b h = (b, refl, rw (append-nil es) h)
  Built-adds es (f ∷ fs) b h =
      let (b', e, h') = Built-add es f b h in
      let (b'', e', h'') = Built-adds (es ++ (f ∷ [])) fs b' h' in
      (b'', rw (e, add_items) e', rw (sym (append_assoc es (f ∷ []) fs)) h'')

  pub Built-add_items :
      (es : List Item) (count : ℕ)
      → (b : Builder) × (add_items sum64 es (new_builder count) ≡ some b) × Built sum64 es b
  Built-add_items es count = Built-adds [] es (new_builder count) (Built-new count)
