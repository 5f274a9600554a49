-- ===== src/Sstable/Block.antt =====
-- The block that the reader picks, and what it finds there.
use sisyphus_db.Prelude.{
  ℕ, ◌-◌, ◌^◌, ◌<◌, ◌≤◌, ◌≡◌, refl, sym, ap, ◌∙◌, arith, Bool, true, false, some, inl, inr,
  Bool-cases,
}
use sisyphus_db.Prelude.{
  List, [], ◌∷◌, ◌++◌, length, length-append, append_assoc, drop, drop-append, get_elem?,
  get_elem?-some, All, Bytes, ok, missing, lt→not_leb, ◌==◌, ne→not_==,
}
use sisyphus_db.Prelude.{
  bytes_lt, bytes_eq, bytes_lt_asymm, bytes_lt_irrefl, bytes_lt_trans, bytes_lt_trans_le,
}
use sisyphus_db.Bloom.{load}
use mathlib.Core.Path.{subst}
use sisyphus_db.Sstable.{Builder, IndexEntry, close_builder}
use sisyphus_db.Sstable.Items.{Item, FitsItem, encode_items, IsSorted, In, All-In, found_item}
use sisyphus_db.Sstable.RoundTrip.{close_tail}
use sisyphus_db.Sstable.Build.{Built, Points, StartsWith, encode_items-append}
use sisyphus_db.Sstable.Reader.{Reader, search_block, scan_block, search_index, key_above}
use sisyphus_db.Sstable.Reader.Search.{Boundary, search_index-Boundary}
use sisyphus_db.Sstable.Reader.Scan.{scan_block-In, scan_block-below}
use sisyphus_db.Sstable.Suffix.{All-at, In-suffix, IsSorted-suffix, All-suffix, length-encode_items}

module _ (sum64 : Bytes → ℕ) (es : List Item) (b : Builder) (built : Built sum64 es b)
    (fits : All FitsItem es) (sorted : IsSorted es)
    (small : length (close_builder b) < 2 ^ 30) where
  abbrev pub reader : Reader
  reader = record { file = close_builder b; index = b.index; filter = load b.filter.bitset }

  abbrev tail : Bytes
  tail = close_tail b

  abbrev test : Bytes → ℕ → Bool
  test target = key_above b.index target

  abbrev found_at : Bytes → ℕ
  found_at target = search_index (length b.index) 0 (length b.index) (test target)

  boundary : (target : Bytes) → Boundary (test target) (length b.index) (found_at target)
  boundary target =
      search_index-Boundary (length b.index) 0 (length b.index) (length b.index) (test target)
        (omega arith) (omega arith) (omega arith) (λ l. absurd (omega arith))
        (λ l. absurd (omega arith))

  -- The block that the search picks.
  record Block (target : Bytes) : Type 0 where
    entry : IndexEntry
    at : get_elem? b.index (found_at target - 1) ≡ some entry
    points : Points es entry
    not_above : bytes_lt target entry.key ≡ false

  key_above-at :
      (target : Bytes) (i : ℕ) (e : IndexEntry)
      → get_elem? b.index i ≡ some e
      → test target i ≡ bytes_lt target e.key
  unfolding key_above
  key_above-at target i e h = rw (h, key_above) refl

  block : (target : Bytes) → 0 < found_at target → Block target
  block target pos =
      let bound = boundary target in
      let (e, at) = get_elem?-some b.index (found_at target - 1) (omega (arith, bound.bound)) in
      record {
        entry = e;
        at = at;
        points = All-at (Points es) b.index (found_at target - 1) e at built.entries;
        not_above = sym (key_above-at target (found_at target - 1) e at) ∙ bound.below pos;
      }

  -- With no block the key comes before all entries.
  before_all :
      (target : Bytes) (e : Item) → found_at target ≡ 0 → In e es → bytes_lt target e.key ≡ true
  before_all target e zero_at here = front es b.index refl refl built.first sorted here
    where
      front :
          (fs : List Item) (index : List IndexEntry)
          → es ≡ fs
          → b.index ≡ index
          → StartsWith fs index
          → IsSorted fs
          → In e fs
          → bytes_lt target e.key ≡ true
      front [] index q q' st hs here = absurd here
      front (x ∷ fs) [] q q' st hs here = absurd st
      front (x ∷ fs) (i ∷ index) q q' st hs here =
          let bound = boundary target in
          let up : test target 0 ≡ true =
            ap (test target) (sym zero_at) ∙ bound.above (omega (arith, zero_at, ap length q')) in
          let lt : bytes_lt target x.key ≡ true =
            ap (bytes_lt target) (sym st)
            ∙ sym (key_above-at target 0 i (ap (λ l. get_elem? l 0) q'))
            ∙ up in
          behind x fs lt hs here
        where
          behind :
              (x : Item) (fs : List Item)
              → bytes_lt target x.key ≡ true
              → IsSorted (x ∷ fs)
              → In e (x ∷ fs)
              → bytes_lt target e.key ≡ true
          behind x fs lt hs (inl same) = ap (λ y. bytes_lt target y.key) same ∙ lt
          behind x fs lt hs (inr later) =
              bytes_lt_trans target x.key e.key lt
                (All-In (λ y. bytes_lt x.key y.key ≡ true) fs e hs.0 later)

  -- The file, cut in front of the block.
  file_split :
      (i : IndexEntry) (p : Points es i)
      → close_builder b ≡ encode_items p.before ++ (encode_items (p.item ∷ p.after) ++ tail)
  unfolding close_builder
  file_split i p =
      ap (λ x. x ++ tail)
        (built.file ∙ ap encode_items p.split ∙ encode_items-append p.before (p.item ∷ p.after))
      ∙ append_assoc (encode_items p.before) (encode_items (p.item ∷ p.after)) tail

  pub offset-Points : (i : IndexEntry) → Points es i → i.offset < 2 ^ 63
  offset-Points i p = omega (
    arith,
    p.offset,
    small,
    ap length (file_split i p),
    length-append (encode_items p.before) (encode_items (p.item ∷ p.after) ++ tail),
  )

  drop_block :
      (i : IndexEntry) (p : Points es i)
      → drop i.offset (close_builder b) ≡ encode_items (p.item ∷ p.after) ++ tail
  drop_block i p =
      ap (drop i.offset) (file_split i p)
      ∙ drop-append i.offset (encode_items p.before) (encode_items (p.item ∷ p.after) ++ tail)
          (sym p.offset)

  search_block-at :
      (target : Bytes) (pos : 0 < found_at target)
      → let k = block target pos in
        let bs = drop k.entry.offset (close_builder b) in
        search_block reader target ≡ scan_block (length bs) bs target
  unfolding search_block
  search_block-at target pos =
      let k = block target pos in
      rw
        (
          ne→not_== (found_at target) 0 (λ z. absurd (omega arith)),
          k.at,
          lt→not_leb (2 ^ 63) k.entry.offset (offset-Points k.entry k.points),
          search_block,
        )
        refl

  -- The scan of the block, on the entries from its first on.
  search_block-entries :
      (target : Bytes) (pos : 0 < found_at target)
      → let p = (block target pos).points in
        (fuel : ℕ) × (length (p.item ∷ p.after) ≤ fuel)
        × (search_block reader target
            ≡ scan_block fuel (encode_items (p.item ∷ p.after) ++ tail) target)
  search_block-entries target pos =
      let k = block target pos in
      let p = k.points in
      let bs = encode_items (p.item ∷ p.after) ++ tail in
      (
        length bs,
        omega (
          arith,
          length-encode_items (p.item ∷ p.after),
          length-append (encode_items (p.item ∷ p.after)) tail,
        ),
        search_block-at target pos
            ∙ ap (λ x. scan_block (length x) x target) (drop_block k.entry p),
      )

  pub search_block-In : (e : Item) → In e es → search_block reader e.key ≡ ok (found_item e)
  search_block-In e here = elim (Bool-cases (found_at e.key == 0)) [
    | inl start ↦ absurd (
        let lt : bytes_lt e.key e.key ≡ true = before_all e.key e (ground arith) here in
        let no = bytes_lt_irrefl e.key in cc)
    | inr later ↦
        let pos : 0 < found_at e.key = ground arith in
        let k = block e.key pos in
        let p = k.points in
        let (fuel, enough, scan) = search_block-entries e.key pos in
        let sorted' : IsSorted (p.before ++ (p.item ∷ p.after)) = subst IsSorted p.split sorted in
        scan
        ∙ scan_block-In fuel (p.item ∷ p.after) tail e enough
            (All-suffix FitsItem p.before (p.item ∷ p.after) (subst (All FitsItem) p.split fits))
            (IsSorted-suffix p.before (p.item ∷ p.after) sorted')
            (In-suffix p.before p.after p.item e sorted' (subst (In e) p.split here)
              (ap (bytes_lt e.key) (sym p.key) ∙ k.not_above))
  ]

  search_block-none :
      (target : Bytes) → (found_at target == 0) ≡ true → search_block reader target ≡ ok missing
  unfolding search_block
  search_block-none target start = rw (start, search_block) refl

  pub search_block-below :
      (target : Bytes) (y : Item)
      → All (λ x. bytes_eq x.key target ≡ false) es
      → In y es
      → bytes_lt target y.key ≡ true
      → search_block reader target ≡ ok missing
  search_block-below target y ne here lt = elim (Bool-cases (found_at target == 0)) [
    | inl start ↦ search_block-none target start
    | inr later ↦
        let pos : 0 < found_at target = ground arith in
        let k = block target pos in
        let p = k.points in
        let (fuel, enough, scan) = search_block-entries target pos in
        let sorted' : IsSorted (p.before ++ (p.item ∷ p.after)) = subst IsSorted p.split sorted in
        let behind : bytes_lt p.item.key y.key ≡ true =
          bytes_lt_trans_le p.item.key target y.key (ap (bytes_lt target) (sym p.key) ∙ k.not_above)
            lt in
        scan
        ∙ scan_block-below fuel (p.item ∷ p.after) tail target y enough
            (All-suffix FitsItem p.before (p.item ∷ p.after) (subst (All FitsItem) p.split fits))
            (All-suffix (λ x. bytes_eq x.key target ≡ false) p.before (p.item ∷ p.after)
              (subst (All (λ x. bytes_eq x.key target ≡ false)) p.split ne))
            (In-suffix p.before p.after p.item y sorted' (subst (In y) p.split here)
              (bytes_lt_asymm p.item.key y.key behind))
            lt
  ]
