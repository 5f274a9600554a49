-- ===== src/Sstable/Reader/Scan.antt =====
-- The scan of a block: what it finds among the entries of a table.
use sisyphus_db.Prelude.{
  ℕ, zero, suc, ◌^◌, ◌<◌, ◌≤◌, ◌≡◌, ◌⊎◌, refl, sym, ap, ◌∙◌, arith, Bool, true, false, Bool-cases,
  inl, inr,
}
use sisyphus_db.Prelude.{
  List, [], ◌∷◌, ◌++◌, length, drop, drop-append, append_assoc, All, Bytes, le_bytes, uint32_round,
  uint16_round,
}
use sisyphus_db.Prelude.{Outcome, ok, if◌then◌else◌, Found, missing, tombstone, value, ◌==◌}
use sisyphus_db.Prelude.{bytes_lt, bytes_eq, bytes_eq_refl, bytes_lt_asymm, bytes_lt-not_eq}
use sisyphus_db.Sstable.{encode_item}
use sisyphus_db.Sstable.Items.{Item, FitsItem, encode_items, IsSorted, In, All-In, found_item}
use sisyphus_db.Sstable.RoundTrip.{read_some-append}
use sisyphus_db.Sstable.{max_read}
use sisyphus_db.Sstable.Reader.{
  BlockEntry, ReaderError, read_entry, read_found, skip_value, scan_block,
}

read_entry-parts :
    (header val_len : ℕ) (key rest : Bytes)
    → length key < 2 ^ 16
    → val_len ≤ max_read
    → read_entry header (le_bytes 2 (length key) ++ (le_bytes 4 val_len ++ (key ++ rest)))
      ≡ ok (record { is_tombstone = header == 1; val_len = val_len; key = key; rest = rest })
unfolding read_entry le_bytes
read_entry-parts header val_len key rest hk hv =
    let lens = le_bytes 2 (length key) ++ le_bytes 4 val_len in
    rw
      (
        read_some-append 6 lens (key ++ rest) refl (omega arith),
        uint16_round (length key) hk,
        read_some-append (length key) key rest refl (omega arith),
        uint32_round val_len (omega arith),
        read_entry,
      )
      refl

-- An entry in front of `tail`, as the loop sees it.
abbrev entry_of : Item → Bytes → BlockEntry
entry_of e tail = record {
  is_tombstone = e.is_tombstone;
  val_len = if e.is_tombstone then 0 else length e.value;
  key = e.key;
  rest = (if e.is_tombstone then [] else e.value) ++ tail;
}

-- One round on an entry.
abbrev round : ℕ → BlockEntry → Bytes → Outcome ReaderError Found
round fuel e target = elim (bytes_eq e.key target) [
  | true ↦ read_found e.is_tombstone e.val_len e.rest
  | false ↦ elim (bytes_lt target e.key) [
    | true ↦ ok missing
    | false ↦ scan_block fuel (skip_value e) target
  ]
]

scan_block-item :
    (fuel : ℕ) (key val : Bytes) (d : Bool) (tail target : Bytes)
    → FitsItem (record { key = key; value = val; is_tombstone = d })
    → scan_block (suc fuel) (encode_item key val d ++ tail) target
      ≡ round fuel (entry_of (record { key = key; value = val; is_tombstone = d }) tail) target
unfolding scan_block encode_item le_bytes
scan_block-item fuel key val true tail target h =
    rw
      (
        ap (λ b. read_entry 1 (le_bytes 2 (length key) ++ (le_bytes 4 0 ++ b)))
              (append_assoc key [] tail)
            ∙ read_entry-parts 1 0 key tail h.0 (omega arith),
        scan_block,
      )
      refl
scan_block-item fuel key val false tail target h =
    rw
      (
        ap (λ b. read_entry 0 (le_bytes 2 (length key) ++ (le_bytes 4 (length val) ++ b)))
              (append_assoc key val tail)
            ∙ read_entry-parts 0 (length val) key (val ++ tail) h.0 h.1,
        scan_block,
      )
      refl

skip_value-item : (e : Item) (tail : Bytes) → skip_value (entry_of e tail) ≡ tail
unfolding skip_value
skip_value-item e tail = skipped e.is_tombstone e.value
  where
    skipped :
        (d : Bool) (v : Bytes)
        → (if d
            then (if d then [] else v) ++ tail
            else drop (if d then 0 else length v) ((if d then [] else v) ++ tail))
          ≡ tail
    skipped true v = refl
    skipped false v = drop-append (length v) v tail refl

read_found-item :
    (d : Bool) (v tail : Bytes)
    → length v ≤ max_read
    → read_found d (if d then 0 else length v) ((if d then [] else v) ++ tail)
      ≡ ok (if d then tombstone else value v)
unfolding read_found
read_found-item true v tail small = refl
read_found-item false v tail small =
    rw (read_some-append (length v) v tail refl small, read_found) refl

round-match :
    (fuel : ℕ) (e : BlockEntry) (target : Bytes)
    → bytes_eq e.key target ≡ true
    → round fuel e target ≡ read_found e.is_tombstone e.val_len e.rest
round-match fuel e target same = rw (same, round) refl

round-stop :
    (fuel : ℕ) (e : BlockEntry) (target : Bytes)
    → bytes_eq e.key target ≡ false
    → bytes_lt target e.key ≡ true
    → round fuel e target ≡ ok missing
round-stop fuel e target other above = rw (other, above, round) refl

round-skip :
    (fuel : ℕ) (e : BlockEntry) (target : Bytes)
    → bytes_eq e.key target ≡ false
    → bytes_lt target e.key ≡ false
    → round fuel e target ≡ scan_block fuel (skip_value e) target
round-skip fuel e target other above = rw (other, above, round) refl

-- The first round on entries.
scan_block-first :
    (fuel : ℕ) (x : Item) (es : List Item) (tail target : Bytes)
    → FitsItem x
    → scan_block (suc fuel) (encode_items (x ∷ es) ++ tail) target
      ≡ round fuel (entry_of x (encode_items es ++ tail)) target
scan_block-first fuel x es tail target h =
    ap (λ b. scan_block (suc fuel) b target)
      (append_assoc (encode_item x.key x.value x.is_tombstone) (encode_items es) tail)
    ∙ scan_block-item fuel x.key x.value x.is_tombstone (encode_items es ++ tail) target h

-- A round on an entry whose key comes before the target.
scan_block-next :
    (fuel : ℕ) (x : Item) (es : List Item) (tail target : Bytes)
    → FitsItem x
    → bytes_eq x.key target ≡ false
    → bytes_lt target x.key ≡ false
    → scan_block (suc fuel) (encode_items (x ∷ es) ++ tail) target
      ≡ scan_block fuel (encode_items es ++ tail) target
scan_block-next fuel x es tail target h ne above =
    scan_block-first fuel x es tail target h
    ∙ round-skip fuel (entry_of x (encode_items es ++ tail)) target ne above
    ∙ ap (λ b. scan_block fuel b target) (skip_value-item x (encode_items es ++ tail))

-- A key of the entries is found, whatever follows them.
pub scan_block-In :
    (fuel : ℕ) (es : List Item) (tail : Bytes) (e : Item)
    → length es ≤ fuel
    → All FitsItem es
    → IsSorted es
    → In e es
    → scan_block fuel (encode_items es ++ tail) e.key ≡ ok (found_item e)
scan_block-In fuel [] tail e hf h hs here = absurd here
scan_block-In zero (x ∷ es) tail e hf h hs here = absurd (omega arith)
scan_block-In (suc fuel) (x ∷ es) tail e hf h hs (inl same) =
    let rest = encode_items es ++ tail in
    scan_block-first fuel x es tail e.key h.0
    ∙ round-match fuel (entry_of x rest) e.key
        (ap (λ y. bytes_eq y.key e.key) (sym same) ∙ bytes_eq_refl e.key)
    ∙ read_found-item x.is_tombstone x.value rest h.0.1
    ∙ ap (λ y. ok (found_item y)) (sym same)
scan_block-In (suc fuel) (x ∷ es) tail e hf h hs (inr later) =
    let lt = All-In (λ y. bytes_lt x.key y.key ≡ true) es e hs.0 later in
    scan_block-next fuel x es tail e.key h.0 (bytes_lt-not_eq x.key e.key lt)
      (bytes_lt_asymm x.key e.key lt)
    ∙ scan_block-In fuel es tail e (omega arith) h.1 hs.1 later

-- A key that no entry has is missed, if it comes before some entry.
pub scan_block-below :
    (fuel : ℕ) (es : List Item) (tail target : Bytes) (y : Item)
    → length es ≤ fuel
    → All FitsItem es
    → All (λ x. bytes_eq x.key target ≡ false) es
    → In y es
    → bytes_lt target y.key ≡ true
    → scan_block fuel (encode_items es ++ tail) target ≡ ok missing
scan_block-below fuel [] tail target y hf h hn here lt = absurd here
scan_block-below zero (x ∷ es) tail target y hf h hn here lt = absurd (omega arith)
scan_block-below (suc fuel) (x ∷ es) tail target y hf h hn here lt =
    elim (Bool-cases (bytes_lt target x.key)) [
      | inl above ↦
          scan_block-first fuel x es tail target h.0
          ∙ round-stop fuel (entry_of x (encode_items es ++ tail)) target hn.0 above
      | inr not_above ↦
          scan_block-next fuel x es tail target h.0 hn.0 not_above
          ∙ scan_block-below fuel es tail target y (omega arith) h.1 hn.1 (elsewhere not_above here)
              lt
    ]
  where
    elsewhere : bytes_lt target x.key ≡ false → (y ≡ x) ⊎ In y es → In y es
    elsewhere no_lt (inl same) = absurd (
        let e : bytes_lt target x.key ≡ true = ap (λ z. bytes_lt target z.key) (sym same) ∙ lt in
        cc)
    elsewhere no_lt (inr later) = later
