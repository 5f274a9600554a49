-- ===== src/Sstable/Reader/Ends.antt =====
-- The loops of the reader end on any bytes: the fuel that they are given is enough.
use sisyphus_db.Prelude.{
  ℕ, zero, suc, ◌+◌, ◌-◌, ◌<◌, ◌≤◌, ◌≡◌, ◌≢◌, refl, sym, ap, ◌∙◌, arith, Bool, Option, none, some,
  Option-cases, Bool-cases, inl, inr,
}
use sisyphus_db.Prelude.{
  List, [], ◌∷◌, length, take, drop, length-drop, Bytes, le_value, Outcome-cases, ok, err,
  get_elem?,
}
use sisyphus_db.Bloom.{maybe_contains}
use sisyphus_db.Sstable.RoundTrip.{read_some_cases}
use sisyphus_db.Sstable.{IndexEntry, read_some}
use sisyphus_db.Sstable.Reader.{
  Reader, stuck, BlockEntry, read_word, read_buffer, parse_entry, parse_index,
}
use sisyphus_db.Sstable.Reader.{
  read_at, open_filter, open_parts, open_sstable, read_entry, read_found, skip_value, scan_block,
  search_block, reader_get, search_index, key_above,
}

read_some_shrinks :
    (n : ℕ) (bs xs ys : Bytes) → read_some n bs ≡ some (xs, ys) → length ys ≤ length bs
read_some_shrinks n bs xs ys e = elim (read_some_cases n bs) [
  | inl end ↦ absurd (let both = sym e ∙ end in cc)
  | inr (x, r, e', le) ↦
      (let same : r ≡ ys = (let both = sym e' ∙ e in cc) in omega (arith, le, ap length same))
]

read_word_shrinks :
    (n : ℕ) (bs rest : Bytes) (v : ℕ)
    → read_word n bs ≡ some (v, rest)
    → length rest + n ≡ length bs
unfolding read_word
read_word_shrinks n bs rest v e = ground (arith, length-drop n bs)

read_buffer_shrinks :
    (n : ℕ) (bs xs ys : Bytes) → read_buffer n bs ≡ some (xs, ys) → length ys ≤ length bs
unfolding read_buffer
read_buffer_shrinks n [] xs ys e = cc
read_buffer_shrinks n (b ∷ bs) xs ys e = ground (arith, length-drop n (b ∷ bs))

parse_entry_shrinks :
    (bs rest : Bytes) (e : IndexEntry) → parse_entry bs ≡ some (e, rest) → length rest < length bs
unfolding parse_entry
parse_entry_shrinks bs rest e h = elim (Option-cases (read_word 2 bs)) [
  | inl n ↦ absurd (ground arith)
  | inr ((key_len, r1), f1) ↦ elim (Option-cases (read_buffer key_len r1)) [
    | inl n ↦ absurd (ground arith)
    | inr ((key, r2), f2) ↦ elim (Option-cases (read_word 8 r2)) [
      | inl n ↦ absurd (ground arith)
      | inr ((offset, r3), f3) ↦ ground (
        arith,
        read_word_shrinks 2 bs r1 key_len f1,
        read_buffer_shrinks key_len r1 key r2 f2,
        read_word_shrinks 8 r2 r3 offset f3,
      )
    ]
  ]
]

parse_index_ends : (fuel : ℕ) (bs : Bytes) → length bs ≤ fuel → parse_index fuel bs ≢ none
unfolding parse_index
parse_index_ends fuel [] h = λ e. cc
parse_index_ends zero (b ∷ bs) h = absurd (omega arith)
parse_index_ends (suc fuel) (b ∷ bs) h = λ e. elim (Option-cases (parse_entry (b ∷ bs))) [
  | inl n ↦ absurd (ground arith)
  | inr ((x, rest), f) ↦
      let short = parse_entry_shrinks (b ∷ bs) rest x f in
      absurd (ground (arith, parse_index_ends fuel rest (omega arith)))
]

read_entry_shrinks :
    (b : ℕ) (bs : Bytes) (e : BlockEntry) → read_entry b bs ≡ ok e → length e.rest ≤ length bs
unfolding read_entry
read_entry_shrinks b bs e h = elim (Option-cases (read_some 6 bs)) [
  | inl n ↦ absurd (ground arith)
  | inr ((lens, r1), f1) ↦ elim (Option-cases (read_some (le_value (take 2 lens)) r1)) [
    | inl n ↦ absurd (ground arith)
    | inr ((key, r2), f2) ↦ ground (
      arith,
      read_some_shrinks 6 bs lens r1 f1,
      read_some_shrinks (le_value (take 2 lens)) r1 key r2 f2,
    )
  ]
]

skip_value_shrinks : (e : BlockEntry) → length (skip_value e) ≤ length e.rest
unfolding skip_value
skip_value_shrinks e = ground (arith, length-drop e.val_len e.rest)

read_entry_error : (b : ℕ) (bs : Bytes) → read_entry b bs ≢ err stuck
unfolding read_entry
read_entry_error b bs = λ h. elim (Option-cases (read_some 6 bs)) [
  | inl n ↦ absurd (ground arith)
  | inr ((lens, r1), f1) ↦ elim (Option-cases (read_some (le_value (take 2 lens)) r1)) [
    | inl n ↦ absurd (ground arith)
    | inr ((key, r2), f2) ↦ absurd (ground arith)
  ]
]

read_found_error : (d : Bool) (n : ℕ) (bs : Bytes) → read_found d n bs ≢ err stuck
unfolding read_found
read_found_error d n bs = λ h. absurd (ground arith)

scan_block_ends :
    (fuel : ℕ) (bs target : Bytes) → length bs ≤ fuel → scan_block fuel bs target ≢ err stuck
unfolding scan_block
scan_block_ends fuel [] target h = λ e. cc
scan_block_ends zero (b ∷ bs) target h = absurd (omega arith)
scan_block_ends (suc fuel) (b ∷ bs) target h = λ e. elim (Outcome-cases (read_entry b bs)) [
  | inl (x, f) ↦
      let shorter : length (skip_value x) ≤ fuel =
        omega (arith, read_entry_shrinks b bs x f, skip_value_shrinks x) in
      absurd (
        ground (
          arith,
          read_found_error x.is_tombstone x.val_len x.rest,
          scan_block_ends fuel (skip_value x) target shorter,
        ))
  | inr (inl (x, f)) ↦ absurd (ground (arith, read_entry_error b bs))
  | inr (inr f) ↦ absurd (ground arith)
]

search_block_ends : (r : Reader) (target : Bytes) → search_block r target ≢ err stuck
unfolding search_block
search_block_ends r target = λ h.
    let idx = search_index (length r.index) 0 (length r.index) (key_above r.index target) in
    elim (Option-cases (get_elem? r.index (idx - 1))) [
      | inl n ↦ absurd (ground arith)
      | inr (e, f) ↦
          let bs = drop e.offset r.file in
          absurd (ground (arith, scan_block_ends (length bs) bs target (omega arith)))
    ]

read_at_error : (file : Bytes) (offset n : ℕ) → read_at file offset n ≢ err stuck
unfolding read_at
read_at_error file offset n = λ h. absurd (ground arith)

open_filter_ends :
    (file : Bytes) (f : ℕ) (index : Option (List IndexEntry))
    → index ≢ none
    → open_filter file f index ≢ err stuck
unfolding open_filter
open_filter_ends file f none n = absurd (n refl)
open_filter_ends file f (some index) n = λ h.
    elim (Outcome-cases (read_at file f (length file - f - 16))) [
      | inl (c, e) ↦ absurd (ground arith)
      | inr (inl (x, e)) ↦ absurd (ground (arith, read_at_error file f (length file - f - 16)))
      | inr (inr e) ↦ absurd (ground arith)
    ]

open_parts_ends : (file : Bytes) (i f : ℕ) → open_parts file i f ≢ err stuck
unfolding open_parts
open_parts_ends file i f = λ h. elim (Outcome-cases (read_at file i (f - i))) [
  | inl ((bs, rest), e) ↦
      let index = parse_index (length bs) bs in
      absurd (
        ground
          (arith, open_filter_ends file f index (parse_index_ends (length bs) bs (omega arith))))
  | inr (inl (x, e)) ↦ absurd (ground (arith, read_at_error file i (f - i)))
  | inr (inr e) ↦ absurd (ground arith)
]

open_sstable_ends : (file : Bytes) → open_sstable file ≢ err stuck
unfolding open_sstable
open_sstable_ends file = λ h. elim (Outcome-cases (read_at file (length file - 16) 16)) [
  | inl ((footer, rest), e) ↦
      absurd
        (ground (arith, open_parts_ends file (le_value (take 8 footer)) (le_value (drop 8 footer))))
  | inr (inl (x, e)) ↦ absurd (ground (arith, read_at_error file (length file - 16) 16))
  | inr (inr e) ↦ absurd (ground arith)
]

-- `OpenSSTable` and `Get` end on every file, also on one that is damaged, and for every key: the loops
-- over the index and over a block need no more rounds than the bytes that they are given.
pub reader_ends :
    (sum64 : Bytes → ℕ) (file : Bytes)
    → (open_sstable file ≢ err stuck)
      × ((r : Reader) (target : Bytes) → reader_get sum64 r target ≢ err stuck)
unfolding reader_get
reader_ends sum64 file = (open_sstable_ends file, λ r target h. get_ends r target h)
  where
    get_ends : (r : Reader) (target : Bytes) → reader_get sum64 r target ≢ err stuck
    get_ends r target h = elim (Option-cases (maybe_contains sum64 target r.filter)) [
      | inl n ↦ absurd (ground arith)
      | inr (b, e) ↦ elim (Bool-cases b) [
        | inl t ↦ search_block_ends r target (ground arith)
        | inr f ↦ absurd (ground arith)
      ]
    ]
