-- ===== src/Sstable/Reader/Parse.antt =====
-- What the reader makes of the index, the filter and the footer that the builder has written.
use sisyphus_db.Prelude.{
  ℕ, zero, suc, ◌+◌, ◌-◌, ◌^◌, ◌<◌, ◌≤◌, ◌≡◌, refl, sym, ap, ap₂, ◌∙◌, arith, some,
}
use sisyphus_db.Prelude.{
  List, [], ◌∷◌, ◌++◌, length, length-append, take-append, drop-append, append_assoc, append-nil,
  All, Bytes, le_bytes, le_value, uint16_round, uint64_round,
}
use sisyphus_db.Prelude.{take_padded-append, length-le_bytes, le→not_ltb, lt→not_leb, ok}
use sisyphus_db.Bloom.{load}
use sisyphus_db.Sstable.{Builder, IndexEntry, encode_index, close_builder}
use sisyphus_db.Sstable.RoundTrip.{read_some-append}
use sisyphus_db.Sstable.Reader.{
  Reader, read_word, read_buffer, parse_entry, parse_index, read_at, open_filter, open_parts,
  open_sstable,
}

abbrev pub FitsEntry : IndexEntry → Type 0
FitsEntry e = (length e.key < 2 ^ 16) × (e.offset < 2 ^ 64)

read_word-append :
    (n : ℕ) (xs ys : Bytes) → length xs ≡ n → read_word n (xs ++ ys) ≡ some (le_value xs, ys)
unfolding read_word
read_word-append n xs ys h = rw (
  le→not_ltb (length (xs ++ ys)) n (omega (arith, length-append xs ys)),
  take-append n xs ys h,
  drop-append n xs ys h,
)

read_buffer-append :
    (n : ℕ) (xs ys : Bytes)
    → length xs ≡ n
    → 0 < length ys
    → read_buffer n (xs ++ ys) ≡ some (xs, ys)
unfolding read_buffer
read_buffer-append n [] [] h hy = absurd (omega arith)
read_buffer-append n [] (y ∷ ys) h hy =
    ap₂ (λ a b. some (a, b)) (take_padded-append n [] (y ∷ ys) h) (drop-append n [] (y ∷ ys) h)
read_buffer-append n (x ∷ xs) ys h hy =
    ap₂ (λ a b. some (a, b)) (take_padded-append n (x ∷ xs) ys h) (drop-append n (x ∷ xs) ys h)

parse_entry-encode :
    (e : IndexEntry) (rest : Bytes)
    → FitsEntry e
    → parse_entry (le_bytes 2 (length e.key) ++ (e.key ++ (le_bytes 8 e.offset ++ rest)))
      ≡ some (e, rest)
unfolding parse_entry
parse_entry-encode e rest h =
    rw
      (
        read_word-append 2 (le_bytes 2 (length e.key)) (e.key ++ (le_bytes 8 e.offset ++ rest))
            (length-le_bytes 2 (length e.key)),
        uint16_round (length e.key) h.0,
        read_buffer-append (length e.key) e.key (le_bytes 8 e.offset ++ rest) refl
            (omega (arith, length-append (le_bytes 8 e.offset) rest, length-le_bytes 8 e.offset)),
        read_word-append 8 (le_bytes 8 e.offset) rest (length-le_bytes 8 e.offset),
        uint64_round e.offset h.1,
        parse_entry,
      )
      refl

pub parse_index-encode :
    (fuel : ℕ) (es : List IndexEntry)
    → length es ≤ fuel
    → All FitsEntry es
    → parse_index fuel (encode_index es) ≡ some es
unfolding parse_index encode_index le_bytes
parse_index-encode fuel [] hf h = refl
parse_index-encode zero (e ∷ es) hf h = absurd (omega arith)
parse_index-encode (suc fuel) (e ∷ es) hf h =
    rw
      (
        ap (λ b. parse_entry (le_bytes 2 (length e.key) ++ b))
              (append_assoc e.key (le_bytes 8 e.offset) (encode_index es))
            ∙ parse_entry-encode e (encode_index es) h.0,
        parse_index-encode fuel es (omega arith) h.1,
        parse_index,
      )
      refl

length-encode_index : (es : List IndexEntry) → length es ≤ length (encode_index es)
unfolding encode_index
length-encode_index [] = omega arith
length-encode_index (e ∷ es) = omega (
  arith,
  length-append (le_bytes 2 (length e.key) ++ (e.key ++ le_bytes 8 e.offset)) (encode_index es),
  length-append (le_bytes 2 (length e.key)) (e.key ++ le_bytes 8 e.offset),
  length-le_bytes 2 (length e.key),
  length-encode_index es,
)

read_at-append :
    (before xs after : Bytes) (offset n : ℕ)
    → offset ≡ length before
    → n ≡ length xs
    → offset < 2 ^ 63
    → n ≤ 2 ^ 30
    → read_at (before ++ (xs ++ after)) offset n ≡ ok (xs, after)
unfolding read_at
read_at-append before xs after offset n e e' h short =
    rw
      (
        lt→not_leb (2 ^ 63) offset h,
        drop-append offset before (xs ++ after) (sym e),
        read_some-append n xs after (sym e') short,
        read_at,
      )
      refl

module _ (b : Builder) (at_end : b.current_offset ≡ length b.file) (entries : All FitsEntry b.index)
    (small : length (close_builder b) < 2 ^ 30) where
  abbrev index_bytes : Bytes
  index_bytes = encode_index b.index

  abbrev index_end : ℕ
  index_end = b.current_offset + length index_bytes

  abbrev footer : Bytes
  footer = le_bytes 8 b.current_offset ++ le_bytes 8 index_end

  length-footer : length footer ≡ 16
  length-footer = omega (
    arith,
    length-append (le_bytes 8 b.current_offset) (le_bytes 8 index_end),
    length-le_bytes 8 b.current_offset,
    length-le_bytes 8 index_end,
  )

  -- The file, cut at the filter and at the footer.
  at_filter : close_builder b ≡ (b.file ++ index_bytes) ++ (b.filter.bitset ++ footer)
  unfolding close_builder
  at_filter = sym (append_assoc b.file index_bytes (b.filter.bitset ++ footer))

  at_footer : close_builder b ≡ ((b.file ++ index_bytes) ++ b.filter.bitset) ++ (footer ++ [])
  at_footer =
      at_filter
      ∙ sym (append_assoc (b.file ++ index_bytes) b.filter.bitset footer)
      ∙ ap (λ x. ((b.file ++ index_bytes) ++ b.filter.bitset) ++ x) (sym (append-nil footer))

  length-file : length (close_builder b) ≡ index_end + length b.filter.bitset + 16
  length-file = omega (
    arith,
    at_end,
    ap length at_filter,
    length-append (b.file ++ index_bytes) (b.filter.bitset ++ footer),
    length-append b.file index_bytes,
    length-append b.filter.bitset footer,
    length-footer,
  )

  abbrev opened : Reader
  opened = record { file = close_builder b; index = b.index; filter = load b.filter.bitset }

  read_index :
      read_at (close_builder b) b.current_offset (index_end - b.current_offset)
      ≡ ok (index_bytes, b.filter.bitset ++ footer)
  unfolding close_builder
  read_index =
      read_at-append b.file index_bytes (b.filter.bitset ++ footer) b.current_offset
        (index_end - b.current_offset) at_end (omega arith) (omega (arith, length-file))
        (omega (arith, length-file))

  read_filter :
      read_at (close_builder b) index_end (length (close_builder b) - index_end - 16)
      ≡ ok (b.filter.bitset, footer)
  read_filter =
      ap (λ f. read_at f index_end (length (close_builder b) - index_end - 16)) at_filter
      ∙ read_at-append (b.file ++ index_bytes) b.filter.bitset footer index_end
          (length (close_builder b) - index_end - 16)
          (omega (arith, at_end, length-append b.file index_bytes)) (omega (arith, length-file))
          (omega (arith, length-file)) (omega (arith, length-file))

  read_footer : read_at (close_builder b) (length (close_builder b) - 16) 16 ≡ ok (footer, [])
  read_footer =
      ap (λ f. read_at f (length (close_builder b) - 16) 16) at_footer
      ∙ read_at-append ((b.file ++ index_bytes) ++ b.filter.bitset) footer []
          (length (close_builder b) - 16) 16
          (omega (
            arith,
            at_end,
            length-file,
            length-append (b.file ++ index_bytes) b.filter.bitset,
            length-append b.file index_bytes,
          ))
          (omega (arith, length-footer)) (omega (arith, length-file)) (omega arith)

  open_filter-close_builder : open_filter (close_builder b) index_end (some b.index) ≡ ok opened
  unfolding open_filter
  open_filter-close_builder =
      rw
        (
          le→not_ltb (length (close_builder b)) (index_end + 16) (omega (arith, length-file)),
          read_filter,
          open_filter,
        )
        refl

  open_parts-close_builder : open_parts (close_builder b) b.current_offset index_end ≡ ok opened
  unfolding open_parts
  open_parts-close_builder =
      rw
        (
          lt→not_leb (2 ^ 63) b.current_offset (omega (arith, length-file)),
          le→not_ltb index_end b.current_offset (omega arith),
          lt→not_leb (2 ^ 63) index_end (omega (arith, length-file)),
          read_index,
          open_parts,
        )
        (ap (open_filter (close_builder b) index_end)
            (parse_index-encode (length index_bytes) b.index (length-encode_index b.index) entries)
          ∙ open_filter-close_builder)

  -- The reader has the index and the filter of the builder.
  pub open_sstable-close_builder : open_sstable (close_builder b) ≡ ok opened
  unfolding open_sstable
  open_sstable-close_builder =
      rw
        (
          le→not_ltb (length (close_builder b)) 16 (omega (arith, length-file)),
          read_footer,
          ap le_value (
                take-append 8 (le_bytes 8 b.current_offset) (le_bytes 8 index_end)
                  (length-le_bytes 8 b.current_offset))
              ∙ uint64_round b.current_offset (omega (arith, length-file)),
          ap le_value (
                drop-append 8 (le_bytes 8 b.current_offset) (le_bytes 8 index_end)
                  (length-le_bytes 8 b.current_offset))
              ∙ uint64_round index_end (omega (arith, length-file)),
          open_sstable,
        )
        open_parts-close_builder
