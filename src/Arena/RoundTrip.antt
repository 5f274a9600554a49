-- ===== src/Arena/RoundTrip.antt =====
-- What `Get` finds of what `Put` wrote.
use sisyphus_db.Prelude.{
  ℕ, ◌+◌, ◌-◌, ◌^◌, ◌≤◌, ◌<◌, ◌≡◌, refl, sym, ap, ◌∙◌, arith, Bool, true, false,
}
use sisyphus_db.Prelude.{[], ◌∷◌, ◌++◌, length, drop, get_elem?, some}
use sisyphus_db.Prelude.{if◌then◌else◌, Bytes, le_bytes, take_padded-append}
use sisyphus_db.Prelude.{ok, append_assoc, append-nil, length-append, drop-append, drop-append_le}
use sisyphus_db.Prelude.{drop-drop, get_elem?-drop, uint16_round, uint32_round, le→leb}
use sisyphus_db.Prelude.{length-drop}
use sisyphus_db.Arena.{Arena, put, get, get_value, slice, encode_arena, entry_size}

-- The write position is the end of the data, which fits the capacity.
pub record IsValid (a : Arena) : Type 0 where
  pub at_end : a.offset ≡ length a.bytes
  pub fits : a.offset ≤ a.cap

-- An entry of the arena, with the lengths that its header can hold.
pub record StoredAt (a : Arena) (offset : ℕ) (key val : Bytes) (is_delete : Bool) : Type 0 where
  pub rest : Bytes
  pub here : drop offset a.bytes ≡ encode_arena key val is_delete ++ rest
  pub short_key : length key < 2 ^ 16
  pub short_val : length val < 2 ^ 32

length-encode_arena :
    (key val : Bytes) (is_delete : Bool)
    → length (encode_arena key val is_delete) ≡ entry_size key val is_delete
unfolding encode_arena entry_size le_bytes
length-encode_arena key val true = omega (arith, length-append key [])
length-encode_arena key val false = omega (arith, length-append key val)

-- What a `Put` that succeeds returns and leaves.
pub record Appended (key val : Bytes) (is_delete : Bool) (a : Arena) (offset : ℕ) (a' : Arena)
    : Type 0 where
  pub at : offset ≡ a.offset
  pub offset_after : a'.offset ≡ a.offset + entry_size key val is_delete
  pub bytes : a'.bytes ≡ a.bytes ++ encode_arena key val is_delete
  pub cap : a'.cap ≡ a.cap
  pub room : a.offset + entry_size key val is_delete ≤ a.cap

pub put-Appended :
    (a : Arena) (key val : Bytes) (is_delete : Bool) (offset : ℕ) (a' : Arena)
    → put a key val is_delete ≡ ok (offset, a')
    → Appended key val is_delete a offset a'
unfolding put
put-Appended a key val is_delete offset a' e = ground arith

-- A `Put` that succeeds keeps the write position at the end of the data and inside the capacity.
pub put-IsValid :
    (a : Arena) (key val : Bytes) (is_delete : Bool) (offset : ℕ) (a' : Arena)
    → IsValid a
    → put a key val is_delete ≡ ok (offset, a')
    → IsValid a'
put-IsValid a key val is_delete offset a' valid e =
    let done = put-Appended a key val is_delete offset a' e in
    record {
      at_end = omega (
        arith,
        valid.at_end,
        done.offset_after,
        ap length done.bytes,
        length-append a.bytes (encode_arena key val is_delete),
        length-encode_arena key val is_delete,
      );
      fits = omega (arith, done.offset_after, done.cap, done.room);
    }

slice_at :
    (a : Arena) (lo hi : ℕ) (xs ys : Bytes)
    → drop lo a.bytes ≡ xs ++ ys
    → lo + length xs ≡ hi
    → hi ≤ a.cap
    → slice a lo hi ≡ ok xs
unfolding slice
slice_at a lo hi xs ys e size fits =
    rw (le→leb hi a.cap fits, e, take_padded-append (hi - lo) xs ys (omega arith))

-- The bytes behind a part that was read.
behind :
    (a : Arena) (lo hi : ℕ) (xs ys : Bytes)
    → drop lo a.bytes ≡ xs ++ ys
    → lo + length xs ≡ hi
    → drop hi a.bytes ≡ ys
behind a lo hi xs ys e size =
    sym (drop-drop lo (length xs) hi a.bytes size)
    ∙ ap (drop (length xs)) e
    ∙ drop-append (length xs) xs ys refl

pub StoredAt-inside :
    (a : Arena) (offset : ℕ) (key val : Bytes) (is_delete : Bool)
    → StoredAt a offset key val is_delete
    → offset + entry_size key val is_delete ≤ length a.bytes
unfolding entry_size
StoredAt-inside a offset key val is_delete s = ground (
  arith,
  ap length s.here,
  length-drop offset a.bytes,
  length-append (encode_arena key val is_delete) s.rest,
  length-encode_arena key val is_delete,
)

header_at :
    (a : Arena) (offset b : ℕ) (bs : Bytes)
    → drop offset a.bytes ≡ b ∷ bs
    → get_elem? a.bytes offset ≡ some b
header_at a offset b bs e =
    sym (get_elem?-drop offset 0 offset a.bytes (omega arith)) ∙ ap (λ l. get_elem? l 0) e

module _ (a : Arena) (offset : ℕ) (key val : Bytes) (valid : IsValid a) where
  get_tombstone : StoredAt a offset key val true → get a offset ≡ ok ([], true)
  unfolding get encode_arena
  get_tombstone s = rw (header_at a offset 1 _ s.here, get)

  get_kept : StoredAt a offset key val false → get a offset ≡ ok (val, false)
  unfolding get get_value encode_arena le_bytes entry_size
  get_kept s =
      let inside = StoredAt-inside a offset key val false s in
      let lens = le_bytes 2 (length key) in
      let vlens = le_bytes 4 (length val) in
      let c = offset + 1 in
      let body : drop c a.bytes ≡ lens ++ (vlens ++ ((key ++ val) ++ s.rest)) =
        behind a offset c (0 ∷ []) _ s.here refl in
      let after_key_len : drop (c + 2) a.bytes ≡ vlens ++ ((key ++ val) ++ s.rest) =
        behind a c (c + 2) lens _ body refl in
      let after_lens : drop (c + 6) a.bytes ≡ key ++ (val ++ s.rest) =
        behind a (c + 2) (c + 6) vlens _ after_key_len (omega arith)
        ∙ append_assoc key val s.rest in
      let after_key : drop (c + 6 + length key) a.bytes ≡ val ++ s.rest =
        behind a (c + 6) (c + 6 + length key) key _ after_lens refl in
      let key_len =
        slice_at a c (c + 2) lens _ body refl (omega (arith, valid.at_end, valid.fits)) in
      let val_len =
        slice_at a (c + 2) (c + 6) vlens _ after_key_len (omega arith)
          (omega (arith, valid.at_end, valid.fits)) in
      let value =
        slice_at a (c + 6 + length key) (c + 6 + length key + length val) val s.rest after_key refl
          (omega (arith, valid.at_end, valid.fits)) in
      rw (
        header_at a offset 0 _ s.here,
        key_len,
        val_len,
        uint16_round (length key) s.short_key,
        uint32_round (length val) s.short_val,
        value,
        get,
      )

-- `Get` at the offset of an entry returns its value, or reports the tombstone.
pub get-StoredAt :
    (a : Arena) (offset : ℕ) (key val : Bytes) (is_delete : Bool)
    → IsValid a
    → StoredAt a offset key val is_delete
    → get a offset ≡ ok (if is_delete then ([], true) else (val, false))
get-StoredAt a offset key val true valid s = get_tombstone a offset key val valid s
get-StoredAt a offset key val false valid s = get_kept a offset key val valid s

module _ (a : Arena) (key val : Bytes) (is_delete : Bool) (offset : ℕ) (a' : Arena)
    (valid : IsValid a) (e : put a key val is_delete ≡ ok (offset, a')) where
  pub StoredAt-put :
      length key < 2 ^ 16 → length val < 2 ^ 32 → StoredAt a' offset key val is_delete
  StoredAt-put short_key short_val =
      let done = put-Appended a key val is_delete offset a' e in
      record {
        rest = [];
        here =
            ap (drop offset) done.bytes
            ∙ drop-append offset a.bytes (encode_arena key val is_delete)
                (omega (arith, done.at, valid.at_end))
            ∙ sym (append-nil (encode_arena key val is_delete));
        short_key = short_key;
        short_val = short_val;
      }

  pub StoredAt-kept : (o : ℕ) (k v : Bytes) (d : Bool) → StoredAt a o k v d → StoredAt a' o k v d
  StoredAt-kept o k v d s =
      let done = put-Appended a key val is_delete offset a' e in
      record {
        rest = s.rest ++ encode_arena key val is_delete;
        here =
            ap (drop o) done.bytes
            ∙ drop-append_le o a.bytes (encode_arena key val is_delete)
                (omega (arith, StoredAt-inside a o k v d s))
            ∙ ap (λ b. b ++ encode_arena key val is_delete) s.here
            ∙ append_assoc (encode_arena k v d) s.rest (encode_arena key val is_delete);
        short_key = s.short_key;
        short_val = s.short_val;
      }
