-- ===== src/Store/Lookup.antt =====
-- What a table in memory finds of what is put into it.
use sisyphus_db.Prelude.{
  ℕ, ◌+◌, ◌%◌, ◌^◌, ◌≤◌, ◌<◌, ◌≡◌, refl, sym, ap, ◌∙◌, arith, Bool, true, false, none, some, length,
  [], ◌++◌,
}
use sisyphus_db.Prelude.{
  if◌then◌else◌, Bytes, bytes_eq, Bool-cases, Option-cases, inl, inr, ok, le→not_ltb, bytes_eq-eq,
}
use sisyphus_db.Arena.{Arena, put, get, entry_size, encode_arena}
use sisyphus_db.Arena.RoundTrip.{
  IsValid, StoredAt, put-Appended, put-IsValid, get-StoredAt, StoredAt-put, StoredAt-kept,
}
use sisyphus_db.Store.{MemTable, lookup, assign, check_table, check_entry, map_limit}
use sisyphus_db.Prelude.{Found, missing, tombstone, value}
use sisyphus_db.Store.Index.{lookup-assign_same, lookup-assign_other, IsDistinct, assign-IsDistinct}

-- The arena is behind the size, which is inside the limit, no key is twice in the
-- index, and each has its entry.
pub record IsTable (t : MemTable) : Type 0 where
  pub arena : IsValid t.arena
  pub cap : t.arena.cap ≡ map_limit
  pub counted : t.arena.offset ≤ t.size
  pub limited : t.size ≤ map_limit
  pub distinct : IsDistinct t.index
  pub stored :
      (key : Bytes) (offset : ℕ)
      → lookup key t.index ≡ some offset
      → (val : Bytes) × (is_delete : Bool) × StoredAt t.arena offset key val is_delete

-- What a lookup needs of a table.
pub record IsReadable (t : MemTable) : Type 0 where
  pub arena : IsValid t.arena
  pub stored :
      (key : Bytes) (offset : ℕ)
      → lookup key t.index ≡ some offset
      → (val : Bytes) × (is_delete : Bool) × StoredAt t.arena offset key val is_delete

pub IsTable-IsReadable : (t : MemTable) → IsTable t → IsReadable t
IsTable-IsReadable t h = record { arena = h.arena; stored = h.stored }

abbrev pub size_of : Bytes → Bytes → ℕ
size_of key val = 1 + 2 + 4 + length key + length val

abbrev pub found_of : Bytes → Bool → Found
found_of val is_delete = if is_delete then tombstone else value val

-- The table behind a `Put` in its arena.
abbrev pub with_entry : MemTable → Bytes → Bytes → ℕ → Arena → MemTable
with_entry t key val offset a' = record {
  index = assign key offset t.index;
  arena = a';
  size = (t.size + size_of key val) % 2 ^ 32;
  wal = t.wal;
  segment = t.segment;
}

entry_size_le :
    (key val : Bytes) (is_delete : Bool) → entry_size key val is_delete ≤ size_of key val
unfolding entry_size
entry_size_le key val true = omega arith
entry_size_le key val false = omega arith

pub put_fits :
    (t : MemTable) (key val : Bytes) (is_delete : Bool)
    → IsTable t
    → t.size + size_of key val ≤ map_limit
    → (offset : ℕ) × (a' : Arena) × (put t.arena key val is_delete ≡ ok (offset, a'))
unfolding put
put_fits t key val is_delete h room = (
  t.arena.offset,
  record t.arena {
    bytes = t.arena.bytes ++ encode_arena key val is_delete;
    offset = t.arena.offset + entry_size key val is_delete;
  },
  rw
      (
        le→not_ltb t.arena.cap (t.arena.offset + entry_size key val is_delete)
            (omega (arith, h.cap, h.counted, entry_size_le key val is_delete)),
        put,
      )
      refl,
)

check_table-missing :
    (t : MemTable) (key : Bytes) → lookup key t.index ≡ none → check_table t key ≡ ok missing
unfolding check_table
check_table-missing t key e = rw (e, check_table) refl

check_table-at :
    (t : MemTable) (key : Bytes) (offset : ℕ)
    → lookup key t.index ≡ some offset
    → check_table t key ≡ check_entry (get t.arena offset)
unfolding check_table
check_table-at t key offset e = rw (e, check_table) refl

check_entry-found :
    (val : Bytes) (is_delete : Bool)
    → check_entry (ok (if is_delete then ([], true) else (val, false)))
      ≡ ok (found_of val is_delete)
unfolding check_entry
check_entry-found val true = refl
check_entry-found val false = refl

module _ (t : MemTable) (key val : Bytes) (is_delete : Bool) (offset : ℕ) (a' : Arena)
    (h : IsReadable t) (e : put t.arena key val is_delete ≡ ok (offset, a'))
    (short_key : length key < 2 ^ 16) (short_val : length val < 2 ^ 32) where
  new_entry : StoredAt a' offset key val is_delete
  new_entry = StoredAt-put t.arena key val is_delete offset a' h.arena e short_key short_val

  pub with_entry-same :
      check_table (with_entry t key val offset a') key ≡ ok (found_of val is_delete)
  with_entry-same =
      check_table-at (with_entry t key val offset a') key offset
        (lookup-assign_same key offset t.index)
      ∙ ap check_entry (
          get-StoredAt a' offset key val is_delete
            (put-IsValid t.arena key val is_delete offset a' h.arena e) new_entry)
      ∙ check_entry-found val is_delete

  pub with_entry-other :
      (k : Bytes)
      → bytes_eq key k ≡ false
      → check_table (with_entry t key val offset a') k ≡ check_table t k
  with_entry-other k ne =
      let same = lookup-assign_other key k offset t.index ne in
      elim (Option-cases (lookup k t.index)) [
        | inl e' ↦
            check_table-missing (with_entry t key val offset a') k (same ∙ e')
            ∙ sym (check_table-missing t k e')
        | inr (o, e') ↦
            let (v, d, s) = h.stored k o e' in
            check_table-at (with_entry t key val offset a') k o (same ∙ e')
            ∙ ap check_entry (
                get-StoredAt a' o k v d (put-IsValid t.arena key val is_delete offset a' h.arena e)
                  (StoredAt-kept t.arena key val is_delete offset a' h.arena e o k v d s)
                ∙ sym (get-StoredAt t.arena o k v d h.arena s))
            ∙ sym (check_table-at t k o e')
      ]

  pub with_entry-IsReadable : IsReadable (with_entry t key val offset a')
  with_entry-IsReadable = record {
    arena = put-IsValid t.arena key val is_delete offset a' h.arena e;
    stored = λ k o e'. elim (Bool-cases (bytes_eq key k)) [
      | inl same ↦
          let ek : key ≡ k = bytes_eq-eq key k same in
          let found : some offset ≡ some o =
            sym (lookup-assign_same key offset t.index)
            ∙ ap (λ x. lookup x (assign key offset t.index)) ek
            ∙ e' in
          let eo : offset ≡ o = cc in (val, is_delete, rw (sym ek, sym eo) new_entry)
      | inr other ↦
          let (v, d, s) =
            h.stored k o (sym (lookup-assign_other key k offset t.index other) ∙ e') in
          (v, d, StoredAt-kept t.arena key val is_delete offset a' h.arena e o k v d s)
    ];
  }

pub with_entry-IsTable :
    (t : MemTable) (key val : Bytes) (is_delete : Bool) (offset : ℕ) (a' : Arena)
    → IsTable t
    → put t.arena key val is_delete ≡ ok (offset, a')
    → length key < 2 ^ 16
    → t.size + size_of key val ≤ map_limit
    → IsTable (with_entry t key val offset a')
with_entry-IsTable t key val is_delete offset a' h e short_key room =
    let done = put-Appended t.arena key val is_delete offset a' e in
    let readable =
      with_entry-IsReadable t key val is_delete offset a' (IsTable-IsReadable t h) e short_key
        (omega arith) in
    record {
      arena = readable.arena;
      cap = done.cap ∙ h.cap;
      counted =
          omega (arith, done.offset_after, h.counted, h.limited, entry_size_le key val is_delete);
      limited = omega arith;
      distinct = assign-IsDistinct key offset t.index h.distinct;
      stored = readable.stored;
    }
