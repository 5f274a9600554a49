-- ===== src/Store/Apply.antt =====
-- What a command that Raft delivers does to the tables in memory.
use sisyphus_db.Prelude.{ℕ}
use sisyphus_db.Prelude.{
  ◌+◌, ◌^◌, ◌≤◌, ◌<◌, ◌≡◌, ◌⊎◌, refl, sym, ap, ◌∙◌, arith, Bool, true, false, none, some, length,
}
use sisyphus_db.Prelude.{
  Bytes, bytes_eq, Bool-cases, Option-cases, inl, inr, ok, err, panic, Outcome, ltb, ltb→lt,
  le→not_ltb, lt→ltb, not_ltb→le,
}
use sisyphus_db.Arena.{ArenaError, new_arena}
use sisyphus_db.StorageWal.{Wal}
use sisyphus_db.Store.{Store, MemTable, lookup, check_table, check_frozen, get_memory}
use sisyphus_db.Prelude.{Found, missing, tombstone, value}
use sisyphus_db.Store.{
  rotate_table, new_mem_table, map_limit, store_entry, apply_internal, write_stall,
}
use sisyphus_db.Store.Lookup.{
  IsTable, IsTable-IsReadable, size_of, found_of, with_entry, put_fits, with_entry-same,
  with_entry-other, with_entry-IsTable,
}

-- The part of `Get` behind the active table.
abbrev pub or_frozen :
    Outcome ArenaError Found → Outcome ArenaError Found → Outcome ArenaError Found
or_frozen (ok missing) f = f
or_frozen (ok tombstone) f = ok tombstone
or_frozen (ok (value v)) f = ok (value v)
or_frozen (err e) f = err e
or_frozen panic f = panic

pub get_memory-parts :
    (s : Store) (k : Bytes) (c : Outcome ArenaError Found)
    → check_table s.active k ≡ c
    → get_memory s k ≡ or_frozen c (check_frozen s.frozen k)
unfolding get_memory
get_memory-parts s k (ok missing) e = rw (e, get_memory) refl
get_memory-parts s k (ok tombstone) e = rw (e, get_memory) refl
get_memory-parts s k (ok (value v)) e = rw (e, get_memory) refl
get_memory-parts s k (err x) e = rw (e, get_memory) refl
get_memory-parts s k panic e = rw (e, get_memory) refl

pub or_frozen-missing : (c : Outcome ArenaError Found) → or_frozen c (ok missing) ≡ c
or_frozen-missing (ok missing) = refl
or_frozen-missing (ok tombstone) = refl
or_frozen-missing (ok (value v)) = refl
or_frozen-missing (err x) = refl
or_frozen-missing panic = refl

or_frozen-found :
    (v : Bytes) (d : Bool) (f : Outcome ArenaError Found)
    → or_frozen (ok (found_of v d)) f ≡ ok (found_of v d)
or_frozen-found v true f = refl
or_frozen-found v false f = refl

pub new_mem_table-IsTable : (w : Wal) (n : ℕ) → IsTable (new_mem_table map_limit w n)
unfolding new_mem_table new_arena lookup
new_mem_table-IsTable w n = record {
  arena = record { at_end = refl; fits = omega arith };
  cap = refl;
  counted = omega arith;
  limited = omega arith;
  distinct = tt;
  stored = λ k o e. absurd (cc);
}

check_table-new :
    (w : Wal) (n : ℕ) (k : Bytes) → check_table (new_mem_table map_limit w n) k ≡ ok missing
unfolding check_table new_mem_table lookup
check_table-new w n k = refl

-- A rotation loses no key: what the active table had is in the frozen one.
get_memory-rotate_table :
    (s : Store) (k : Bytes) → s.frozen ≡ none → get_memory (rotate_table s) k ≡ get_memory s k
unfolding rotate_table check_frozen
get_memory-rotate_table s k e =
    get_memory-parts (rotate_table s) k (ok missing) (check_table-new _ _ k)
    ∙ sym (
        get_memory-parts s k (check_table s.active k) refl
        ∙ ap (λ f. or_frozen (check_table s.active k) (check_frozen f k)) e
        ∙ or_frozen-missing (check_table s.active k))

-- What a command that was applied leaves.
pub record Applied (key val : Bytes) (is_delete : Bool) (s s' : Store) : Type 0 where
  pub reads : get_memory s' key ≡ ok (found_of val is_delete)
  pub keeps : (k : Bytes) → bytes_eq key k ≡ false → get_memory s' k ≡ get_memory s k
  pub table : IsTable s'.active

store_entry-Applied :
    (key val : Bytes) (is_delete : Bool) (s : Store)
    → IsTable s.active
    → length key < 2 ^ 16
    → s.active.size + size_of key val ≤ map_limit
    → (s' : Store) × (store_entry key val is_delete s ≡ (none, s')) × Applied key val is_delete s s'
unfolding store_entry
store_entry-Applied key val is_delete s h short room =
    let (offset, a', e) = put_fits s.active key val is_delete h room in
    let readable = IsTable-IsReadable s.active h in
    let s' : Store = record s { active = with_entry s.active key val offset a' } in
    (
      s',
      rw (e, store_entry) refl,
      record {
        reads =
            get_memory-parts s' key (ok (found_of val is_delete))
              (with_entry-same s.active key val is_delete offset a' readable e short (omega arith))
            ∙ or_frozen-found val is_delete (check_frozen s.frozen key);
        keeps = λ k ne.
            get_memory-parts s' k (check_table s.active k) (
              with_entry-other s.active key val is_delete offset a' readable e short (omega arith) k
                ne)
            ∙ sym (get_memory-parts s k (check_table s.active k) refl);
        table = with_entry-IsTable s.active key val is_delete offset a' h e short room;
      },
    )

-- The active table is full and the one before it is not on disk yet.
pub record Stalled (key val : Bytes) (s : Store) : Type 0 where
  pub full : map_limit < s.active.size + size_of key val
  pub flushing : (table : MemTable) × (s.frozen ≡ some table)

apply_internal-Stalled :
    (key val : Bytes) (is_delete : Bool) (s : Store)
    → Stalled key val s
    → apply_internal key val is_delete s ≡ (some write_stall, s)
unfolding apply_internal
apply_internal-Stalled key val is_delete s h =
    simp (lt→ltb map_limit (s.active.size + size_of key val) h.full, h.flushing.1) refl

apply_internal-room :
    (key val : Bytes) (is_delete : Bool) (s : Store)
    → s.active.size + size_of key val ≤ map_limit
    → apply_internal key val is_delete s ≡ store_entry key val is_delete s
unfolding apply_internal
apply_internal-room key val is_delete s h =
    rw (le→not_ltb map_limit (s.active.size + size_of key val) h, apply_internal) refl

apply_internal-rotates :
    (key val : Bytes) (is_delete : Bool) (s : Store)
    → map_limit < s.active.size + size_of key val
    → s.frozen ≡ none
    → apply_internal key val is_delete s ≡ store_entry key val is_delete (rotate_table s)
unfolding apply_internal
apply_internal-rotates key val is_delete s h e =
    simp (lt→ltb map_limit (s.active.size + size_of key val) h, e) refl

rotate_table-IsTable : (s : Store) → IsTable (rotate_table s).active
unfolding rotate_table
rotate_table-IsTable s = new_mem_table-IsTable _ _

rotate_table-size : (s : Store) → (rotate_table s).active.size ≡ 0
unfolding rotate_table new_mem_table
rotate_table-size s = refl

rotated-Applied :
    (key val : Bytes) (is_delete : Bool) (s s' : Store)
    → s.frozen ≡ none
    → Applied key val is_delete (rotate_table s) s'
    → Applied key val is_delete s s'
rotated-Applied key val is_delete s s' e done = record {
  reads = done.reads;
  keeps = λ k ne. done.keeps k ne ∙ get_memory-rotate_table s k e;
  table = done.table;
}

-- A command with a key below 64 KB that fits an empty table, on a valid active table: either the table is
-- full while the one before it is flushed, and the command is refused without a trace; or the command
-- succeeds, also through a rotation: the key reads as it was put or deleted, every other key reads as
-- before, and the active table is valid.
pub apply_internal_cases :
    (key val : Bytes) (is_delete : Bool) (s : Store)
    → IsTable s.active
    → length key < 2 ^ 16
    → size_of key val ≤ map_limit
    → (Stalled key val s × (apply_internal key val is_delete s ≡ (some write_stall, s)))
      ⊎ ((s' : Store) × (apply_internal key val is_delete s ≡ (none, s'))
          × Applied key val is_delete s s')
apply_internal_cases key val is_delete s h short fits =
    elim (Bool-cases (ltb map_limit (s.active.size + size_of key val))) [
      | inr room ↦
          let le = not_ltb→le map_limit (s.active.size + size_of key val) room in
          let (s', e, done) = store_entry-Applied key val is_delete s h short le in
          inr (s', apply_internal-room key val is_delete s le ∙ e, done)
      | inl full ↦
          let over = ltb→lt map_limit (s.active.size + size_of key val) full in
          elim (Option-cases s.frozen) [
            | inr (table, e) ↦
                let stalled : Stalled key val s = record { full = over; flushing = (table, e) } in
                inl (stalled, apply_internal-Stalled key val is_delete s stalled)
            | inl e ↦
                let (s', e', done) =
                  store_entry-Applied key val is_delete (rotate_table s) (rotate_table-IsTable s)
                    short (omega (arith, rotate_table-size s)) in
                inr (
                  s',
                  apply_internal-rotates key val is_delete s over e ∙ e',
                  rotated-Applied key val is_delete s s' e done,
                )
          ]
    ]
