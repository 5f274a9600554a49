-- ===== src/Store/Items.antt =====
-- The entries that `CreateSSTable` reads out of a table in memory.
use sisyphus_db.Prelude.{
  ℕ, ◌^◌, ◌≤◌, ◌<◌, ◌≡◌, refl, sym, ap₂, arith, Bool, true, false, List, [], ◌∷◌, map, All, Bytes,
  some, length, if◌then◌else◌, inl, inr,
}
use sisyphus_db.Prelude.{ok, tombstone, value, bytes_lt}
use mathlib.Core.Path.{subst}
use sisyphus_db.Arena.{get, entry_size}
use sisyphus_db.Arena.RoundTrip.{get-StoredAt, StoredAt-inside}
use sisyphus_db.Sstable.Items.{Item, FitsItem, IsSorted, In, found_item}
use sisyphus_db.Store.{MemTable, lookup, check_table, check_entry}
use sisyphus_db.Store.Lookup.{IsTable}
use sisyphus_db.Store.Disk.{table_item, table_items}
use sisyphus_db.Store.Keys.{Ascending, MemKey, Stored}

-- An entry that fits its fields, and says of its key what the table says.
abbrev pub Agrees : MemTable → Item → Type 0
Agrees t e = FitsItem e × (check_table t e.key ≡ ok (found_item e))

found_entry :
    (val : Bytes) (d : Bool)
    → check_entry (ok (if d then ([], true) else (val, false)))
      ≡ ok (if d then tombstone else value (if d then [] else val))
unfolding check_entry
found_entry val true = refl
found_entry val false = refl

abbrev stored_item : Bytes → Bytes → Bool → Item
stored_item key val d = record { key = key; value = if d then [] else val; is_tombstone = d }

fits_stored :
    (key val : Bytes) (d : Bool)
    → length key < 2 ^ 16
    → (if d then 0 else length val) ≤ 2 ^ 30
    → FitsItem (stored_item key val d)
fits_stored key val true hk hv = (hk, omega arith, refl)
fits_stored key val false hk hv = (hk, hv, refl)

table_item-stored :
    (t : MemTable) (key val : Bytes) (d : Bool) (offset : ℕ)
    → lookup key t.index ≡ some offset
    → get t.arena offset ≡ ok (if d then ([], true) else (val, false))
    → (table_item t key ≡ ok (stored_item key val d))
      × (check_table t key ≡ ok (found_item (stored_item key val d)))
unfolding table_item check_table check_entry
table_item-stored t key val true offset e g =
    (rw (e, g, table_item) refl, rw (e, g, check_table) refl)
table_item-stored t key val false offset e g =
    (rw (e, g, table_item) refl, rw (e, g, check_table) refl)

table_item-Agrees :
    (t : MemTable) (key : Bytes)
    → IsTable t
    → Stored t.index key
    → (e : Item) × (table_item t key ≡ ok e) × (e.key ≡ key) × Agrees t e
unfolding entry_size
table_item-Agrees t key h (offset, found) =
    let (val, d, s) = h.stored key offset found in
    let (item, check) =
      table_item-stored t key val d offset found
        (get-StoredAt t.arena offset key val d h.arena s) in
    (
      stored_item key val d,
      item,
      refl,
      (
        fits_stored key val d s.short_key (
            ground (
              arith,
              StoredAt-inside t.arena offset key val d s,
              h.arena.at_end,
              h.arena.fits,
              h.cap,
            )),
        check,
      ),
    )

abbrev pub keys_of_items : List Item → List Bytes
keys_of_items es = map (λ e. e.key) es

pub table_items-Agrees :
    (t : MemTable) (keys : List Bytes)
    → IsTable t
    → All (Stored t.index) keys
    → (es : List Item) × (table_items t keys ≡ ok es)
      × (keys_of_items es ≡ keys)
      × All (Agrees t) es
unfolding table_items
table_items-Agrees t [] h stored = ([], refl, refl, tt)
table_items-Agrees t (key ∷ keys) h stored =
    let (e, item, same, agrees) = table_item-Agrees t key h stored.0 in
    let (es, items, sames, all) = table_items-Agrees t keys h stored.1 in
    (e ∷ es, rw (item, items, table_items) refl, ap₂ ◌∷◌ same sames, (agrees, all))

pub Agrees-FitsItem : (t : MemTable) (es : List Item) → All (Agrees t) es → All FitsItem es
Agrees-FitsItem t [] h = tt
Agrees-FitsItem t (e ∷ es) h = (h.0.0, Agrees-FitsItem t es h.1)

All-keys : (P : Bytes → Type 0) (es : List Item) → All P (keys_of_items es) → All (λ e. P e.key) es
All-keys P [] h = tt
All-keys P (e ∷ es) h = (h.0, All-keys P es h.1)

Ascending-IsSorted : (es : List Item) → Ascending (keys_of_items es) → IsSorted es
Ascending-IsSorted [] h = tt
Ascending-IsSorted (e ∷ es) h =
    (All-keys (λ x. bytes_lt e.key x ≡ true) es h.0, Ascending-IsSorted es h.1)

pub IsSorted-of_keys :
    (es : List Item) (keys : List Bytes) → keys_of_items es ≡ keys → Ascending keys → IsSorted es
IsSorted-of_keys es keys e h = Ascending-IsSorted es (subst Ascending (sym e) h)

MemKey-In :
    (key : Bytes) (es : List Item)
    → MemKey key (keys_of_items es)
    → (e : Item) × In e es × (e.key ≡ key)
MemKey-In key [] here = absurd here
MemKey-In key (e ∷ es) (inl same) = (e, inl refl, sym same)
MemKey-In key (e ∷ es) (inr later) =
    let (x, there, same) = MemKey-In key es later in (x, inr there, same)

pub In-of_keys :
    (key : Bytes) (es : List Item) (keys : List Bytes)
    → keys_of_items es ≡ keys
    → MemKey key keys
    → (e : Item) × In e es × (e.key ≡ key)
In-of_keys key es keys q here = MemKey-In key es (subst (MemKey key) (sym q) here)

pub All-of_keys :
    (P : Bytes → Type 0) (es : List Item) (keys : List Bytes)
    → keys_of_items es ≡ keys
    → All P keys
    → All (λ e. P e.key) es
All-of_keys P es keys q h = All-keys P es (subst (All P) (sym q) h)
