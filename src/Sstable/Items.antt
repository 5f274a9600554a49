-- ===== src/Sstable/Items.antt =====
-- The entries of a table on disk, as a list.
use sisyphus_db.Prelude.{◌^◌, ◌<◌, ◌≤◌, ◌≡◌, ◌⊎◌, Bool, true, List, [], ◌∷◌, ◌++◌, length, Bytes}
use sisyphus_db.Prelude.{All, if◌then◌else◌, bytes_lt, Found, tombstone, value}
use sisyphus_db.Prelude.{inl, inr, sym}
use mathlib.Core.Path.{subst}
use sisyphus_db.Sstable.{encode_item, max_read}

-- An entry of a table.
pub record Item : Type 0 where
  pub key : Bytes
  pub value : Bytes
  pub is_tombstone : Bool

-- The key fits the field of its length, the value one `File.Read`, and a tombstone has no value.
abbrev pub FitsItem : Item → Type 0
FitsItem e =
    (length e.key < 2 ^ 16)
    × (length e.value ≤ max_read)
    × (e.value ≡ (if e.is_tombstone then [] else e.value))

abbrev pub encode_items : List Item → Bytes
encode_items [] = []
encode_items (e ∷ es) = encode_item e.key e.value e.is_tombstone ++ encode_items es

-- The keys ascend.
abbrev pub IsSorted : List Item → Type 0
IsSorted [] = Unit
IsSorted (e ∷ es) = All (λ x. bytes_lt e.key x.key ≡ true) es × IsSorted es

abbrev pub In : Item → List Item → Type 0
In e [] = ⊥
In e (x ∷ xs) = (e ≡ x) ⊎ In e xs

-- What a lookup of its key is to find.
abbrev pub found_item : Item → Found
found_item e = if e.is_tombstone then tombstone else value e.value

pub All-In : (P : Item → Type 0) (es : List Item) (e : Item) → All P es → In e es → P e
All-In P [] e h here = absurd here
All-In P (x ∷ es) e h (inl same) = subst P (sym same) h.0
All-In P (x ∷ es) e h (inr later) = All-In P es e h.1 later
