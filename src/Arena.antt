-- ===== src/Arena.antt =====
-- pkg/arena/arena.go: entries in one byte array of a fixed capacity.
pub mod RoundTrip
pub mod Sequence
mod Examples
use Prim.Native.Nat.{bit_and}
use sisyphus_db.Prelude.{
  ℕ, ◌+◌, ◌-◌, ◌<◌, ◌≤◌, Bool, true, false, List, [], ◌∷◌, ◌++◌, length, drop, get_elem?,
}
use sisyphus_db.Prelude.{
  none, some, ltb, leb, ◌==◌, if◌then◌else◌, Bytes, le_bytes, le_value, take_padded,
}
use sisyphus_db.Prelude.{Outcome, ok, err, panic, ◌>>=◌}

abbrev pub type_val : ℕ
type_val = 0x00

abbrev pub type_tombstone : ℕ
type_tombstone = 0x01

pub data ArenaError : Type 0 where
  arena_full offset_out_of_range : ArenaError

-- `bytes` is the slice `data`, and `cap` its capacity; behind `bytes` the array is zero.
pub record Arena : Type 0 where
  pub bytes : Bytes
  pub cap : ℕ
  pub offset : ℕ

unfoldable pub new_arena : ℕ → Arena
new_arena size = record { bytes = []; cap = size; offset = 0 }

unfoldable pub entry_size : Bytes → Bytes → Bool → ℕ
entry_size key val is_delete =
    if is_delete then 1 + 2 + 4 + length key else 1 + 2 + 4 + length key + length val

-- What `Put` appends: header(1), key length(2), value length(4), key, and the value if it is kept.
unfoldable pub encode_arena : Bytes → Bytes → Bool → Bytes
encode_arena key val is_delete =
    (if is_delete then type_tombstone else type_val)
    ∷ (le_bytes 2 (length key)
        ++ (le_bytes 4 (length val) ++ (key ++ (if is_delete then [] else val))))

-- The offset of the new entry, and the arena.
unfoldable pub put : Arena → Bytes → Bytes → Bool → Outcome ArenaError (ℕ × Arena)
put a key val is_delete =
    if ltb a.cap (a.offset + entry_size key val is_delete)
    then err arena_full
    else ok (
      a.offset,
      record a {
        bytes = a.bytes ++ encode_arena key val is_delete;
        offset = a.offset + entry_size key val is_delete;
      },
    )

-- `a.data[lo:hi]` is bounded by the capacity.
unfoldable pub slice : Arena → ℕ → ℕ → Outcome ArenaError Bytes
slice a lo hi = if leb hi a.cap then ok (take_padded (hi - lo) (drop lo a.bytes)) else panic

unfoldable pub get_value : Arena → ℕ → Outcome ArenaError (Bytes × Bool)
get_value a cursor = do
  key_len ← slice a cursor (cursor + 2)
  val_len ← slice a (cursor + 2) (cursor + 6)
  val ← slice a (cursor + 6 + le_value key_len) (cursor + 6 + le_value key_len + le_value val_len)
  ok (val, false)

-- The value, and whether the entry is a tombstone.
unfoldable pub get : Arena → ℕ → Outcome ArenaError (Bytes × Bool)
get a offset = elim (get_elem? a.bytes offset) [
  | none ↦ err offset_out_of_range
  | some header ↦
      if bit_and header type_tombstone == 0 then get_value a (offset + 1) else ok ([], true)
]
