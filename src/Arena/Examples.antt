-- ===== src/Arena/Examples.antt =====
-- The theorems on the arena at concrete inputs.
use sisyphus_db.Prelude.{List, ◌≡◌, refl, arith, true, false, ok, Bytes, le_bytes, [], ◌∷◌}
use sisyphus_db.Arena.{Arena, new_arena, put, entry_size, encode_arena}
use sisyphus_db.Arena.Sequence.{Call, put_all, ReadBack, get-put_all}

abbrev key_a : Bytes
key_a = 97 ∷ []

abbrev val_a : Bytes
val_a = 1 ∷ 2 ∷ []

-- An arena with an entry and its tombstone.
abbrev two_entries : Arena
two_entries = record {
  bytes = 0 ∷ 1 ∷ 0 ∷ 2 ∷ 0 ∷ 0 ∷ 0 ∷ 97 ∷ 1 ∷ 2 ∷ 1 ∷ 1 ∷ 0 ∷ 0 ∷ 0 ∷ 0 ∷ 0 ∷ 97 ∷ [];
  cap = 64;
  offset = 18;
}

abbrev calls : List Call
calls =
    record { key = key_a; val = val_a; is_delete = false }
    ∷ (record { key = key_a; val = []; is_delete = true } ∷ [])

calls_fit : put_all calls (new_arena 64) ≡ ok (0 ∷ (10 ∷ []), two_entries)
unfolding put new_arena entry_size encode_arena le_bytes
calls_fit = refl

get-put_all_example : ReadBack two_entries calls (0 ∷ (10 ∷ []))
get-put_all_example =
    get-put_all 64 calls (0 ∷ (10 ∷ [])) two_entries
      ((omega arith, omega arith), ((omega arith, omega arith), tt)) calls_fit
