-- ===== src/Bloom/Examples.antt =====
-- The theorem on filters at a concrete input.
use sisyphus_db.Prelude.{ℕ, ◌≡◌, true, some, [], ◌∷◌, Bytes, length}
use sisyphus_db.Bloom.{BloomFilter, new_filter, maybe_contains, load}
use sisyphus_db.Bloom.Keys.{add_keys, maybe_contains-add_keys}

-- A hash, the length of the key.
abbrev hash : Bytes → ℕ
hash key = length key

maybe_contains-add_keys_example :
    (bf : BloomFilter) × (add_keys hash ((97 ∷ []) ∷ (1 ∷ 2 ∷ []) ∷ []) (new_filter 2) ≡ some bf)
    × (maybe_contains hash (1 ∷ 2 ∷ []) (load bf.bitset) ≡ some true)
maybe_contains-add_keys_example = maybe_contains-add_keys hash ((97 ∷ []) ∷ []) (1 ∷ 2 ∷ []) [] 2
