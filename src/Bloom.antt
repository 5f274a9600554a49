-- ===== src/Bloom.antt =====
-- pkg/bloom/bloom.go: the filter of a table. `sum64` is murmur3.Sum64.
pub mod Bounds
pub mod Members
pub mod Keys
mod Examples
use Prim.Native.Nat.{bit_or, bit_and}
use sisyphus_db.Prelude.{
  ℕ, zero, suc, ◌+◌, ◌*◌, ◌/◌, ◌%◌, ◌^◌, Bool, true, false, Option, none, some, List, [], ◌∷◌,
}
use sisyphus_db.Prelude.{ltb, ◌==◌, if◌then◌else◌, length, replicate, get_elem?, Bytes}

pub record BloomFilter : Type 0 where
  pub bitset : Bytes
  pub k : ℕ
  pub m : ℕ

unfoldable pub new_filter : ℕ → BloomFilter
new_filter n =
    let count = if ltb n 1 then 1 else n in
    let bytes_needed = (count * 10 + 7) / 8 in
    record { bitset = replicate bytes_needed 0; k = 7; m = bytes_needed * 8 }

-- `bitset[i] |= b`, a fault behind the end.
unfoldable pub or_at : ℕ → ℕ → Bytes → Option Bytes
or_at i b [] = none
or_at zero b (x ∷ xs) = some (bit_or x b ∷ xs)
or_at (suc i) b (x ∷ xs) =
    let rest = or_at i b xs in elim rest [ none ↦ none | some ys ↦ some (x ∷ ys) ]

-- The position of the bit of round `i`, in `uint32`.
unfoldable pub bit_pos : ℕ → ℕ → ℕ → ℕ
bit_pos h64 i m = ((h64 % 2 ^ 32 + i * (h64 / 2 ^ 32)) % 2 ^ 32) % m

-- `n` rounds are left, from `i` on.
unfoldable pub add_bits : ℕ → ℕ → ℕ → ℕ → Bytes → Option Bytes
add_bits zero i h64 m bits = some bits
add_bits (suc n) i h64 m bits =
    elim (or_at (bit_pos h64 i m / 8) (2 ^ (bit_pos h64 i m % 8)) bits) [
      | none ↦ none
      | some bits' ↦ add_bits n (i + 1) h64 m bits'
    ]

unfoldable pub test_bits : ℕ → ℕ → ℕ → ℕ → Bytes → Option Bool
test_bits zero i h64 m bits = some true
test_bits (suc n) i h64 m bits = elim (get_elem? bits (bit_pos h64 i m / 8)) [
  | none ↦ none
  | some x ↦
      let rest = test_bits n (i + 1) h64 m bits in
      if bit_and x (2 ^ (bit_pos h64 i m % 8)) == 0 then some false else rest
]

module _ (sum64 : Bytes → ℕ) where
  -- `none` is the fault of a filter of no bits.
  unfoldable pub add : Bytes → BloomFilter → Option BloomFilter
  add key bf = if bf.m == 0 then none else elim (add_bits bf.k 0 (sum64 key) bf.m bf.bitset) [
    | none ↦ none
    | some bits ↦ some (record bf { bitset = bits })
  ]

  unfoldable pub maybe_contains : Bytes → BloomFilter → Option Bool
  maybe_contains key bf = if bf.m == 0 then none else test_bits bf.k 0 (sum64 key) bf.m bf.bitset

unfoldable pub load : Bytes → BloomFilter
load bytes = record { bitset = bytes; k = 7; m = length bytes * 8 }
