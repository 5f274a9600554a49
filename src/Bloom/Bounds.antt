-- ===== src/Bloom/Bounds.antt =====
-- The positions that a filter touches are inside its bits.
use sisyphus_db.Prelude.{
  ℕ, zero, suc, ◌+◌, ◌*◌, ◌/◌, ◌%◌, ◌^◌, ◌<◌, ◌≡◌, refl, sym, ap, ◌∙◌, arith, some, [], ◌∷◌,
}
use sisyphus_db.Prelude.{length, replicate, Bytes, ne→not_==, false, ◌==◌, if◌then◌else◌, ltb}
use native.Mathlib.Nat.{mod-lt}
use Prim.Native.Nat.{bit_and}
use sisyphus_db.Prelude.{Bool, true, Bool-cases, inl, inr, get_elem?-some}
use sisyphus_db.Bloom.{
  test_bits, maybe_contains, BloomFilter, new_filter, or_at, bit_pos, add_bits, add,
}

-- The number of bits is that of the bytes, and not 0.
pub record IsFilter (bf : BloomFilter) : Type 0 where
  pub bits : bf.m ≡ length bf.bitset * 8
  pub some_bits : 0 < bf.m

or_at-some :
    (i b : ℕ) (bits : Bytes)
    → i < length bits
    → (ys : Bytes) × (or_at i b bits ≡ some ys) × (length ys ≡ length bits)
unfolding or_at
or_at-some zero b [] h = absurd (omega arith)
or_at-some (suc i) b [] h = absurd (omega arith)
or_at-some zero b (x ∷ xs) h = (_, refl, refl)
or_at-some (suc i) b (x ∷ xs) h =
    let (ys, e, l) = or_at-some i b xs (omega arith) in (x ∷ ys, rw e refl, ap suc l)

bit_pos-lt : (h64 i m n : ℕ) → m ≡ n * 8 → 0 < m → bit_pos h64 i m / 8 < n
unfolding bit_pos
bit_pos-lt h64 i m n e h =
    div_lt (bit_pos h64 i m) n
      (omega (arith, mod-lt ((h64 % 2 ^ 32 + i * (h64 / 2 ^ 32)) % 2 ^ 32) h))
  where
    div_lt : (p n : ℕ) → p < n * 8 → p / 8 < n
    div_lt p n h = omega arith

add_bits-some :
    (n i h64 m : ℕ) (bits : Bytes)
    → m ≡ length bits * 8
    → 0 < m
    → (ys : Bytes) × (add_bits n i h64 m bits ≡ some ys) × (length ys ≡ length bits)
unfolding add_bits
add_bits-some zero i h64 m bits e h = (bits, refl, refl)
add_bits-some (suc n) i h64 m bits e h =
    let (ys, f, l) =
      or_at-some (bit_pos h64 i m / 8) (2 ^ (bit_pos h64 i m % 8)) bits
        (bit_pos-lt h64 i m (length bits) e h) in
    let (zs, g, l') = add_bits-some n (i + 1) h64 m ys (e ∙ ap (λ k. k * 8) (sym l)) h in
    (zs, rw (f, add_bits) g, l' ∙ l)

pub length-replicate : (n x : ℕ) → length (replicate n x) ≡ n
length-replicate zero x = refl
length-replicate (suc n) x = ap suc (length-replicate n x)

pub new_filter-IsFilter : (n : ℕ) → IsFilter (new_filter n)
unfolding new_filter
new_filter-IsFilter n =
    let count = if ltb n 1 then 1 else n in
    let some_count : 0 < count = ground arith in
    record {
      bits = ap (λ k. k * 8) (sym (length-replicate ((count * 10 + 7) / 8) 0));
      some_bits = omega arith;
    }

-- A key can be added to a filter, which stays one.
pub add-IsFilter :
    (sum64 : Bytes → ℕ) (key : Bytes) (bf : BloomFilter)
    → IsFilter bf
    → (bf' : BloomFilter) × (add sum64 key bf ≡ some bf') × IsFilter bf'
unfolding add
add-IsFilter sum64 key bf h =
    let (ys, e, l) = add_bits-some bf.k 0 (sum64 key) bf.m bf.bitset h.bits h.some_bits in
    let ne : (bf.m == 0) ≡ false = ne→not_== bf.m 0 (λ z. absurd (omega (arith, h.some_bits))) in
    (
      record bf { bitset = ys },
      simp (ne, e) refl,
      record { bits = h.bits ∙ ap (λ k. k * 8) (sym l); some_bits = h.some_bits },
    )

test_bits-some :
    (n i h64 m : ℕ) (bits : Bytes)
    → m ≡ length bits * 8
    → 0 < m
    → (r : Bool) × (test_bits n i h64 m bits ≡ some r)
unfolding test_bits
test_bits-some zero i h64 m bits e h = (true, refl)
test_bits-some (suc n) i h64 m bits e h =
    let (x, f) = get_elem?-some bits (bit_pos h64 i m / 8) (bit_pos-lt h64 i m (length bits) e h) in
    let (r, g) = test_bits-some n (i + 1) h64 m bits e h in
    elim (Bool-cases (bit_and x (2 ^ (bit_pos h64 i m % 8)) == 0)) [
      | inl clear ↦ (false, rw (f, clear, test_bits) refl)
      | inr set ↦ (r, rw (f, set, test_bits) g)
    ]

-- A filter answers for every key.
pub maybe_contains-some :
    (sum64 : Bytes → ℕ) (key : Bytes) (bf : BloomFilter)
    → IsFilter bf
    → (r : Bool) × (maybe_contains sum64 key bf ≡ some r)
unfolding maybe_contains
maybe_contains-some sum64 key bf h =
    let (r, e) = test_bits-some bf.k 0 (sum64 key) bf.m bf.bitset h.bits h.some_bits in
    let ne : (bf.m == 0) ≡ false = ne→not_== bf.m 0 (λ z. absurd (omega (arith, h.some_bits))) in
    (r, simp (ne, e) refl)
