-- ===== src/Sstable/Reader/Search.antt =====
-- What `sort.Search` returns, whether or not the test is monotone.
use sisyphus_db.Prelude.{
  ℕ, zero, suc, ◌+◌, ◌-◌, ◌/◌, ◌<◌, ◌≤◌, ◌≡◌, sym, ap, ◌∙◌, arith, Bool, true, false, Bool-cases,
  inl, inr, ltb, ltb→lt, not_ltb→le,
}
use sisyphus_db.Sstable.Reader.{search_index}

-- The test fails just below the result and holds at it.
pub record Boundary (f : ℕ → Bool) (n r : ℕ) : Type 0 where
  pub bound : r ≤ n
  pub below : 0 < r → f (r - 1) ≡ false
  pub above : r < n → f r ≡ true

pub search_index-Boundary :
    (fuel i j n : ℕ) (f : ℕ → Bool)
    → j ≤ i + fuel
    → i ≤ j
    → j ≤ n
    → (0 < i → f (i - 1) ≡ false)
    → (j < n → f j ≡ true)
    → Boundary f n (search_index fuel i j f)
unfolding search_index
search_index-Boundary zero i j n f h hij hjn low high =
    let e : j ≡ i = omega arith in
    record { bound = omega arith; below = low; above = λ l. ap f (sym e) ∙ high (omega arith) }
search_index-Boundary (suc fuel) i j n f h hij hjn low high = elim (Bool-cases (ltb i j)) [
  | inr stop ↦
      let e : j ≡ i = omega (arith, not_ltb→le i j stop) in
      rw (stop, search_index)
        (record {
          bound = omega arith;
          below = low;
          above = λ l. ap f (sym e) ∙ high (omega arith);
        })
  | inl more ↦
      let m = (i + j) / 2 in
      let lt = ltb→lt i j more in
      elim (Bool-cases (f m)) [
        | inl up ↦
            rw (more, up, search_index)
              (search_index-Boundary fuel i m n f (omega arith) (omega arith) (omega arith) low
                (λ l. up))
        | inr down ↦
            let e : m + 1 - 1 ≡ m = omega arith in
            rw (more, down, search_index)
              (search_index-Boundary fuel (m + 1) j n f (omega arith) (omega arith) hjn
                (λ l. ap f e ∙ down) high)
      ]
]
