-- ===== src/Bloom/Members.antt =====
-- The bits that `Add` sets, and those that it keeps. The facts on a byte are checked for every byte.
use Prim.Native.Nat.{bit_or, bit_and}
use sisyphus_db.Prelude.{
  ℕ, zero, suc, ◌+◌, ◌/◌, ◌%◌, ◌^◌, ◌<◌, ◌≡◌, refl, sym, ap, ◌∙◌, arith, Bool, true, false, some,
  [], ◌∷◌,
}
use sisyphus_db.Prelude.{
  get_elem?, Bytes, IsByte, All, ltb, ltb→lt, ◌==◌, if◌then◌else◌, Option-cases, Bool-cases, inl,
  inr,
}
use sisyphus_db.Bloom.{or_at, bit_pos, add_bits, test_bits}

all_below : ℕ → (ℕ → Bool) → Bool
all_below zero p = true
all_below (suc n) p = let rest = all_below n p in if p n then rest else false

all_below-at : (n : ℕ) (p : ℕ → Bool) → all_below n p ≡ true → (i : ℕ) → i < n → p i ≡ true
unfolding all_below
all_below-at zero p h i l = absurd (omega arith)
all_below-at (suc n) p h i l = elim (Bool-cases (p n)) [
  | inr none_here ↦ absurd (ground arith)
  | inl here ↦ elim (Bool-cases (ltb i n)) [
    | inl below ↦ all_below-at n p (ground arith) i (ltb→lt i n below)
    | inr at ↦ (let e : i ≡ n = ground arith in ap p e ∙ here)
  ]
]

-- A bit of a byte is set.
abbrev bit_set : ℕ → ℕ → Bool
bit_set x j = if bit_and x (2 ^ j) == 0 then false else true

new_bit : (x : ℕ) → x < 256 → (j : ℕ) → j < 8 → bit_set (bit_or x (2 ^ j)) j ≡ true
unfolding all_below
new_bit x hx j hj =
    all_below-at 8 (λ j. bit_set (bit_or x (2 ^ j)) j)
      (all_below-at 256 (λ x. all_below 8 (λ j. bit_set (bit_or x (2 ^ j)) j)) refl x hx) j hj

still_byte : (x : ℕ) → x < 256 → (j : ℕ) → j < 8 → bit_or x (2 ^ j) < 256
unfolding all_below
still_byte x hx j hj = ltb→lt (bit_or x (2 ^ j)) 256 (
    all_below-at 8 (λ j. ltb (bit_or x (2 ^ j)) 256)
      (all_below-at 256 (λ x. all_below 8 (λ j. ltb (bit_or x (2 ^ j)) 256)) refl x hx) j hj)

abbrev keeps_bit : ℕ → ℕ → ℕ → Bool
keeps_bit x j i = if bit_set x i then bit_set (bit_or x (2 ^ j)) i else true

old_bit :
    (x : ℕ)
    → x < 256
    → (j : ℕ) → j < 8
    → (i : ℕ) → i < 8
    → bit_set x i ≡ true
    → bit_set (bit_or x (2 ^ j)) i ≡ true
unfolding all_below
old_bit x hx j hj i hi h =
    let table : keeps_bit x j i ≡ true =
      all_below-at 8 (λ i. keeps_bit x j i)
        (all_below-at 8 (λ j. all_below 8 (λ i. keeps_bit x j i))
          (all_below-at 256 (λ x. all_below 8 (λ j. all_below 8 (λ i. keeps_bit x j i))) refl x hx)
          j hj)
        i hi in
    sym (ap (λ b. if b then bit_set (bit_or x (2 ^ j)) i else true) h) ∙ table

-- The bit `j` of byte `i` is set.
pub record Has (bits : Bytes) (i j : ℕ) : Type 0 where
  byte : ℕ
  at : get_elem? bits i ≡ some byte
  set : bit_set byte j ≡ true

or_at-suc :
    (i b x : ℕ) (xs ys : Bytes)
    → or_at (suc i) b (x ∷ xs) ≡ some ys
    → (zs : Bytes) × (or_at i b xs ≡ some zs) × (ys ≡ x ∷ zs)
unfolding or_at
or_at-suc i b x xs ys e = elim (Option-cases (or_at i b xs)) [
  | inl n ↦ absurd (ground arith)
  | inr (zs, f) ↦ (zs, f, ground arith)
]

or_at-All :
    (i j : ℕ) (bits ys : Bytes)
    → j < 8
    → All IsByte bits
    → or_at i (2 ^ j) bits ≡ some ys
    → All IsByte ys
unfolding or_at
or_at-All i j [] ys hj h e = absurd (cc)
or_at-All zero j (x ∷ xs) ys hj h e =
    let f : bit_or x (2 ^ j) ∷ xs ≡ ys = cc in rw (sym f) (still_byte x h.0 j hj, h.1)
or_at-All (suc i) j (x ∷ xs) ys hj h e =
    let (zs, f, g) = or_at-suc i (2 ^ j) x xs ys e in rw g (h.0, or_at-All i j xs zs hj h.1 f)

or_at-new :
    (i j : ℕ) (bits ys : Bytes)
    → j < 8
    → All IsByte bits
    → or_at i (2 ^ j) bits ≡ some ys
    → Has ys i j
unfolding or_at
or_at-new i j [] ys hj h e = absurd (cc)
or_at-new zero j (x ∷ xs) ys hj h e =
    let f : bit_or x (2 ^ j) ∷ xs ≡ ys = cc in
    rw (sym f) (record { byte = bit_or x (2 ^ j); at = refl; set = new_bit x h.0 j hj })
or_at-new (suc i) j (x ∷ xs) ys hj h e =
    let (zs, f, g) = or_at-suc i (2 ^ j) x xs ys e in
    let has = or_at-new i j xs zs hj h.1 f in
    rw g (record { byte = has.byte; at = has.at; set = has.set })

or_at-kept :
    (i j k l : ℕ) (bits ys : Bytes)
    → j < 8
    → l < 8
    → All IsByte bits
    → or_at i (2 ^ j) bits ≡ some ys
    → Has bits k l
    → Has ys k l
unfolding or_at
or_at-kept i j k l [] ys hj hl h e has = absurd (cc)
or_at-kept zero j zero l (x ∷ xs) ys hj hl h e has =
    let f : bit_or x (2 ^ j) ∷ xs ≡ ys = cc in
    let same : x ≡ has.byte = (let a = has.at in cc) in
    rw (sym f) (record {
      byte = bit_or x (2 ^ j);
      at = refl;
      set = old_bit x h.0 j hj l hl (ap (λ b. bit_set b l) same ∙ has.set);
    })
or_at-kept zero j (suc k) l (x ∷ xs) ys hj hl h e has =
    let f : bit_or x (2 ^ j) ∷ xs ≡ ys = cc in
    rw (sym f) (record { byte = has.byte; at = has.at; set = has.set })
or_at-kept (suc i) j zero l (x ∷ xs) ys hj hl h e has =
    let (zs, f, g) = or_at-suc i (2 ^ j) x xs ys e in
    rw g (record { byte = has.byte; at = has.at; set = has.set })
or_at-kept (suc i) j (suc k) l (x ∷ xs) ys hj hl h e has =
    let (zs, f, g) = or_at-suc i (2 ^ j) x xs ys e in
    let has' =
      or_at-kept i j k l xs zs hj hl h.1 f
        (record { byte = has.byte; at = has.at; set = has.set }) in
    rw g (record { byte = has'.byte; at = has'.at; set = has'.set })

-- The bits of the rounds from `i` on are set.
unfoldable pub AllHas : ℕ → ℕ → ℕ → ℕ → Bytes → Type 0
AllHas zero i h64 m bits = Unit
AllHas (suc n) i h64 m bits =
    Has bits (bit_pos h64 i m / 8) (bit_pos h64 i m % 8) × AllHas n (i + 1) h64 m bits

pub test_bits-AllHas :
    (n i h64 m : ℕ) (bits : Bytes) → AllHas n i h64 m bits → test_bits n i h64 m bits ≡ some true
unfolding test_bits AllHas
test_bits-AllHas zero i h64 m bits h = refl
test_bits-AllHas (suc n) i h64 m bits (has, rest) =
    rw (has.at, test_bits) (ground (arith, has.set, test_bits-AllHas n (i + 1) h64 m bits rest))

pub AllHas-test_bits :
    (n i h64 m : ℕ) (bits : Bytes) → test_bits n i h64 m bits ≡ some true → AllHas n i h64 m bits
unfolding test_bits AllHas
AllHas-test_bits zero i h64 m bits h = tt
AllHas-test_bits (suc n) i h64 m bits h =
    let p = bit_pos h64 i m in
    elim (Option-cases (get_elem? bits (p / 8))) [
      | inl e ↦ absurd (ground arith)
      | inr (x, e) ↦ (
        record { byte = x; at = e; set = ground arith },
        AllHas-test_bits n (i + 1) h64 m bits (ground arith),
      )
    ]

add_bits-suc :
    (n i h64 m : ℕ) (bits ys : Bytes)
    → add_bits (suc n) i h64 m bits ≡ some ys
    → (zs : Bytes) × (or_at (bit_pos h64 i m / 8) (2 ^ (bit_pos h64 i m % 8)) bits ≡ some zs)
      × (add_bits n (i + 1) h64 m zs ≡ some ys)
unfolding add_bits
add_bits-suc n i h64 m bits ys e =
    elim (Option-cases (or_at (bit_pos h64 i m / 8) (2 ^ (bit_pos h64 i m % 8)) bits)) [
      | inl f ↦ absurd (ground arith)
      | inr (zs, f) ↦ (zs, f, ground arith)
    ]

pub add_bits-All :
    (n i h64 m : ℕ) (bits ys : Bytes)
    → All IsByte bits
    → add_bits n i h64 m bits ≡ some ys
    → All IsByte ys
unfolding add_bits
add_bits-All zero i h64 m bits ys h e = let f : bits ≡ ys = cc in rw (sym f) h
add_bits-All (suc n) i h64 m bits ys h e =
    let (zs, f, g) = add_bits-suc n i h64 m bits ys e in
    add_bits-All n (i + 1) h64 m zs ys
      (or_at-All (bit_pos h64 i m / 8) (bit_pos h64 i m % 8) bits zs (omega arith) h f) g

add_bits-kept :
    (n i h64 m k l : ℕ) (bits ys : Bytes)
    → l < 8
    → All IsByte bits
    → add_bits n i h64 m bits ≡ some ys
    → Has bits k l
    → Has ys k l
unfolding add_bits
add_bits-kept zero i h64 m k l bits ys hl h e has = let f : bits ≡ ys = cc in rw (sym f) has
add_bits-kept (suc n) i h64 m k l bits ys hl h e has =
    let p = bit_pos h64 i m in
    let (zs, f, g) = add_bits-suc n i h64 m bits ys e in
    add_bits-kept n (i + 1) h64 m k l zs ys hl (or_at-All (p / 8) (p % 8) bits zs (omega arith) h f)
      g (or_at-kept (p / 8) (p % 8) k l bits zs (omega arith) hl h f has)

pub AllHas-kept :
    (n i h64 m n' i' h64' : ℕ) (bits ys : Bytes)
    → All IsByte bits
    → add_bits n i h64 m bits ≡ some ys
    → AllHas n' i' h64' m bits
    → AllHas n' i' h64' m ys
unfolding AllHas
AllHas-kept n i h64 m zero i' h64' bits ys h e all = tt
AllHas-kept n i h64 m (suc n') i' h64' bits ys h e (has, all) =
    let p = bit_pos h64' i' m in
    (
      add_bits-kept n i h64 m (p / 8) (p % 8) bits ys (omega arith) h e has,
      AllHas-kept n i h64 m n' (i' + 1) h64' bits ys h e all,
    )

pub add_bits-AllHas :
    (n i h64 m : ℕ) (bits ys : Bytes)
    → All IsByte bits
    → add_bits n i h64 m bits ≡ some ys
    → AllHas n i h64 m ys
unfolding AllHas
add_bits-AllHas zero i h64 m bits ys h e = tt
add_bits-AllHas (suc n) i h64 m bits ys h e =
    let p = bit_pos h64 i m in
    let (zs, f, g) = add_bits-suc n i h64 m bits ys e in
    let h' = or_at-All (p / 8) (p % 8) bits zs (omega arith) h f in
    (
      add_bits-kept n (i + 1) h64 m (p / 8) (p % 8) zs ys (omega arith) h' g
          (or_at-new (p / 8) (p % 8) bits zs (omega arith) h f),
      add_bits-AllHas n (i + 1) h64 m zs ys h' g,
    )
