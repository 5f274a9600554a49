-- ===== src/Prelude/Order.antt =====
-- Go's `<` on strings: byte by byte, and a proper prefix comes first.
use sisyphus_db.Prelude.Tests.{ltb, ◌==◌, if◌then◌else◌, bytes_eq}
use Prim.Native.Nat.{ℕ}
use mathlib.Core.Path.{◌≡◌, refl}
use mathlib.Core.Bool.{Bool, true, false}
use mathlib.Core.List.{List, [], ◌∷◌}
use native.Mathlib.Omega.{arith}

unfoldable pub bytes_lt : List ℕ → List ℕ → Bool
bytes_lt xs [] = false
bytes_lt [] (y ∷ ys) = true
bytes_lt (x ∷ xs) (y ∷ ys) =
    let rest = bytes_lt xs ys in if ltb x y then true else if x == y then rest else false

pub bytes_lt_irrefl : (xs : List ℕ) → bytes_lt xs xs ≡ false
unfolding bytes_lt
bytes_lt_irrefl [] = refl
bytes_lt_irrefl (x ∷ xs) = ground (arith, bytes_lt_irrefl xs)

pub bytes_lt_trans :
    (xs ys zs : List ℕ) → bytes_lt xs ys ≡ true → bytes_lt ys zs ≡ true → bytes_lt xs zs ≡ true
unfolding bytes_lt
bytes_lt_trans xs [] zs h k = cc
bytes_lt_trans xs (y ∷ ys) [] h k = cc
bytes_lt_trans [] (y ∷ ys) (z ∷ zs) h k = refl
bytes_lt_trans (x ∷ xs) (y ∷ ys) (z ∷ zs) h k = ground (arith, bytes_lt_trans xs ys zs)

pub bytes_lt_asymm : (xs ys : List ℕ) → bytes_lt xs ys ≡ true → bytes_lt ys xs ≡ false
unfolding bytes_lt
bytes_lt_asymm xs [] h = cc
bytes_lt_asymm [] (y ∷ ys) h = refl
bytes_lt_asymm (x ∷ xs) (y ∷ ys) h = ground (arith, bytes_lt_asymm xs ys)

-- Of two different strings one comes first.
pub bytes_lt_total :
    (xs ys : List ℕ) → bytes_lt xs ys ≡ false → bytes_eq xs ys ≡ false → bytes_lt ys xs ≡ true
unfolding bytes_lt bytes_eq
bytes_lt_total [] [] h k = cc
bytes_lt_total [] (y ∷ ys) h k = cc
bytes_lt_total (x ∷ xs) [] h k = refl
bytes_lt_total (x ∷ xs) (y ∷ ys) h k = ground (arith, bytes_lt_total xs ys)

pub bytes_lt-not_eq : (xs ys : List ℕ) → bytes_lt xs ys ≡ true → bytes_eq xs ys ≡ false
unfolding bytes_lt bytes_eq
bytes_lt-not_eq xs [] h = cc
bytes_lt-not_eq [] (y ∷ ys) h = refl
bytes_lt-not_eq (x ∷ xs) (y ∷ ys) h = ground (arith, bytes_lt-not_eq xs ys)

-- Neither before nor equal: behind.
pub bytes_lt_trans_le :
    (xs ys zs : List ℕ) → bytes_lt ys xs ≡ false → bytes_lt ys zs ≡ true → bytes_lt xs zs ≡ true
unfolding bytes_lt
bytes_lt_trans_le xs ys [] h k = cc
bytes_lt_trans_le [] ys (z ∷ zs) h k = refl
bytes_lt_trans_le (x ∷ xs) [] (z ∷ zs) h k = cc
bytes_lt_trans_le (x ∷ xs) (y ∷ ys) (z ∷ zs) h k = ground (arith, bytes_lt_trans_le xs ys zs)
