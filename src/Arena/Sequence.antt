-- ===== src/Arena/Sequence.antt =====
-- Any number of `Put`s, and `Get` behind them.
use sisyphus_db.Prelude.{
  ℕ, ◌^◌, ◌<◌, ◌≡◌, refl, Bool, List, [], ◌∷◌, All, length, Bytes, Outcome, ok, err, panic, ◌>>=◌,
  arith, true, false, if◌then◌else◌,
}
use mathlib.Core.Path.{subst}
use sisyphus_db.Arena.{Arena, ArenaError, new_arena, put, get}
use sisyphus_db.Arena.RoundTrip.{
  IsValid, StoredAt, put-IsValid, get-StoredAt, StoredAt-put, StoredAt-kept,
}

-- The arguments of a `Put`.
pub record Call : Type 0 where
  pub key : Bytes
  pub val : Bytes
  pub is_delete : Bool

abbrev pub FitsCall : Call → Type 0
FitsCall c = (length c.key < 2 ^ 16) × (length c.val < 2 ^ 32)

-- The offsets that the calls return, and the arena behind them.
abbrev pub put_all : List Call → Arena → Outcome ArenaError (List ℕ × Arena)
put_all [] a = ok ([], a)
put_all (c ∷ cs) a = put a c.key c.val c.is_delete >>= λ first.
    put_all cs first.1 >>= λ rest. ok (first.0 ∷ rest.0, rest.1)

-- Every call is read back at its offset.
abbrev pub ReadBack : Arena → List Call → List ℕ → Type 0
ReadBack a [] [] = Unit
ReadBack a [] (o ∷ os) = ⊥
ReadBack a (c ∷ cs) [] = ⊥
ReadBack a (c ∷ cs) (o ∷ os) =
    (get a o ≡ ok (if c.is_delete then ([], true) else (c.val, false))) × ReadBack a cs os

-- What a successful sequence leaves.
record Stored (a a' : Arena) (cs : List Call) (os : List ℕ) : Type 0 where
  pub valid : IsValid a'
  pub kept : (o : ℕ) (k v : Bytes) (d : Bool) → StoredAt a o k v d → StoredAt a' o k v d
  pub read_back : ReadBack a' cs os

bound :
    {A B : Type 0} (m : Outcome ArenaError A) (f : A → Outcome ArenaError B) (b : B)
    → (m >>= f) ≡ ok b
    → (x : A) × (m ≡ ok x) × (f x ≡ ok b)
bound (ok x) f b h = (x, refl, h)
bound (err e) f b h = cc
bound panic f b h = cc

result : {A : Type 0} {x y : A} → ◌≡◌ {A = Outcome ArenaError A} (ok x) (ok y) → x ≡ y
result e = cc

put_all-Stored :
    (cs : List Call) (a a' : Arena) (os : List ℕ)
    → IsValid a
    → All FitsCall cs
    → put_all cs a ≡ ok (os, a')
    → Stored a a' cs os
put_all-Stored [] a a' os valid fits e =
    let same : ◌≡◌ {A = List ℕ × Arena} ([], a) (os, a') = result e in
    subst (λ p. Stored a p.1 [] p.0) same
      (record { valid = valid; kept = λ o k v d s. s; read_back = tt })
put_all-Stored (c ∷ cs) a a' os valid fits e =
    let (first, done, e') = bound (put a c.key c.val c.is_delete) _ (os, a') e in
    let (rest, more, e'') = bound (put_all cs first.1) _ (os, a') e' in
    let same : ◌≡◌ {A = List ℕ × Arena} (first.0 ∷ rest.0, rest.1) (os, a') = result e'' in
    let valid₁ = put-IsValid a c.key c.val c.is_delete first.0 first.1 valid done in
    let s = put_all-Stored cs first.1 rest.1 rest.0 valid₁ fits.1 more in
    let here =
      StoredAt-put a c.key c.val c.is_delete first.0 first.1 valid done fits.0.0 fits.0.1 in
    subst (λ p. Stored a p.1 (c ∷ cs) p.0) same
      (record {
        valid = s.valid;
        kept = λ o k v d at.
            s.kept o k v d
              (StoredAt-kept a c.key c.val c.is_delete first.0 first.1 valid done o k v d at);
        read_back = (
          get-StoredAt rest.1 first.0 c.key c.val c.is_delete s.valid
              (s.kept first.0 c.key c.val c.is_delete here),
          s.read_back,
        );
      })

new_arena-IsValid : (size : ℕ) → IsValid (new_arena size)
unfolding new_arena
new_arena-IsValid size = record { at_end = refl; fits = omega arith }

-- Any calls of `Put` into a new arena that all succeed: `Get` behind them, at the offset that a call
-- returned, gives the value of that call, or the tombstone of a delete, for each of the calls. Keys are
-- below 64 KB and values below 4 GB.
pub get-put_all :
    (size : ℕ) (cs : List Call) (os : List ℕ) (a : Arena)
    → All FitsCall cs
    → put_all cs (new_arena size) ≡ ok (os, a)
    → ReadBack a cs os
get-put_all size cs os a fits e =
    (put_all-Stored cs (new_arena size) a os (new_arena-IsValid size) fits e).read_back
