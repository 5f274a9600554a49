-- ===== src/Prelude/Int.antt =====
-- Go's signed `int`, and its conversions to and from 32-bit words.
use Prim.Native.Nat.{ℕ, ◌-◌, ◌%◌, ◌^◌, ◌<◌, compare, Ordering}
use mathlib.Core.Path.{◌≡◌}
use mathlib.Core.Bool.{Bool, true, false}
use native.Mathlib.Omega.{arith}
use sisyphus_db.Prelude.Tests.{ltb, if◌then◌else◌}

-- `negsuc n` is -(n + 1).
pub data ℤ : Type 0 where
  pos : ℕ → ℤ
  negsuc : ℕ → ℤ

abbrev pub minus_one : ℤ
minus_one = negsuc 0

infix 50 ◌==ℤ◌
abbrev pub ◌==ℤ◌ : ℤ → ℤ → Bool
pos a ==ℤ pos b = elim (compare a b) [ Ordering.eq ↦ true | _ ↦ false ]
pos a ==ℤ negsuc b = false
negsuc a ==ℤ pos b = false
negsuc a ==ℤ negsuc b = elim (compare a b) [ Ordering.eq ↦ true | _ ↦ false ]

-- `uint32(x)`
unfoldable pub uint32 : ℤ → ℕ
uint32 (pos n) = n % 2 ^ 32
uint32 (negsuc n) = 2 ^ 32 - 1 - n % 2 ^ 32

pub ==ℤ-refl : (a : ℤ) → (a ==ℤ a) ≡ true
==ℤ-refl (pos a) = ground arith
==ℤ-refl (negsuc a) = ground arith

pub ==ℤ-eq : (a b : ℤ) → (a ==ℤ b) ≡ true → a ≡ b
==ℤ-eq a b h = ground arith

pub uint32-lt : (a : ℤ) → uint32 a < 2 ^ 32
unfolding uint32
uint32-lt (pos a) = omega arith
uint32-lt (negsuc a) = omega arith

-- `int32(x)`
unfoldable pub int32 : ℤ → ℤ
int32 x = if ltb (uint32 x) (2 ^ 31) then pos (uint32 x) else negsuc (2 ^ 32 - 1 - uint32 x)

pub int32-small : (n : ℕ) → n < 2 ^ 31 → int32 (pos n) ≡ pos n
unfolding int32 uint32
int32-small n h = ground arith

abbrev pub FitsInt32 : ℤ → Type 0
FitsInt32 (pos n) = n < 2 ^ 31
FitsInt32 (negsuc n) = n < 2 ^ 31

pub int32-FitsInt32 : (x : ℤ) → FitsInt32 x → int32 x ≡ x
unfolding int32 uint32
int32-FitsInt32 (pos n) h = int32-small n h
int32-FitsInt32 (negsuc n) h = ground arith
