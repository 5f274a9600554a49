-- ===== src/Prelude/ByteStrings.antt =====
-- Byte strings: `binary.LittleEndian`, slices of a backing array, and reads of a file.
use sisyphus_db.Prelude.Lists.{length, take, drop, All, take-append, drop-append, length-append}
use sisyphus_db.Prelude.Tests.{leb, if◌then◌else◌, le→leb, ◌==◌}
use Prim.Native.Nat.{ℕ, zero, suc, ◌+◌, ◌*◌, ◌/◌, ◌%◌, ◌^◌, ◌<◌}
use mathlib.Core.Path.{◌≡◌, refl, ap}
use sisyphus_db.Prelude.Results.{Outcome, ok, err}
use mathlib.Core.List.{List, [], ◌∷◌, ◌++◌}
use native.Mathlib.Omega.{arith}

-- A Go string or byte slice is the list of its bytes.
abbrev pub Bytes : Type 0
Bytes = List ℕ

abbrev pub IsByte : ℕ → Type 0
IsByte b = b < 256

-- The `n` bytes that `PutUint16`, `PutUint32` and `PutUint64` write.
unfoldable pub le_bytes : ℕ → ℕ → Bytes
le_bytes zero v = []
le_bytes (suc n) v = (v % 256) ∷ le_bytes n (v / 256)

-- What `Uint16`, `Uint32` and `Uint64` read.
unfoldable pub le_value : Bytes → ℕ
le_value [] = 0
le_value (b ∷ bs) = b + 256 * le_value bs

pub length-le_bytes : (n v : ℕ) → length (le_bytes n v) ≡ n
unfolding le_bytes
length-le_bytes zero v = refl
length-le_bytes (suc n) v = ap suc (length-le_bytes n (v / 256))

pub le_bytes-IsByte : (n v : ℕ) → All IsByte (le_bytes n v)
unfolding le_bytes
le_bytes-IsByte zero v = tt
le_bytes-IsByte (suc n) v = (omega arith, le_bytes-IsByte n (v / 256))

pub uint16_round : (v : ℕ) → v < 2 ^ 16 → le_value (le_bytes 2 v) ≡ v
unfolding le_value le_bytes
uint16_round v h = omega arith

pub uint32_round : (v : ℕ) → v < 2 ^ 32 → le_value (le_bytes 4 v) ≡ v
unfolding le_value le_bytes
uint32_round v h = omega arith

pub uint64_round : (v : ℕ) → v < 2 ^ 64 → le_value (le_bytes 8 v) ≡ v
unfolding le_value le_bytes
uint64_round v h = omega arith

-- How `io.ReadFull` fails: at the end of the file, or inside what was to be read.
pub data ReadError : Type 0 where
  eof unexpected_eof : ReadError

-- `io.ReadFull` of `n` bytes: what was read and what is left.
unfoldable pub read_full : ℕ → Bytes → Outcome ReadError (Bytes × Bytes)
read_full n bs =
    if leb n (length bs)
    then ok (take n bs, drop n bs)
    else if length bs == 0
    then err eof
    else err unexpected_eof

pub read_full-append :
    (n : ℕ) (xs ys : Bytes) → length xs ≡ n → read_full n (xs ++ ys) ≡ ok (xs, ys)
unfolding read_full
read_full-append n xs ys h = rw (
  le→leb n (length (xs ++ ys)) (omega (arith, length-append xs ys)),
  take-append n xs ys h,
  drop-append n xs ys h,
)

-- The first `n` bytes of a zeroed array that starts with the given ones.
unfoldable pub take_padded : ℕ → Bytes → Bytes
take_padded zero bs = []
take_padded (suc n) [] = 0 ∷ take_padded n []
take_padded (suc n) (b ∷ bs) = b ∷ take_padded n bs

pub take_padded-append : (n : ℕ) (xs ys : Bytes) → length xs ≡ n → take_padded n (xs ++ ys) ≡ xs
unfolding take_padded
take_padded-append zero [] ys h = refl
take_padded-append zero (x ∷ xs) ys h = absurd (omega arith)
take_padded-append (suc n) [] ys h = absurd (omega arith)
take_padded-append (suc n) (x ∷ xs) ys h = ap (◌∷◌ x) (take_padded-append n xs ys (omega arith))
