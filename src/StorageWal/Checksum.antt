-- ===== src/StorageWal/Checksum.antt =====
-- `crc32.ChecksumIEEE` of the standard library, bit by bit. The polynomial is the reversed one.
use Prim.Native.Nat.{bit_xor}
use sisyphus_db.Prelude.{
  ℕ, zero, suc, ◌%◌, ◌/◌, ◌^◌, ◌<◌, ◌≡◌, refl, [], ◌∷◌, ◌==◌, if◌then◌else◌, Bytes, arith,
}

crc_bits : ℕ → ℕ → ℕ
crc_bits zero c = c
crc_bits (suc n) c = crc_bits n (if c % 2 == 1 then bit_xor (c / 2) 0xedb88320 else c / 2)

crc_bytes : ℕ → Bytes → ℕ
crc_bytes c [] = c
crc_bytes c (b ∷ bs) = crc_bytes (crc_bits 8 (bit_xor c b)) bs

pub checksum : Bytes → ℕ
checksum bs = bit_xor (crc_bytes 0xffffffff bs) 0xffffffff % 2 ^ 32

-- "123456789", the check value of the standard.
checksum_check : checksum (49 ∷ 50 ∷ 51 ∷ 52 ∷ 53 ∷ 54 ∷ 55 ∷ 56 ∷ 57 ∷ []) ≡ 0xcbf43926
unfolding checksum crc_bytes crc_bits
checksum_check = refl

pub checksum-lt : (bs : Bytes) → checksum bs < 2 ^ 32
unfolding checksum
checksum-lt bs = omega arith
