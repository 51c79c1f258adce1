-- ===== src/Checksum.antt =====
-- Go's hash/crc32 with the IEEE polynomial (reflected, 0xedb88320), bit by bit.
use Prim.Native.Nat.{bit_xor}
use sofa_bolt_go.Base.{
  ℕ, zero, suc, ◌/◌, ◌%◌, ◌≡◌, refl, [], ◌∷◌, Bytes, codes, ◌==◌, if◌then◌else◌,
}

crc_bits : ℕ → ℕ → ℕ
crc_bits zero c = c
crc_bits (suc k) c = crc_bits k (if c % 2 == 1 then bit_xor (c / 2) 0xedb88320 else c / 2)

crc_from : ℕ → Bytes → ℕ
crc_from c [] = c
crc_from c (b ∷ bs) = crc_from (crc_bits 8 (bit_xor c b)) bs

-- `crc32.Checksum(b, crc32.IEEETable)`.
unfoldable pub checksum : Bytes → ℕ
unfolding crc_from crc_bits
checksum bs = bit_xor (crc_from 0xffffffff bs) 0xffffffff

-- The check value of the CRC-32 standard.
checksum_check_value : checksum (codes "123456789") ≡ 0xcbf43926
unfolding checksum
checksum_check_value = refl
