-- ===== src/Checksum.antt =====
-- The standard library's checksums that the engine calls: `crc32.ChecksumIEEE` (records and the
-- manifest) and FNV-1a over 64 bits (the Bloom filter). Proofs keep them shut: they only use that
-- the results are words.
use Prim.Native.Nat.{bit_xor}
use kora_engine.Prelude.{ℕ, ◌*◌, ◌/◌, ◌%◌, ◌^◌, ◌≡◌, refl, [], ◌∷◌, arith, ◌==◌, if◌then◌else◌}
use kora_engine.Prelude.Order.{Bytes}
use kora_engine.Prelude.Endian.{IsU32}

-- One bit of the reflected CRC-32 over the polynomial 0xEDB88320.
crc_bit : ℕ → ℕ
crc_bit c = if c % 2 == 1 then bit_xor (c / 2) 0xEDB88320 else c / 2

crc_byte : ℕ → ℕ → ℕ
unfolding crc_bit
crc_byte c b =
    crc_bit (crc_bit (crc_bit (crc_bit (crc_bit (crc_bit (crc_bit (crc_bit (bit_xor c b))))))))

crc_loop : ℕ → Bytes → ℕ
crc_loop c [] = c
crc_loop c (b ∷ bs) = crc_loop (crc_byte c b) bs

unfoldable pub crc32 : Bytes → ℕ
unfolding crc_loop crc_byte
crc32 bs = bit_xor (crc_loop 0xFFFF_FFFF bs) 0xFFFF_FFFF % 2 ^ 32

pub crc32-IsU32 : (bs : Bytes) → IsU32 (crc32 bs)
unfolding crc32
crc32-IsU32 bs = omega arith

fnv_loop : ℕ → Bytes → ℕ
fnv_loop h [] = h
fnv_loop h (b ∷ bs) = fnv_loop (bit_xor h b * 0x100_0000_01b3 % 2 ^ 64) bs

unfoldable pub fnv64a : Bytes → ℕ
unfolding fnv_loop
fnv64a bs = fnv_loop 0xcbf2_9ce4_8422_2325 bs % 2 ^ 64

-- The published check value of CRC-32, over the digits "123456789", and FNV-1a of "a".
crc32_check :
    crc32 (0x31 ∷ 0x32 ∷ 0x33 ∷ 0x34 ∷ 0x35 ∷ 0x36 ∷ 0x37 ∷ 0x38 ∷ 0x39 ∷ []) ≡ 0xCBF4_3926
unfolding crc32
crc32_check = refl

fnv64a_check : fnv64a (0x61 ∷ []) ≡ 0xaf63_dc4c_8601_ec8c
unfolding fnv64a
fnv64a_check = refl
