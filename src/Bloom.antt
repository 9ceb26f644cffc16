-- ===== src/Bloom.antt =====
-- internal/bloom/bloom.go: the Bloom filter of an SSTable. `uint32` arithmetic wraps at 2 ^ 32.
pub mod Bits
pub mod Members
use Prim.Native.Nat.{bit_and, bit_or}
use kora_engine.Prelude.{
  ℕ, zero, suc, ◌+◌, ◌*◌, ◌/◌, ◌%◌, ◌^◌, Bool, true, false, not, List, ◌==◌, if◌then◌else◌, length,
  replicate,
}
use kora_engine.Prelude.Order.{Bytes}
use kora_engine.Checksum.{fnv64a}
use kora_engine.Bloom.Bits.{byte_at, set}

abbrev pub default_k : ℕ
default_k = 7

pub record Filter : Type 0 where
  pub bits : Bytes
  pub m : ℕ
  pub k : ℕ

-- `New`; the `n <= 0` of the code is `n == 0`, since a count is never negative.
unfoldable pub new : ℕ → Filter
new n =
    let n' = if n == 0 then 1 else n in
    let byte_count = (n' * 10 + 7) / 8 in
    record { bits = replicate byte_count 0; m = byte_count * 8 % 2 ^ 32; k = default_k }

-- `hashes`: the two halves of one 64-bit hash.
unfoldable pub hash_low : Bytes → ℕ
hash_low key = fnv64a key % 2 ^ 32

unfoldable pub hash_high : Bytes → ℕ
hash_high key = fnv64a key / 2 ^ 32 % 2 ^ 32

-- `(h1 + i*h2) % f.m`.
unfoldable pub probe : ℕ → ℕ → ℕ → ℕ → ℕ
probe m h1 h2 i = (h1 + i * h2 % 2 ^ 32) % 2 ^ 32 % m

-- `f.bits[bit>>3] |= 1 << (bit & 7)`.
pub set_bit : Bytes → ℕ → Bytes
set_bit bits bit = set bits (bit / 8) (bit_or (byte_at bits (bit / 8)) (2 ^ (bit % 8)))

-- `f.bits[bit>>3]&(1<<(bit&7)) == 0`, negated.
pub is_set : Bytes → ℕ → Bool
is_set bits bit = not (bit_and (byte_at bits (bit / 8)) (2 ^ (bit % 8)) == 0)

-- The rounds that are left, and the counter `i` of the loop.
pub add_loop : ℕ → ℕ → ℕ → ℕ → ℕ → Bytes → Bytes
add_loop zero m h1 h2 i bits = bits
add_loop (suc n) m h1 h2 i bits = add_loop n m h1 h2 (i + 1) (set_bit bits (probe m h1 h2 i))

unfoldable pub add : Filter → Bytes → Filter
unfolding add_loop set_bit
add f key = record f { bits = add_loop f.k f.m (hash_low key) (hash_high key) 0 f.bits }

pub has_loop : ℕ → ℕ → ℕ → ℕ → ℕ → Bytes → Bool
has_loop zero m h1 h2 i bits = true
has_loop (suc n) m h1 h2 i bits =
    let rest = has_loop n m h1 h2 (i + 1) bits in
    if is_set bits (probe m h1 h2 i) then rest else false

unfoldable pub has : Filter → Bytes → Bool
unfolding has_loop is_set
has f key = has_loop f.k f.m (hash_low key) (hash_high key) 0 f.bits

-- `Load`.
unfoldable pub load : Bytes → ℕ → Filter
load bits k = record { bits = bits; m = length bits % 2 ^ 32 * 8 % 2 ^ 32; k = k }
