-- ===== src/Bloom/Members.antt =====
-- The Bloom filter of internal/bloom/bloom.go has no false negatives, and survives being saved.
use Prim.Native.Nat.{bit_and, bit_or, bit_and-bitwise}
use native.Mathlib.Nat.{mod-lt}
use mathlib.Core.List.{foldl}
use native.Mathlib.Decide.{ℕ_discrete}
use kora_engine.Prelude.{
  ℕ, zero, suc, ◌+◌, ◌*◌, ◌/◌, ◌%◌, ◌^◌, ◌<◌, ◌≤◌, ◌≡◌, refl, true, false, not, List, [], ◌∷◌, ◌==◌,
  length, replicate, arith, All,
}
use kora_engine.Prelude.Order.{Bytes}
use kora_engine.Prelude.Endian.{IsByte, IsU32}
use kora_engine.Bloom.{
  Filter, new, add, has, load, probe, set_bit, is_set, add_loop, has_loop, hash_low, hash_high,
}
use kora_engine.Bloom.Bits.{
  byte_at, set, length-set, byte_at-set_self, byte_at-set_ne, byte_at-IsByte, set-IsByte,
  or_bit-IsByte, or_bit_self, or_bit_keep,
}

-- The bit count is that of the array, which is not empty and holds bytes.
abbrev IsArray : ℕ → Bytes → Type 0
IsArray m bits = (m ≡ 8 * length bits) × (0 < m) × All IsByte bits

abbrev pub IsFilter : Filter → Type 0
IsFilter f = IsArray f.m f.bits × IsU32 f.m

probe-lt : (m h1 h2 i : ℕ) → 0 < m → probe m h1 h2 i < m
unfolding probe
probe-lt m h1 h2 i h = mod-lt ((h1 + i * h2 % 2 ^ 32) % 2 ^ 32) h

set_bit-IsArray : (m : ℕ) (bits : Bytes) (bit : ℕ) → IsArray m bits → IsArray m (set_bit bits bit)
unfolding set_bit
set_bit-IsArray m bits bit (e, p, a) =
    let v = bit_or (byte_at bits (bit / 8)) (2 ^ (bit % 8)) in
    let b : IsByte v =
      or_bit-IsByte (byte_at bits (bit / 8)) (bit % 8) (byte_at-IsByte bits (bit / 8) a)
        (omega arith) in
    (rw (length-set bits (bit / 8) v) e, p, set-IsByte bits (bit / 8) v b a)

is_set-set_bit_self :
    (m : ℕ) (bits : Bytes) (bit : ℕ)
    → IsArray m bits
    → bit < m
    → is_set (set_bit bits bit) bit ≡ true
unfolding set_bit is_set
is_set-set_bit_self m bits bit (e, p, a) h =
    rw
      (byte_at-set_self bits (bit / 8) (bit_or (byte_at bits (bit / 8)) (2 ^ (bit % 8)))
        (omega arith))
      (or_bit_self (byte_at bits (bit / 8)) (bit % 8) (byte_at-IsByte bits (bit / 8) a)
        (omega arith))

is_set-set_bit_keep :
    (m : ℕ) (bits : Bytes) (bit other : ℕ)
    → IsArray m bits
    → bit < m
    → is_set bits other ≡ true
    → is_set (set_bit bits bit) other ≡ true
unfolding set_bit is_set
is_set-set_bit_keep m bits bit other (e, p, a) h k = elim (ℕ_discrete (bit / 8) (other / 8)) [
  | yes same ↦
      let b = byte_at bits (bit / 8) in
      let v = bit_or b (2 ^ (bit % 8)) in
      let s : byte_at (set bits (bit / 8) v) (other / 8) ≡ v =
        rw (← same) (byte_at-set_self bits (bit / 8) v (omega arith)) in
      let k' : not (bit_and b (2 ^ (other % 8)) == 0) ≡ true = rw (← same) at k in
      rw s (
        or_bit_keep b (bit % 8) (other % 8) (byte_at-IsByte bits (bit / 8) a) (omega arith)
          (omega arith) k')
  | no differ ↦
      rw
        (byte_at-set_ne bits (bit / 8) (other / 8) (bit_or (byte_at bits (bit / 8)) (2 ^ (bit % 8)))
          differ)
        k
]

module _ (m h1 h2 : ℕ) where
  add_loop-IsArray :
      (n i : ℕ) (bits : Bytes) → IsArray m bits → IsArray m (add_loop n m h1 h2 i bits)
  unfolding add_loop
  add_loop-IsArray zero i bits h = h
  add_loop-IsArray (suc n) i bits h =
      add_loop-IsArray n (i + 1) _ (set_bit-IsArray m bits (probe m h1 h2 i) h)

  add_loop-keep :
      (n i : ℕ) (bits : Bytes) (other : ℕ)
      → IsArray m bits
      → is_set bits other ≡ true
      → is_set (add_loop n m h1 h2 i bits) other ≡ true
  unfolding add_loop
  add_loop-keep zero i bits other h k = k
  add_loop-keep (suc n) i bits other h k =
      add_loop-keep n (i + 1) _ other (set_bit-IsArray m bits (probe m h1 h2 i) h)
        (is_set-set_bit_keep m bits (probe m h1 h2 i) other h (probe-lt m h1 h2 i h.1) k)

  -- The probes of one key, from the counter on.
  has_loop-keep :
      (g1 g2 k j : ℕ) (n i : ℕ) (bits : Bytes)
      → IsArray m bits
      → has_loop k m g1 g2 j bits ≡ true
      → has_loop k m g1 g2 j (add_loop n m h1 h2 i bits) ≡ true
  unfolding has_loop
  has_loop-keep g1 g2 zero j n i bits h e = refl
  has_loop-keep g1 g2 (suc k) j n i bits h e =
      let s : is_set bits (probe m g1 g2 j) ≡ true = ground arith in
      rw (add_loop-keep n i bits (probe m g1 g2 j) h s)
        (has_loop-keep g1 g2 k (j + 1) n i bits h (ground arith))

  has_loop-add_loop :
      (n i : ℕ) (bits : Bytes)
      → IsArray m bits
      → has_loop n m h1 h2 i (add_loop n m h1 h2 i bits) ≡ true
  unfolding has_loop add_loop
  has_loop-add_loop zero i bits h = refl
  has_loop-add_loop (suc n) i bits h =
      let p = probe m h1 h2 i in
      let h' = set_bit-IsArray m bits p h in
      rw
        (add_loop-keep n (i + 1) (set_bit bits p) p h'
          (is_set-set_bit_self m bits p h (probe-lt m h1 h2 i h.1)))
        (has_loop-add_loop n (i + 1) (set_bit bits p) h')

pub add-IsFilter : (f : Filter) (key : Bytes) → IsFilter f → IsFilter (add f key)
unfolding add
add-IsFilter f key (h, w) = (add_loop-IsArray f.m (hash_low key) (hash_high key) f.k 0 f.bits h, w)

has-add_self : (f : Filter) (key : Bytes) → IsFilter f → has (add f key) key ≡ true
unfolding has add
has-add_self f key (h, w) = has_loop-add_loop f.m (hash_low key) (hash_high key) f.k 0 f.bits h

has-add_keep :
    (f : Filter) (key other : Bytes)
    → IsFilter f
    → has f other ≡ true
    → has (add f key) other ≡ true
unfolding has add
has-add_keep f key other (h, w) e =
    has_loop-keep f.m (hash_low key) (hash_high key) (hash_low other) (hash_high other) f.k 0 f.k 0
      f.bits h e

abbrev pub add_all : Filter → List Bytes → Filter
add_all = foldl add

has-add_all_keep :
    (keys : List Bytes) (f : Filter) (other : Bytes)
    → IsFilter f
    → has f other ≡ true
    → has (add_all f keys) other ≡ true
has-add_all_keep [] f other h e = e
has-add_all_keep (key ∷ keys) f other h e =
    has-add_all_keep keys (add f key) other (add-IsFilter f key h) (has-add_keep f key other h e)

-- No false negatives: after any sequence of `Add`s on a filter, `Has` says yes to every key added.
pub has-add_all :
    (keys : List Bytes) (f : Filter)
    → IsFilter f
    → All (λ key. has (add_all f keys) key ≡ true) keys
has-add_all [] f h = tt
has-add_all (key ∷ keys) f h = (
  has-add_all_keep keys (add f key) key (add-IsFilter f key h) (has-add_self f key h),
  has-add_all keys (add f key) (add-IsFilter f key h),
)

pub add_all-IsFilter : (keys : List Bytes) (f : Filter) → IsFilter f → IsFilter (add_all f keys)
add_all-IsFilter [] f h = h
add_all-IsFilter (key ∷ keys) f h = add_all-IsFilter keys (add f key) (add-IsFilter f key h)

zeros : (n : ℕ) → (length {A = ℕ} (replicate n 0) ≡ n) × All IsByte (replicate n 0)
zeros zero = (refl, tt)
zeros (suc n) = let (a, b) = zeros n in (omega (arith, a), (omega arith, b))

zeros-IsArray :
    (c : ℕ)
    → 0 < c
    → c * 8 < 2 ^ 32
    → IsArray (c * 8 % 2 ^ 32) (replicate c 0) × IsU32 (c * 8 % 2 ^ 32)
zeros-IsArray c p w = let (a, b) = zeros c in ((omega (arith, a), omega arith, b), omega arith)

-- The largest number of keys for which the bit count does not wrap.
abbrev pub max_keys : ℕ
max_keys = 429496728

pub new-IsFilter : (n : ℕ) → n ≤ max_keys → IsFilter (new n)
unfolding new
new-IsFilter zero h = zeros-IsArray 2 (omega arith) (omega arith)
new-IsFilter (suc n) h =
    let e : (suc n == 0) ≡ false = ground arith in
    rw e (zeros-IsArray ((suc n * 10 + 7) / 8) (omega arith) (omega arith))

-- A filter that is saved as its bit array and its `k`, and loaded, is the same filter.
pub load-bits : (f : Filter) → IsFilter f → load f.bits f.k ≡ f
unfolding load
load-bits f ((e, p, a), w) =
    let m : length f.bits % 2 ^ 32 * 8 % 2 ^ 32 ≡ f.m = omega arith in
    λ i. record { bits = f.bits; m = m i; k = f.k }

zero_is_set : (bit : ℕ) → is_set (0 ∷ 0 ∷ []) bit ≡ false
unfolding is_set
zero_is_set bit = rw (zero_byte (bit / 8), bit_and-bitwise 0 (2 ^ (bit % 8)))
  where
    zero_byte : (i : ℕ) → byte_at (0 ∷ 0 ∷ []) i ≡ 0
    zero_byte zero = refl
    zero_byte (suc zero) = refl
    zero_byte (suc (suc i)) = refl

-- A filter to which nothing was added says no to every key.
pub has-new : (key : Bytes) → has (new 0) key ≡ false
unfolding has new has_loop
has-new key = rw (zero_is_set (probe 16 (hash_low key) (hash_high key) 0))
