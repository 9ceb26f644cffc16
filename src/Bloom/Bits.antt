-- ===== src/Bloom/Bits.antt =====
-- Bytes of a bit array, and what `|=` and `&` with one bit do to them: tables over all bytes and all
-- bit positions, checked by evaluation.
use Prim.Native.Nat.{bit_and, bit_or}
use kora_engine.Prelude.{
  ℕ, zero, suc, ◌+◌, ◌*◌, ◌/◌, ◌%◌, ◌^◌, ◌<◌, ◌≡◌, ◌≢◌, refl, ap, Bool, true, not, ◌&&◌, ◌||◌, [],
  ◌∷◌, ltb, ◌==◌, length, arith, All,
}
use kora_engine.Prelude.Order.{Bytes}
use kora_engine.Prelude.Endian.{IsByte}

-- A read and a write of a slice; the code's indices are in range.
abbrev pub byte_at : Bytes → ℕ → ℕ
byte_at [] i = 0
byte_at (b ∷ bs) zero = b
byte_at (b ∷ bs) (suc i) = byte_at bs i

abbrev pub set : Bytes → ℕ → ℕ → Bytes
set [] i v = []
set (b ∷ bs) zero v = v ∷ bs
set (b ∷ bs) (suc i) v = b ∷ set bs i v

pub length-set : (bs : Bytes) (i v : ℕ) → length (set bs i v) ≡ length bs
length-set [] i v = refl
length-set (b ∷ bs) zero v = refl
length-set (b ∷ bs) (suc i) v = ap suc (length-set bs i v)

pub byte_at-set_self : (bs : Bytes) (i v : ℕ) → i < length bs → byte_at (set bs i v) i ≡ v
byte_at-set_self [] i v h = absurd (omega arith)
byte_at-set_self (b ∷ bs) zero v h = refl
byte_at-set_self (b ∷ bs) (suc i) v h = byte_at-set_self bs i v (omega arith)

pub byte_at-set_ne : (bs : Bytes) (i j v : ℕ) → i ≢ j → byte_at (set bs i v) j ≡ byte_at bs j
byte_at-set_ne [] i j v h = refl
byte_at-set_ne (b ∷ bs) zero zero v h = absurd (h refl)
byte_at-set_ne (b ∷ bs) zero (suc j) v h = refl
byte_at-set_ne (b ∷ bs) (suc i) zero v h = refl
byte_at-set_ne (b ∷ bs) (suc i) (suc j) v h = byte_at-set_ne bs i j v (λ e. h (ap suc e))

pub byte_at-IsByte : (bs : Bytes) (i : ℕ) → All IsByte bs → IsByte (byte_at bs i)
byte_at-IsByte [] i h = omega arith
byte_at-IsByte (b ∷ bs) zero h = h.0
byte_at-IsByte (b ∷ bs) (suc i) h = byte_at-IsByte bs i h.1

pub set-IsByte : (bs : Bytes) (i v : ℕ) → IsByte v → All IsByte bs → All IsByte (set bs i v)
set-IsByte [] i v h a = tt
set-IsByte (b ∷ bs) zero v h a = (h, a.1)
set-IsByte (b ∷ bs) (suc i) v h a = (a.0, set-IsByte bs i v h a.1)

all_below : ℕ → (ℕ → Bool) → Bool
all_below zero p = true
all_below (suc n) p = p n && all_below n p

all_below→at : (n : ℕ) (p : ℕ → Bool) (x : ℕ) → all_below n p ≡ true → x < n → p x ≡ true
unfolding all_below
all_below→at zero p x h lt = absurd (omega arith)
all_below→at (suc n) p x h lt = ground (arith, all_below→at n p x)

-- A bit that was set, and a bit that was there, is there after `|=`; the result is a byte.
abbrev or_bit_test : ℕ → ℕ → ℕ → Bool
or_bit_test b i j =
    let c = bit_or b (2 ^ i) in
    ltb c 256 && (not (i == j || not (bit_and b (2 ^ j) == 0)) || not (bit_and c (2 ^ j) == 0))

or_bit_table : all_below 16384 (λ n. or_bit_test (n / 64) (n / 8 % 8) (n % 8)) ≡ true
unfolding all_below
or_bit_table = refl

or_bit : (b i j : ℕ) → IsByte b → i < 8 → j < 8 → or_bit_test b i j ≡ true
or_bit b i j hb hi hj =
    let n = b * 64 + i * 8 + j in
    let e1 : n / 64 ≡ b = omega arith in
    let e2 : n / 8 % 8 ≡ i = omega arith in
    let e3 : n % 8 ≡ j = omega arith in
    rw (e1, e2, e3) at
      (all_below→at 16384 (λ n. or_bit_test (n / 64) (n / 8 % 8) (n % 8)) n or_bit_table
        (omega arith))

abbrev pub bit_is_set : ℕ → ℕ → Bool
bit_is_set b i = not (bit_and b (2 ^ i) == 0)

pub or_bit-IsByte : (b i : ℕ) → IsByte b → i < 8 → IsByte (bit_or b (2 ^ i))
or_bit-IsByte b i hb hi = ground (arith, or_bit b i 0 hb hi)

pub or_bit_self : (b i : ℕ) → IsByte b → i < 8 → bit_is_set (bit_or b (2 ^ i)) i ≡ true
or_bit_self b i hb hi = ground (arith, or_bit b i i hb hi hi)

pub or_bit_keep :
    (b i j : ℕ)
    → IsByte b
    → i < 8
    → j < 8
    → bit_is_set b j ≡ true
    → bit_is_set (bit_or b (2 ^ i)) j ≡ true
or_bit_keep b i j hb hi hj h = ground (arith, or_bit b i j hb hi hj)
