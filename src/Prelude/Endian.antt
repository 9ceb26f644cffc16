-- ===== src/Prelude/Endian.antt =====
-- `encoding/binary.BigEndian` and `io.ReadFull` of the standard library.
use Prim.Native.Nat.{ℕ, zero, suc, ◌≤◌, ◌+◌, ◌*◌, ◌/◌, ◌%◌, ◌^◌, ◌<◌}
use mathlib.Core.Path.{◌≡◌, refl, ap, ◌∙◌}
use mathlib.Core.Logic.{inl, inr}
use mathlib.Core.Option.{Option, none, some}
use mathlib.Core.List.{[], ◌∷◌, ◌++◌}
use native.Mathlib.Omega.{arith}
use kora_engine.Prelude.Lists.{
  length, split_at, drop, All, split_at-append, drop-append, append-eq_of_split_at, split_at-short,
}
use kora_engine.Prelude.Tests.{Option-cases}
use kora_engine.Prelude.Order.{Bytes}

abbrev pub IsU32 : ℕ → Type 0
IsU32 n = n < 2 ^ 32

abbrev pub IsU64 : ℕ → Type 0
IsU64 n = n < 2 ^ 64

abbrev pub IsByte : ℕ → Type 0
IsByte b = b < 256

-- `PutUint32`, into the next four bytes.
unfoldable pub put_u32 : ℕ → Bytes
put_u32 n = (n / 2 ^ 24 % 256) ∷ (n / 2 ^ 16 % 256) ∷ (n / 2 ^ 8 % 256) ∷ (n % 256) ∷ []

unfoldable pub put_u64 : ℕ → Bytes
unfolding put_u32
put_u64 n = put_u32 (n / 2 ^ 32) ++ put_u32 (n % 2 ^ 32)

abbrev pub u32_of : ℕ → ℕ → ℕ → ℕ → ℕ
u32_of a b c d = a * 2 ^ 24 + b * 2 ^ 16 + c * 2 ^ 8 + d

-- `Uint32`, of the first four bytes, and the bytes behind them.
unfoldable pub get_u32 : Bytes → Option (ℕ × Bytes)
get_u32 (a ∷ b ∷ c ∷ d ∷ rest) = some (u32_of a b c d, rest)
get_u32 _ = none

abbrev join_u64 : ℕ → Option (ℕ × Bytes) → Option (ℕ × Bytes)
join_u64 hi none = none
join_u64 hi (some (lo, rest)) = some (hi * 2 ^ 32 + lo, rest)

unfoldable pub get_u64 : Bytes → Option (ℕ × Bytes)
unfolding get_u32
get_u64 bs = elim (get_u32 bs) [ none ↦ none | some (hi, rest) ↦ join_u64 hi (get_u32 rest) ]

-- The four bytes of a word give it back.
pub u32_word :
    (n : ℕ) → IsU32 n → u32_of (n / 2 ^ 24 % 256) (n / 2 ^ 16 % 256) (n / 2 ^ 8 % 256) (n % 256) ≡ n
u32_word n h = omega arith

pub u64_word : (n : ℕ) → n / 2 ^ 32 * 2 ^ 32 + n % 2 ^ 32 ≡ n
u64_word n = omega arith

pub get_u32-put_u32 :
    (n : ℕ) (rest : Bytes) → IsU32 n → get_u32 (put_u32 n ++ rest) ≡ some (n, rest)
unfolding get_u32 put_u32
get_u32-put_u32 n rest h = rw (u32_word n h)

pub length-put_u32 : (n : ℕ) → length (put_u32 n) ≡ 4
unfolding put_u32
length-put_u32 n = refl

pub length-put_u64 : (n : ℕ) → length (put_u64 n) ≡ 8
unfolding put_u64
length-put_u64 n = refl

-- What `io.ReadFull` reports: the bytes and what follows them, or that the stream was at its end
-- (`io.EOF`), or that it ended inside (`io.ErrUnexpectedEOF`).
pub data Read : Type 0 where
  full : Bytes → Bytes → Read
  at_end : Read
  cut_short : Read

unfoldable pub read_full : ℕ → Bytes → Read
unfolding split_at
read_full zero bs = full [] bs
read_full (suc n) [] = at_end
read_full (suc n) (b ∷ bs) = elim (split_at n bs) [
  | none ↦ cut_short
  | some (a, rest) ↦ full (b ∷ a) rest
]

pub get_u64-put_u64 :
    (n : ℕ) (rest : Bytes) → IsU64 n → get_u64 (put_u64 n ++ rest) ≡ some (n, rest)
unfolding get_u64 put_u64
get_u64-put_u64 n rest h =
    rw (u32_word (n / 2 ^ 32) (omega arith), u32_word (n % 2 ^ 32) (omega arith), u64_word n)

-- `Uint32(b[off:])` and `Uint64(b[off:])`; the code's lengths rule out the default.
unfoldable pub u32_at : ℕ → Bytes → ℕ
unfolding get_u32
u32_at off bs = elim (get_u32 (drop off bs)) [ none ↦ 0 | some (n, _) ↦ n ]

unfoldable pub u64_at : ℕ → Bytes → ℕ
unfolding get_u64
u64_at off bs = elim (get_u64 (drop off bs)) [ none ↦ 0 | some (n, _) ↦ n ]

-- Four bytes that `Uint32` reads are the ones that `PutUint32` writes.
pub put_u32-get_u32 :
    (bs rest : Bytes) (n : ℕ)
    → All IsByte bs
    → get_u32 bs ≡ some (n, rest)
    → (bs ≡ put_u32 n ++ rest) × IsU32 n
unfolding get_u32 put_u32
put_u32-get_u32 (a ∷ b ∷ c ∷ d ∷ more) rest n h e = ground arith
put_u32-get_u32 _ rest n h e = cc

pub read_full-append : (xs rest : Bytes) → read_full (length xs) (xs ++ rest) ≡ full xs rest
unfolding read_full
read_full-append [] rest = refl
read_full-append (x ∷ xs) rest = rw (split_at-append xs rest, read_full)

pub read_full-eq :
    (n : ℕ) (xs rest : Bytes) → length xs ≡ n → read_full n (xs ++ rest) ≡ full xs rest
read_full-eq n xs rest e = rw (← e) (read_full-append xs rest)

pub append-eq_of_read_full :
    (n : ℕ) (bs a rest : Bytes) → read_full n bs ≡ full a rest → (bs ≡ a ++ rest) × (length a ≡ n)
unfolding read_full
append-eq_of_read_full zero bs a rest h = ground arith
append-eq_of_read_full (suc n) [] a rest h = cc
append-eq_of_read_full (suc n) (b ∷ bs) a rest h = elim (Option-cases (split_at n bs)) [
  | inl e ↦ cc (rw (e, read_full) at h)
  | inr ((c, s), e) ↦
      let (p, q) = append-eq_of_split_at n bs c s e in
      let k : full (b ∷ c) s ≡ full a rest = rw (e, read_full) at h in ground (arith, p, q, k)
]

-- A stream that is shorter than the read, and not empty, ends inside it.
pub read_full-short :
    (n b : ℕ) (bs : Bytes) → length (b ∷ bs) < n → read_full n (b ∷ bs) ≡ cut_short
unfolding read_full
read_full-short zero b bs h = absurd (omega arith)
read_full-short (suc n) b bs h = rw (split_at-short n bs (omega arith), read_full)

pub read_full-at_end : (n : ℕ) → 0 < n → read_full n [] ≡ at_end
unfolding read_full
read_full-at_end zero h = absurd (omega arith)
read_full-at_end (suc n) h = refl

-- Four bytes at least are a word and what follows it.
pub IsU32-head :
    (bs : Bytes)
    → All IsByte bs
    → 4 ≤ length bs
    → (n : ℕ) × (rest : Bytes) × (bs ≡ put_u32 n ++ rest)
      × IsU32 n
      × All IsByte rest
      × (length bs ≡ 4 + length rest)
unfolding put_u32
IsU32-head (a ∷ b ∷ c ∷ d ∷ rest) h e =
    (u32_of a b c d, rest, ground arith, ground arith, h.1.1.1.1, omega arith)
IsU32-head _ h e = absurd (omega arith)

pub IsU64-head :
    (bs : Bytes)
    → All IsByte bs
    → 8 ≤ length bs
    → (n : ℕ) × (rest : Bytes) × (bs ≡ put_u64 n ++ rest)
      × IsU64 n
      × All IsByte rest
      × (length bs ≡ 8 + length rest)
IsU64-head bs h e =
    let (hi, r1, p, a, h1, l1) = IsU32-head bs h (omega arith) in
    let (lo, r2, q, b, h2, l2) = IsU32-head r1 h1 (omega arith) in
    let x : (hi * 2 ^ 32 + lo) / 2 ^ 32 ≡ hi = omega arith in
    let y : (hi * 2 ^ 32 + lo) % 2 ^ 32 ≡ lo = omega arith in
    (
      hi * 2 ^ 32 + lo,
      r2,
      p ∙ ap (λ r. put_u32 hi ++ r) q ∙ unfold put_u64 put_u32 in rw (x, y),
      omega arith,
      h2,
      omega arith,
    )

-- A word that was put behind `a` is read at that offset.
pub u32_at-append :
    (a : Bytes) (n : ℕ) (rest : Bytes) (off : ℕ)
    → length a ≡ off
    → IsU32 n
    → u32_at off (a ++ (put_u32 n ++ rest)) ≡ n
unfolding u32_at
u32_at-append a n rest off e h =
    rw (← e, u32_at, drop-append a (put_u32 n ++ rest), get_u32-put_u32 n rest h)

pub u64_at-append :
    (a : Bytes) (n : ℕ) (rest : Bytes) (off : ℕ)
    → length a ≡ off
    → IsU64 n
    → u64_at off (a ++ (put_u64 n ++ rest)) ≡ n
unfolding u64_at
u64_at-append a n rest off e h =
    rw (← e, u64_at, drop-append a (put_u64 n ++ rest), get_u64-put_u64 n rest h)
