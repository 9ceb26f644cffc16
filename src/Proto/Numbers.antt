-- ===== src/Proto/Numbers.antt =====
-- Numbers and lines on the wire: what `%d` writes, `Atoi` reads.
use mathlib.Core.Path.{subst}
use kora_engine.Prelude.{
  ℕ, zero, suc, ◌+◌, ◌-◌, ◌*◌, ◌/◌, ◌%◌, ◌^◌, ◌<◌, ◌≤◌, ◌≡◌, refl, sym, ap, ◌∙◌, true, false, some,
  [], ◌∷◌, ◌++◌, ltb, ◌==◌, All, All-append, arith, Bool-cases, inl, inr,
}
use kora_engine.Prelude.Order.{Bytes}
use kora_engine.Proto.{
  decimal, put_decimal, plus, is_digit, atoi_digits, atoi_unsigned, atoi_plus, atoi,
}

-- A digit.
abbrev pub IsDigit : ℕ → Type 0
IsDigit c = (48 ≤ c) × (c ≤ 57)

decimal-IsDigit : (fuel n : ℕ) → All IsDigit (decimal fuel n)
unfolding decimal
decimal-IsDigit zero n = tt
decimal-IsDigit (suc fuel) n = elim (Bool-cases (ltb n 10)) [
  | inl t ↦ rw t ((omega arith, ground arith), tt)
  | inr t ↦ rw t (
      All-append IsDigit (decimal fuel (n / 10)) ((48 + n % 10) ∷ [])
        (decimal-IsDigit fuel (n / 10)) ((omega arith, omega arith), tt))
]

-- Reading the digits of a number behind the digits of `acc`, on enough fuel.
atoi_digits-append :
    (acc : ℕ) (a b : Bytes) (n : ℕ)
    → atoi_digits acc a ≡ some n
    → atoi_digits acc (a ++ b) ≡ atoi_digits n b
unfolding atoi_digits
atoi_digits-append acc [] b n h = cc
atoi_digits-append acc (c ∷ a) b n h = elim (Bool-cases (is_digit c)) [
  | inl t ↦ rw t (atoi_digits-append (acc * 10 + (c - 48)) a b n (rw t at h))
  | inr t ↦ absurd (cc (rw t at h))
]

digit-eq : (c : ℕ) → IsDigit c → is_digit c ≡ true
digit-eq c h = ground arith

atoi_one : (acc d : ℕ) → d < 10 → atoi_digits acc ((48 + d) ∷ []) ≡ some (acc * 10 + d)
unfolding atoi_digits
atoi_one acc d h =
    let e : acc * 10 + ((48 + d) - 48) ≡ acc * 10 + d = omega arith in
    rw (digit-eq (48 + d) (omega arith, omega arith), e)

atoi_digits-decimal : (fuel n : ℕ) → n < fuel → atoi_digits 0 (decimal fuel n) ≡ some n
unfolding decimal atoi_digits
atoi_digits-decimal zero n h = absurd (omega arith)
atoi_digits-decimal (suc fuel) n h = elim (Bool-cases (ltb n 10)) [
  | inl t ↦
      let l : n < 10 = ground arith in
      let e : 0 * 10 + n ≡ n = omega arith in rw t (atoi_one 0 n l ∙ ap some e)
  | inr t ↦
      let l : 10 ≤ n = ground arith in
      let e : (n / 10) * 10 + n % 10 ≡ n = omega arith in
      rw t (
        atoi_digits-append 0 (decimal fuel (n / 10)) ((48 + n % 10) ∷ []) (n / 10)
          (atoi_digits-decimal fuel (n / 10) (omega arith))
        ∙ atoi_one (n / 10) (n % 10) (omega arith)
        ∙ ap some e)
]

pub put_decimal-IsDigit : (n : ℕ) → All IsDigit (put_decimal n)
unfolding put_decimal
put_decimal-IsDigit n = decimal-IsDigit (suc n) n

decimal-nonempty : (n : ℕ) → (c : ℕ) × (cs : Bytes) × (put_decimal n ≡ c ∷ cs)
unfolding put_decimal decimal
decimal-nonempty n = elim (Bool-cases (ltb n 10)) [
  | inl t ↦ (48 + n, [], rw t)
  | inr t ↦ rw t (of_append (decimal n (n / 10)) (48 + n % 10))
]
  where
    of_append : (bs : Bytes) (d : ℕ) → (c : ℕ) × (cs : Bytes) × (bs ++ (d ∷ []) ≡ c ∷ cs)
    of_append [] d = (d, [], refl)
    of_append (b ∷ bs) d = (b, bs ++ (d ∷ []), refl)

atoi_unsigned-digits :
    (c : ℕ) (cs : Bytes) (n : ℕ)
    → IsDigit c
    → atoi_digits 0 (c ∷ cs) ≡ some n
    → n < 2 ^ 63
    → atoi (c ∷ cs) ≡ plus n
unfolding atoi atoi_unsigned atoi_plus
atoi_unsigned-digits c cs n d h l =
    let p : (c == b'-') ≡ false = ground arith in
    let q : (c == b'+') ≡ false = ground arith in
    let r : ltb n (2 ^ 63) ≡ true = ground arith in rw (p, q, h, r)

-- What `%d` writes, `Atoi` reads.
pub atoi-put_decimal : (n : ℕ) → n < 2 ^ 63 → atoi (put_decimal n) ≡ plus n
atoi-put_decimal n l =
    let (c, cs, e) = decimal-nonempty n in
    let h : atoi_digits 0 (c ∷ cs) ≡ some n =
      ap (atoi_digits 0) (sym e)
      ∙ unfold put_decimal in atoi_digits-decimal (suc n) n (omega arith) in
    let d = subst (All IsDigit) e (put_decimal-IsDigit n) in
    ap atoi e ∙ atoi_unsigned-digits c cs n d.0 h l
