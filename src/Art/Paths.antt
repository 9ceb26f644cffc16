-- ===== src/Art/Paths.antt =====
-- Keys that share what is above a node of the tree of internal/art, and their order.
use kora_engine.Prelude.{
  ℕ, ◌<◌, ◌≤◌, ◌≡◌, refl, sym, ap, ◌∙◌, ◌≢◌, ◌⊎◌, inl, inr, true, false, [], ◌∷◌, ◌++◌, length,
  arith, All, append-nil, ltb, ◌==◌, Bool-cases,
}
use kora_engine.Prelude.Order.{
  Bytes, Before, compare_bytes, compare_bytes_refl, bytes_equal, eq_of_bytes_equal,
}
use kora_engine.Art.{branch, shared}

-- No byte is 0, that under which a key ends.
abbrev pub Nonzero : Bytes → Type 0
Nonzero s = All (λ (x : ℕ). 1 ≤ x) s

-- The key goes on behind `q` with the byte, or ends there if the byte is 0.
abbrev pub Under : Bytes → ℕ → Bytes → Type 0
Under q b key = (s : Bytes) × (key ≡ q ++ s) × Nonzero s × (branch s ≡ b)

Before-branch : (s t : Bytes) → branch s < branch t → Before s t
unfolding branch compare_bytes
Before-branch [] [] h = absurd (omega arith)
Before-branch [] (y ∷ ys) h = refl
Before-branch (x ∷ xs) [] h = absurd (omega arith)
Before-branch (x ∷ xs) (y ∷ ys) h = ground arith

Before-append : (q s t : Bytes) → Before s t → Before (q ++ s) (q ++ t)
unfolding compare_bytes
Before-append [] s t h = h
Before-append (x ∷ xs) s t h = ground (arith, Before-append xs s t h)

pub Before-Under : (q k j : Bytes) (b c : ℕ) → Under q b k → Under q c j → b < c → Before k j
Before-Under q k j b c (s, p, z, e) (t, r, y, f) h =
    rw (p, r) (Before-append q s t (Before-branch s t (omega arith)))

pub eq-Under : (q k : Bytes) → Under q 0 k → k ≡ q
unfolding branch
eq-Under q k ([], p, z, e) = p ∙ append-nil q
eq-Under q k (x ∷ xs, p, (z, zs), e) = absurd (omega arith)

pub not_equal-Under :
    (q k j : Bytes) (b c : ℕ) → Under q b k → Under q c j → b ≢ c → bytes_equal k j ≡ false
not_equal-Under q k j b c u w h = elim (Bool-cases (bytes_equal k j)) [
  | inr t ↦ t
  | inl t ↦ elim (lt_or_gt b c h) [
    | inl l ↦
        absurd (cc (eq_of_bytes_equal k j t, Before-Under q k j b c u w l, compare_bytes_refl k))
    | inr l ↦
        absurd (cc (eq_of_bytes_equal k j t, Before-Under q j k c b w u l, compare_bytes_refl j))
  ]
]
  where
    lt_or_gt : (b c : ℕ) → b ≢ c → (b < c) ⊎ (c < b)
    lt_or_gt b c h = elim (Bool-cases (ltb b c)) [
      | inl t ↦ inl (ground arith)
      | inr t ↦ inr (ground arith)
    ]

-- Where two byte strings without a 0 part.
abbrev pub Parted : Bytes → Bytes → Type 0
Parted xs ys =
    (a : Bytes) × (s : Bytes) × (t : Bytes) × (xs ≡ a ++ s)
    × (ys ≡ a ++ t)
    × (shared xs ys ≡ length a)
    × (((s ≡ []) × (t ≡ [])) ⊎ (branch s ≢ branch t))

pub parted : (xs ys : Bytes) → Nonzero xs → Nonzero ys → Parted xs ys
unfolding shared branch
parted [] [] h k = ([], [], [], refl, refl, refl, inl (refl, refl))
parted [] (y ∷ ys) h k = ([], [], y ∷ ys, refl, refl, refl, inr (λ p. omega (arith, p, k.0)))
parted (x ∷ xs) [] h k = ([], x ∷ xs, [], refl, refl, refl, inr (λ p. omega (arith, p, h.0)))
parted (x ∷ xs) (y ∷ ys) (h, hs) (k, ks) = elim (Bool-cases (x == y)) [
  | inl e ↦
      let (a, s, t, p, q, m, o) = parted xs ys hs ks in
      let p' : x ∷ xs ≡ x ∷ a ++ s = ap (λ l. x ∷ l) p in
      let q' : y ∷ ys ≡ x ∷ a ++ t = ap (λ l. y ∷ l) q ∙ ap (λ b. b ∷ a ++ t) (sym (of_same e)) in
      (x ∷ a, s, t, p', q', rw (e, m), o)
  | inr e ↦ ([], x ∷ xs, y ∷ ys, refl, refl, rw e, inr (λ p. ground arith))
]
  where
    of_same : (x == y) ≡ true → x ≡ y
    of_same e = ground arith
