-- ===== src/Prelude/Lists.antt =====
-- Lists over the native numbers: lengths, prefixes, and predicates on all elements.
use Prim.Native.Nat.{ℕ, zero, suc, ◌+◌, ◌<◌, ◌≤◌}
use mathlib.Core.Path.{◌≡◌, refl}
use mathlib.Core.Option.{Option, none, some}
use mathlib.Core.List.{List, [], ◌∷◌, ◌++◌}
use mathlib.Core.Logic.{inl, inr}
use native.Mathlib.Omega.{arith}
use kora_engine.Prelude.Tests.{Option-cases}

module _ {ℓ} {A : Type ℓ} where
  abbrev pub length : List A → ℕ
  length [] = 0
  length (x ∷ xs) = suc (length xs)

  abbrev pub get_elem? : List A → ℕ → Option A
  get_elem? [] i = none
  get_elem? (x ∷ xs) zero = some x
  get_elem? (x ∷ xs) (suc i) = get_elem? xs i

  abbrev pub replicate : ℕ → A → List A
  replicate zero x = []
  replicate (suc n) x = x ∷ replicate n x

  abbrev pub drop : ℕ → List A → List A
  drop zero xs = xs
  drop (suc n) [] = []
  drop (suc n) (x ∷ xs) = drop n xs

  abbrev pub All {κ} : (A → Type κ) → List A → Type κ
  All P [] = Unit {κ}
  All P (x ∷ xs) = P x × All P xs

  -- The first `n` elements and the rest, when there are that many.
  unfoldable pub split_at : ℕ → List A → Option (List A × List A)
  split_at zero xs = some ([], xs)
  split_at (suc n) [] = none
  split_at (suc n) (x ∷ xs) = elim (split_at n xs) [ none ↦ none | some (a, r) ↦ some (x ∷ a, r) ]

  pub length-append : (xs ys : List A) → length (xs ++ ys) ≡ length xs + length ys
  length-append [] ys = omega arith
  length-append (x ∷ xs) ys = omega (arith, length-append xs ys)

  pub drop-append : (xs ys : List A) → drop (length xs) (xs ++ ys) ≡ ys
  drop-append [] ys = refl
  drop-append (x ∷ xs) ys = drop-append xs ys

  pub split_at-append : (xs ys : List A) → split_at (length xs) (xs ++ ys) ≡ some (xs, ys)
  unfolding split_at
  split_at-append [] ys = refl
  split_at-append (x ∷ xs) ys = rw (split_at-append xs ys)

  pub split_at-short : (n : ℕ) (xs : List A) → length xs < n → split_at n xs ≡ none
  unfolding split_at
  split_at-short zero xs h = absurd (omega arith)
  split_at-short (suc n) [] h = refl
  split_at-short (suc n) (x ∷ xs) h = rw (split_at-short n xs (omega arith))

  pub All-append {κ} : (P : A → Type κ) (xs ys : List A) → All P xs → All P ys → All P (xs ++ ys)
  All-append P [] ys h k = k
  All-append P (x ∷ xs) ys h k = (h.0, All-append P xs ys h.1 k)

  abbrev pub take : ℕ → List A → List A
  take zero xs = []
  take (suc n) [] = []
  take (suc n) (x ∷ xs) = x ∷ take n xs

  pub take-append : (xs ys : List A) → take (length xs) (xs ++ ys) ≡ xs
  take-append [] ys = refl
  take-append (x ∷ xs) ys = rw (take-append xs ys)

  pub append-eq_of_split_at :
      (n : ℕ) (xs a r : List A) → split_at n xs ≡ some (a, r) → (xs ≡ a ++ r) × (length a ≡ n)
  unfolding split_at
  append-eq_of_split_at zero xs a r h = ground arith
  append-eq_of_split_at (suc n) [] a r h = cc
  append-eq_of_split_at (suc n) (x ∷ xs) a r h = elim (Option-cases (split_at n xs)) [
    | inl e ↦ cc (rw e at h)
    | inr ((b, s), e) ↦
        let (p, q) = append-eq_of_split_at n xs b s e in
        let k : some (x ∷ b, s) ≡ some (a, r) = rw e at h in ground (arith, p, q, k)
  ]

  pub split_at-eq : (n : ℕ) (xs ys : List A) → length xs ≡ n → split_at n (xs ++ ys) ≡ some (xs, ys)
  split_at-eq n xs ys e = rw (← e) (split_at-append xs ys)

  -- Two ways to cut one list: the shorter front is a prefix of the other.
  pub append_overlap :
      (a b c d : List A)
      → a ++ b ≡ c ++ d
      → length a ≤ length c
      → (t : List A) × (c ≡ a ++ t) × (b ≡ t ++ d)
  append_overlap [] b c d e h = (c, refl, e)
  append_overlap (x ∷ a) b [] d e h = absurd (omega arith)
  append_overlap (x ∷ a) b (y ∷ c) d e h =
      let (t, p, q) = append_overlap a b c d (cc e) (omega arith) in (t, cc (e, p), q)

  pub All-append_left {κ} : (P : A → Type κ) (xs ys : List A) → All P (xs ++ ys) → All P xs
  All-append_left P [] ys h = tt
  All-append_left P (x ∷ xs) ys h = (h.0, All-append_left P xs ys h.1)

  pub All-append_right {κ} : (P : A → Type κ) (xs ys : List A) → All P (xs ++ ys) → All P ys
  All-append_right P [] ys h = h
  All-append_right P (x ∷ xs) ys h = All-append_right P xs ys h.1

  pub take-append-drop : (n : ℕ) (xs : List A) → take n xs ++ drop n xs ≡ xs
  take-append-drop zero xs = refl
  take-append-drop (suc n) [] = refl
  take-append-drop (suc n) (x ∷ xs) = rw (take-append-drop n xs)

  pub length-take : (n : ℕ) (xs : List A) → n ≤ length xs → length (take n xs) ≡ n
  length-take zero xs h = refl
  length-take (suc n) [] h = absurd (omega arith)
  length-take (suc n) (x ∷ xs) h = omega (arith, length-take n xs)

  pub length-drop : (n : ℕ) (xs : List A) → n ≤ length xs → n + length (drop n xs) ≡ length xs
  length-drop zero xs h = omega arith
  length-drop (suc n) [] h = absurd (omega arith)
  length-drop (suc n) (x ∷ xs) h = omega (arith, length-drop n xs)

  pub take_all : (n : ℕ) (xs : List A) → length xs ≡ n → take n xs ≡ xs
  take_all zero [] h = refl
  take_all zero (x ∷ xs) h = absurd (omega arith)
  take_all (suc n) [] h = refl
  take_all (suc n) (x ∷ xs) h = rw (take_all n xs (omega arith))

  pub All-append_right_head {κ} :
      (P : A → Type κ) (xs : List A) (y : A) (ys : List A) → All P (xs ++ (y ∷ ys)) → P y
  All-append_right_head P xs y ys h = (All-append_right P xs (y ∷ ys) h).0
