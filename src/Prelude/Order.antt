-- ===== src/Prelude/Order.antt =====
-- `bytes.Compare` and `bytes.Equal` of the standard library: the order on keys.
use Prim.Native.Nat.{ℕ, Ordering, compare}
use mathlib.Core.Path.{◌≡◌, refl}
use mathlib.Core.Logic.{◌⊎◌, inl, inr}
use mathlib.Core.Bool.{Bool, true, false}
use mathlib.Core.List.{List, [], ◌∷◌}
use native.Mathlib.Omega.{arith}

abbrev pub Bytes : Type 0
Bytes = List ℕ

-- `bytes.Compare`: -1, 0 and 1 are `lt`, `eq` and `gt`.
unfoldable pub compare_bytes : Bytes → Bytes → Ordering
compare_bytes [] [] = Ordering.eq
compare_bytes [] (y ∷ ys) = Ordering.lt
compare_bytes (x ∷ xs) [] = Ordering.gt
compare_bytes (x ∷ xs) (y ∷ ys) = elim (compare x y) [
  | Ordering.lt ↦ Ordering.lt
  | Ordering.gt ↦ Ordering.gt
  | Ordering.eq ↦ compare_bytes xs ys
]

abbrev pub is_eq : Ordering → Bool
is_eq Ordering.eq = true
is_eq _ = false

abbrev pub is_lt : Ordering → Bool
is_lt Ordering.lt = true
is_lt _ = false

abbrev pub is_gt : Ordering → Bool
is_gt Ordering.gt = true
is_gt _ = false

-- `bytes.Equal`.
unfoldable pub bytes_equal : Bytes → Bytes → Bool
bytes_equal a b = is_eq (compare_bytes a b)

-- `a` comes strictly before `b`.
abbrev pub Before : Bytes → Bytes → Type 0
Before a b = compare_bytes a b ≡ Ordering.lt

pub Ordering-cases : (o : Ordering) → (o ≡ Ordering.lt) ⊎ ((o ≡ Ordering.eq) ⊎ (o ≡ Ordering.gt))
Ordering-cases Ordering.lt = inl refl
Ordering-cases Ordering.eq = inr (inl refl)
Ordering-cases Ordering.gt = inr (inr refl)

pub compare_bytes_refl : (a : Bytes) → compare_bytes a a ≡ Ordering.eq
unfolding compare_bytes
compare_bytes_refl [] = refl
compare_bytes_refl (x ∷ xs) = ground (arith, compare_bytes_refl xs)

pub eq_of_compare : (a b : Bytes) → compare_bytes a b ≡ Ordering.eq → a ≡ b
unfolding compare_bytes
eq_of_compare [] [] h = refl
eq_of_compare [] (y ∷ ys) h = cc
eq_of_compare (x ∷ xs) [] h = cc
eq_of_compare (x ∷ xs) (y ∷ ys) h = ground (arith, eq_of_compare xs ys)

pub gt_of_Before : (a b : Bytes) → Before a b → compare_bytes b a ≡ Ordering.gt
unfolding compare_bytes
gt_of_Before [] [] h = cc
gt_of_Before [] (y ∷ ys) h = refl
gt_of_Before (x ∷ xs) [] h = cc
gt_of_Before (x ∷ xs) (y ∷ ys) h = ground (arith, gt_of_Before xs ys)

pub Before-of_gt : (a b : Bytes) → compare_bytes a b ≡ Ordering.gt → Before b a
unfolding compare_bytes
Before-of_gt [] [] h = cc
Before-of_gt [] (y ∷ ys) h = cc
Before-of_gt (x ∷ xs) [] h = refl
Before-of_gt (x ∷ xs) (y ∷ ys) h = ground (arith, Before-of_gt xs ys)

pub Before-trans : (a b c : Bytes) → Before a b → Before b c → Before a c
unfolding compare_bytes
Before-trans [] [] c h k = cc
Before-trans [] (y ∷ ys) [] h k = cc
Before-trans [] (y ∷ ys) (z ∷ zs) h k = refl
Before-trans (x ∷ xs) [] c h k = cc
Before-trans (x ∷ xs) (y ∷ ys) [] h k = cc
Before-trans (x ∷ xs) (y ∷ ys) (z ∷ zs) h k = ground (arith, Before-trans xs ys zs)

pub bytes_equal_refl : (a : Bytes) → bytes_equal a a ≡ true
unfolding bytes_equal
bytes_equal_refl a = rw (compare_bytes_refl a)

pub eq_of_bytes_equal : (a b : Bytes) → bytes_equal a b ≡ true → a ≡ b
unfolding bytes_equal
eq_of_bytes_equal a b h = eq_of_compare a b (ground arith)

pub gt_of_gt-Before :
    (a b k : Bytes) → compare_bytes a k ≡ Ordering.gt → Before a b → compare_bytes b k ≡ Ordering.gt
gt_of_gt-Before a b k h l = gt_of_Before k b (Before-trans k a b (Before-of_gt a k h) l)

pub Before-of_Before_le :
    (a b k : Bytes) → Before a b → is_gt (compare_bytes b k) ≡ false → Before a k
Before-of_Before_le a b k l h = elim (Ordering-cases (compare_bytes b k)) [
  | inl e ↦ Before-trans a b k l e
  | inr (inl e) ↦ rw (eq_of_compare b k e) at l
  | inr (inr e) ↦ cc (e, h)
]

pub is_gt_of_Before : (a k : Bytes) → Before a k → is_gt (compare_bytes a k) ≡ false
is_gt_of_Before a k h = rw h

pub gt_of_is_gt : (a k : Bytes) → is_gt (compare_bytes a k) ≡ true → compare_bytes a k ≡ Ordering.gt
gt_of_is_gt a k h = ground arith
