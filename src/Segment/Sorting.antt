-- ===== src/Segment/Sorting.antt =====
-- `sortIDs` of internal/store/segment.go returns the same ids in ascending order.
use mathlib.Core.List.{reverse, Perm, reverse-append, reverse_perm, perm_middle, append-nil}
use mathlib.Core.List.Perm
use kora_engine.Prelude.{ℕ, ◌≤◌, List, [], ◌∷◌, ◌++◌, ltb, arith, Bool-cases, inl, inr, All}
use kora_engine.Segment.{sift_left, sort_loop, sort_ids}

-- Every element is at least as great as those behind it.
abbrev IsDescending : List ℕ → Type 0
IsDescending [] = Unit
IsDescending (x ∷ xs) = All (λ y. y ≤ x) xs × IsDescending xs

abbrev pub IsAscending : List ℕ → Type 0
IsAscending [] = Unit
IsAscending (x ∷ xs) = All (λ y. x ≤ y) xs × IsAscending xs

All-le : (a b : ℕ) (xs : List ℕ) → a ≤ b → All (λ y. y ≤ a) xs → All (λ y. y ≤ b) xs
All-le a b [] h k = tt
All-le a b (x ∷ xs) h k = (omega arith, All-le a b xs h k.1)

All-sift_left :
    (b id : ℕ) (xs : List ℕ) → id ≤ b → All (λ y. y ≤ b) xs → All (λ y. y ≤ b) (sift_left id xs)
unfolding sift_left
All-sift_left b id [] h k = (h, tt)
All-sift_left b id (x ∷ xs) h k = elim (Bool-cases (ltb id x)) [
  | inl e ↦ rw e (k.0, All-sift_left b id xs h k.1)
  | inr e ↦ rw e (h, (k.0, k.1))
]

sift_left-IsDescending : (id : ℕ) (xs : List ℕ) → IsDescending xs → IsDescending (sift_left id xs)
unfolding sift_left
sift_left-IsDescending id [] h = (tt, tt)
sift_left-IsDescending id (x ∷ xs) h = elim (Bool-cases (ltb id x)) [
  | inl e ↦ rw e (All-sift_left x id xs (ground arith) h.0, sift_left-IsDescending id xs h.1)
  | inr e ↦ let le : x ≤ id = ground arith in rw e ((le, All-le x id xs le h.0), (h.0, h.1))
]

sort_loop-IsDescending :
    (sorted ids : List ℕ) → IsDescending sorted → IsDescending (sort_loop sorted ids)
unfolding sort_loop
sort_loop-IsDescending sorted [] h = h
sort_loop-IsDescending sorted (id ∷ ids) h =
    sort_loop-IsDescending (sift_left id sorted) ids (sift_left-IsDescending id sorted h)

sift_left-perm : (id : ℕ) (xs : List ℕ) → Perm (sift_left id xs) (id ∷ xs)
unfolding sift_left
sift_left-perm id [] = Perm.refl _
sift_left-perm id (x ∷ xs) = elim (Bool-cases (ltb id x)) [
  | inl e ↦ rw e (Perm.trans (Perm.cons x (sift_left-perm id xs)) (Perm.swap id x xs))
  | inr e ↦ rw e (Perm.refl _)
]

sort_loop-perm : (sorted ids : List ℕ) → Perm (sort_loop sorted ids) (ids ++ sorted)
unfolding sort_loop
sort_loop-perm sorted [] = Perm.refl _
sort_loop-perm sorted (id ∷ ids) =
    Perm.trans (sort_loop-perm (sift_left id sorted) ids)
      (Perm.trans (Perm.append_left ids (sift_left-perm id sorted)) (perm_middle ids sorted))

All-snoc : (P : ℕ → Type 0) (x : ℕ) (xs : List ℕ) → All P xs → P x → All P (xs ++ x ∷ [])
All-snoc P x [] h k = (k, tt)
All-snoc P x (y ∷ ys) h k = (h.0, All-snoc P x ys h.1 k)

All-reverse : (P : ℕ → Type 0) (xs : List ℕ) → All P xs → All P (reverse xs)
All-reverse P [] h = tt
All-reverse P (x ∷ xs) h =
    rw (reverse-append (x ∷ []) xs) (All-snoc P x (reverse xs) (All-reverse P xs h.1) h.0)

IsAscending-snoc :
    (x : ℕ) (xs : List ℕ) → IsAscending xs → All (λ y. y ≤ x) xs → IsAscending (xs ++ x ∷ [])
IsAscending-snoc x [] h k = (tt, tt)
IsAscending-snoc x (y ∷ ys) h k =
    (All-snoc (λ z. y ≤ z) x ys h.0 k.0, IsAscending-snoc x ys h.1 k.1)

IsAscending-reverse : (xs : List ℕ) → IsDescending xs → IsAscending (reverse xs)
IsAscending-reverse [] h = tt
IsAscending-reverse (x ∷ xs) h =
    rw (reverse-append (x ∷ []) xs) (
      IsAscending-snoc x (reverse xs) (IsAscending-reverse xs h.1)
        (All-reverse (λ y. y ≤ x) xs h.0))

-- `sortIDs` puts the ids in ascending order and loses and repeats none.
pub sort_ids_lem : (ids : List ℕ) → IsAscending (sort_ids ids) × Perm (sort_ids ids) ids
unfolding sort_ids
sort_ids_lem ids = (
  IsAscending-reverse (sort_loop [] ids) (sort_loop-IsDescending [] ids tt),
  Perm.trans (reverse_perm (sort_loop [] ids)) (rw append-nil at (sort_loop-perm [] ids)),
)
