-- ===== src/Manifest/Listed.antt =====
-- Membership of an id in a list, the map of internal/store/manifest.go.
use kora_engine.Prelude.{ℕ, ◌≤◌, ◌<◌, ◌≡◌, ◌≢◌, true, All, All-append, List, [], ◌∷◌, ◌++◌, arith}
use kora_engine.Manifest.{contains}
use kora_engine.Manifest.Validity.{Distinct, AreAllocated}

-- An id of one list is in both together.
pub contains_left : (xs ys : List ℕ) (j : ℕ) → contains xs j ≡ true → contains (xs ++ ys) j ≡ true
unfolding contains
contains_left [] ys j h = cc
contains_left (x ∷ xs) ys j h = ground (arith, contains_left xs ys j)

pub contains_right : (xs ys : List ℕ) (j : ℕ) → contains ys j ≡ true → contains (xs ++ ys) j ≡ true
unfolding contains
contains_right [] ys j h = h
contains_right (x ∷ xs) ys j h = ground (arith, contains_right xs ys j h)

pub contains_self : (id : ℕ) (ids : List ℕ) → contains (id ∷ ids) id ≡ true
unfolding contains
contains_self id ids = ground arith

pub contains_behind :
    (id j : ℕ) (ids : List ℕ) → contains ids j ≡ true → contains (id ∷ ids) j ≡ true
unfolding contains
contains_behind id j ids h = ground arith

pub all_below : (n k : ℕ) (ids : List ℕ) → n ≤ k → All (λ id. id < n) ids → All (λ id. id < k) ids
all_below n k [] l h = tt
all_below n k (id ∷ ids) l (h, hs) = (omega arith, all_below n k ids l hs)

-- A new id behind those that are given.
pub AreAllocated-append :
    (n s k : ℕ) (ids : List ℕ)
    → AreAllocated n ids
    → n ≤ s
    → s < k
    → AreAllocated k (ids ++ (s ∷ []))
AreAllocated-append n s k ids (d, b) l g = (
  distinct ids d b,
  All-append (λ id. id < k) ids (s ∷ []) (all_below n k ids (omega arith) b) (g, tt),
)
  where
    distinct : (xs : List ℕ) → Distinct xs → All (λ id. id < n) xs → Distinct (xs ++ (s ∷ []))
    distinct [] d b = (tt, tt)
    distinct (x ∷ xs) (a, d) (b, bs) = (
      All-append (λ y. y ≢ x) xs (s ∷ []) a ((λ e. absurd (omega (arith, e, b, l))), tt),
      distinct xs d bs,
    )

pub contains_below :
    (n : ℕ) (ids : List ℕ) (j : ℕ) → All (λ id. id < n) ids → contains ids j ≡ true → j < n
unfolding contains
contains_below n [] j h k = cc
contains_below n (id ∷ ids) j (h, hs) k = ground (arith, contains_below n ids j hs)
