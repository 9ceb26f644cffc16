-- ===== src/Memtable/Sorted.antt =====
-- Sorted lists of entries: what a memtable says, and what it makes of an insertion.
use mathlib.Core.Path.{subst}
use Prim.Native.Nat.{Ordering}
use kora_engine.Prelude.{
  ◌+◌, ◌≤◌, ◌≡◌, refl, sym, ap, ◌∙◌, Bool, true, false, Option, none, some, List, [], ◌∷◌,
  if◌then◌else◌, length, arith, All, Bool-cases, inl, inr,
}
use kora_engine.Prelude.Order.{
  Bytes, Before, Before-trans, Before-of_gt, compare_bytes, compare_bytes_refl, eq_of_compare,
  bytes_equal, eq_of_bytes_equal, Ordering-cases,
}
use kora_engine.Sstable.{Entry}
use kora_engine.Sstable.Layout.{IsSorted}
use kora_engine.Sstable.Scanning.{find_entry}
use kora_engine.Memtable.{tree_lookup}

abbrev pub lookup : List Entry → Bytes → Option (Option Bytes)
lookup [] k = none
lookup (e ∷ es) k = if bytes_equal e.key k then some e.value else lookup es k

unfoldable pub put : List Entry → Bytes → Option Bytes → List Entry
put [] k v = record { key = k; value = v } ∷ []
put (e ∷ es) k v =
    let rest = put es k v in
    elim (compare_bytes k e.key) [
      | Ordering.lt ↦ record { key = k; value = v } ∷ e ∷ es
      | Ordering.eq ↦ record { key = k; value = v } ∷ es
      | Ordering.gt ↦ e ∷ rest
    ]

abbrev pub AllBehind : Bytes → List Entry → Type 0
AllBehind a es = All (λ (f : Entry). Before a f.key) es

pub behind_trans : (a b : Bytes) (es : List Entry) → Before a b → AllBehind b es → AllBehind a es
behind_trans a b [] l h = tt
behind_trans a b (e ∷ es) l (h, hs) = (Before-trans a b e.key l h, behind_trans a b es l hs)

pub put-AllBehind :
    (a : Bytes) (es : List Entry) (k : Bytes) (v : Option Bytes)
    → Before a k
    → AllBehind a es
    → AllBehind a (put es k v)
unfolding put
put-AllBehind a [] k v l h = (l, tt)
put-AllBehind a (e ∷ es) k v l (h, hs) = elim (Ordering-cases (compare_bytes k e.key)) [
  | inl o ↦ rw (o, put) (l, (h, hs))
  | inr (inl o) ↦ rw (o, put) (l, hs)
  | inr (inr o) ↦ rw (o, put) (h, put-AllBehind a es k v l hs)
]

pub put-IsSorted :
    (es : List Entry) (k : Bytes) (v : Option Bytes) → IsSorted es → IsSorted (put es k v)
unfolding put
put-IsSorted [] k v s = (tt, tt)
put-IsSorted (e ∷ es) k v (b, s) = elim (Ordering-cases (compare_bytes k e.key)) [
  | inl o ↦ rw (o, put) ((o, behind_trans k e.key es o b), (b, s))
  | inr (inl o) ↦
      let p : e.key ≡ k = sym (eq_of_compare k e.key o) in
      rw (o, put) (subst (λ x. AllBehind x es) p b, s)
  | inr (inr o) ↦
      rw (o, put) (put-AllBehind e.key es k v (Before-of_gt k e.key o) b, put-IsSorted es k v s)
]

pub lookup-put :
    (es : List Entry) (k j : Bytes) (v : Option Bytes)
    → lookup (put es k v) j ≡ (if bytes_equal k j then some v else lookup es j)
unfolding put
lookup-put [] k j v = refl
lookup-put (e ∷ es) k j v = elim (Ordering-cases (compare_bytes k e.key)) [
  | inl o ↦ rw (o, put) refl
  | inr (inl o) ↦
      let p : e.key ≡ k = sym (eq_of_compare k e.key o) in
      rw (o, put, p) (by_both (bytes_equal k j) (some v) (some e.value) (lookup es j))
  | inr (inr o) ↦
      rw (o, put, lookup-put es k j v) (apart (bytes_equal e.key j) (bytes_equal k j) refl refl o)
]
  where
    by_both :
        (b : Bool) (x y z : Option (Option Bytes))
        → (if b then x else z) ≡ (if b then x else if b then y else z)
    by_both true x y z = refl
    by_both false x y z = refl

    apart :
        (a b : Bool)
        → bytes_equal e.key j ≡ a
        → bytes_equal k j ≡ b
        → compare_bytes k e.key ≡ Ordering.gt
        → (if a then some e.value else if b then some v else lookup es j)
          ≡ (if b then some v else if a then some e.value else lookup es j)
    apart true true p q o =
        let r = eq_of_bytes_equal k j q ∙ sym (eq_of_bytes_equal e.key j p) in
        absurd (cc (o, compare_bytes_refl k, ap (compare_bytes k) r))
    apart true false p q o = refl
    apart false true p q o = refl
    apart false false p q o = refl

pub find_entry-lookup : (es : List Entry) (k : Bytes) → find_entry k es ≡ tree_lookup (lookup es k)
unfolding find_entry
find_entry-lookup [] k = refl
find_entry-lookup (e ∷ es) k = elim (Bool-cases (bytes_equal e.key k)) [
  | inl t ↦ rw t refl
  | inr t ↦ rw (t, find_entry-lookup es k) refl
]

pub length-put :
    (es : List Entry) (k : Bytes) (v : Option Bytes) → length (put es k v) ≤ length es + 1
unfolding put
length-put [] k v = omega arith
length-put (e ∷ es) k v = elim (Ordering-cases (compare_bytes k e.key)) [
  | inl o ↦ rw (o, put) (omega arith)
  | inr (inl o) ↦ rw (o, put) (omega arith)
  | inr (inr o) ↦ rw (o, put) (omega (arith, length-put es k v))
]
