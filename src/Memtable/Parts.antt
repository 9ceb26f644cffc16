-- ===== src/Memtable/Parts.antt =====
-- Sorted lists of entries that are put together of parts.
use kora_engine.Prelude.{
  ◌≡◌, refl, ap, false, Option, none, List, [], ◌∷◌, ◌++◌, All, Bool-cases, inl, inr, All-append,
}
use kora_engine.Prelude.Order.{
  Bytes, Before, bytes_equal, gt_of_Before, compare_bytes, Ordering-cases,
}
use kora_engine.Sstable.{Entry}
use kora_engine.Sstable.Layout.{IsSorted}
use kora_engine.Memtable.Sorted.{lookup, put, AllBehind}

abbrev pub AllOther : Bytes → List Entry → Type 0
AllOther k es = All (λ (e : Entry). bytes_equal e.key k ≡ false) es

abbrev pub AllBefore : Bytes → List Entry → Type 0
AllBefore k es = All (λ (e : Entry). Before e.key k) es

pub all_entries_map :
    {P Q : Entry → Type 0} (f : (e : Entry) → P e → Q e) (es : List Entry) → All P es → All Q es
all_entries_map f [] h = tt
all_entries_map f (e ∷ es) (h, hs) = (f e h, all_entries_map f es hs)

pub lookup-other : (k : Bytes) (es : List Entry) → AllOther k es → lookup es k ≡ none
lookup-other k [] h = refl
lookup-other k (e ∷ es) (h, hs) = rw h (lookup-other k es hs)

pub lookup-append_other :
    (k : Bytes) (es fs : List Entry) → AllOther k es → lookup (es ++ fs) k ≡ lookup fs k
lookup-append_other k [] fs h = refl
lookup-append_other k (e ∷ es) fs (h, hs) = rw h (lookup-append_other k es fs hs)

pub lookup-append_left :
    (k : Bytes) (es fs : List Entry) → AllOther k fs → lookup (es ++ fs) k ≡ lookup es k
lookup-append_left k [] fs h = lookup-other k fs h
lookup-append_left k (e ∷ es) fs h = elim (Bool-cases (bytes_equal e.key k)) [
  | inl t ↦ rw t refl
  | inr t ↦ rw t (lookup-append_left k es fs h)
]

pub put-append_before :
    (k : Bytes) (v : Option Bytes) (es fs : List Entry)
    → AllBefore k es
    → put (es ++ fs) k v ≡ es ++ put fs k v
unfolding put
put-append_before k v [] fs h = refl
put-append_before k v (e ∷ es) fs (h, hs) =
    rw (gt_of_Before e.key k h, put) (ap (λ l. e ∷ l) (put-append_before k v es fs hs))

pub put-first :
    (k : Bytes) (v : Option Bytes) (fs : List Entry)
    → AllBehind k fs
    → put fs k v ≡ record { key = k; value = v } ∷ fs
unfolding put
put-first k v [] h = refl
put-first k v (f ∷ fs) (h, hs) = rw (h, put) refl

pub put-append_behind :
    (k : Bytes) (v : Option Bytes) (es fs : List Entry)
    → AllBehind k fs
    → put (es ++ fs) k v ≡ put es k v ++ fs
unfolding put
put-append_behind k v [] fs h = put-first k v fs h
put-append_behind k v (e ∷ es) fs h = elim (Ordering-cases (compare_bytes k e.key)) [
  | inl o ↦ rw (o, put) refl
  | inr (inl o) ↦ rw (o, put) refl
  | inr (inr o) ↦ rw (o, put) (ap (λ l. e ∷ l) (put-append_behind k v es fs h))
]

pub IsSorted-append :
    (es fs : List Entry)
    → IsSorted es
    → IsSorted fs
    → All (λ (e : Entry). AllBehind e.key fs) es
    → IsSorted (es ++ fs)
IsSorted-append [] fs s t h = t
IsSorted-append (e ∷ es) fs (b, s) t (h, hs) =
    (All-append (λ (f : Entry). Before e.key f.key) es fs b h, IsSorted-append es fs s t hs)
