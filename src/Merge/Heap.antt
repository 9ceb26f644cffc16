-- ===== src/Merge/Heap.antt =====
-- The heap of a merge: what it returns, and where a slot goes back to.
use mathlib.Core.Path.{subst}
use kora_engine.Prelude.{
  ℕ, ◌<◌, ◌≡◌, ◌⊎◌, refl, sym, ap, true, false, List, [], ◌∷◌, ◌++◌, ltb, arith, inl, inr, All,
  All-append, All-append_right_head,
}
use kora_engine.Prelude.Order.{
  Bytes, Before, compare_bytes, compare_bytes_refl, eq_of_compare, bytes_equal, Before-of_gt,
  Ordering-cases, Before-trans,
}
use kora_engine.Sstable.{Entry}
use kora_engine.Sstable.Reader.{absent, entry_lookup}
use kora_engine.Sstable.Layout.{IsSorted}
use kora_engine.Sstable.Scanning.{find_entry, find_entry-behind}
use kora_engine.Merge.{Slot, less, push, pop}
use kora_engine.Merge.Newest.{
  newest, entries_of, contents, IsOrdered, NotBefore, Cut, NotBefore_of_Before, NotBefore_refl,
  NotBefore-Before, NotBefore_trans,
}

less-cases :
    (a b : Slot)
    → b.idx < a.idx
    → ((less a b ≡ true) × Before a.head.key b.head.key)
      ⊎ ((less a b ≡ false) × NotBefore b.head.key a.head.key)
unfolding less
less-cases a b l = elim (Ordering-cases (compare_bytes a.head.key b.head.key)) [
  | inl e ↦ inl (rw e, e)
  | inr (inl e) ↦
      let q : ltb a.idx b.idx ≡ false = ground arith in
      inr (rw (e, q), rw (eq_of_compare a.head.key b.head.key e) (NotBefore_refl b.head.key))
  | inr (inr e) ↦
      inr (rw e, NotBefore_of_Before b.head.key a.head.key (Before-of_gt a.head.key b.head.key e))
]

all_Before :
    (a b : Bytes) (heap : List Slot)
    → NotBefore a b
    → All (λ (t : Slot). Before b t.head.key) heap
    → All (λ (t : Slot). NotBefore a t.head.key) heap
all_Before a b [] n h = tt
all_Before a b (t ∷ heap) n (h, hs) = (
  NotBefore_of_Before a t.head.key (NotBefore-Before a b t.head.key n h),
  all_Before a b heap n hs,
)

all_NotBefore :
    (a b : Bytes) (heap : List Slot)
    → NotBefore a b
    → All (λ (t : Slot). NotBefore b t.head.key) heap
    → All (λ (t : Slot). NotBefore a t.head.key) heap
all_NotBefore a b [] n h = tt
all_NotBefore a b (t ∷ heap) n (h, hs) =
    (NotBefore_trans a b t.head.key n h, all_NotBefore a b heap n hs)

Cut-later :
    (s l : Slot) (heap rest : List Slot)
    → Cut heap l rest
    → Before l.head.key s.head.key
    → Cut (s ∷ heap) l (s ∷ rest)
Cut-later s l heap rest c b = record {
  front = s ∷ c.front;
  back = c.back;
  whole = ap (λ h. s ∷ h) c.whole;
  others = ap (λ h. s ∷ h) c.others;
  ahead = (b, c.ahead);
  behind = c.behind;
}

Cut-first :
    (s l : Slot) (heap rest : List Slot)
    → Cut heap l rest
    → NotBefore s.head.key l.head.key
    → Cut (s ∷ heap) s heap
Cut-first s l heap rest c n = record {
  front = [];
  back = heap;
  whole = refl;
  others = refl;
  ahead = tt;
  behind = rw (c.whole) (
      All-append (λ (t : Slot). NotBefore s.head.key t.head.key) c.front (l ∷ c.back)
        (all_Before s.head.key l.head.key c.front n c.ahead)
        (n, all_NotBefore s.head.key l.head.key c.back n c.behind));
}

-- What `Pop` returns is least: before the keys of newer sources, and not behind those of older ones.
pub pop-Cut :
    (s : Slot) (heap : List Slot)
    → IsOrdered (s ∷ heap)
    → Cut (s ∷ heap) (pop s heap).0 (pop s heap).1
unfolding pop
pop-Cut s [] o = record {
  front = [];
  back = [];
  whole = refl;
  others = refl;
  ahead = tt;
  behind = tt;
}
pop-Cut s (t ∷ heap) (o, os) =
    let c = pop-Cut t heap os in
    let l = (pop t heap).0 in
    elim (less-cases l s (
      All-append_right_head (λ (u : Slot). s.idx < u.idx) c.front l c.back
        (subst (λ h. All (λ (u : Slot). s.idx < u.idx) h) c.whole o))) [
          | inl (q, b) ↦ rw q (Cut-later s l (t ∷ heap) (pop t heap).1 c b)
          | inr (q, n) ↦ rw q (Cut-first s l (t ∷ heap) (pop t heap).1 c n)
        ]

-- A slot goes back to where it came from.
pub push-between :
    (l : Slot) (front back : List Slot)
    → IsOrdered (front ++ (l ∷ back))
    → (l' : Slot) → l'.idx ≡ l.idx
    → push l' (front ++ back) ≡ front ++ (l' ∷ back)
unfolding push
push-between l [] [] o l' e = refl
push-between l [] (t ∷ back) ((o, os), p) l' e =
    let q : ltb l'.idx t.idx ≡ true = ground (arith, e, o) in rw q
push-between l (s ∷ front) back (o, os) l' e =
    let lt : s.idx < l.idx = All-append_right_head (λ (u : Slot). s.idx < u.idx) front l back o in
    let q : ltb l'.idx s.idx ≡ false = ground arith in
    rw q (ap (λ h. s ∷ h) (push-between l front back os l' e))

later :
    (n : ℕ) (front : List Slot) (l : Slot) (back : List Slot)
    → All (λ (u : Slot). n < u.idx) (front ++ (l ∷ back))
    → All (λ (u : Slot). n < u.idx) (front ++ back)
later n [] l back h = h.1
later n (f ∷ front) l back (h, hs) = (h, later n front l back hs)

pub IsOrdered-remove :
    (front : List Slot) (l : Slot) (back : List Slot)
    → IsOrdered (front ++ (l ∷ back))
    → IsOrdered (front ++ back)
IsOrdered-remove [] l back o = o.1
IsOrdered-remove (s ∷ front) l back (o, os) =
    (later s.idx front l back o, IsOrdered-remove front l back os)

later_same :
    (n : ℕ) (front : List Slot) (l l' : Slot) (back : List Slot)
    → l'.idx ≡ l.idx
    → All (λ (u : Slot). n < u.idx) (front ++ (l ∷ back))
    → All (λ (u : Slot). n < u.idx) (front ++ (l' ∷ back))
later_same n [] l l' back e (h, hs) = (rw e h, hs)
later_same n (f ∷ front) l l' back e (h, hs) = (h, later_same n front l l' back e hs)

pub IsOrdered-replace :
    (front : List Slot) (l l' : Slot) (back : List Slot)
    → l'.idx ≡ l.idx
    → IsOrdered (front ++ (l ∷ back))
    → IsOrdered (front ++ (l' ∷ back))
IsOrdered-replace [] l l' back e (o, os) =
    (subst (λ n. All (λ (u : Slot). n < u.idx) back) (sym e) o, os)
IsOrdered-replace (s ∷ front) l l' back e (o, os) =
    (later_same s.idx front l l' back e o, IsOrdered-replace front l l' back e os)

-- Below the first key of every sorted source, no source speaks of a key.
pub newest_ahead :
    (key : Bytes) (heap : List Slot)
    → All (λ (s : Slot). Before key s.head.key) heap
    → All (λ (s : Slot). IsSorted (entries_of s)) heap
    → newest key (contents heap) ≡ absent
unfolding newest
newest_ahead key [] b s = refl
newest_ahead key (t ∷ heap) (b, bs) ((h, s), ss) =
    rw (find_entry-behind key (entries_of t) (b, all_behind t.iter h)) (newest_ahead key heap bs ss)
  where
    all_behind :
        (es : List Entry)
        → All (λ (f : Entry). Before t.head.key f.key) es
        → All (λ (f : Entry). Before key f.key) es
    all_behind [] g = tt
    all_behind (f ∷ fs) g = (Before-trans key t.head.key f.key b g.0, all_behind fs g.1)

pub find_entry_past :
    (key : Bytes) (e : Entry) (es : List Entry)
    → Before e.key key
    → find_entry key (e ∷ es) ≡ find_entry key es
unfolding find_entry bytes_equal
find_entry_past key e es h = rw (h, find_entry)

pub find_entry_here :
    (e : Entry) (es : List Entry) → find_entry e.key (e ∷ es) ≡ entry_lookup e.value
unfolding find_entry bytes_equal
find_entry_here e es = rw (compare_bytes_refl e.key, find_entry)
