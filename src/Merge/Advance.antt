-- ===== src/Merge/Advance.antt =====
-- One round of the loop that both merges share: the heap behind it, and what the loop emits.
use kora_engine.Prelude.{
  ℕ, zero, suc, ◌+◌, ◌≡◌, refl, ap, ◌∙◌, Option, none, some, List, [], ◌∷◌, ◌++◌, if◌then◌else◌,
  length, arith, All, All-append, All-append_left, All-append_right,
}
use kora_engine.Prelude.Order.{Bytes, Before}
use kora_engine.Sstable.{Entry}
use kora_engine.Sstable.Layout.{IsSorted}
use kora_engine.Sstable.Scanning.{find_entry}
use kora_engine.Merge.{Slot, pop, push_next, is_new, next_last}
use kora_engine.Merge.Newest.{
  prefer, newest, entries_of, contents, IsOrdered, NotBefore, newest-append, contents-append,
  NotBefore_of_Before,
}
use kora_engine.Merge.Heap.{push-between, IsOrdered-remove, IsOrdered-replace}

-- A source of a merge: strictly ascending keys, each of which its copy holds.
abbrev pub IsSource : (Bytes → Option Bytes) → List Entry → Type 0
IsSource copy es = IsSorted es × All (λ (e : Entry). copy e.key ≡ some e.key) es

-- `key` is behind `lastKey`.
abbrev pub Past : Option Bytes → Bytes → Type 0
Past none key = Unit
Past (some last) key = Before last key

abbrev pub Reached : Option Bytes → Bytes → Type 0
Reached none key = Unit
Reached (some last) key = NotBefore last key

abbrev pub heap_size : List Slot → ℕ
heap_size [] = 0
heap_size (s ∷ heap) = length (entries_of s) + heap_size heap

pub record IsHeap (copy : Bytes → Option Bytes) (last : Option Bytes) (heap : List Slot)
    : Type 0 where
  pub ordered : IsOrdered heap
  pub sources : All (λ (s : Slot). IsSource copy (entries_of s)) heap
  pub reached : All (λ (s : Slot). Reached last s.head.key) heap

pub heap_size-append : (a b : List Slot) → heap_size (a ++ b) ≡ heap_size a + heap_size b
heap_size-append [] b = omega arith
heap_size-append (s ∷ a) b = let e = heap_size-append a b in omega arith

-- A live entry in front of what the later rounds emit.
unfoldable pub emitted : Bytes → Option Bytes → List Entry → List Entry
emitted key none more = more
emitted key (some v) more = record { key = key; value = some v } ∷ more

-- What one round of the loop adds to what the later rounds emit.
unfoldable pub kept : Option Bytes → Entry → List Entry → List Entry
kept last e more = if is_new last e.key then emitted e.key e.value more else more

-- All that the loop emits, in order.
unfoldable pub merged : (Bytes → Option Bytes) → ℕ → Option Bytes → List Slot → List Entry
merged copy zero last heap = []
merged copy (suc fuel) last [] = []
merged copy (suc fuel) last (t ∷ heap) =
    let (e, rest) = pop t heap in
    kept last e.head (merged copy fuel (next_last copy last e.head) (push_next e.idx e.iter rest))

-- The heap behind a round in which the slot `l` was taken from between `front` and `back`.
pub record IsAdvanced (copy : Bytes → Option Bytes) (l : Slot) (front back heap : List Slot)
    : Type 0 where
  pub says :
      (key : Bytes)
      → newest key (contents heap)
        ≡ prefer
            (newest key (contents front))
            (prefer (find_entry key l.iter) (newest key (contents back)))
  pub heap_ok : IsHeap copy (some l.head.key) heap
  pub size : heap_size heap + 1 ≡ heap_size (front ++ (l ∷ back))

pub newest-contents :
    (key : Bytes) (a b : List Slot)
    → newest key (contents (a ++ b)) ≡ prefer (newest key (contents a)) (newest key (contents b))
newest-contents key a b =
    ap (newest key) (contents-append a b) ∙ newest-append key (contents a) (contents b)

pub all_NotBefore :
    (m : Bytes) (heap : List Slot)
    → All (λ (t : Slot). Before m t.head.key) heap
    → All (λ (t : Slot). NotBefore m t.head.key) heap
all_NotBefore m [] h = tt
all_NotBefore m (t ∷ heap) (h, hs) = (NotBefore_of_Before m t.head.key h, all_NotBefore m heap hs)

pub advance :
    (copy : Bytes → Option Bytes) (h : Entry) (i : ℕ) (iter : List Entry) (front back : List Slot)
    → IsOrdered (front ++ (record { head = h; idx = i; iter = iter } ∷ back))
    → All
        (λ (s : Slot). IsSource copy (entries_of s))
        (front ++ (record { head = h; idx = i; iter = iter } ∷ back))
    → All (λ (t : Slot). Before h.key t.head.key) front
    → All (λ (t : Slot). NotBefore h.key t.head.key) back
    → IsAdvanced copy
        (record { head = h; idx = i; iter = iter })
        front
        back
        (push_next i iter (front ++ back))
unfolding push_next newest find_entry
advance copy h i [] front back o s ahead behind = record {
  says = λ key. newest-contents key front back;
  heap_ok = record {
    ordered = IsOrdered-remove front _ back o;
    sources =
        All-append (λ (t : Slot). IsSource copy (entries_of t)) front back
          (All-append_left (λ (t : Slot). IsSource copy (entries_of t)) front _ s)
          (All-append_right (λ (t : Slot). IsSource copy (entries_of t)) front (_ ∷ back) s).1;
    reached =
        All-append (λ (t : Slot). NotBefore h.key t.head.key) front back
          (all_NotBefore h.key front ahead) behind;
  };
  size = omega (
    arith,
    heap_size-append front back,
    heap_size-append front (record { head = h; idx = i; iter = [] } ∷ back),
  );
}
advance copy h i (f ∷ fs) front back o s ahead behind =
    let P = λ (t : Slot). IsSource copy (entries_of t) in
    let l : Slot = record { head = h; idx = i; iter = f ∷ fs } in
    let l' : Slot = record { head = f; idx = i; iter = fs } in
    let sb = All-append_right P front (l ∷ back) s in
    rw (push-between l front back o l' refl) (record {
      says = λ key. newest-contents key front (l' ∷ back);
      heap_ok = record {
        ordered = IsOrdered-replace front l l' back refl o;
        sources =
            All-append P front (l' ∷ back) (All-append_left P front (l ∷ back) s)
              ((sb.0.0.1, sb.0.1.1), sb.1);
        reached =
            All-append (λ (t : Slot). NotBefore h.key t.head.key) front (l' ∷ back)
              (all_NotBefore h.key front ahead)
              (NotBefore_of_Before h.key f.key sb.0.0.0.0, behind);
      };
      size = omega (arith, heap_size-append front (l ∷ back), heap_size-append front (l' ∷ back));
    })
