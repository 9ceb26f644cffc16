-- ===== src/Merge/Bounds.antt =====
-- The size of a merge: what it emits comes from the sources and takes no more than they do.
use kora_engine.Prelude.{
  ℕ, zero, suc, ◌+◌, ◌≤◌, ◌≡◌, refl, Option, none, some, List, [], ◌∷◌, ltb, arith, Bool-cases, inl,
  inr, All,
}
use kora_engine.Prelude.Order.{Bytes}
use kora_engine.Sstable.{Entry}
use kora_engine.Merge.{Slot, less, push, pop, push_next, start_heap, is_new, next_last, total}
use kora_engine.Merge.Newest.{entries_of}
use kora_engine.Merge.Advance.{merged, kept, emitted}
use kora_engine.Merge.Start.{merge_of}

-- A measure of entries, and a property of them.
module _ (w : Entry → ℕ) (P : Entry → Type 0) where
  abbrev pub sum : List Entry → ℕ
  sum [] = 0
  sum (e ∷ es) = w e + sum es

  abbrev pub sums : List (List Entry) → ℕ
  sums [] = 0
  sums (src ∷ srcs) = sum src + sums srcs

  abbrev heap_sum : List Slot → ℕ
  heap_sum [] = 0
  heap_sum (s ∷ heap) = sum (entries_of s) + heap_sum heap

  abbrev IsWithin : List Slot → Type 0
  IsWithin [] = Unit
  IsWithin (s ∷ heap) = All P (entries_of s) × IsWithin heap

  push_bounds :
      (s : Slot) (heap : List Slot)
      → All P (entries_of s)
      → IsWithin heap
      → (heap_sum (push s heap) ≡ sum (entries_of s) + heap_sum heap) × IsWithin (push s heap)
  unfolding push
  push_bounds s [] p h = (refl, (p, h))
  push_bounds s (t ∷ heap) p (h, hs) =
      let (e, q) = push_bounds s heap p hs in
      elim (Bool-cases (ltb s.idx t.idx)) [
        | inl b ↦ rw b (refl, (p, (h, hs)))
        | inr b ↦ rw b (omega arith, (h, q))
      ]

  push_next_bounds :
      (i : ℕ) (es : List Entry) (heap : List Slot)
      → All P es
      → IsWithin heap
      → (heap_sum (push_next i es heap) ≡ sum es + heap_sum heap) × IsWithin (push_next i es heap)
  unfolding push_next
  push_next_bounds i [] heap p h = (omega arith, h)
  push_next_bounds i (e ∷ es) heap p h =
      push_bounds (record { head = e; idx = i; iter = es }) heap p h

  pop_bounds :
      (s : Slot) (heap : List Slot)
      → IsWithin (s ∷ heap)
      → (sum (entries_of (pop s heap).0) + heap_sum (pop s heap).1 ≡ heap_sum (s ∷ heap))
        × (All P (entries_of (pop s heap).0) × IsWithin (pop s heap).1)
  unfolding pop
  pop_bounds s [] h = (refl, (h.0, tt))
  pop_bounds s (t ∷ heap) (h, hs) =
      let (e, (p, q)) = pop_bounds t heap hs in
      elim (Bool-cases (less (pop t heap).0 s)) [
        | inl b ↦ rw b (omega arith, (p, (h, q)))
        | inr b ↦ rw b (refl, (h, hs))
      ]

  emitted_bounds :
      (key : Bytes) (value : Option Bytes) (more : List Entry)
      → P (record { key = key; value = value })
      → All P more
      → (sum (emitted key value more) ≤ w (record { key = key; value = value }) + sum more)
        × All P (emitted key value more)
  unfolding emitted
  emitted_bounds key none more p h = (omega arith, h)
  emitted_bounds key (some v) more p h = (omega arith, (p, h))

  kept_bounds :
      (last : Option Bytes) (e : Entry) (more : List Entry)
      → P e
      → All P more
      → (sum (kept last e more) ≤ w e + sum more) × All P (kept last e more)
  unfolding kept
  kept_bounds last e more p h = elim (Bool-cases (is_new last e.key)) [
    | inl t ↦ rw t (emitted_bounds e.key e.value more p h)
    | inr t ↦ rw t (omega arith, h)
  ]

  merged_bounds :
      (copy : Bytes → Option Bytes) (fuel : ℕ) (last : Option Bytes) (heap : List Slot)
      → IsWithin heap
      → (sum (merged copy fuel last heap) ≤ heap_sum heap) × All P (merged copy fuel last heap)
  unfolding merged
  merged_bounds copy zero last heap h = (omega arith, tt)
  merged_bounds copy (suc fuel) last [] h = (omega arith, tt)
  merged_bounds copy (suc fuel) last (t ∷ heap) h =
      let l = (pop t heap).0 in
      let (e, (p, q)) = pop_bounds t heap h in
      let (e', q') = push_next_bounds l.idx l.iter (pop t heap).1 p.1 q in
      let (le, r) =
        merged_bounds copy fuel (next_last copy last l.head) (push_next l.idx l.iter (pop t heap).1)
          q' in
      let (le', r') =
        kept_bounds last l.head
          (merged copy fuel (next_last copy last l.head) (push_next l.idx l.iter (pop t heap).1))
          p.0 r in
      (omega arith, r')

  start_bounds :
      (i : ℕ) (srcs : List (List Entry)) (heap : List Slot)
      → All (All P) srcs
      → IsWithin heap
      → (heap_sum (start_heap i srcs heap) ≡ sums srcs + heap_sum heap)
        × IsWithin (start_heap i srcs heap)
  unfolding start_heap
  start_bounds i [] heap p h = (omega arith, h)
  start_bounds i (src ∷ srcs) heap (p, ps) h =
      let (e, q) = push_next_bounds i src heap p h in
      let (e', q') = start_bounds (suc i) srcs (push_next i src heap) ps q in (omega arith, q')

  pub merge_of_bounds :
      (copy : Bytes → Option Bytes) (srcs : List (List Entry))
      → All (All P) srcs
      → (sum (merge_of copy srcs) ≤ sums srcs) × All P (merge_of copy srcs)
  unfolding merge_of
  merge_of_bounds copy srcs p =
      let (e, q) = start_bounds 0 srcs [] p tt in
      let (le, r) = merged_bounds copy (suc (total srcs)) none (start_heap 0 srcs []) q in
      (omega arith, r)
