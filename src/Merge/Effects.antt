-- ===== src/Merge/Effects.antt =====
-- The loop of a merge with the state of the code: a list of results, or the writer of a table.
use kora_engine.Prelude.{
  ℕ, zero, suc, ◌+◌, ◌<◌, ◌≡◌, refl, Option, none, some, List, [], ◌∷◌, ltb, length, arith,
  Bool-cases, inl, inr, All,
}
use kora_engine.Prelude.Order.{Bytes}
use kora_engine.Sstable.{Entry}
use kora_engine.Merge.{
  Slot, less, push, pop, push_next, start_heap, is_new, next_last, handle, merge_loop, total,
}
use kora_engine.Merge.Newest.{entries_of}
use kora_engine.Merge.Advance.{IsSource, heap_size, merged, kept, emitted}
use kora_engine.Merge.Start.{start_heap-IsStarted, merge_of}

heap_size-push :
    (s : Slot) (heap : List Slot) → heap_size (push s heap) ≡ length (entries_of s) + heap_size heap
unfolding push
heap_size-push s [] = refl
heap_size-push s (t ∷ heap) = elim (Bool-cases (ltb s.idx t.idx)) [
  | inl q ↦ rw q
  | inr q ↦ rw q (omega (arith, heap_size-push s heap))
]

heap_size-push_next :
    (i : ℕ) (es : List Entry) (heap : List Slot)
    → heap_size (push_next i es heap) ≡ length es + heap_size heap
unfolding push_next
heap_size-push_next i [] heap = omega arith
heap_size-push_next i (e ∷ es) heap = heap_size-push (record { head = e; idx = i; iter = es }) heap

heap_size-pop :
    (s : Slot) (heap : List Slot)
    → length (entries_of (pop s heap).0) + heap_size (pop s heap).1 ≡ heap_size (s ∷ heap)
unfolding pop
heap_size-pop s [] = refl
heap_size-pop s (t ∷ heap) = elim (Bool-cases (less (pop t heap).0 s)) [
  | inl q ↦ rw q (omega (arith, heap_size-pop t heap))
  | inr q ↦ rw q
]

-- Every round takes one entry.
heap_size_round :
    (t : Slot) (heap : List Slot)
    → heap_size (push_next (pop t heap).0.idx (pop t heap).0.iter (pop t heap).1) + 1
      ≡ heap_size (t ∷ heap)
heap_size_round t heap = omega (
  arith,
  heap_size-push_next (pop t heap).0.idx (pop t heap).0.iter (pop t heap).1,
  heap_size-pop t heap,
)

-- The effects of the live entries, one behind the other.
module _ {ℓ} {S : Type ℓ} (emit : Bytes → Bytes → S → Option S) where
  unfoldable pub deliver_one : Bytes → Option Bytes → S → Option S
  deliver_one key none s = some s
  deliver_one key (some v) s = emit key v s

  unfoldable pub deliver : List Entry → S → Option S
  unfolding deliver_one
  deliver [] s = some s
  deliver (e ∷ es) s = elim (deliver_one e.key e.value s) [ none ↦ none | some s' ↦ deliver es s' ]

  handle_value : Bytes → Option Bytes → S → Option S
  handle_value key value s = elim value [ none ↦ some s | some v ↦ emit key v s ]

  round-deliver :
      (key : Bytes) (value : Option Bytes) (more : List Entry) (rest : S → Option S) (s : S)
      → ((s' : S) → rest s' ≡ deliver more s')
      → (elim (handle_value key value s) [ none ↦ none | some s' ↦ rest s' ])
        ≡ deliver (emitted key value more) s
  unfolding handle_value emitted deliver deliver_one
  round-deliver key none more rest s h = h s
  round-deliver key (some v) more rest s h = with_result (emit key v s)
    where
      with_result :
          (o : Option S)
          → (elim o [ none ↦ none | some s' ↦ rest s' ])
            ≡ (elim o [ none ↦ none | some s' ↦ deliver more s' ])
      with_result none = refl
      with_result (some s') = h s'

module _ {ℓ} {S : Type ℓ} (copy : Bytes → Option Bytes) (emit : Bytes → Bytes → S → Option S) where
  round_lem :
      (last : Option Bytes) (e : Entry) (more : List Entry) (rest : S → Option S) (s : S)
      → ((s' : S) → rest s' ≡ deliver emit more s')
      → (elim (handle copy emit last e s) [ none ↦ none | some s' ↦ rest s' ])
        ≡ deliver emit (kept last e more) s
  unfolding handle kept handle_value
  round_lem last e more rest s h = elim (Bool-cases (is_new last e.key)) [
    | inl t ↦ rw t (round-deliver emit e.key e.value more rest s h)
    | inr t ↦ rw t (h s)
  ]

  pub merge_loop-deliver :
      (fuel : ℕ) (last : Option Bytes) (heap : List Slot) (s : S)
      → heap_size heap < fuel
      → merge_loop copy emit fuel last heap s ≡ deliver emit (merged copy fuel last heap) s
  unfolding merge_loop merged
  merge_loop-deliver zero last heap s h = absurd (omega arith)
  merge_loop-deliver (suc fuel) last [] s h = unfold deliver in refl
  merge_loop-deliver (suc fuel) last (t ∷ heap) s h =
      let l = (pop t heap).0 in
      let smaller = heap_size_round t heap in
      round_lem last l.head _ _ s (λ s'.
        merge_loop-deliver fuel (next_last copy last l.head) (push_next l.idx l.iter (pop t heap).1)
          s' (omega arith))

abbrev pub IsLive : Entry → Type 0
IsLive e = (v : Bytes) × (e.value ≡ some v)

emitted-IsLive :
    (key : Bytes) (value : Option Bytes) (more : List Entry)
    → All IsLive more
    → All IsLive (emitted key value more)
unfolding emitted
emitted-IsLive key none more h = h
emitted-IsLive key (some v) more h = ((v, refl), h)

kept-IsLive :
    (last : Option Bytes) (e : Entry) (more : List Entry)
    → All IsLive more
    → All IsLive (kept last e more)
unfolding kept
kept-IsLive last e more h = elim (Bool-cases (is_new last e.key)) [
  | inl t ↦ rw t (emitted-IsLive e.key e.value more h)
  | inr t ↦ rw t h
]

pub merged-IsLive :
    (copy : Bytes → Option Bytes) (fuel : ℕ) (last : Option Bytes) (heap : List Slot)
    → All IsLive (merged copy fuel last heap)
unfolding merged
merged-IsLive copy zero last heap = tt
merged-IsLive copy (suc fuel) last [] = tt
merged-IsLive copy (suc fuel) last (t ∷ heap) =
    let l = (pop t heap).0 in
    kept-IsLive last l.head _
      (merged-IsLive copy fuel (next_last copy last l.head) (push_next l.idx l.iter (pop t heap).1))

-- The loop from the start, with the code's state.
pub merge_loop-merge_of {ℓ} :
    {S : Type ℓ} (copy : Bytes → Option Bytes) (emit : Bytes → Bytes → S → Option S)
    (srcs : List (List Entry)) (s : S)
    → All (IsSource copy) srcs
    → merge_loop copy emit (suc (total srcs)) none (start_heap 0 srcs []) s
      ≡ deliver emit (merge_of copy srcs) s
unfolding merge_of
merge_loop-merge_of copy emit srcs s h =
    let r = start_heap-IsStarted copy 0 srcs [] tt tt tt h in
    let size = r.size in
    merge_loop-deliver copy emit (suc (total srcs)) none (start_heap 0 srcs []) s (omega arith)

pub merge_of-IsLive :
    (copy : Bytes → Option Bytes) (srcs : List (List Entry)) → All IsLive (merge_of copy srcs)
unfolding merge_of
merge_of-IsLive copy srcs = merged-IsLive copy (suc (total srcs)) none (start_heap 0 srcs [])
