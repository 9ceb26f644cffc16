-- ===== src/Merge/Start.antt =====
-- The start of a merge, and its loop from there with the code's own state.
use kora_engine.Prelude.{
  ℕ, suc, ◌+◌, ◌<◌, ◌≡◌, refl, sym, ap, ◌∙◌, false, Option, none, List, [], ◌∷◌, ◌++◌, ltb, length,
  arith, All, All-append,
}
use kora_engine.Prelude.Order.{Bytes}
use kora_engine.Sstable.{Entry}
use kora_engine.Sstable.Layout.{IsSorted}
use kora_engine.Sstable.Scanning.{find_entry}
use kora_engine.Merge.{Slot, push, push_next, start_heap, total}
use kora_engine.Merge.Newest.{
  prefer, newest, live, entries_of, contents, IsOrdered, prefer-absent, prefer_assoc, newest-append,
  contents-append,
}
use kora_engine.Merge.Advance.{IsSource, Reached, heap_size, merged}
use kora_engine.Merge.Loop.{merged_lem}

pub push_last :
    (s : Slot) (heap : List Slot)
    → All (λ (t : Slot). t.idx < s.idx) heap
    → push s heap ≡ heap ++ (s ∷ [])
unfolding push
push_last s [] h = refl
push_last s (t ∷ heap) (h, hs) =
    let q : ltb s.idx t.idx ≡ false = ground arith in rw q (ap (λ l. t ∷ l) (push_last s heap hs))

pub IsOrdered-last :
    (heap : List Slot) (s : Slot)
    → IsOrdered heap
    → All (λ (t : Slot). t.idx < s.idx) heap
    → IsOrdered (heap ++ (s ∷ []))
IsOrdered-last [] s o h = (tt, tt)
IsOrdered-last (t ∷ heap) s (o, os) (h, hs) =
    (All-append (λ (u : Slot). t.idx < u.idx) heap (s ∷ []) o (h, tt), IsOrdered-last heap s os hs)

pub below_suc :
    (n : ℕ) (heap : List Slot)
    → All (λ (t : Slot). t.idx < n) heap
    → All (λ (t : Slot). t.idx < suc n) heap
below_suc n [] h = tt
below_suc n (t ∷ heap) (h, hs) = (omega arith, below_suc n heap hs)

-- The heap `out` holds the slots of `heap` and the sources.
pub record IsStarted (copy : Bytes → Option Bytes) (srcs : List (List Entry)) (heap out : List Slot)
    : Type 0 where
  pub ordered : IsOrdered out
  pub sources : All (λ (s : Slot). IsSource copy (entries_of s)) out
  pub says :
      (key : Bytes)
      → newest key (contents out) ≡ prefer (newest key (contents heap)) (newest key srcs)
  pub size : heap_size out ≡ heap_size heap + total srcs

pub heap_size_last :
    (heap : List Slot) (s : Slot)
    → heap_size (heap ++ (s ∷ [])) ≡ heap_size heap + length (entries_of s)
heap_size_last [] s = omega arith
heap_size_last (t ∷ heap) s = omega (arith, heap_size_last heap s)

pub start_heap-IsStarted :
    (copy : Bytes → Option Bytes) (i : ℕ) (srcs : List (List Entry)) (heap : List Slot)
    → IsOrdered heap
    → All (λ (t : Slot). t.idx < i) heap
    → All (λ (s : Slot). IsSource copy (entries_of s)) heap
    → All (IsSource copy) srcs
    → IsStarted copy srcs heap (start_heap i srcs heap)
unfolding start_heap newest total push_next find_entry
start_heap-IsStarted copy i [] heap o b h hs = record {
  ordered = o;
  sources = h;
  says = λ key. sym (prefer-absent (newest key (contents heap)));
  size = omega arith;
}
start_heap-IsStarted copy i ([] ∷ srcs) heap o b h (e, hs) =
    let r = start_heap-IsStarted copy (suc i) srcs heap o (below_suc i heap b) h hs in
    let size = r.size in
    record { ordered = r.ordered; sources = r.sources; says = r.says; size = omega arith }
start_heap-IsStarted copy i ((e ∷ es) ∷ srcs) heap o b h (hd, hs) =
    let s : Slot = record { head = e; idx = i; iter = es } in
    let P = λ (u : Slot). IsSource copy (entries_of u) in
    let r =
      start_heap-IsStarted copy (suc i) srcs (heap ++ (s ∷ [])) (IsOrdered-last heap s o b)
        (All-append (λ (t : Slot). t.idx < suc i) heap (s ∷ []) (below_suc i heap b)
          (omega arith, tt))
        (All-append P heap (s ∷ []) h (hd, tt)) hs in
    let size = r.size in
    rw (push_last s heap b) (record {
      ordered = r.ordered;
      sources = r.sources;
      says = λ key.
          r.says key
          ∙ ap (λ x. prefer x (newest key srcs))
              (ap (newest key) (contents-append heap (s ∷ []))
                ∙ newest-append key (contents heap) (contents (s ∷ [])))
          ∙ prefer_assoc (newest key (contents heap)) (newest key (contents (s ∷ [])))
              (newest key srcs)
          ∙ ap (λ x. prefer (newest key (contents heap)) (prefer x (newest key srcs)))
              (prefer-absent (find_entry key (e ∷ es)));
      size = omega (arith, heap_size_last heap s);
    })

-- What the merge of the sources emits.
unfoldable pub merge_of : (Bytes → Option Bytes) → List (List Entry) → List Entry
merge_of copy srcs = merged copy (suc (total srcs)) none (start_heap 0 srcs [])

-- The merge of sorted sources has strictly ascending keys, and has of each key the value that the
-- newest source has that speaks of it.
pub merge_of-newest :
    (copy : Bytes → Option Bytes) (srcs : List (List Entry))
    → All (IsSource copy) srcs
    → IsSorted (merge_of copy srcs)
      × ((key : Bytes) → find_entry key (merge_of copy srcs) ≡ live (newest key srcs))
unfolding merge_of
merge_of-newest copy srcs h =
    let r = start_heap-IsStarted copy 0 srcs [] tt tt tt h in
    let size = r.size in
    let g =
      merged_lem copy (suc (total srcs)) none (start_heap 0 srcs [])
        (record {
          ordered = r.ordered;
          sources = r.sources;
          reached = all_reached (start_heap 0 srcs []);
        })
        (omega arith) in
    (g.sorted, λ key. g.says key tt ∙ ap live (r.says key ∙ unfold newest in refl))
  where
    all_reached : (heap : List Slot) → All (λ (s : Slot). Reached none s.head.key) heap
    all_reached [] = tt
    all_reached (s ∷ heap) = (tt, all_reached heap)
