-- ===== src/Merge.antt =====
-- internal/store/scan.go and internal/store/sst_compact.go: the merge of sorted sources, newest
-- first. An iterator is the list of the entries that it still yields. The heap of `container/heap` is
-- the list of its slots by their source; `Pop` takes the least by `Less`.
pub mod Newest
pub mod Heap
pub mod Advance
pub mod Loop
pub mod Start
pub mod Effects
pub mod Bounds
pub mod Scan
pub mod Tables
use kora_engine.Prelude.{
  ℕ, zero, suc, ◌+◌, Bool, true, false, not, Option, none, some, List, [], ◌∷◌, ◌++◌, ltb,
  if◌then◌else◌, length,
}
use kora_engine.Prelude.Order.{Bytes, compare_bytes, bytes_equal, is_eq, is_lt}
use kora_engine.Sstable.{Entry}
use kora_engine.Sstable.Writer.{Writer, new_writer, set, close}
use kora_engine.Sstable.Reader.{Reader, below_start, beyond_end, scan_iterator, compaction_iterator}

-- `scanEntry` and `mergeEntry`: the entry that an iterator yielded last, the number of its source,
-- and what the iterator has left.
pub record Slot : Type 0 where
  pub head : Entry
  pub idx : ℕ
  pub iter : List Entry

-- `Less`: lower keys first, and of one key the newer source.
unfoldable pub less : Slot → Slot → Bool
less a b =
    if is_eq (compare_bytes a.head.key b.head.key)
    then ltb a.idx b.idx
    else is_lt (compare_bytes a.head.key b.head.key)

-- `heap.Push`.
unfoldable pub push : Slot → List Slot → List Slot
push s [] = s ∷ []
push s (t ∷ heap) = let rest = push s heap in if ltb s.idx t.idx then s ∷ (t ∷ heap) else t ∷ rest

-- `heap.Pop` on the slots `s ∷ heap`.
unfoldable pub pop : Slot → List Slot → Slot × List Slot
pop s [] = (s, [])
pop s (t ∷ heap) = let (l, rest) = pop t heap in if less l s then (l, s ∷ rest) else (s, t ∷ heap)

-- Calls an iterator, and pushes what it yields.
unfoldable pub push_next : ℕ → List Entry → List Slot → List Slot
push_next idx [] heap = heap
push_next idx (e ∷ es) heap = push (record { head = e; idx = idx; iter = es }) heap

-- Pushes the first entry of each source, the sources numbered from `idx` on.
unfoldable pub start_heap : ℕ → List (List Entry) → List Slot → List Slot
start_heap idx [] heap = heap
start_heap idx (src ∷ srcs) heap = start_heap (suc idx) srcs (push_next idx src heap)

-- The test on `lastKey`.
unfoldable pub is_new : Option Bytes → Bytes → Bool
is_new none key = true
is_new (some last) key = not (bytes_equal key last)

unfoldable pub next_last : (Bytes → Option Bytes) → Option Bytes → Entry → Option Bytes
next_last copy last e = if is_new last e.key then copy e.key else last

-- The body of the loop, which both merges share: what is done with the value of a live entry is
-- `emit`, and the copy of the key that `lastKey` becomes is `copy`.
module _ {ℓ} {S : Type ℓ} (copy : Bytes → Option Bytes) (emit : Bytes → Bytes → S → Option S) where
  unfoldable pub handle : Option Bytes → Entry → S → Option S
  handle last e s =
      if is_new last e.key
      then (elim e.value [ none ↦ some s | some v ↦ emit e.key v s ])
      else some s

  -- The loop, on fuel: one round for each entry. `none` is the error of `emit`.
  unfoldable pub merge_loop : ℕ → Option Bytes → List Slot → S → Option S
  merge_loop zero last heap s = none
  merge_loop (suc fuel) last [] s = some s
  merge_loop (suc fuel) last (t ∷ heap) s =
      let (e, rest) = pop t heap in
      elim (handle last e.head s) [
        | none ↦ none
        | some s' ↦ merge_loop fuel (next_last copy last e.head) (push_next e.idx e.iter rest) s'
      ]

unfoldable pub total : List (List Entry) → ℕ
total [] = 0
total (src ∷ srcs) = length src + total srcs

-- `append([]byte(nil), key...)`, which is nil for an empty key.
unfoldable pub append_copy : Bytes → Option Bytes
append_copy [] = none
append_copy (b ∷ bs) = some (b ∷ bs)

-- `make` and `copy`, which is never nil.
unfoldable pub make_copy : Bytes → Option Bytes
make_copy key = some key

-- `memtableRangeIter`, on the leaves of the memtable in order.
unfoldable pub memtable_range : Option Bytes → Option Bytes → List Entry → List Entry
memtable_range start end [] = []
memtable_range start end (e ∷ es) =
    let rest = memtable_range start end es in
    if below_start start e.key then rest else if beyond_end end e.key then [] else e ∷ rest

-- `results = append(results, scanKV{...})`; the copy of an empty value is nil.
unfoldable pub collect : Bytes → Bytes → List Entry → Option (List Entry)
collect key value results = some (results ++ (record { key = key; value = append_copy value } ∷ []))

unfoldable pub scan_sources : Option Bytes → Option Bytes → List Reader → List (List Entry)
scan_sources start end [] = []
scan_sources start end (r ∷ rs) = scan_iterator r start end ∷ scan_sources start end rs

-- `collectScan`, on the leaves of the memtable and the readers, newest first.
unfoldable pub collect_scan :
    List Entry → List Reader → Option Bytes → Option Bytes → Option (List Entry)
collect_scan memtable readers start end =
    let sources = memtable_range start end memtable ∷ scan_sources start end readers in
    merge_loop append_copy collect (suc (total sources)) none (start_heap 0 sources []) []

unfoldable pub merge_sources : List Reader → List (List Entry)
merge_sources [] = []
merge_sources (r ∷ rs) = compaction_iterator r ∷ merge_sources rs

-- `kWayMergeSSTables`: the bytes of the new table; `none` is an error.
unfoldable pub kway_merge : List Reader → Option Bytes
kway_merge readers =
    let sources = merge_sources readers in
    elim (merge_loop make_copy set (suc (total sources)) none (start_heap 0 sources [])
      new_writer) [ none ↦ none | some w ↦ close w ]
