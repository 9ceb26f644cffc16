-- ===== src/Merge/Scan.antt =====
-- Range scans of the database (`collectScan` of internal/store/scan.go) against what the memtable
-- and the tables say.
use mathlib.Core.Path.{subst}
use mathlib.Core.Option.{none}
use kora_engine.Prelude.{
  ℕ, ◌≡◌, ◌≢◌, refl, sym, ap, ◌∙◌, Bool, true, false, ◌||◌, Option, some, List, [], ◌∷◌, ◌++◌,
  if◌then◌else◌, Bool-cases, inl, inr, All, append-nil, append_assoc,
}
use kora_engine.Prelude.Order.{Bytes, Before, bytes_equal, eq_of_bytes_equal, bytes_equal_refl}
use kora_engine.Sstable.{Entry}
use kora_engine.Sstable.Reader.{Reader, Lookup, absent, below_start, beyond_end}
use kora_engine.Sstable.Layout.{IsSorted}
use kora_engine.Sstable.Closing.{IsTable}
use kora_engine.Sstable.Opening.{table_reader}
use kora_engine.Sstable.Scanning.{find_entry}
use kora_engine.Sstable.Ranges.{in_range, range_step, scan_iterator-in_range}
use kora_engine.Merge.{append_copy, memtable_range, collect, scan_sources, collect_scan}
use kora_engine.Merge.Newest.{newest, live}
use kora_engine.Merge.Advance.{IsSource}
use kora_engine.Merge.Start.{merge_of, merge_of-newest}
use kora_engine.Merge.Effects.{deliver, deliver_one, IsLive, merge_of-IsLive, merge_loop-merge_of}

-- Tables that are open, by their ids and their entries, newest first.
abbrev pub open_tables : List (ℕ × List Entry) → List Reader
open_tables [] = []
open_tables (t ∷ ts) = table_reader t.0 t.1 ∷ open_tables ts

abbrev pub all_entries : List (ℕ × List Entry) → List (List Entry)
all_entries [] = []
all_entries (t ∷ ts) = t.1 ∷ all_entries ts

abbrev pub outside : Option Bytes → Option Bytes → Bytes → Bool
outside start end key = below_start start key || beyond_end end key

abbrev pub HasKey : Entry → Type 0
HasKey e = e.key ≢ []

abbrev ranges : Option Bytes → Option Bytes → List (List Entry) → List (List Entry)
ranges start end [] = []
ranges start end (src ∷ srcs) = in_range start end src ∷ ranges start end srcs

find_entry-kept :
    (start end : Option Bytes) (e : Entry) (es : List Entry)
    → find_entry e.key (in_range start end es)
      ≡ (if outside start end e.key then absent else find_entry e.key es)
    → find_entry e.key (in_range start end (e ∷ es))
      ≡ (if outside start end e.key then absent else find_entry e.key (e ∷ es))
unfolding find_entry in_range
find_entry-kept start end e es ih = elim (Bool-cases (below_start start e.key)) [
  | inl t ↦ rw t (ih ∙ rw t)
  | inr t ↦ elim (Bool-cases (beyond_end end e.key)) [
    | inl u ↦ rw (t, u) (ih ∙ rw (t, u))
    | inr u ↦ rw (t, u, bytes_equal_refl e.key)
  ]
]

find_entry-in_range :
    (key : Bytes) (start end : Option Bytes) (es : List Entry)
    → find_entry key (in_range start end es)
      ≡ (if outside start end key then absent else find_entry key es)
unfolding find_entry in_range
find_entry-in_range key start end [] = elim (Bool-cases (outside start end key)) [
  | inl t ↦ rw t
  | inr t ↦ rw t
]
find_entry-in_range key start end (e ∷ es) =
    let ih = find_entry-in_range key start end es in
    elim (Bool-cases (bytes_equal e.key key)) [
      | inl q ↦
          subst
            (λ k.
              find_entry k (in_range start end (e ∷ es))
              ≡ (if outside start end k then absent else find_entry k (e ∷ es)))
            (eq_of_bytes_equal e.key key q)
            (find_entry-kept start end e es (find_entry-in_range e.key start end es))
      | inr q ↦ elim (Bool-cases (below_start start e.key)) [
        | inl t ↦ rw (t, q) ih
        | inr t ↦ elim (Bool-cases (beyond_end end e.key)) [
          | inl u ↦ rw (t, u, q) ih
          | inr u ↦ rw (t, u, q) ih
        ]
      ]
    ]

newest-ranges :
    (key : Bytes) (start end : Option Bytes) (srcs : List (List Entry))
    → newest key (ranges start end srcs)
      ≡ (if outside start end key then absent else newest key srcs)
unfolding newest
newest-ranges key start end [] = elim (Bool-cases (outside start end key)) [
  | inl t ↦ rw t
  | inr t ↦ rw t
]
newest-ranges key start end (src ∷ srcs) =
    rw (find_entry-in_range key start end src, newest-ranges key start end srcs)
      (elim (Bool-cases (outside start end key)) [ inl t ↦ rw t | inr t ↦ rw t ])

all-in_range {κ} :
    (P : Entry → Type κ) (start end : Option Bytes) (es : List Entry)
    → All P es
    → All P (in_range start end es)
unfolding in_range
all-in_range P start end [] h = tt
all-in_range P start end (e ∷ es) (h, hs) =
    let ih = all-in_range P start end es hs in
    elim (Bool-cases (below_start start e.key)) [
      | inl t ↦ rw t ih
      | inr t ↦ elim (Bool-cases (beyond_end end e.key)) [
        | inl u ↦ rw (t, u) ih
        | inr u ↦ rw (t, u) (h, ih)
      ]
    ]

IsSorted-in_range :
    (start end : Option Bytes) (es : List Entry) → IsSorted es → IsSorted (in_range start end es)
unfolding in_range
IsSorted-in_range start end [] h = tt
IsSorted-in_range start end (e ∷ es) (h, hs) =
    let ih = IsSorted-in_range start end es hs in
    elim (Bool-cases (below_start start e.key)) [
      | inl t ↦ rw t ih
      | inr t ↦ elim (Bool-cases (beyond_end end e.key)) [
        | inl u ↦ rw (t, u) ih
        | inr u ↦ rw (t, u) (all-in_range (λ (f : Entry). Before e.key f.key) start end es h, ih)
      ]
    ]

memtable_range-in_range :
    (start end : Option Bytes) (es : List Entry)
    → IsSorted es
    → memtable_range start end es ≡ in_range start end es
unfolding memtable_range
memtable_range-in_range start end [] h = unfold in_range in refl
memtable_range-in_range start end (e ∷ es) (h, hs) =
    range_step e es _ start end h (memtable_range-in_range start end es hs)

scan_sources-ranges :
    (start end : Option Bytes) (ts : List (ℕ × List Entry))
    → All (λ (t : ℕ × List Entry). IsTable t.1) ts
    → scan_sources start end (open_tables ts) ≡ ranges start end (all_entries ts)
unfolding scan_sources
scan_sources-ranges start end [] h = refl
scan_sources-ranges start end (t ∷ ts) (h, hs) =
    rw (scan_iterator-in_range t.0 t.1 start end h)
      (ap (λ l. in_range start end t.1 ∷ l) (scan_sources-ranges start end ts hs))

append_copy-some :
    (es : List Entry) → All HasKey es → All (λ (e : Entry). append_copy e.key ≡ some e.key) es
unfolding append_copy
append_copy-some [] h = tt
append_copy-some (e ∷ es) (h, hs) = (of_key e.key h, append_copy-some es hs)
  where
    of_key : (k : Bytes) → k ≢ [] → append_copy k ≡ some k
    of_key [] h = absurd (h refl)
    of_key (b ∷ bs) h = refl

ranges-IsSource :
    (start end : Option Bytes) (srcs : List (List Entry))
    → All IsSorted srcs
    → All (All HasKey) srcs
    → All (IsSource append_copy) (ranges start end srcs)
ranges-IsSource start end [] s k = tt
ranges-IsSource start end (src ∷ srcs) (s, ss) (k, ks) = (
  (
    IsSorted-in_range start end src s,
    all-in_range (λ (e : Entry). append_copy e.key ≡ some e.key) start end src
        (append_copy-some src k),
  ),
  ranges-IsSource start end srcs ss ks,
)

-- What `collectScan` hands out of an entry: the copy of an empty value is nil.
abbrev pub copy_value : Option Bytes → Option Bytes
copy_value none = none
copy_value (some v) = append_copy v

unfoldable pub copies : List Entry → List Entry
copies [] = []
copies (e ∷ es) = record { key = e.key; value = copy_value e.value } ∷ copies es

deliver-collect :
    (es results : List Entry)
    → All IsLive es
    → deliver collect es results ≡ some (results ++ copies es)
unfolding deliver deliver_one collect copies
deliver-collect [] results h = ap some (sym (append-nil results))
deliver-collect (e ∷ es) results ((v, p), hs) =
    let r = results ++ (record { key = e.key; value = append_copy v } ∷ []) in
    rw p (
      deliver-collect es r hs
      ∙ ap some
          (append_assoc results (record { key = e.key; value = append_copy v } ∷ []) (copies es)))

-- A scan of the database yields the copies of entries with keys in strictly ascending order, among
-- which is, of each key in the closed range, the value of the newest source that speaks of it, the
-- memtable before the tables, and no key that this source says is deleted; the copy of an empty value
-- is nil. The memtable's entries are in strictly ascending order, the tables' fit a table, and no key is
-- empty.
pub collect_scan-newest :
    (memtable : List Entry) (ts : List (ℕ × List Entry)) (start end : Option Bytes)
    → IsSorted memtable
    → All (λ (t : ℕ × List Entry). IsTable t.1) ts
    → All HasKey memtable
    → All (All HasKey) (all_entries ts)
    → (out : List Entry) × (collect_scan memtable (open_tables ts) start end ≡ some (copies out))
      × IsSorted out
      × ((key : Bytes)
          → find_entry key out ≡ (
              if outside start end key
              then absent
              else live (newest key (memtable ∷ all_entries ts))))
unfolding collect_scan
collect_scan-newest memtable ts start end m h k ks =
    let srcs = memtable ∷ all_entries ts in
    let ok = ranges-IsSource start end srcs (m, all_sorted ts h) (k, ks) in
    let (sorted, says) = merge_of-newest append_copy (ranges start end srcs) ok in
    let live_out = merge_of-IsLive append_copy (ranges start end srcs) in
    (
      merge_of append_copy (ranges start end srcs),
      rw (memtable_range-in_range start end memtable m, scan_sources-ranges start end ts h)
          (merge_loop-merge_of append_copy collect (ranges start end srcs) [] ok
            ∙ deliver-collect (merge_of append_copy (ranges start end srcs)) [] live_out),
      sorted,
      λ key.
          says key
          ∙ ap live (newest-ranges key start end srcs)
          ∙ live_if (outside start end key) (newest key srcs),
    )
  where
    all_sorted :
        (ts : List (ℕ × List Entry))
        → All (λ (t : ℕ × List Entry). IsTable t.1) ts
        → All IsSorted (all_entries ts)
    all_sorted [] h = tt
    all_sorted (t ∷ ts) (h, hs) = (h.sorted, all_sorted ts hs)

    live_if :
        (b : Bool) (l : Lookup) → live (if b then absent else l) ≡ (if b then absent else live l)
    live_if true l = refl
    live_if false l = refl
