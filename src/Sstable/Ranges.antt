-- ===== src/Sstable/Ranges.antt =====
-- Range scans and merges over a table (`ScanIterator` and `CompactionIterator` of
-- internal/sstable/reader.go) against the entries written to it.
use kora_engine.Prelude.{
  ℕ, zero, suc, ◌+◌, ◌^◌, ◌<◌, ◌≡◌, refl, sym, ap, ◌∙◌, true, false, Option, none, some, List, [],
  ◌∷◌, ◌++◌, leb, if◌then◌else◌, length, drop, arith, Bool-cases, inl, inr, All, All-append_right,
  append_assoc, length-append,
}
use Prim.Native.Nat.{Ordering}
use kora_engine.Prelude.Order.{Bytes, Before, compare_bytes, gt_of_gt-Before, gt_of_is_gt}
use kora_engine.Sstable.{Entry}
use kora_engine.Sstable.Writer.{data_record}
use kora_engine.Sstable.Reader.{
  Reader, below_start, beyond_end, start_offset, scan_loop, scan_iterator, seek_offset, cursor_at,
}
use kora_engine.Sstable.Records.{
  FitsRecord, data_section, data_section-append, read_record-data_record,
}
use kora_engine.Sstable.Layout.{IsSorted, index_from}
use kora_engine.Sstable.Closing.{IsTable, index_of, table_bytes, length-le-data_section}
use kora_engine.Sstable.Opening.{table_reader}
use kora_engine.Sstable.Seek.{seek_offset-IsStart}
use kora_engine.Sstable.Lookup.{IsSorted-right, behind_data, drop-table_bytes, offset_short}

-- The entries with keys in the closed range.
unfoldable pub in_range : Option Bytes → Option Bytes → List Entry → List Entry
in_range start end [] = []
in_range start end (e ∷ es) =
    let rest = in_range start end es in
    if below_start start e.key then rest else if beyond_end end e.key then rest else e ∷ rest

pub beyond-All :
    (key : Bytes) (start end : Option Bytes) (es : List Entry)
    → beyond_end end key ≡ true
    → All (λ (f : Entry). Before key f.key) es
    → in_range start end es ≡ []
unfolding in_range
beyond-All key start end [] h a = refl
beyond-All key start none (e ∷ es) h a = cc
beyond-All key start (some k) (e ∷ es) h (b, a) =
    let g : compare_bytes e.key k ≡ Ordering.gt =
      gt_of_gt-Before key e.key k (gt_of_is_gt key k h) b in
    let ih = beyond-All key start (some k) es h a in
    elim (Bool-cases (below_start start e.key)) [
      | inl t ↦ rw (t, in_range) ih
      | inr t ↦ rw (t, g, in_range) ih
    ]

pub scan_loop_record :
    (e : Entry) (rest : Bytes) (start end : Option Bytes) (fuel data_end pos : ℕ)
    → FitsRecord e
    → leb data_end pos ≡ false
    → scan_loop (suc fuel) data_end start end (record { left = data_record e ++ rest; pos = pos })
      ≡ (let more =
            scan_loop fuel data_end start end
              (record { left = rest; pos = pos + length (data_record e) }) in
          if below_start start e.key then more else if beyond_end end e.key then [] else e ∷ more)
unfolding scan_loop
scan_loop_record e rest start end fuel data_end pos h t =
    rw (t, read_record-data_record e rest pos h, scan_loop)

pub scan_loop_end :
    (start end : Option Bytes) (fuel data_end pos : ℕ) (left : Bytes)
    → leb data_end pos ≡ true
    → scan_loop fuel data_end start end (record { left = left; pos = pos }) ≡ []
unfolding scan_loop
scan_loop_end start end zero data_end pos left t = refl
scan_loop_end start end (suc fuel) data_end pos left t = rw (t, scan_loop)

pub range_step :
    (e : Entry) (es more : List Entry) (start end : Option Bytes)
    → All (λ (f : Entry). Before e.key f.key) es
    → more ≡ in_range start end es
    → (if below_start start e.key then more else if beyond_end end e.key then [] else e ∷ more)
      ≡ in_range start end (e ∷ es)
unfolding in_range
range_step e es more start end h m = elim (Bool-cases (below_start start e.key)) [
  | inl t ↦ rw (t, in_range) m
  | inr t ↦ elim (Bool-cases (beyond_end end e.key)) [
    | inl u ↦ rw (t, u, in_range) (sym (beyond-All e.key start end es u h))
    | inr u ↦ rw (t, u, in_range) (ap (λ l. e ∷ l) m)
  ]
]

pub scan_loop-in_range :
    (es : List Entry) (start end : Option Bytes) (fuel data_end pos : ℕ) (trailing : Bytes)
    → IsSorted es
    → All FitsRecord es
    → pos + length (data_section es) ≡ data_end
    → length es < fuel
    → scan_loop fuel data_end start end (record { left = data_section es ++ trailing; pos = pos })
      ≡ in_range start end es
scan_loop-in_range es start end zero data_end pos trailing s h l f = absurd (omega arith)
scan_loop-in_range [] start end (suc fuel) data_end pos trailing s h l f =
    let t : leb data_end pos ≡ true = at_the_end data_end pos l in
    scan_loop_end start end (suc fuel) data_end pos _ t ∙ nothing
  where
    at_the_end :
        (data_end pos : ℕ) → pos + length (data_section []) ≡ data_end → leb data_end pos ≡ true
    at_the_end data_end pos l =
        let l' : pos + 0 ≡ data_end = unfold data_section in l in ground arith

    nothing : [] ≡ in_range start end []
    nothing = unfold in_range in refl
scan_loop-in_range (e ∷ es) start end (suc fuel) data_end pos trailing (b, s) (h, hs) l f =
    let pos' = pos + length (data_record e) in
    let a : data_section (e ∷ es) ++ trailing ≡ data_record e ++ (data_section es ++ trailing) =
      unfold data_section in append_assoc (data_record e) (data_section es) trailing in
    let l0 : length (data_section (e ∷ es)) ≡ length (data_record e) + length (data_section es) =
      unfold data_section in length-append (data_record e) (data_section es) in
    let l' : pos' + length (data_section es) ≡ data_end = omega (arith, l0) in
    let pos_lt : pos < data_end = omega (arith, length-le-data_section (e ∷ es)) in
    let t : leb data_end pos ≡ false = ground arith in
    ap (λ d. scan_loop (suc fuel) data_end start end (record { left = d; pos = pos })) a
    ∙ scan_loop_record e (data_section es ++ trailing) start end fuel data_end pos h t
    ∙ range_step e es _ start end b
        (scan_loop-in_range es start end fuel data_end pos' trailing s hs l' (omega arith))

pub in_range-append :
    (start : Bytes) (end : Option Bytes) (front back : List Entry)
    → All (λ (f : Entry). Before f.key start) front
    → in_range (some start) end (front ++ back) ≡ in_range (some start) end back
unfolding in_range
in_range-append start end [] back h = refl
in_range-append start end (f ∷ front) back (h, hs) =
    rw (h, in_range) (in_range-append start end front back hs)

pub scan_from :
    (id : ℕ) (es front back : List Entry) (offset : ℕ) (start end : Option Bytes)
    → IsTable es
    → es ≡ front ++ back
    → offset ≡ length (data_section front)
    → scan_loop
        (suc (length (table_bytes es)))
        (length (data_section es))
        start
        end
        (record { left = drop offset (table_bytes es); pos = offset })
      ≡ in_range start end back
scan_from id es front back offset start end h cut at =
    let so = rw cut at h.sorted in
    let fi = rw cut at h.fits in
    let d : drop offset (table_bytes es) ≡ data_section back ++ behind_data es =
      ap (λ n. drop n (table_bytes es)) at ∙ drop-table_bytes es front back cut in
    let len : length (data_section es) ≡ length (data_section front) + length (data_section back) =
      ap (λ l. length (data_section l)) cut
      ∙ ap length (data_section-append front back)
      ∙ length-append (data_section front) (data_section back) in
    let file_len : length (table_bytes es) ≡ length (data_section es) + length (behind_data es) =
      unfold table_bytes in length-append (data_section es) (behind_data es) in
    ap
      (λ b.
        scan_loop (suc (length (table_bytes es))) (length (data_section es)) start end
          (record { left = b; pos = offset }))
      d
    ∙ scan_loop-in_range back start end (suc (length (table_bytes es))) (length (data_section es))
        offset (behind_data es) (IsSorted-right front back so)
        (All-append_right FitsRecord front back fi) (omega arith)
        (omega (arith, length-le-data_section back))

pub scan_iterator_at :
    (r : Reader) (start end : Option Bytes) (offset : ℕ)
    → start_offset r start ≡ offset
    → offset < 2 ^ 63
    → scan_iterator r start end
      ≡ scan_loop (suc (length r.file)) r.data_end start end (cursor_at r offset)
unfolding scan_iterator
scan_iterator_at r start end offset e l =
    let t : leb (2 ^ 63) offset ≡ false = ground arith in rw (e, t, scan_iterator)

-- A range scan over a table yields its entries with keys in the closed range, deleted ones with
-- their marks, all of them, once and in order. It is the same for a missing bound on either side.
pub scan_iterator-in_range :
    (id : ℕ) (es : List Entry) (start end : Option Bytes)
    → IsTable es
    → scan_iterator (table_reader id es) start end ≡ in_range start end es
scan_iterator-in_range id es none end h =
    scan_iterator_at (table_reader id es) none end 0 refl (omega arith)
    ∙ unfold table_reader in scan_from id es [] es 0 none end h refl (unfold data_section in refl)
scan_iterator-in_range id [] (some s) end h =
    scan_iterator_at (table_reader id []) (some s) end 0
      (unfold table_reader seek_offset index_from in refl) (omega arith)
    ∙ unfold table_reader in
      scan_from id [] [] [] 0 (some s) end h refl (unfold data_section in refl)
scan_iterator-in_range id (e ∷ es) (some s) end h =
    let x = seek_offset-IsStart e es s h.sorted in
    scan_iterator_at (table_reader id (e ∷ es)) (some s) end (seek_offset (index_of (e ∷ es)) s)
      (unfold table_reader in refl) (offset_short (e ∷ es) s _ h x)
    ∙ unfold table_reader in
      scan_from id (e ∷ es) x.front x.back _ (some s) end h x.cut x.at_offset
      ∙ sym (in_range-append s end x.front x.back x.before)
      ∙ ap (in_range (some s) end) (sym x.cut)
