-- ===== src/Sstable/Compaction.antt =====
-- The iterator of a merge (`CompactionIterator` of internal/sstable/reader.go) over a whole table.
use kora_engine.Prelude.{
  ℕ, zero, suc, ◌+◌, ◌<◌, ◌≡◌, refl, ap, ◌∙◌, true, false, List, [], ◌∷◌, ◌++◌, leb, length, arith,
  All, append_assoc, length-append,
}
use kora_engine.Prelude.Order.{Bytes}
use kora_engine.Sstable.{Entry}
use kora_engine.Sstable.Writer.{data_record}
use kora_engine.Sstable.Reader.{compaction_loop, compaction_iterator}
use kora_engine.Sstable.Records.{FitsRecord, data_section, read_record-data_record}
use kora_engine.Sstable.Closing.{IsTable, table_bytes, length-le-data_section}
use kora_engine.Sstable.Opening.{table_reader}
use kora_engine.Sstable.Lookup.{behind_data}

compaction_loop_record :
    (e : Entry) (rest : Bytes) (fuel data_end pos : ℕ)
    → FitsRecord e
    → leb data_end pos ≡ false
    → compaction_loop (suc fuel) data_end (record { left = data_record e ++ rest; pos = pos })
      ≡ e
        ∷ compaction_loop fuel data_end (record { left = rest; pos = pos + length (data_record e) })
unfolding compaction_loop
compaction_loop_record e rest fuel data_end pos h t =
    rw (t, read_record-data_record e rest pos h, compaction_loop)

compaction_loop-entries :
    (es : List Entry) (fuel data_end pos : ℕ) (trailing : Bytes)
    → All FitsRecord es
    → pos + length (data_section es) ≡ data_end
    → length es < fuel
    → compaction_loop fuel data_end (record { left = data_section es ++ trailing; pos = pos }) ≡ es
compaction_loop-entries es zero data_end pos trailing h l f = absurd (omega arith)
compaction_loop-entries [] (suc fuel) data_end pos trailing h l f =
    unfold compaction_loop in rw (at_the_end data_end pos l)
  where
    at_the_end :
        (data_end pos : ℕ) → pos + length (data_section []) ≡ data_end → leb data_end pos ≡ true
    at_the_end data_end pos l =
        let l' : pos + 0 ≡ data_end = unfold data_section in l in ground arith
compaction_loop-entries (e ∷ es) (suc fuel) data_end pos trailing (h, hs) l f =
    let pos' = pos + length (data_record e) in
    let a : data_section (e ∷ es) ++ trailing ≡ data_record e ++ (data_section es ++ trailing) =
      unfold data_section in append_assoc (data_record e) (data_section es) trailing in
    let l0 : length (data_section (e ∷ es)) ≡ length (data_record e) + length (data_section es) =
      unfold data_section in length-append (data_record e) (data_section es) in
    let l' : pos' + length (data_section es) ≡ data_end = omega (arith, l0) in
    let pos_lt : pos < data_end = omega (arith, length-le-data_section (e ∷ es)) in
    let t : leb data_end pos ≡ false = ground arith in
    ap (λ d. compaction_loop (suc fuel) data_end (record { left = d; pos = pos })) a
    ∙ compaction_loop_record e (data_section es ++ trailing) fuel data_end pos h t
    ∙ ap (λ l. e ∷ l) (compaction_loop-entries es fuel data_end pos' trailing hs l' (omega arith))

-- The iterator of a merge yields every entry of the table, deleted ones with their marks, in order.
pub compaction_iterator-entries :
    (id : ℕ) (es : List Entry) → IsTable es → compaction_iterator (table_reader id es) ≡ es
compaction_iterator-entries id es h =
    let fl : length (table_bytes es) ≡ length (data_section es) + length (behind_data es) =
      unfold table_bytes in length-append (data_section es) (behind_data es) in
    let d : table_bytes es ≡ data_section es ++ behind_data es = unfold table_bytes in refl in
    unfold compaction_iterator table_reader in
    (ap
        (λ b.
          compaction_loop (suc (length (table_bytes es))) (length (data_section es))
            (record { left = b; pos = 0 }))
        d
      ∙ compaction_loop-entries es (suc (length (table_bytes es))) (length (data_section es)) 0
          (behind_data es) h.fits (omega arith) (omega (arith, length-le-data_section es)))
