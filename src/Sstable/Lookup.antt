-- ===== src/Sstable/Lookup.antt =====
-- Point lookups in a table (`RawGet` of internal/sstable/reader.go) against the entries written to it.
use kora_engine.Prelude.{
  ℕ, suc, ◌+◌, ◌^◌, ◌<◌, ◌≡◌, refl, sym, ap, ◌∙◌, true, false, some, List, [], ◌∷◌, ◌++◌, leb,
  length, drop, arith, Bool-cases, inl, inr, All, All-append_right, append_assoc, length-append,
  drop-append,
}
use kora_engine.Prelude.Order.{Bytes, bytes_equal, eq_of_bytes_equal}
use kora_engine.Bloom
use kora_engine.Bloom.{Filter}
use kora_engine.Bloom.Members.{has-add_all, has-new, new-IsFilter}
use kora_engine.Sstable.{Entry}
use kora_engine.Sstable.Writer.{Writer, new_writer, write_entries, close}
use kora_engine.Sstable.Reader.{
  open_table, Reader, absent, seek_offset, get_loop, raw_get, cursor_at,
}
use kora_engine.Sstable.Records.{FitsRecord, data_section, data_section-append}
use kora_engine.Sstable.Layout.{IsSorted, written, write_entries-written, index_bytes}
use kora_engine.Sstable.Closing.{
  IsTable, close-written, keys, filter_of, index_of, table_bytes, length-le-data_section,
  bloom_bits, table_footer,
}
use kora_engine.Sstable.Opening.{open_table-table_bytes, table_reader}
use kora_engine.Sstable.Seek.{IsStart, seek_offset-IsStart}
use kora_engine.Sstable.Scanning.{find_entry, find_entry-append, get_loop-find_entry}

-- A key that the filter of a table rejects is not in the table.
find_entry-rejected :
    (key : Bytes) (f : Filter) (es : List Entry)
    → All (λ k. Bloom.has f k ≡ true) (keys es)
    → Bloom.has f key ≡ false
    → find_entry key es ≡ absent
unfolding find_entry
find_entry-rejected key f [] h r = refl
find_entry-rejected key f (e ∷ es) (h, hs) r = elim (Bool-cases (bytes_equal e.key key)) [
  | inl t ↦ cc (ap (Bloom.has f) (eq_of_bytes_equal e.key key t), h, r)
  | inr t ↦ rw (t, find_entry) (find_entry-rejected key f es hs r)
]

raw_get_parts :
    (r : Reader) (key : Bytes) (f : Filter)
    → r.filter ≡ some f
    → Bloom.has f key ≡ true
    → seek_offset r.index key < 2 ^ 63
    → raw_get r key
      ≡ get_loop (suc (length r.file)) r.data_end key (cursor_at r (seek_offset r.index key))
unfolding raw_get
raw_get_parts r key f e h l =
    let t : leb (2 ^ 63) (seek_offset r.index key) ≡ false = ground arith in rw (raw_get, e, h, t)

raw_get_rejected :
    (r : Reader) (key : Bytes) (f : Filter)
    → r.filter ≡ some f
    → Bloom.has f key ≡ false
    → raw_get r key ≡ absent
unfolding raw_get
raw_get_rejected r key f e h = rw (raw_get, e, h)

pub IsSorted-right : (front back : List Entry) → IsSorted (front ++ back) → IsSorted back
IsSorted-right [] back s = s
IsSorted-right (f ∷ front) back s = IsSorted-right front back s.1

-- The bytes of a table from the beginning of a record on.
abbrev pub behind_data : List Entry → Bytes
behind_data es = bloom_bits es ++ (index_bytes (index_of es) ++ table_footer es)

pub drop-table_bytes :
    (es front back : List Entry)
    → es ≡ front ++ back
    → drop (length (data_section front)) (table_bytes es) ≡ data_section back ++ behind_data es
unfolding table_bytes
drop-table_bytes es front back c =
    let a : data_section es ≡ data_section front ++ data_section back =
      ap data_section c ∙ data_section-append front back in
    let b : data_section es ++ behind_data es
        ≡ data_section front ++ (data_section back ++ behind_data es) =
      ap (λ d. d ++ behind_data es) a
      ∙ append_assoc (data_section front) (data_section back) (behind_data es) in
    ap (drop (length (data_section front))) b ∙ drop-append (data_section front) _

-- The loop of a lookup from where the search starts.
get_from_start :
    (id : ℕ) (es : List Entry) (key : Bytes) (offset : ℕ)
    → IsTable es
    → IsStart es key offset
    → get_loop
        (suc (length (table_bytes es)))
        (length (data_section es))
        key
        (record { left = drop offset (table_bytes es); pos = offset })
      ≡ find_entry key es
get_from_start id es key offset h x =
    let sl = x.some_left in
    let so = rw x.cut at h.sorted in
    let fi = rw x.cut at h.fits in
    let d : drop offset (table_bytes es) ≡ data_section x.back ++ behind_data es =
      ap (λ n. drop n (table_bytes es)) x.at_offset ∙ drop-table_bytes es x.front x.back x.cut in
    let len : length (data_section es)
        ≡ length (data_section x.front) + length (data_section x.back) =
      ap (λ l. length (data_section l)) x.cut
      ∙ ap length (data_section-append x.front x.back)
      ∙ length-append (data_section x.front) (data_section x.back) in
    let file_len : length (table_bytes es) ≡ length (data_section es) + length (behind_data es) =
      unfold table_bytes in length-append (data_section es) (behind_data es) in
    let at = x.at_offset in
    ap
      (λ b.
        get_loop (suc (length (table_bytes es))) (length (data_section es)) key
          (record { left = b; pos = offset }))
      d
    ∙ get_loop-find_entry x.back (suc (length (table_bytes es))) (length (data_section es)) offset
        key (behind_data es) sl (IsSorted-right x.front x.back so)
        (All-append_right FitsRecord x.front x.back fi) (omega arith)
        (omega (arith, length-le-data_section x.back))
    ∙ sym (find_entry-append key x.front x.back x.before)
    ∙ ap (find_entry key) (sym x.cut)

pub offset_short :
    (es : List Entry) (key : Bytes) (offset : ℕ)
    → IsTable es
    → IsStart es key offset
    → offset < 2 ^ 63
offset_short es key offset h x =
    let at = x.at_offset in
    let sh = h.short in
    omega (
      arith,
      ap (λ l. length (data_section l)) x.cut,
      ap length (data_section-append x.front x.back),
      length-append (data_section x.front) (data_section x.back),
    )

-- A lookup in a table that was written and opened finds what was written: the value of the key, the
-- mark that it was deleted, or that the table does not speak of it. It never fails.
pub raw_get-find_entry :
    (id : ℕ) (es : List Entry) (key : Bytes)
    → IsTable es
    → raw_get (table_reader id es) key ≡ find_entry key es
raw_get-find_entry id es key h = elim (Bool-cases (Bloom.has (filter_of es) key)) [
  | inr out ↦
      raw_get_rejected (table_reader id es) key (filter_of es) (unfold table_reader in refl) out
      ∙ sym (
          find_entry-rejected key (filter_of es) es
            (has-add_all (keys es) (Bloom.new (length es)) (new-IsFilter (length es) h.few)) out)
  | inl maybe ↦ in_filter es h maybe
]
  where
    in_filter :
        (es : List Entry)
        → IsTable es
        → Bloom.has (filter_of es) key ≡ true
        → raw_get (table_reader id es) key ≡ find_entry key es
    in_filter [] h maybe = cc (has-new key, maybe)
    in_filter (e ∷ es) h maybe =
        let x = seek_offset-IsStart e es key h.sorted in
        raw_get_parts (table_reader id (e ∷ es)) key (filter_of (e ∷ es))
          (unfold table_reader in refl) maybe
          (unfold table_reader in offset_short (e ∷ es) key _ h x)
        ∙ unfold table_reader in get_from_start id (e ∷ es) key _ h x

pub write_entries-new_writer :
    (es : List Entry) → IsTable es → write_entries es new_writer ≡ some (written es new_writer)
write_entries-new_writer es h =
    let few = h.few in write_entries-written es new_writer h.sorted tt (omega arith) (omega arith)

-- Entries in strictly ascending order, that fit their words and a table, are written, the file is
-- closed and opens, and the table that opens answers every lookup as the entries say.
pub raw_get_written :
    (id : ℕ) (es : List Entry) (key : Bytes)
    → IsTable es
    → (w : Writer) × (file : Bytes) × (r : Reader) × (write_entries es new_writer ≡ some w)
      × (close w ≡ some file)
      × (open_table id file ≡ some r)
      × (raw_get r key ≡ find_entry key es)
raw_get_written id es key h =
    let few = h.few in
    (
      written es new_writer,
      table_bytes es,
      table_reader id es,
      write_entries-written es new_writer h.sorted tt (omega arith) (omega arith),
      close-written es h.fits,
      open_table-table_bytes id es h,
      raw_get-find_entry id es key h,
    )
