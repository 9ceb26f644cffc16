-- ===== src/Sstable/Closing.antt =====
-- The bytes of a closed table (`Close` of internal/sstable/writer.go), its filter included.
use kora_engine.Prelude.{
  ℕ, zero, suc, ◌+◌, ◌^◌, ◌<◌, ◌≤◌, ◌≡◌, refl, ◌∙◌, false, some, List, [], ◌∷◌, ◌++◌, ◌==◌, length,
  length-append, arith, All, le→ltb, lt→ltb,
}
use kora_engine.Prelude.Order.{Bytes}
use kora_engine.Bloom
use kora_engine.Bloom.{Filter}
use kora_engine.Bloom.Members.{IsFilter, add_all, add_all-IsFilter, new-IsFilter, max_keys}
use kora_engine.Sstable.{Entry}
use kora_engine.Sstable.Writer.{
  Writer, new_writer, data_record, bloom_loop, build_bloom, footer, close,
}
use kora_engine.Sstable.Reader.{IndexEntry}
use kora_engine.Sstable.Records.{
  FitsRecord, data_section, read_record-data_record, length-data_record,
}
use kora_engine.Sstable.Layout.{
  IsSorted, written, file-written, offset-written, n_records-written, index_from, index_bytes,
  index_buf-written, index_count-written,
}

-- What a table can hold: sorted entries that fit their words, not too many, and not too long.
pub record IsTable (es : List Entry) : Type 0 where
  pub sorted : IsSorted es
  pub fits : All FitsRecord es
  pub few : length es ≤ max_keys
  pub short : length (data_section es) < 2 ^ 62

abbrev pub keys : List Entry → List Bytes
keys [] = []
keys (e ∷ es) = e.key ∷ keys es

abbrev pub filter_of : List Entry → Filter
filter_of es = add_all (Bloom.new (length es)) (keys es)

pub length-le-data_section : (es : List Entry) → length es ≤ length (data_section es)
unfolding data_section
length-le-data_section [] = omega arith
length-le-data_section (e ∷ es) = omega (
  arith,
  length-le-data_section es,
  length-append (data_record e) (data_section es),
  length-data_record e,
)

pub bloom_loop_record :
    (fuel data_end : ℕ) (e : Entry) (rest : Bytes) (pos : ℕ) (f : Filter)
    → FitsRecord e
    → pos < data_end
    → bloom_loop (suc fuel) data_end (record { left = data_record e ++ rest; pos = pos }) f
      ≡ bloom_loop fuel data_end
          (record { left = rest; pos = pos + length (data_record e) })
          (Bloom.add f e.key)
unfolding bloom_loop
bloom_loop_record fuel data_end e rest pos f h lt =
    rw (bloom_loop, lt→ltb pos data_end lt, read_record-data_record e rest pos h)

-- The scan that builds the filter adds every key of the data section.
pub bloom_loop-keys :
    (es : List Entry) (fuel data_end pos : ℕ) (f : Filter)
    → All FitsRecord es
    → pos + length (data_section es) ≡ data_end
    → length es < fuel
    → bloom_loop fuel data_end (record { left = data_section es; pos = pos }) f
      ≡ some (add_all f (keys es))
unfolding data_section
bloom_loop-keys es zero data_end pos f h e lt = absurd (omega arith)
bloom_loop-keys [] (suc fuel) data_end pos f h e lt =
    unfold bloom_loop in rw (le→ltb pos data_end (omega arith))
bloom_loop-keys (x ∷ es) (suc fuel) data_end pos f (h, hs) e lt =
    let l = length-append (data_record x) (data_section es) in
    bloom_loop_record fuel data_end x (data_section es) pos f h
      (omega (arith, l, length-data_record x))
    ∙ bloom_loop-keys es fuel data_end (pos + length (data_record x)) (Bloom.add f x.key) hs
        (omega (arith, l)) (omega arith)

pub build_bloom-filter_of :
    (w : Writer) (es : List Entry)
    → All FitsRecord es
    → w.file ≡ data_section es
    → w.offset ≡ length (data_section es)
    → w.n_records ≡ length es
    → build_bloom w ≡ some (filter_of es)
build_bloom-filter_of w [] h f o n = unfold build_bloom in rw n
build_bloom-filter_of w (e ∷ es) h f o n =
    let t : (suc (length es) == 0) ≡ false = ground arith in
    unfold build_bloom in
    rw (n, t, f)
      (bloom_loop-keys (e ∷ es) (suc (length (data_section (e ∷ es)))) w.offset 0
        (Bloom.new (suc (length es))) h (omega arith)
        (omega (arith, length-le-data_section (e ∷ es))))

pub k-add_all : (keys : List Bytes) (f : Filter) → (add_all f keys).k ≡ f.k
k-add_all [] f = refl
k-add_all (k ∷ ks) f = k-add_all ks (Bloom.add f k) ∙ unfold Bloom.add in refl

abbrev pub bloom_bits : List Entry → Bytes
bloom_bits es = (filter_of es).bits

pub filter_of-IsFilter : (es : List Entry) → length es ≤ max_keys → IsFilter (filter_of es)
filter_of-IsFilter es h =
    add_all-IsFilter (keys es) (Bloom.new (length es)) (new-IsFilter (length es) h)

abbrev pub index_of : List Entry → List IndexEntry
index_of es = index_from 0 0 es

-- The bytes of the file of a table.
abbrev pub table_footer : List Entry → Bytes
table_footer es =
    footer (length (data_section es) + length (bloom_bits es)) (length (index_of es)) (length es)
      (length (bloom_bits es)) (filter_of es).k

unfoldable pub table_bytes : List Entry → Bytes
table_bytes es =
    data_section es ++ (bloom_bits es ++ (index_bytes (index_of es) ++ table_footer es))

pub close_parts :
    (w : Writer) (es : List Entry)
    → build_bloom w ≡ some (filter_of es)
    → w.file ≡ data_section es
    → w.offset ≡ length (data_section es)
    → w.n_records ≡ length es
    → w.index_buf ≡ index_bytes (index_of es)
    → w.index_count ≡ length (index_of es)
    → close w ≡ some (table_bytes es)
unfolding close table_bytes
close_parts w es b f o n i c = rw (close, b, f, o, n, i, c)

-- The writer closes a table with the data section, the filter, the sparse index and the footer.
pub close-written :
    (es : List Entry) → All FitsRecord es → close (written es new_writer) ≡ some (table_bytes es)
close-written es h =
    let w = written es new_writer in
    let f : w.file ≡ data_section es = file-written es new_writer in
    let o : w.offset ≡ length (data_section es) = omega (arith, offset-written es new_writer) in
    let n : w.n_records ≡ length es = omega (arith, n_records-written es new_writer) in
    close_parts w es (build_bloom-filter_of w es h f o n) f o n (index_buf-written es new_writer)
      (omega (arith, index_count-written es new_writer))
