-- ===== src/Merge/Tables.antt =====
-- The merge of tables into one (`kWayMergeSSTables` of internal/store/sst_compact.go) against what
-- the tables say.
use kora_engine.Prelude.{
  ◌+◌, ◌^◌, ◌<◌, ◌≤◌, length, length-append, arith, ℕ, ◌≡◌, refl, ap, ◌∙◌, Option, none, some, List,
  [], ◌∷◌, All,
}
use kora_engine.Prelude.Order.{Bytes}
use kora_engine.Sstable.{Entry}
use kora_engine.Sstable.Writer.{data_record, Writer, new_writer, set, write_entry, write_entries}
use kora_engine.Sstable.Reader.{Reader, open_table, raw_get}
use kora_engine.Sstable.Closing.{IsTable, table_bytes, close-written}
use kora_engine.Sstable.Opening.{table_reader, open_table-table_bytes}
use kora_engine.Sstable.Lookup.{raw_get-find_entry, write_entries-new_writer}
use kora_engine.Sstable.Compaction.{compaction_iterator-entries}
use kora_engine.Merge.{merge_sources, make_copy, kway_merge}
use kora_engine.Merge.Newest.{newest, live}
use kora_engine.Merge.Advance.{IsSource}
use kora_engine.Merge.Start.{merge_of, merge_of-newest}
use kora_engine.Merge.Effects.{merge_of-IsLive, deliver, deliver_one, IsLive, merge_loop-merge_of}
use kora_engine.Merge.Bounds.{sum, sums, merge_of_bounds}
use kora_engine.Sstable.Records.{FitsRecord, data_section}
use kora_engine.Bloom.Members.{max_keys}
use kora_engine.Merge.Scan.{open_tables, all_entries}

merge_sources-entries :
    (ts : List (ℕ × List Entry))
    → All (λ (t : ℕ × List Entry). IsTable t.1) ts
    → merge_sources (open_tables ts) ≡ all_entries ts
unfolding merge_sources
merge_sources-entries [] h = refl
merge_sources-entries (t ∷ ts) (h, hs) =
    rw (compaction_iterator-entries t.0 t.1 h) (ap (λ l. t.1 ∷ l) (merge_sources-entries ts hs))

pub all_entries-IsSource :
    (ts : List (ℕ × List Entry))
    → All (λ (t : ℕ × List Entry). IsTable t.1) ts
    → All (IsSource make_copy) (all_entries ts)
unfolding make_copy
all_entries-IsSource [] h = tt
all_entries-IsSource (t ∷ ts) (h, hs) = ((h.sorted, copies t.1), all_entries-IsSource ts hs)
  where
    copies : (es : List Entry) → All (λ (e : Entry). make_copy e.key ≡ some e.key) es
    copies [] = tt
    copies (e ∷ es) = (refl, copies es)

with_result-eq :
    (f g : Writer → Option Writer) (o : Option Writer)
    → ((w : Writer) → f w ≡ g w)
    → (elim o [ none ↦ none | some w ↦ f w ]) ≡ (elim o [ none ↦ none | some w ↦ g w ])
with_result-eq f g none h = refl
with_result-eq f g (some w) h = h w

deliver-set : (es : List Entry) (w : Writer) → All IsLive es → deliver set es w ≡ write_entries es w
unfolding deliver deliver_one write_entries write_entry
deliver-set [] w h = refl
deliver-set (e ∷ es) w ((v, p), hs) = rw p (
    with_result-eq (deliver set es) (write_entries es) (set e.key v w) (λ w'. deliver-set es w' hs))

abbrev data_size : Entry → ℕ
data_size e = length (data_record e)

length-sum : (es : List Entry) → length es ≡ sum (λ e. 1) FitsRecord es
length-sum [] = refl
length-sum (e ∷ es) = omega (arith, length-sum es)

length-data_section-sum : (es : List Entry) → length (data_section es) ≡ sum data_size FitsRecord es
unfolding data_section
length-data_section-sum [] = refl
length-data_section-sum (e ∷ es) =
    omega (arith, length-append (data_record e) (data_section es), length-data_section-sum es)

-- The entries of all tables, and the bytes of their data sections.
abbrev pub count : List (ℕ × List Entry) → ℕ
count [] = 0
count (t ∷ ts) = length t.1 + count ts

abbrev pub data_bytes : List (ℕ × List Entry) → ℕ
data_bytes [] = 0
data_bytes (t ∷ ts) = length (data_section t.1) + data_bytes ts

count-sums : (ts : List (ℕ × List Entry)) → sums (λ e. 1) FitsRecord (all_entries ts) ≡ count ts
count-sums [] = refl
count-sums (t ∷ ts) = omega (arith, length-sum t.1, count-sums ts)

data_bytes-sums :
    (ts : List (ℕ × List Entry)) → sums data_size FitsRecord (all_entries ts) ≡ data_bytes ts
data_bytes-sums [] = refl
data_bytes-sums (t ∷ ts) = omega (arith, length-data_section-sum t.1, data_bytes-sums ts)

all_fit :
    (ts : List (ℕ × List Entry))
    → All (λ (t : ℕ × List Entry). IsTable t.1) ts
    → All (All FitsRecord) (all_entries ts)
all_fit [] h = tt
all_fit (t ∷ ts) (h, hs) = (h.fits, all_fit ts hs)

-- The merged entries make a table if all entries together would.
pub merge_of-IsTable :
    (ts : List (ℕ × List Entry))
    → All (λ (t : ℕ × List Entry). IsTable t.1) ts
    → count ts ≤ max_keys
    → data_bytes ts < 2 ^ 62
    → IsTable (merge_of make_copy (all_entries ts))
merge_of-IsTable ts h c d =
    let srcs = all_entries ts in
    let es = merge_of make_copy srcs in
    let (le, fits) = merge_of_bounds (λ e. 1) FitsRecord make_copy srcs (all_fit ts h) in
    let (le', fits') = merge_of_bounds data_size FitsRecord make_copy srcs (all_fit ts h) in
    record {
      sorted = (merge_of-newest make_copy srcs (all_entries-IsSource ts h)).0;
      fits = fits;
      few = omega (arith, length-sum es, count-sums ts);
      short = omega (arith, length-data_section-sum es, data_bytes-sums ts);
    }

pub kway_merge-table_bytes :
    (ts : List (ℕ × List Entry))
    → All (λ (t : ℕ × List Entry). IsTable t.1) ts
    → IsTable (merge_of make_copy (all_entries ts))
    → kway_merge (open_tables ts) ≡ some (table_bytes (merge_of make_copy (all_entries ts)))
unfolding kway_merge
kway_merge-table_bytes ts h ok =
    let es = merge_of make_copy (all_entries ts) in
    rw
      (
        merge_sources-entries ts h,
        merge_loop-merge_of make_copy set (all_entries ts) new_writer (all_entries-IsSource ts h)
            ∙ deliver-set es new_writer (merge_of-IsLive make_copy (all_entries ts))
            ∙ write_entries-new_writer es ok,
        kway_merge,
      )
      (close-written es ok.fits)

-- Tables, newest first, are merged into one file, which opens as a table. A lookup in it finds the
-- value of the newest table that speaks of the key, and nothing of a key that this table says is
-- deleted. All entries together are few and short enough for one table.
pub kway_merge-newest :
    (id : ℕ) (ts : List (ℕ × List Entry)) (key : Bytes)
    → All (λ (t : ℕ × List Entry). IsTable t.1) ts
    → count ts ≤ max_keys
    → data_bytes ts < 2 ^ 62
    → (file : Bytes) × (r : Reader) × (kway_merge (open_tables ts) ≡ some file)
      × (open_table id file ≡ some r)
      × (raw_get r key ≡ live (newest key (all_entries ts)))
kway_merge-newest id ts key h c d =
    let es = merge_of make_copy (all_entries ts) in
    let ok = merge_of-IsTable ts h c d in
    (
      table_bytes es,
      table_reader id es,
      kway_merge-table_bytes ts h ok,
      open_table-table_bytes id es ok,
      raw_get-find_entry id es key ok
          ∙ (merge_of-newest make_copy (all_entries ts) (all_entries-IsSource ts h)).1 key,
    )
