-- ===== src/Sstable/Opening.antt =====
-- Opening a table that the writer closed (`Close` of writer.go, `Open` of reader.go).
use kora_engine.Prelude.{
  ℕ, suc, ◌+◌, ◌-◌, ◌/◌, ◌%◌, ◌^◌, ◌<◌, ◌≤◌, ◌≡◌, refl, sym, ap, ◌∙◌, false, some, List, [], ◌∷◌,
  ◌++◌, ltb, leb, ◌==◌, length, drop, append_assoc, length-append, drop-append, arith, All,
  Bool-cases, inl, inr, le→ltb,
}
use kora_engine.Prelude.Order.{Bytes}
use kora_engine.Prelude.Endian.{
  IsU32, IsU64, put_u32, put_u64, u32_at, u64_at, u32_word, u64_word, length-put_u32,
  length-put_u64, read_full-append, read_full-eq,
}
use kora_engine.Bloom
use kora_engine.Bloom.{Filter}
use kora_engine.Bloom.Members.{IsFilter, load-bits}
use kora_engine.Sstable.{Entry, index_stride, magic, footer_size}
use kora_engine.Sstable.Writer.{index_entry, data_record, footer}
use kora_engine.Sstable.Reader.{
  IndexEntry, Reader, read_index_entry, read_index, load_filter, load_fields, load_index,
  open_table,
}
use kora_engine.Sstable.Records.{FitsRecord, data_section}
use kora_engine.Sstable.Layout.{index_from, index_bytes}
use kora_engine.Sstable.Closing.{
  IsTable, keys, filter_of, k-add_all, bloom_bits, filter_of-IsFilter, index_of, table_footer,
  table_bytes,
}

-- Entries of an index fit their words.
abbrev FitsIndex : IndexEntry → Type 0
FitsIndex i = IsU32 (length i.key) × (i.offset < 2 ^ 63)

index_from-FitsIndex :
    (es : List Entry) (n off : ℕ)
    → All FitsRecord es
    → off + length (data_section es) < 2 ^ 63
    → All FitsIndex (index_from n off es)
unfolding index_from data_section
index_from-FitsIndex [] n off h l = tt
index_from-FitsIndex (e ∷ es) n off (h, hs) l =
    let a = length-append (data_record e) (data_section es) in
    let r = index_from-FitsIndex es (n + 1) (off + length (data_record e)) hs (omega (arith, a)) in
    elim (Bool-cases (n % index_stride == 0)) [
      | inl t ↦ rw t ((h.0, omega arith), r)
      | inr t ↦ rw t r
    ]

read_index_entry-index_entry :
    (key : Bytes) (off : ℕ) (rest : Bytes)
    → IsU32 (length key)
    → off < 2 ^ 63
    → read_index_entry (index_entry key off ++ rest)
      ≡ some (record { key = key; offset = off }, rest)
unfolding read_index_entry index_entry
read_index_entry-index_entry key off rest hk ho =
    let a : u32_at 0 (put_u32 (length key)) ≡ length key =
      unfold put_u32 u32_at in u32_word (length key) hk in
    let b : u64_at 0 (put_u64 off) ≡ off =
      unfold put_u64 u64_at in
      rw (
        u32_word (off / 2 ^ 32) (omega arith),
        u32_word (off % 2 ^ 32) (omega arith),
        u64_word off,
      ) in
    rw (
      append_assoc (put_u32 (length key)) (key ++ put_u64 off) rest,
      append_assoc key (put_u64 off) rest,
      read_index_entry,
      read_full-eq 4 (put_u32 (length key)) (key ++ (put_u64 off ++ rest))
          (length-put_u32 (length key)),
      a,
      read_full-append key (put_u64 off ++ rest),
      read_full-eq 8 (put_u64 off) rest (length-put_u64 off),
      b,
    )

read_index_step :
    (n : ℕ) (bs rest : Bytes) (i : IndexEntry) (is : List IndexEntry)
    → read_index_entry bs ≡ some (i, rest)
    → read_index n rest ≡ some is
    → read_index (suc n) bs ≡ some (i ∷ is)
unfolding read_index
read_index_step n bs rest i is h k = rw (h, k, read_index)

read_index-index_bytes :
    (is : List IndexEntry) (rest : Bytes)
    → All FitsIndex is
    → read_index (length is) (index_bytes is ++ rest) ≡ some is
unfolding index_bytes
read_index-index_bytes [] rest h = unfold read_index in refl
read_index-index_bytes (i ∷ is) rest (h, hs) =
    read_index_step (length is) ((index_entry i.key i.offset ++ index_bytes is) ++ rest)
      (index_bytes is ++ rest) i is
      (ap read_index_entry (append_assoc (index_entry i.key i.offset) (index_bytes is) rest)
        ∙ read_index_entry-index_entry i.key i.offset (index_bytes is ++ rest) h.0 h.1)
      (read_index-index_bytes is rest hs)

length-index_from : (es : List Entry) (n off : ℕ) → length (index_from n off es) ≤ length es
unfolding index_from
length-index_from [] n off = omega arith
length-index_from (e ∷ es) n off = elim (Bool-cases (n % index_stride == 0)) [
  | inl t ↦ rw t (omega (arith, length-index_from es (n + 1) (off + length (data_record e))))
  | inr t ↦ rw t (omega (arith, length-index_from es (n + 1) (off + length (data_record e))))
]

length-footer : (a b c d e : ℕ) → length (footer a b c d e) ≡ footer_size
unfolding footer put_u32 put_u64
length-footer a b c d e = refl

open_table-append :
    (id : ℕ) (front fb : Bytes)
    → length fb ≡ footer_size
    → open_table id (front ++ fb) ≡ load_index (front ++ fb) id fb
unfolding open_table
open_table-append id front fb l =
    let a : ltb (length (front ++ fb)) footer_size ≡ false =
      le→ltb _ _ (omega (arith, length-append front fb)) in
    let b : length (front ++ fb) - footer_size ≡ length front =
      omega (arith, length-append front fb) in
    rw (a, b, drop-append front fb)

-- The table that `Open` returns.
unfoldable pub table_reader : ℕ → List Entry → Reader
table_reader id es = record {
  file = table_bytes es;
  id = id;
  index = index_of es;
  filter = some (filter_of es);
  data_end = length (data_section es);
  index_off = length (data_section es) + length (bloom_bits es);
  data_count = length es;
}

load_filter-bits :
    (d : Bytes) (f : Filter) (rest : Bytes)
    → IsFilter f
    → load_filter (d ++ (f.bits ++ rest)) (length d + length f.bits) (length f.bits) f.k
      ≡ some (some f)
unfolding load_filter
load_filter-bits d f rest h =
    let a : (length f.bits == 0) ≡ false = ground arith in
    let b : ltb (length d + length f.bits) (length f.bits) ≡ false = le→ltb _ _ (omega arith) in
    let c : length d + length f.bits - length f.bits ≡ length d = omega arith in
    rw (a, b, c, drop-append d (f.bits ++ rest), read_full-append f.bits rest, load-bits f h)

load_fields_parts :
    (file : Bytes) (id io ic nr bs k : ℕ) (f : Filter) (is : List IndexEntry)
    → io < 2 ^ 63
    → load_filter file io bs k ≡ some (some f)
    → read_index ic (drop io file) ≡ some is
    → load_fields file id io ic nr bs k magic
      ≡ some (record {
        file = file;
        id = id;
        index = is;
        filter = some f;
        data_end = io - bs;
        index_off = io;
        data_count = nr;
      })
unfolding load_fields
load_fields_parts file id io ic nr bs k f is lt p q =
    let t : leb (2 ^ 63) io ≡ false = ground arith in rw (load_fields, t, p, q)

-- `Open` finds the fields of the footer where `Close` put them.
load_index-footer :
    (file : Bytes) (id io ic nr bs k : ℕ)
    → IsU64 io
    → IsU32 ic
    → IsU32 nr
    → IsU32 bs
    → IsU32 k
    → load_index file id (footer io ic nr bs k) ≡ load_fields file id io ic nr bs k magic
unfolding load_index
load_index-footer file id io ic nr bs k hi hc hn hb hk =
    let fb = footer io ic nr bs k in
    let a : u64_at 0 fb ≡ io =
      unfold footer u64_at put_u64 in
      rw
        (u32_word (io / 2 ^ 32) (omega arith), u32_word (io % 2 ^ 32) (omega arith), u64_word io) in
    let b : u32_at 8 fb ≡ ic = unfold footer u32_at put_u32 put_u64 in u32_word ic hc in
    let c : u32_at 12 fb ≡ nr = unfold footer u32_at put_u32 put_u64 in u32_word nr hn in
    let d : u32_at 16 fb ≡ bs = unfold footer u32_at put_u32 put_u64 in u32_word bs hb in
    let e : u32_at 20 fb ≡ k = unfold footer u32_at put_u32 put_u64 in u32_word k hk in
    let g : u32_at 24 fb ≡ magic =
      unfold footer u32_at put_u32 put_u64 in u32_word magic (omega arith) in
    λ i. load_fields file id (a i) (b i) (c i) (d i) (e i) (g i)

drop_both : (a b c : Bytes) → drop (length a + length b) (a ++ (b ++ c)) ≡ c
drop_both a b c =
    let l : length a + length b ≡ length (a ++ b) = sym (length-append a b) in
    rw (l, ← append_assoc a b c) (drop-append (a ++ b) c)

-- A table that was closed opens: with the index, the filter and the sizes of its entries.
pub open_table-table_bytes :
    (id : ℕ) (es : List Entry)
    → IsTable es
    → open_table id (table_bytes es) ≡ some (table_reader id es)
unfolding table_bytes table_reader
open_table-table_bytes id es h =
    let f = filter_of es in
    let (ok_array, ok_word) = filter_of-IsFilter es h.few in
    let d = data_section es in
    let ib = index_bytes (index_of es) in
    let fb = table_footer es in
    let file = d ++ (f.bits ++ (ib ++ fb)) in
    let io = length d + length f.bits in
    let short = h.short in
    let few = h.few in
    let io_lt : io < 2 ^ 63 = omega (arith, ok_array, ok_word, short) in
    let n_lt : length (index_of es) ≤ length es = length-index_from es 0 0 in
    let k_eq : f.k ≡ 7 = k-add_all (keys es) (Bloom.new (length es)) ∙ unfold Bloom.new in refl in
    let front = d ++ (f.bits ++ ib) in
    let eq : file ≡ front ++ fb =
      sym (append_assoc d (f.bits ++ ib) fb ∙ ap (λ b. d ++ b) (append_assoc f.bits ib fb)) in
    let opened : open_table id file ≡ load_index file id fb =
      rw eq (open_table-append id front fb (length-footer io _ _ _ _)) in
    let end_eq : io - length f.bits ≡ length d = omega arith in
    opened
    ∙ load_index-footer file id io (length (index_of es)) (length es) (length f.bits) f.k
        (omega arith) (omega arith) (omega arith) (omega (arith, ok_array, ok_word))
        (omega (arith, k_eq))
    ∙ load_fields_parts file id io (length (index_of es)) (length es) (length f.bits) f.k f
        (index_of es) io_lt (load_filter-bits d f (ib ++ fb) (ok_array, ok_word))
        (rw (drop_both d f.bits (ib ++ fb)) (
          read_index-index_bytes (index_of es) fb
            (index_from-FitsIndex es 0 0 h.fits (omega arith))))
    ∙ ap
        (λ n. some (record {
          file = file;
          id = id;
          index = index_of es;
          filter = some f;
          data_end = n;
          index_off = io;
          data_count = length es;
        }))
        end_eq
