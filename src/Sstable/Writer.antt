-- ===== src/Sstable/Writer.antt =====
-- internal/sstable/writer.go, and the loop of `flushMemtable` (internal/store/flush.go) that calls
-- it. The file is the list of the bytes written so far; a failing write is not modelled.
use mathlib.Core.Option
use kora_engine.Prelude.{
  ℕ, zero, suc, ◌+◌, ◌%◌, ◌^◌, Option, none, some, List, [], ◌∷◌, ◌++◌, ltb, ◌==◌, if◌then◌else◌,
  length,
}
use kora_engine.Prelude.Order.{Bytes, compare_bytes, is_gt}
use kora_engine.Prelude.Endian.{put_u32, put_u64}
use kora_engine.Bloom
use kora_engine.Bloom.{Filter}
use kora_engine.Sstable.{
  Entry, Cursor, entry, eof, corrupt, slice, index_stride, tombstone_sentinel, magic,
  encode_record_header, read_record,
}

pub record Writer : Type 0 where
  pub file : Bytes
  pub offset : ℕ
  pub n_records : ℕ
  pub last_key : Option Bytes
  pub index_buf : Bytes
  pub index_count : ℕ

abbrev pub new_writer : Writer
new_writer = record {
  file = [];
  offset = 0;
  n_records = 0;
  last_key = none;
  index_buf = [];
  index_count = 0;
}

unfoldable pub check_order : Bytes → Writer → Option Writer
check_order key w = elim w.last_key [
  | none ↦ some (record w { last_key = some key })
  | some last ↦
      if is_gt (compare_bytes key last) then some (record w { last_key = some key }) else none
]

unfoldable pub index_entry : Bytes → ℕ → Bytes
index_entry key offset = put_u32 (length key) ++ (key ++ put_u64 offset)

unfoldable pub append_index : Bytes → ℕ → Writer → Writer
append_index key offset w = record w {
  index_buf = w.index_buf ++ index_entry key offset;
  index_count = (w.index_count + 1) % 2 ^ 32;
}

unfoldable pub val_len : Option Bytes → ℕ
val_len none = tombstone_sentinel
val_len (some v) = length v % 2 ^ 32

unfoldable pub data_record : Entry → Bytes
data_record e = encode_record_header (length e.key) (val_len e.value) ++ (e.key ++ slice e.value)

unfoldable pub write_record : Entry → Writer → Writer
write_record e w =
    let w' = if w.n_records % index_stride == 0 then append_index e.key w.offset w else w in
    record w' {
      file = w'.file ++ data_record e;
      offset = w'.offset + length (data_record e);
      n_records = (w'.n_records + 1) % 2 ^ 32;
    }

-- `Set` and `Delete`: `none` is the error of a key out of order.
unfoldable pub set : Bytes → Bytes → Writer → Option Writer
set key value w =
    Option.map (write_record (record { key = key; value = some value })) (check_order key w)

unfoldable pub delete : Bytes → Writer → Option Writer
delete key w = Option.map (write_record (record { key = key; value = none })) (check_order key w)

-- One call of `Set` or `Delete` for each entry, in order, as a flush and a merge make them.
unfoldable pub write_entry : Entry → Writer → Option Writer
write_entry e w = elim e.value [ none ↦ delete e.key w | some v ↦ set e.key v w ]

unfoldable pub write_entries : List Entry → Writer → Option Writer
write_entries [] w = some w
write_entries (e ∷ es) w = elim (write_entry e w) [ none ↦ none | some w' ↦ write_entries es w' ]

-- The loop of `buildBloom`, on fuel: one round for each record.
unfoldable pub bloom_loop : ℕ → ℕ → Cursor → Filter → Option Filter
bloom_loop zero data_end c f = some f
bloom_loop (suc fuel) data_end c f =
    let step : Option Filter = (elim (read_record c) [
      | eof ↦ some f
      | corrupt ↦ none
      | entry e c' ↦ bloom_loop fuel data_end c' (Bloom.add f e.key)
    ]) in
    if ltb c.pos data_end then step else some f

unfoldable pub build_bloom : Writer → Option Filter
build_bloom w =
    if w.n_records == 0
    then some (Bloom.new w.n_records)
    else bloom_loop (suc (length w.file)) w.offset (record { left = w.file; pos = 0 })
        (Bloom.new w.n_records)

unfoldable pub footer : ℕ → ℕ → ℕ → ℕ → ℕ → Bytes
footer index_off index_count n_records bloom_size k =
    put_u64 index_off
    ++ (put_u32 index_count
        ++ (put_u32 n_records ++ (put_u32 bloom_size ++ (put_u32 k ++ put_u32 magic))))

-- `Close`: the bytes of the finished file.
unfoldable pub close : Writer → Option Bytes
close w = elim (build_bloom w) [
  | none ↦ none
  | some f ↦ some (
      w.file
      ++ (f.bits
          ++ (w.index_buf
              ++ footer (w.offset + length f.bits) w.index_count w.n_records (length f.bits) f.k)))
]
