-- ===== src/Sstable/Reader.antt =====
-- internal/sstable/reader.go. An open table holds the bytes of its file, which never change.
use kora_engine.Prelude.{
  ℕ, zero, suc, ◌+◌, ◌-◌, ◌/◌, ◌^◌, Bool, false, not, Option, none, some, List, [], ◌∷◌, ltb, leb,
  ◌==◌, if◌then◌else◌, length, drop,
}
use kora_engine.Prelude.Order.{Bytes, compare_bytes, is_gt, is_lt, is_eq}
use kora_engine.Prelude.Endian.{u32_at, u64_at, full, at_end, cut_short, read_full}
use kora_engine.Bloom
use kora_engine.Bloom.{Filter}
use kora_engine.Sstable.{Entry, Cursor, entry, eof, corrupt, magic, footer_size, read_record}

pub record IndexEntry : Type 0 where
  pub key : Bytes
  pub offset : ℕ

pub record Reader : Type 0 where
  pub file : Bytes
  pub id : ℕ
  pub index : List IndexEntry
  pub filter : Option Filter
  pub data_end : ℕ
  pub index_off : ℕ
  pub data_count : ℕ

-- `readIndexEntry`; `none` is any of its errors.
unfoldable pub read_index_entry : Bytes → Option (IndexEntry × Bytes)
read_index_entry bs = elim (read_full 4 bs) [
  | at_end ↦ none
  | cut_short ↦ none
  | full len rest ↦ elim (read_full (u32_at 0 len) rest) [
    | at_end ↦ none
    | cut_short ↦ none
    | full key rest' ↦ elim (read_full 8 rest') [
      | at_end ↦ none
      | cut_short ↦ none
      | full off rest'' ↦ some (record { key = key; offset = u64_at 0 off }, rest'')
    ]
  ]
]

unfoldable pub read_index : ℕ → Bytes → Option (List IndexEntry)
read_index zero bs = some []
read_index (suc n) bs = elim (read_index_entry bs) [
  | none ↦ none
  | some (e, rest) ↦ elim (read_index n rest) [ none ↦ none | some es ↦ some (e ∷ es) ]
]

-- The filter of the bytes behind the data section, if the footer announces one.
unfoldable pub load_filter : Bytes → ℕ → ℕ → ℕ → Option (Option Filter)
load_filter file index_off bloom_size k =
    if bloom_size == 0
    then some none
    else if ltb index_off bloom_size
    then none
    else elim (read_full bloom_size (drop (index_off - bloom_size) file)) [
      | full bits rest ↦ some (some (Bloom.load bits k))
      | at_end ↦ none
      | cut_short ↦ none
    ]

-- `loadFooterAndIndex` behind the read of the footer's fields. A seek to an offset past the greatest
-- `int64`, which is negative for the code, fails.
unfoldable pub load_fields : Bytes → ℕ → ℕ → ℕ → ℕ → ℕ → ℕ → ℕ → Option Reader
load_fields file id index_off index_count data_count bloom_size k mg =
    if not (mg == magic)
    then none
    else if leb (2 ^ 63) index_off
    then none
    else elim (load_filter file index_off bloom_size k) [
      | none ↦ none
      | some f ↦ elim (read_index index_count (drop index_off file)) [
        | none ↦ none
        | some index ↦ some (record {
          file = file;
          id = id;
          index = index;
          filter = f;
          data_end = index_off - bloom_size;
          index_off = index_off;
          data_count = data_count;
        })
      ]
    ]

unfoldable pub load_index : Bytes → ℕ → Bytes → Option Reader
load_index file id fb =
    load_fields file id (u64_at 0 fb) (u32_at 8 fb) (u32_at 12 fb) (u32_at 16 fb) (u32_at 20 fb)
      (u32_at 24 fb)

-- `Open`, with the id that the file's name holds; `none` is `ErrCorrupt`.
unfoldable pub open_table : ℕ → Bytes → Option Reader
open_table id file =
    if ltb (length file) footer_size
    then none
    else load_index file id (drop (length file - footer_size) file)

unfoldable pub nth_key : List IndexEntry → ℕ → Bytes
nth_key [] i = []
nth_key (e ∷ es) zero = e.key
nth_key (e ∷ es) (suc i) = nth_key es i

unfoldable pub nth_offset : List IndexEntry → ℕ → ℕ
nth_offset [] i = 0
nth_offset (e ∷ es) zero = e.offset
nth_offset (e ∷ es) (suc i) = nth_offset es i

-- The binary search of `seekOffset`. `top` is the code's `hi + 1`, which is never negative.
unfoldable pub search_loop : ℕ → List IndexEntry → Bytes → ℕ → ℕ → ℕ → ℕ
search_loop zero index key lo top result = result
search_loop (suc fuel) index key lo top result =
    let mid = (lo + (top - 1)) / 2 in
    let right = search_loop fuel index key (mid + 1) top mid in
    let left = search_loop fuel index key lo mid result in
    if ltb lo top
    then (if is_gt (compare_bytes (nth_key index mid) key) then left else right)
    else result

unfoldable pub seek_offset : List IndexEntry → Bytes → ℕ
seek_offset [] key = 0
seek_offset (e ∷ es) key =
    nth_offset (e ∷ es) (search_loop (length (e ∷ es)) (e ∷ es) key 0 (length (e ∷ es)) 0)

-- What `RawGet` returns.
pub data Lookup : Type 0 where
  found : Bytes → Lookup
  deleted absent failed : Lookup

unfoldable pub entry_lookup : Option Bytes → Lookup
entry_lookup none = deleted
entry_lookup (some v) = found v

-- The loop of `RawGet`, on fuel: one round for each record.
unfoldable pub get_loop : ℕ → ℕ → Bytes → Cursor → Lookup
get_loop zero data_end key c = failed
get_loop (suc fuel) data_end key c = elim (read_record c) [
  | eof ↦ absent
  | corrupt ↦ failed
  | entry e c' ↦
      let more = get_loop fuel data_end key c' in
      if is_eq (compare_bytes e.key key)
      then entry_lookup e.value
      else if is_gt (compare_bytes e.key key)
      then absent
      else if leb data_end c'.pos
      then absent
      else more
]

abbrev pub rejects : Option Filter → Bytes → Bool
rejects none key = false
rejects (some f) key = not (Bloom.has f key)

abbrev pub cursor_at : Reader → ℕ → Cursor
cursor_at r offset = record { left = drop offset r.file; pos = offset }

unfoldable pub raw_get : Reader → Bytes → Lookup
raw_get r key =
    let offset = seek_offset r.index key in
    if rejects r.filter key
    then absent
    else if leb (2 ^ 63) offset
    then failed
    else get_loop (suc (length r.file)) r.data_end key (cursor_at r offset)

-- The bounds of a scan; a nil bound is `none`.
abbrev pub below_start : Option Bytes → Bytes → Bool
below_start none key = false
below_start (some s) key = is_lt (compare_bytes key s)

abbrev pub beyond_end : Option Bytes → Bytes → Bool
beyond_end none key = false
beyond_end (some s) key = is_gt (compare_bytes key s)

-- All that the closure of `ScanIterator` yields until it is done, on fuel.
unfoldable pub scan_loop : ℕ → ℕ → Option Bytes → Option Bytes → Cursor → List Entry
scan_loop zero data_end start end c = []
scan_loop (suc fuel) data_end start end c =
    let step : List Entry = (elim (read_record c) [
      | eof ↦ []
      | corrupt ↦ []
      | entry e c' ↦
          let more = scan_loop fuel data_end start end c' in
          if below_start start e.key then more else if beyond_end end e.key then [] else e ∷ more
    ]) in
    if leb data_end c.pos then [] else step

abbrev pub start_offset : Reader → Option Bytes → ℕ
start_offset r none = 0
start_offset r (some s) = seek_offset r.index s

unfoldable pub scan_iterator : Reader → Option Bytes → Option Bytes → List Entry
scan_iterator r start end =
    let offset = start_offset r start in
    if leb (2 ^ 63) offset
    then []
    else scan_loop (suc (length r.file)) r.data_end start end (cursor_at r offset)

-- `CompactionIterator`: the same loop over the whole data section.
unfoldable pub compaction_loop : ℕ → ℕ → Cursor → List Entry
compaction_loop zero data_end c = []
compaction_loop (suc fuel) data_end c =
    let step : List Entry = (elim (read_record c) [
      | eof ↦ []
      | corrupt ↦ []
      | entry e c' ↦ e ∷ compaction_loop fuel data_end c'
    ]) in
    if leb data_end c.pos then [] else step

unfoldable pub compaction_iterator : Reader → List Entry
compaction_iterator r = compaction_loop (suc (length r.file)) r.data_end (cursor_at r 0)
