-- ===== src/Tests/Merges.antt =====
-- Merges at concrete inputs.
use kora_engine.Prelude.{
  ◌<◌, ◌^◌, ℕ, ◌≡◌, ◌≢◌, refl, none, some, List, [], ◌∷◌, if◌then◌else◌, arith,
}
use kora_engine.Prelude.Order.{Bytes, compare_bytes, bytes_equal}
use kora_engine.Prelude.Endian.{put_u32}
use kora_engine.Sstable.{Entry, encode_record_header}
use kora_engine.Sstable.Writer.{data_record}
use kora_engine.Sstable.Reader.{Reader, absent, open_table, raw_get}
use kora_engine.Sstable.Records.{data_section}
use kora_engine.Sstable.Layout.{IsSorted}
use kora_engine.Sstable.Closing.{IsTable}
use kora_engine.Sstable.Scanning.{find_entry}
use kora_engine.Merge.{
  collect_scan, kway_merge, make_copy, less, push, pop, push_next, start_heap, is_new, next_last,
  total,
}
use kora_engine.Merge.Newest.{newest, live}
use kora_engine.Merge.Advance.{merged, kept, emitted}
use kora_engine.Merge.Start.{merge_of}
use kora_engine.Merge.Scan.{open_tables, all_entries, outside, copies, collect_scan-newest}
use kora_engine.Merge.Tables.{data_bytes, kway_merge-newest}

-- The newer table deletes "a"; both have "b".
abbrev pub newer : List Entry
newer =
    record { key = b'a' ∷ []; value = none }
    ∷ record { key = b'b' ∷ []; value = some (b'2' ∷ []) }
    ∷ []

abbrev pub older : List Entry
older =
    record { key = b'a' ∷ []; value = some (b'1' ∷ []) }
    ∷ record { key = b'b' ∷ []; value = some (b'1' ∷ []) }
    ∷ []

-- What is in memory: "c".
abbrev unflushed : List Entry
unflushed = record { key = b'c' ∷ []; value = some (b'3' ∷ []) } ∷ []

abbrev merged_pair : List Entry
merged_pair = record { key = b'b' ∷ []; value = some (b'2' ∷ []) } ∷ []

pub newer-IsTable : IsTable newer
unfolding compare_bytes data_section data_record encode_record_header put_u32
newer-IsTable = record {
  sorted = ((refl, tt), (tt, tt));
  fits = omega arith;
  few = omega arith;
  short = omega arith;
}

pub older-IsTable : IsTable older
unfolding compare_bytes data_section data_record encode_record_header put_u32
older-IsTable = record {
  sorted = ((refl, tt), (tt, tt));
  fits = omega arith;
  few = omega arith;
  short = omega arith;
}

abbrev pub two_tables : List (ℕ × List Entry)
two_tables = (2, newer) ∷ (1, older) ∷ []

merge_of-two_tables : merge_of make_copy (all_entries two_tables) ≡ merged_pair
unfolding merge_of merged kept emitted pop push push_next start_heap is_new next_last less total
    make_copy compare_bytes bytes_equal
merge_of-two_tables = refl

pub has_key : {b : ℕ} {key : Bytes} → b ∷ key ≢ []
has_key h = cc

collect_scan-newest_example :
    (out : List Entry) × (collect_scan unflushed (open_tables two_tables) (some (b'a' ∷ [])) none
      ≡ some (copies out))
    × IsSorted out
    × ((key : Bytes)
        → find_entry key out ≡ (
            if outside (some (b'a' ∷ [])) none key
            then absent
            else live (newest key (unflushed ∷ all_entries two_tables))))
unfolding compare_bytes
collect_scan-newest_example =
    collect_scan-newest unflushed two_tables (some (b'a' ∷ [])) none (tt, tt)
      (newer-IsTable, (older-IsTable, tt)) (has_key, tt)
      ((has_key, (has_key, tt)), ((has_key, (has_key, tt)), tt))

pub two_tables_short : data_bytes two_tables < 2 ^ 62
unfolding data_section data_record encode_record_header put_u32
two_tables_short = omega arith

kway_merge-newest_example :
    (file : Bytes) × (r : Reader) × (kway_merge (open_tables two_tables) ≡ some file)
    × (open_table 3 file ≡ some r)
    × (raw_get r (b'a' ∷ []) ≡ live (newest (b'a' ∷ []) (all_entries two_tables)))
kway_merge-newest_example =
    kway_merge-newest 3 two_tables (b'a' ∷ []) (newer-IsTable, (older-IsTable, tt)) (omega arith)
      two_tables_short
