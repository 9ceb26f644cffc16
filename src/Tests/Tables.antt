-- ===== src/Tests/Tables.antt =====
-- Tables at concrete inputs.
use kora_engine.Prelude.{ℕ, ◌≡◌, ◌-◌, refl, none, some, List, [], ◌∷◌, arith}
use kora_engine.Prelude.Order.{Bytes, compare_bytes}
use kora_engine.Prelude.Endian.{put_u32}
use kora_engine.Sstable.{Entry, encode_record_header}
use kora_engine.Sstable.Writer.{data_record, Writer, new_writer, write_entries, close}
use kora_engine.Sstable.Reader.{
  Reader, IndexEntry, open_table, raw_get, nth_offset, seek_offset, scan_iterator,
  compaction_iterator,
}
use kora_engine.Sstable.Records.{data_section}
use kora_engine.Sstable.Closing.{IsTable, table_bytes}
use kora_engine.Sstable.Opening.{table_reader, open_table-table_bytes}
use kora_engine.Sstable.Search.{IsSplit, seek_offset-IsSplit}
use kora_engine.Sstable.Scanning.{find_entry}
use kora_engine.Sstable.Lookup.{raw_get_written}
use kora_engine.Sstable.Ranges.{in_range, scan_iterator-in_range}
use kora_engine.Sstable.Compaction.{compaction_iterator-entries}

abbrev fruit : List Entry
fruit =
    record { key = b'a' ∷ []; value = some (b'1' ∷ []) }
    ∷ record { key = b'b' ∷ []; value = none }
    ∷ record { key = b'c' ∷ []; value = some [] }
    ∷ []

fruit-IsTable : IsTable fruit
unfolding compare_bytes data_section data_record encode_record_header put_u32
fruit-IsTable = record {
  sorted = ((refl, (refl, tt)), ((refl, tt), (tt, tt)));
  fits = omega arith;
  few = omega arith;
  short = omega arith;
}

raw_get_written_example :
    (w : Writer) × (file : Bytes) × (r : Reader) × (write_entries fruit new_writer ≡ some w)
    × (close w ≡ some file)
    × (open_table 1 file ≡ some r)
    × (raw_get r (b'b' ∷ []) ≡ find_entry (b'b' ∷ []) fruit)
raw_get_written_example = raw_get_written 1 fruit (b'b' ∷ []) fruit-IsTable

open_table-table_bytes_example : open_table 1 (table_bytes fruit) ≡ some (table_reader 1 fruit)
open_table-table_bytes_example = open_table-table_bytes 1 fruit fruit-IsTable

scan_iterator-in_range_example :
    scan_iterator (table_reader 1 fruit) (some (b'b' ∷ [])) none
    ≡ in_range (some (b'b' ∷ [])) none fruit
scan_iterator-in_range_example =
    scan_iterator-in_range 1 fruit (some (b'b' ∷ [])) none fruit-IsTable

compaction_iterator-entries_example : compaction_iterator (table_reader 1 fruit) ≡ fruit
compaction_iterator-entries_example = compaction_iterator-entries 1 fruit fruit-IsTable

abbrev one_entry : IndexEntry
one_entry = record { key = b'a' ∷ []; offset = 0 }

seek_offset-IsSplit_example :
    (c : ℕ) × IsSplit (one_entry ∷ []) (b'b' ∷ []) c c
    × (seek_offset (one_entry ∷ []) (b'b' ∷ []) ≡ nth_offset (one_entry ∷ []) (c - 1))
seek_offset-IsSplit_example =
    seek_offset-IsSplit one_entry [] (b'b' ∷ []) (λ i j lt l. absurd (omega arith))
