-- ===== src/Db/Flush.antt =====
-- `flushMemtable` of internal/store/flush.go. The calls that write one file, one behind the other, are
-- one call, which a failure tears after any number of bytes.
use kora_engine.Prelude.{
  ℕ, ◌+◌, ◌%◌, ◌^◌, Option, none, some, List, [], ◌∷◌, ◌++◌, ◌==◌, if◌then◌else◌, length,
}
use kora_engine.Prelude.Order.{Bytes}
use kora_engine.Manifest.{Manifest}
use kora_engine.Sstable.{Entry}
use kora_engine.Sstable.Writer.{new_writer, write_entries, close}
use kora_engine.Sstable.Reader.{Reader, open_table}
use kora_engine.Disk.{
  World, call, create_segment_file, remove_segment, write_table, remove_table, write_manifest,
}
use kora_engine.Disk.Files.{file_at, bytes_of}
use kora_engine.Memtable.{Memtable}
use kora_engine.Db.{SegmentFile, Db, Error, io, out_of_order, bad_table, current_sst_ids}

abbrev pub next_u32 : ℕ → ℕ
next_u32 n = (n + 1) % 2 ^ 32

abbrev pub file_size : ℕ → World → ℕ
file_size id w = length (bytes_of (file_at id w.disk.segments))

-- `createSegment`.
unfoldable pub create_segment : ℕ → World → Option SegmentFile × World
create_segment id w =
    let (done, w') = create_segment_file id w in
    if done then (some (record { id = id; size = file_size id w' }), w') else (none, w')

-- `sstable.Open`: the read of the file and its checks.
unfoldable pub open_file : ℕ → World → Option Reader × World
open_file id w =
    let (done, w') = call w in
    if done
    then (elim (file_at id w'.disk.tables) [ none ↦ none | some bs ↦ open_table id bs ], w')
    else (none, w')

-- The bytes that the writer makes of the entries; `none` is a key out of order.
unfoldable pub written_table : List Entry → Option Bytes
written_table es = elim (write_entries es new_writer) [ none ↦ none | some w ↦ close w ]

unfoldable pub remove_segments : List ℕ → World → World
remove_segments [] w = w
remove_segments (id ∷ ids) w = remove_segments ids (remove_segment id w)

module _ (m : Memtable) where
  abbrev pub Result : Type 0
  Result = Option Error × Db m.Tree × World

  -- The manifest that a flush commits.
  unfoldable pub flush_manifest : Db m.Tree → Manifest
  flush_manifest db = record {
    next_id = next_u32 db.next_id;
    order = db.next_id ∷ [];
    next_sst_id = next_u32 db.ss_next_id;
    sst_ids = current_sst_ids db.ss_readers ++ (db.ss_next_id ∷ []);
  }

  -- The state behind the commit.
  unfoldable pub flushed : Db m.Tree → Reader → SegmentFile → Db m.Tree
  flushed db r seg = record db {
    ss_next_id = next_u32 db.ss_next_id;
    next_id = next_u32 db.next_id;
    order = db.next_id ∷ [];
    sealed = [];
    active = seg;
    ss_readers = r ∷ db.ss_readers;
    memtable = m.empty;
    mem_size = 0;
  }

  -- Steps 3 to 5.
  unfoldable pub flush_commit : Db m.Tree → Reader → SegmentFile → World → Result
  flush_commit db r seg w =
      let (done, w') = write_manifest (flush_manifest db) w in
      if done
      then (none, flushed db r seg, remove_segments db.order w')
      else (some io, db, remove_table db.ss_next_id (remove_segment db.next_id w'))

  -- Step 2.
  unfoldable pub flush_segment : Db m.Tree → Reader → World → Result
  flush_segment db r w =
      let (seg, w') = create_segment db.next_id w in
      elim seg [
        | none ↦ (some io, db, remove_table db.ss_next_id w')
        | some s ↦ flush_commit db r s w'
      ]

  unfoldable pub flush_open : Db m.Tree → World → Result
  flush_open db w =
      let (reader, w') = open_file db.ss_next_id w in
      elim reader [
        | none ↦ (some bad_table, db, remove_table db.ss_next_id w')
        | some r ↦ flush_segment db r w'
      ]

  -- Step 1, with the directory made and the file created.
  unfoldable pub flush_write : Db m.Tree → World → Result
  flush_write db w = elim (written_table (m.leaves db.memtable)) [
    | none ↦ (some out_of_order, db, remove_table db.ss_next_id w)
    | some bs ↦
        let (done, w') = write_table db.ss_next_id bs w in
        if done then flush_open db w' else (some io, db, remove_table db.ss_next_id w')
  ]

  unfoldable pub flush_create : Db m.Tree → World → Result
  flush_create db w =
      let (done, w') = write_table db.ss_next_id [] w in
      if done then flush_write db w' else (some io, db, w')

  unfoldable pub flush_memtable : Db m.Tree → World → Result
  flush_memtable db w =
      let (done, w') = call w in
      let step = if done then flush_create db w' else (some io, db, w') in
      if m.len db.memtable == 0 then (none, record db { mem_size = 0 }, w) else step
