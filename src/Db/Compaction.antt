-- ===== src/Db/Compaction.antt =====
-- `CompactSSTables` of internal/store/sst_compact.go: all tables are merged into one.
use kora_engine.Prelude.{Option, none, some, List, [], ◌∷◌, ltb, if◌then◌else◌, length}
use kora_engine.Manifest.{Manifest}
use kora_engine.Sstable.Reader.{Reader}
use kora_engine.Merge.{kway_merge}
use kora_engine.Disk.{World, write_table, remove_table, write_manifest}
use kora_engine.Memtable.{Memtable}
use kora_engine.Db.{Db, Error, io, out_of_order, bad_table}
use kora_engine.Db.Flush.{next_u32, open_file}

unfoldable pub remove_tables : List Reader → World → World
remove_tables [] w = w
remove_tables (r ∷ rs) w = remove_tables rs (remove_table r.id w)

module _ (m : Memtable) where
  abbrev pub Result : Type 0
  Result = Option Error × Db m.Tree × World

  -- The number of the new table is taken, whether it comes to be or not.
  unfoldable pub take_sst_id : Db m.Tree → Db m.Tree
  take_sst_id db = record db { ss_next_id = next_u32 db.ss_next_id }

  unfoldable pub compact_manifest : Db m.Tree → Manifest
  compact_manifest db = record {
    next_id = db.next_id;
    order = db.order;
    next_sst_id = next_u32 db.ss_next_id;
    sst_ids = db.ss_next_id ∷ [];
  }

  unfoldable pub compacted : Db m.Tree → Reader → Db m.Tree
  compacted db r = record db { ss_next_id = next_u32 db.ss_next_id; ss_readers = r ∷ [] }

  unfoldable pub compact_commit : Db m.Tree → Reader → World → Result
  compact_commit db r w =
      let (done, w') = write_manifest (compact_manifest db) w in
      if done
      then (none, compacted db r, remove_tables db.ss_readers w')
      else (some io, take_sst_id db, remove_table db.ss_next_id w')

  unfoldable pub compact_open : Db m.Tree → World → Result
  compact_open db w =
      let (reader, w') = open_file db.ss_next_id w in
      elim reader [
        | none ↦ (some bad_table, take_sst_id db, remove_table db.ss_next_id w')
        | some r ↦ compact_commit db r w'
      ]

  -- The merge, into the new file.
  unfoldable pub compact_write : Db m.Tree → World → Result
  compact_write db w = elim (kway_merge db.ss_readers) [
    | none ↦ (some out_of_order, take_sst_id db, remove_table db.ss_next_id w)
    | some bs ↦
        let (done, w') = write_table db.ss_next_id bs w in
        if done
        then compact_open db w'
        else (some io, take_sst_id db, remove_table db.ss_next_id w')
  ]

  unfoldable pub compact_sstables : Db m.Tree → World → Result
  compact_sstables db w =
      let (done, w') = write_table db.ss_next_id [] w in
      let step =
        if done
        then compact_write db w'
        else (some io, take_sst_id db, remove_table db.ss_next_id w') in
      if ltb (length db.ss_readers) 2 then (none, db, w) else step
