-- ===== src/Db/Flushed.antt =====
-- The contents of a store behind `flushMemtable` of internal/store/flush.go.
use kora_engine.Prelude.{
  ◌≡◌, refl, ap, ◌∙◌, true, Option, some, List, [], ◌∷◌, ◌++◌, length, arith, All-append,
  length-append, ==-refl,
}
use kora_engine.Prelude.Order.{Bytes}
use kora_engine.Prelude.Endian.{IsU32}
use kora_engine.Sstable.Closing.{table_bytes}
use kora_engine.Sstable.Opening.{table_reader}
use kora_engine.Manifest.Listed.{AreAllocated-append}
use kora_engine.Merge.Newest.{prefer, newest}
use kora_engine.Merge.Scan.{all_entries, open_tables}
use kora_engine.Memtable.{Memtable}
use kora_engine.Disk.{Disk, World, write_table}
use kora_engine.Disk.Files.{file_at, file_at-put_file}
use kora_engine.Disk.Calls.{change_done}
use kora_engine.Db.{Db, SegmentFile, Error, current_sst_ids}
use kora_engine.Db.Flush.{next_u32, Result, flush_manifest, flushed}
use kora_engine.Db.View.{got_lookup}
use kora_engine.Db.Stored.{Table, Contents, IsContents, table_ids, manifest_of}
use kora_engine.Db.Durable.{last_write, log_records, stored, empty-Says}
use kora_engine.Db.Coupled.{IsOpen, HasRoom, IsHeld, leaves-IsTable-IsOpen}

pub length-table_ids : (ts : List Table) → length (table_ids ts) ≡ length (open_tables ts)
length-table_ids [] = refl
length-table_ids (t ∷ ts) =
    omega (arith, length-append (table_ids ts) (t.0 ∷ []), length-table_ids ts)

pub current_sst_ids-open_tables :
    (ts : List Table) → current_sst_ids (open_tables ts) ≡ table_ids ts
unfolding current_sst_ids table_reader
current_sst_ids-open_tables [] = refl
current_sst_ids-open_tables (t ∷ ts) =
    ap (λ ids. ids ++ (t.0 ∷ [])) (current_sst_ids-open_tables ts)

module _ (m : Memtable) (db : Db m.Tree) (c : Contents) (h : IsOpen m db c)
    (room : HasRoom m 1 db) where
  -- The contents behind a flush.
  abbrev pub flushed_contents : Contents
  flushed_contents = record {
    next_id = next_u32 db.next_id;
    next_sst_id = next_u32 db.ss_next_id;
    tables = (db.ss_next_id, m.leaves db.memtable) ∷ c.tables;
    sealed = [];
    active_id = db.next_id;
    active_log = [];
  }

  -- What a flush leaves: a store that is open on its files and in which the same is stored.
  abbrev pub Keeps : Result m → Type 0
  Keeps r =
      (e : Contents) × IsOpen m r.1 e
      × IsHeld m r.1 e r.2.disk
      × ((key : Bytes) → m.IsKey key → stored e key ≡ stored c key)

  pub same_store : (o : Option Error) (w : World) → IsHeld m db c w.disk → Keeps (o, db, w)
  same_store o w g = (c, h, g, λ key i. refl)

  -- The table of the flush is on disk.
  abbrev pub HasTable : World → Type 0
  HasTable w = file_at db.ss_next_id w.disk.tables ≡ some (table_bytes (m.leaves db.memtable))

  pub write_table-HasTable :
      (w : World)
      → (write_table db.ss_next_id (table_bytes (m.leaves db.memtable)) w).0 ≡ true
      → HasTable (write_table db.ss_next_id (table_bytes (m.leaves db.memtable)) w).1
  unfolding write_table
  write_table-HasTable w t =
      ap (λ (d : Disk). file_at db.ss_next_id d.tables) (change_done _ _ w t)
      ∙ file_at-put_file db.ss_next_id db.ss_next_id (table_bytes (m.leaves db.memtable))
          w.disk.tables
      ∙ rw (==-refl db.ss_next_id) refl

  pub flushed-IsContents : IsContents flushed_contents
  flushed-IsContents =
      let (u1, u2, u3, u4, u5, u6) = h.contents.words in
      let l1 = room.ids in
      let l2 = room.sst_ids in
      let l3 = room.tables in
      record {
        words = (
          omega arith,
          omega arith,
          (omega arith, tt),
          omega arith,
          omega (
            arith,
            length-append (table_ids c.tables) (db.ss_next_id ∷ []),
            length-table_ids c.tables,
            ap length h.readers,
          ),
          All-append IsU32 (table_ids c.tables) (db.ss_next_id ∷ []) u6 (omega arith, tt),
        );
        sane = (
          ((tt, tt), (omega arith, tt)),
          AreAllocated-append c.next_sst_id db.ss_next_id (next_u32 db.ss_next_id)
              (table_ids c.tables) h.contents.sane.1 h.next_sst_id (omega arith),
        );
        are_tables = (leaves-IsTable-IsOpen m db c h room, h.contents.are_tables);
        sealed_logs = tt;
        loggable = tt;
      }

  pub flushed-stored : (key : Bytes) → m.IsKey key → stored flushed_contents key ≡ stored c key
  unfolding stored last_write log_records newest
  flushed-stored key i =
      ap (λ l. got_lookup (prefer l (newest key (all_entries c.tables))))
        (m.find_entry-leaves db.memtable key h.says.is_tree i ∙ h.says.at key i)

  pub flushed-IsOpen :
      (seg : SegmentFile)
      → seg.id ≡ db.next_id
      → IsOpen m
          (flushed m db (table_reader db.ss_next_id (m.leaves db.memtable)) seg)
          flushed_contents
  unfolding flushed
  flushed-IsOpen seg e = record {
    contents = flushed-IsContents;
    order = refl;
    active_id = e;
    readers = ap (λ rs. table_reader db.ss_next_id (m.leaves db.memtable) ∷ rs) h.readers;
    says = unfold last_write in unfold log_records in empty-Says m;
    keys = unfold log_records in tt;
    next_id = omega arith;
    next_sst_id = omega arith;
  }

  pub current_sst_ids-readers : current_sst_ids db.ss_readers ≡ table_ids c.tables
  current_sst_ids-readers = ap current_sst_ids h.readers ∙ current_sst_ids-open_tables c.tables

  pub flush_manifest-flushed : flush_manifest m db ≡ manifest_of flushed_contents
  unfolding flush_manifest
  flush_manifest-flushed =
      ap
        (λ ids. record {
          next_id = next_u32 db.next_id;
          order = db.next_id ∷ [];
          next_sst_id = next_u32 db.ss_next_id;
          sst_ids = ids ++ (db.ss_next_id ∷ []);
        })
        current_sst_ids-readers
