-- ===== src/Tests/Compacting.antt =====
-- A store with two tables, with the tree of internal/art.
use kora_engine.Prelude.{◌≡◌, ◌==◌, false, refl, some, [], ◌∷◌, arith}
use kora_engine.Segment.Scan.{log_bytes}
use kora_engine.Manifest.{manifest_bytes}
use kora_engine.Disk.{World}
use kora_engine.Db.{Db, is_live_key, get}
use kora_engine.Db.Stored.{Contents, manifest_of}
use kora_engine.Db.Durable.{last_write, empty-Says, log_records}
use kora_engine.Db.Coupled.{IsHeld, IsOpen, HasRoom}
use kora_engine.Db.Scanning.{is_got, is_live_key-get}
use kora_engine.Tests.Merges.{
  newer, older, newer-IsTable, older-IsTable, two_tables, two_tables_short,
}
use kora_engine.Db.Compaction.{compact_sstables}
use kora_engine.Db.Merged.{Merges}
use kora_engine.Db.Merging.{compact_sstables-Merges}
use kora_engine.Merge.Scan.{open_tables}
use kora_engine.Sstable.Closing.{table_bytes}
use kora_engine.Art.{Tree, leaves_at}
use kora_engine.Art.Store.{art_memtable}
use kora_engine.Disk.Files.{file_at}
use kora_engine.Tests.Stores.{new_db}

-- A store with two tables and nothing in its log.
abbrev two_contents : Contents
two_contents = record {
  next_id = 3;
  next_sst_id = 3;
  tables = two_tables;
  sealed = [];
  active_id = 2;
  active_log = [];
}

abbrev two_db : Db Tree
two_db = record new_db {
  active = record { id = 2; size = 0 };
  order = 2 ∷ [];
  next_id = 3;
  ss_readers = open_tables two_contents.tables;
  ss_next_id = 3;
}

-- No call fails.
abbrev two_world : World
two_world = record {
  disk = record {
    segments = (2, []) ∷ [];
    tables = (1, table_bytes older) ∷ (2, table_bytes newer) ∷ [];
    manifest = some (manifest_bytes (manifest_of two_contents));
  };
  faults = [];
}

two_db-IsOpen : IsOpen art_memtable two_db two_contents
unfolding log_records last_write
two_db-IsOpen = record {
  contents = record {
    words = (
      omega arith,
      omega arith,
      (omega arith, tt),
      omega arith,
      omega arith,
      (omega arith, (omega arith, tt)),
    );
    sane = (
      ((tt, tt), (omega arith, tt)),
      ((((λ e. absurd (omega (arith, e))), tt), (tt, tt)), (omega arith, (omega arith, tt))),
    );
    are_tables = (newer-IsTable, (older-IsTable, tt));
    sealed_logs = tt;
    loggable = tt;
  };
  order = refl;
  active_id = refl;
  readers = refl;
  says = empty-Says art_memtable;
  keys = tt;
  next_id = omega arith;
  next_sst_id = omega arith;
}

two_world-IsHeld : IsHeld art_memtable two_db two_contents two_world.disk
unfolding file_at log_bytes
two_world-IsHeld = (
  record { manifest_at = refl; tables_at = (refl, (refl, tt)); sealed_at = tt; active_at = refl },
  λ j l. let q : (2 == j) ≡ false = ground arith in rw q refl,
)

two_room : HasRoom art_memtable 1 two_db
unfolding leaves_at
two_room = record {
  ids = omega arith;
  sst_ids = omega arith;
  segments = omega arith;
  tables = omega arith;
  leaves = omega arith;
}

compact_sstables-Merges_example :
    Merges art_memtable two_db two_contents two_db-IsOpen two_room
      (compact_sstables art_memtable two_db two_world)
compact_sstables-Merges_example =
    compact_sstables-Merges art_memtable two_db two_contents two_db-IsOpen two_room two_world
      (omega arith) two_tables_short two_world-IsHeld

is_live_key-get_example :
    is_live_key art_memtable two_db (b'a' ∷ []) ≡ is_got (get art_memtable two_db (b'a' ∷ []))
is_live_key-get_example = is_live_key-get art_memtable two_db two_contents (b'a' ∷ []) two_db-IsOpen
