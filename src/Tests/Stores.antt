-- ===== src/Tests/Stores.antt =====
-- Stores at concrete inputs, with the tree of internal/art.
use mathlib.Core.Path.{subst}
use kora_engine.Prelude.{
  ◌≡◌, refl, sym, ◌∙◌, true, Option, none, some, [], ◌∷◌, drop, take, ◌++◌, arith, inl, inr,
}
use kora_engine.Prelude.Order.{Bytes, bytes_equal, compare_bytes}
use kora_engine.Record.{encode, encode_at, meta}
use kora_engine.Record.RoundTrip.{record_bytes}
use kora_engine.Segment.Scan.{log_bytes}
use kora_engine.Manifest.{manifest_bytes}
use kora_engine.Disk.{append_segment, change, call, fails, torn, Disk, World}
use kora_engine.Db.{Db, got, got_of, is_live_key, is_live_in, Options, get, missing, fill_defaults}
use kora_engine.Db.Write.{
  write, write_rolled, write_appended, maybe_flush, remember, grown, append_active, mem_cost,
  count_key, maybe_rollover,
}
use kora_engine.Db.Flush.{flush_memtable}
use kora_engine.Db.Open.{open_db, opened_db}
use kora_engine.Db.Stored.{Contents, IsContents, Stored, IsCut, manifest_of}
use kora_engine.Db.Calm.{calm}
use kora_engine.Db.Durable.{log_records, stored, open_db-stored}
use kora_engine.Db.Coupled.{IsOpen, HasRoom}
use kora_engine.Db.Appended.{updated}
use kora_engine.Db.Flushed.{Keeps}
use kora_engine.Db.Flushing.{flush_memtable-Keeps}
use kora_engine.Db.Rolled.{Rolls}
use kora_engine.Db.Rolling.{maybe_rollover-Rolls}
use kora_engine.Db.Outcome.{Agrees, Outcome}
use kora_engine.Db.Crash.{Reopens}
use kora_engine.Db.Runs.{
  IsStore, first-IsStore, step-IsStore, first_open, stop, step, after, Run-get, first_db,
  first_disk,
}
use kora_engine.Proto.{reply, read_bulk_string}
use kora_engine.Proto.RoundTrip.{IsShort}
use kora_engine.Server.{get_request, serve}
use kora_engine.Server.Backend.{value_of, store_engine, serve-stored}
use kora_engine.Art.{Tree, new_tree, leaf, insert_at, get_at, leaves_at, node_leaves}
use kora_engine.Art.Shape.{IsKey}
use kora_engine.Art.Store.{art_memtable}
use kora_engine.Prelude.Endian.{put_u32, put_u64}
use kora_engine.Disk.Files.{append_file, file_at}
use kora_engine.Db.Replayed.{kept_tail}

abbrev pub options : Options
options = record { sync_on_write = true; max_segment_bytes = 0; max_mem_bytes = 0 }

abbrev a_key : Bytes
a_key = b'k' ∷ []

a_key-IsKey : IsKey a_key
a_key-IsKey = ((omega arith, tt), omega arith)

abbrev a_value : Option Bytes
a_value = some (b'v' ∷ [])

-- The store of an empty directory.
abbrev pub new_db : Db Tree
new_db = record {
  opts = record { sync_on_write = true; max_segment_bytes = 4194304; max_mem_bytes = 4194304 };
  sealed = [];
  active = record { id = 1; size = 0 };
  order = 1 ∷ [];
  next_id = 2;
  memtable = new_tree;
  mem_size = 0;
  live_keys = 0;
  ss_readers = [];
  ss_next_id = 1;
}

new_db_lem : first_db art_memtable options ≡ new_db
unfolding first_db opened_db fill_defaults
new_db_lem = refl

abbrev new_disk : Disk
new_disk = first_disk art_memtable

-- The store with one key in it.
abbrev one_db : Db Tree
one_db = record new_db {
  active = record { id = 1; size = 22 };
  memtable = record { root = some (leaf a_key a_value); size = 1 };
  mem_size = 2;
  live_keys = 1;
}

abbrev one_disk : Disk
one_disk = record new_disk { segments = (1, record_bytes 7 a_key a_value) ∷ [] }

new_store : IsStore art_memtable (λ key. missing) new_db (calm new_disk)
new_store =
    subst (λ db. IsStore art_memtable (λ key. missing) db (calm new_disk)) new_db_lem
      (first-IsStore art_memtable options)

new_room : HasRoom art_memtable 3 new_db
unfolding leaves_at node_leaves
new_room = record {
  ids = omega arith;
  sst_ids = omega arith;
  segments = omega arith;
  tables = omega arith;
  leaves = omega arith;
}

write_one :
    write art_memtable 7 a_key a_value new_db (calm new_disk) ≡ (none, one_db, calm one_disk)
unfolding write write_rolled write_appended maybe_flush remember grown append_active maybe_rollover
    encode encode_at record_bytes append_segment append_file change call mem_cost count_key
    is_live_key is_live_in insert_at get_at meta put_u32 put_u64
write_one = refl

one_store : IsStore art_memtable (updated a_key a_value (λ key. missing)) one_db (calm one_disk)
one_store =
    step-IsStore art_memtable (λ key. missing) 7 a_key a_value new_db one_db (calm new_disk)
      (calm one_disk) new_store (omega arith) a_key-IsKey (new_room, inl refl) write_one

-- The record of the key, and then a part of the record of its deletion.
abbrev one_contents : Contents
one_contents = record {
  next_id = 2;
  next_sst_id = 1;
  tables = [];
  sealed = [];
  active_id = 1;
  active_log = record { timestamp = 7; key = a_key; value = a_value } ∷ [];
}

abbrev a_tail : Bytes
a_tail = take 5 (record_bytes 8 a_key none)

abbrev torn_disk : Disk
torn_disk = record {
  segments = (1, log_bytes one_contents.active_log ++ a_tail) ∷ [];
  tables = [];
  manifest = some (manifest_bytes (manifest_of one_contents));
}

one_contents-IsContents : IsContents one_contents
one_contents-IsContents = record {
  words = (omega arith, omega arith, (omega arith, tt), omega arith, omega arith, tt);
  sane = (((tt, tt), (omega arith, tt)), (tt, tt));
  are_tables = tt;
  sealed_logs = tt;
  loggable = ((omega arith, (omega arith, omega arith)), tt);
}

torn_disk-Stored : Stored one_contents a_tail torn_disk
unfolding file_at
torn_disk-Stored = record { manifest_at = refl; tables_at = tt; sealed_at = tt; active_at = refl }

a_tail-IsCut : IsCut a_tail
unfolding record_bytes put_u32 put_u64 meta
a_tail-IsCut = (
  record { timestamp = 8; key = a_key; value = none },
  0,
  drop 6 (record_bytes 8 a_key none),
  (omega arith, (omega arith, omega arith)),
  refl,
)

open_db-stored_example :
    (db : Db Tree) × (e : Disk) × (open_db art_memtable options (calm torn_disk)
      ≡ (none, some db, calm e))
    × Stored one_contents (kept_tail art_memtable a_tail) e
    × ((key : Bytes) → IsKey key → get art_memtable db key ≡ stored one_contents key)
unfolding log_records
open_db-stored_example =
    open_db-stored art_memtable options one_contents a_tail torn_disk one_contents-IsContents
      torn_disk-Stored a_tail-IsCut (a_key-IsKey, tt)

-- The key is deleted, and the append is torn.
abbrev torn_world : World
torn_world = record { disk = one_disk; faults = some (torn 5) ∷ [] }

Run-get_example :
    Agrees art_memtable (get art_memtable one_db) (after ((a_key, a_value) ∷ []) (λ key. missing))
    × Reopens art_memtable options one_disk
        (λ r. Agrees art_memtable r (after ((a_key, a_value) ∷ []) (λ key. missing)))
unfolding first_db opened_db fill_defaults
Run-get_example =
    Run-get art_memtable options ((a_key, a_value) ∷ []) new_db one_db (calm new_disk)
      (calm one_disk) (first_open art_memtable options)
      (step 7 a_key a_value (omega arith) a_key-IsKey (new_room, inl refl) write_one stop)

-- The commit of the flush fails, and then both removals.
abbrev failing_world : World
failing_world = record {
  disk = one_disk;
  faults = none ∷ none ∷ none ∷ none ∷ none ∷ some fails ∷ some fails ∷ some fails ∷ [];
}

less_room : HasRoom art_memtable 1 one_db
unfolding leaves_at node_leaves
less_room = record {
  ids = omega arith;
  sst_ids = omega arith;
  segments = omega arith;
  tables = omega arith;
  leaves = omega arith;
}

flush_memtable-Keeps_example :
    Keeps art_memtable one_db one_store.0 one_store.1 less_room
      (flush_memtable art_memtable one_db failing_world)
flush_memtable-Keeps_example =
    flush_memtable-Keeps art_memtable one_db one_store.0 one_store.1 less_room failing_world
      one_store.2

-- A store with segments of ten bytes.
abbrev full_db : Db Tree
full_db = record one_db {
  opts = record { sync_on_write = true; max_segment_bytes = 10; max_mem_bytes = 4194304 };
}

full_db-IsOpen : IsOpen art_memtable full_db one_store.0
full_db-IsOpen =
    let h = one_store.1 in
    record {
      contents = h.contents;
      order = h.order;
      active_id = h.active_id;
      readers = h.readers;
      says = h.says;
      keys = h.keys;
      next_id = h.next_id;
      next_sst_id = h.next_sst_id;
    }

full_room : HasRoom art_memtable 3 full_db
unfolding leaves_at node_leaves
full_room = record {
  ids = omega arith;
  sst_ids = omega arith;
  segments = omega arith;
  tables = omega arith;
  leaves = omega arith;
}

maybe_rollover-Rolls_example :
    Rolls art_memtable one_store.0 (maybe_rollover art_memtable full_db (calm one_disk))
maybe_rollover-Rolls_example =
    maybe_rollover-Rolls art_memtable full_db one_store.0 full_db-IsOpen full_room (calm one_disk)
      (inr refl) one_store.2

one_value-IsShort : IsShort (value_of (stored one_store.0 a_key))
one_value-IsShort =
    subst (λ g. IsShort (value_of g)) (sym (one_store.3 a_key a_key-IsKey ∙ updated_self))
      (omega arith)
  where
    updated_self : updated a_key a_value (λ key. missing) a_key ≡ got (b'v' ∷ [])
    updated_self =
        unfold updated in unfold bytes_equal in unfold compare_bytes in unfold got_of in refl

-- The client asks a server over the store with one key in it.
serve-stored_example :
    (out : Bytes) × (serve
        (store_engine art_memtable 9 (λ e. []) (λ s. (none, s)))
        (λ bs. bs)
        (λ bs. [])
        (get_request (some a_key) ++ [])
        (one_db, calm one_disk)
      ≡ some (out, (one_db, calm one_disk), []))
    × (read_bulk_string out ≡ reply (value_of (stored one_store.0 a_key)) [])
serve-stored_example =
    serve-stored art_memtable 9 (λ e. []) (λ s. (none, s)) (λ bs. bs) (λ bs. []) (some a_key) []
      one_db one_store.0 (calm one_disk) refl one_store.1 a_key-IsKey (omega arith)
      one_value-IsShort
