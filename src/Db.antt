-- ===== src/Db.antt =====
-- internal/store/store.go: the state of an open store, and its reads. The memtable is a parameter, an
-- implementation of the interface Memtable.
pub mod Flush
pub mod Write
pub mod Replay
pub mod Open
pub mod Compaction
pub mod View
pub mod Leaves
pub mod Stored
pub mod Calm
pub mod Replayed
pub mod Recovery
pub mod Durable
pub mod Coupled
pub mod Frames
pub mod Flushed
pub mod Flushing
pub mod Rolled
pub mod Rolling
pub mod Outcome
pub mod Writing
pub mod Merged
pub mod Merging
pub mod Scanning
pub mod Crash
pub mod Runs
pub mod Appended
pub mod Appending
use kora_engine.Prelude.{
  ℕ, zero, suc, ◌+◌, ◌*◌, ◌^◌, ◌==◌, Bool, true, false, Option, none, some, List, [], ◌∷◌, ◌++◌,
  if◌then◌else◌, length,
}
use kora_engine.Prelude.Order.{Bytes}
use kora_engine.Sstable.{Entry}
use kora_engine.Sstable.Reader.{Reader, Lookup, found, deleted, absent, failed, raw_get}
use kora_engine.Merge.{collect_scan}
use kora_engine.Memtable.{Memtable}

-- `segment`: its file is named by the id.
pub record SegmentFile : Type 0 where
  pub id : ℕ
  pub size : ℕ

pub data Error : Type 0 where
  key_too_large value_too_large : Error
  io : Error
  out_of_order : Error
  bad_table bad_manifest bad_segment : Error

-- The options, with the defaults of `Open` filled in.
pub record Options : Type 0 where
  pub sync_on_write : Bool
  pub max_segment_bytes : ℕ
  pub max_mem_bytes : ℕ

-- `DB`. The code's map `segments` holds the active segment and the sealed ones.
pub record Db (Tree : Type 0) : Type 0 where
  pub opts : Options
  pub sealed : List SegmentFile
  pub active : SegmentFile
  pub order : List ℕ
  pub next_id : ℕ
  pub memtable : Tree
  pub mem_size : ℕ
  pub live_keys : ℕ
  pub ss_readers : List Reader
  pub ss_next_id : ℕ

abbrev pub mib : ℕ
mib = 2 ^ 20

abbrev pub default_max_segment_bytes : ℕ
default_max_segment_bytes = 4 * mib

abbrev pub default_max_mem_bytes : ℕ
default_max_mem_bytes = 4 * mib

-- The head of `Open`; an option that is not positive is 0.
unfoldable pub fill_defaults : Options → Options
fill_defaults o = record {
  sync_on_write = o.sync_on_write;
  max_segment_bytes =
      if o.max_segment_bytes == 0 then default_max_segment_bytes else o.max_segment_bytes;
  max_mem_bytes = if o.max_mem_bytes == 0 then default_max_mem_bytes else o.max_mem_bytes;
}

-- What `Get` returns.
pub data Got : Type 0 where
  got : Bytes → Got
  missing get_failed : Got

-- The loop of `Get` over the tables, newest first.
unfoldable pub get_readers : List Reader → Bytes → Got
get_readers [] key = missing
get_readers (r ∷ rs) key = elim (raw_get r key) [
  | failed ↦ get_failed
  | deleted ↦ missing
  | found v ↦ got v
  | absent ↦ get_readers rs key
]

-- The loop of `isLiveKey` over the tables, which takes a failure for an absent key.
unfoldable pub is_live_in : List Reader → Bytes → Bool
is_live_in [] key = false
is_live_in (r ∷ rs) key = elim (raw_get r key) [
  | failed ↦ is_live_in rs key
  | deleted ↦ false
  | found v ↦ true
  | absent ↦ is_live_in rs key
]

-- `currentSSTIDs`: oldest first.
unfoldable pub current_sst_ids : List Reader → List ℕ
current_sst_ids [] = []
current_sst_ids (r ∷ rs) = current_sst_ids rs ++ (r.id ∷ [])

unfoldable pub got_of : Option Bytes → Got
got_of none = missing
got_of (some v) = got v

abbrev pub is_some : Option Bytes → Bool
is_some none = false
is_some (some v) = true

unfoldable pub sizes : List SegmentFile → ℕ
sizes [] = 0
sizes (s ∷ ss) = s.size + sizes ss

module _ (m : Memtable) where
  unfoldable pub get : Db m.Tree → Bytes → Got
  get db key = elim (m.get db.memtable key) [
    | some v ↦ got_of v
    | none ↦ get_readers db.ss_readers key
  ]

  unfoldable pub is_live_key : Db m.Tree → Bytes → Bool
  is_live_key db key = elim (m.get db.memtable key) [
    | some v ↦ is_some v
    | none ↦ is_live_in db.ss_readers key
  ]

  -- `Scan`, all that its iterator yields; `none` is no outcome of the code.
  unfoldable pub scan : Db m.Tree → Option Bytes → Option Bytes → Option (List Entry)
  scan db start end = collect_scan (m.leaves db.memtable) db.ss_readers start end

  unfoldable pub len : Db m.Tree → ℕ
  len db = db.live_keys

  unfoldable pub disk_usage : Db m.Tree → ℕ
  disk_usage db = db.active.size + sizes db.sealed

  unfoldable pub segment_count : Db m.Tree → ℕ
  segment_count db = length db.sealed + 1

  unfoldable pub sstable_count : Db m.Tree → ℕ
  sstable_count db = length db.ss_readers
