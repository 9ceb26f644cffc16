-- ===== src/Db/Write.antt =====
-- The writes of internal/store/store.go: `Set`, `Delete`, and the rollover of the active segment.
use kora_engine.Prelude.{
  ℕ, ◌+◌, ◌-◌, Bool, Option, none, some, [], ◌∷◌, ◌++◌, ltb, leb, if◌then◌else◌, length,
}
use kora_engine.Prelude.Order.{Bytes}
use kora_engine.Manifest.{Manifest}
use kora_engine.Record.{written, key_too_large, value_too_large, encode, slice}
use kora_engine.Disk.{World, call, append_segment, remove_segment, write_manifest}
use kora_engine.Memtable.{Memtable}
use kora_engine.Db
use kora_engine.Db.{SegmentFile, Db, Error, io, is_live_key}
use kora_engine.Db.Flush.{next_u32, create_segment, flush_memtable}

module _ (m : Memtable) where
  abbrev pub Result : Type 0
  Result = Option Error × Db m.Tree × World

  -- The manifest of a rollover, with no table.
  unfoldable pub rollover_manifest : Db m.Tree → Manifest
  rollover_manifest db = record {
    next_id = next_u32 db.next_id;
    order = db.order ++ (db.next_id ∷ []);
    next_sst_id = 0;
    sst_ids = [];
  }

  unfoldable pub rolled_over : Db m.Tree → SegmentFile → Db m.Tree
  rolled_over db na = record db {
    sealed = db.active ∷ db.sealed;
    active = na;
    order = db.order ++ (db.next_id ∷ []);
    next_id = next_u32 db.next_id;
  }

  unfoldable pub rollover_commit : Db m.Tree → SegmentFile → World → Result
  rollover_commit db na w =
      let (done, w') = write_manifest (rollover_manifest db) w in
      if done then (none, rolled_over db na, w') else (some io, db, remove_segment db.next_id w')

  unfoldable pub rollover_create : Db m.Tree → World → Result
  rollover_create db w =
      let (seg, w') = create_segment db.next_id w in
      elim seg [ none ↦ (some io, db, w') | some na ↦ rollover_commit db na w' ]

  unfoldable pub maybe_rollover : Db m.Tree → World → Result
  maybe_rollover db w =
      let (synced, w') = call w in
      let step = if synced then rollover_create db w' else (some io, db, w') in
      if ltb db.active.size db.opts.max_segment_bytes then (none, db, w) else step

  unfoldable pub grown : Db m.Tree → Bytes → Db m.Tree
  grown db bs = record db { active = record db.active { size = db.active.size + length bs } }

  -- `appendActive`: the size grows when the write is whole.
  unfoldable pub append_active : Bytes → Db m.Tree → World → Result
  append_active bs db w =
      let (done, w') = append_segment db.active.id bs w in
      let (synced, w'') = call w' in
      if done
      then (if db.opts.sync_on_write
          then (if synced then (none, grown db bs, w'') else (some io, grown db bs, w''))
          else (none, grown db bs, w'))
      else (some io, db, w')

  -- What a write does to the memory: a value, or `none` for a delete.
  unfoldable pub count_key : Bool → Option Bytes → ℕ → ℕ
  count_key was_live none n = if was_live then n - 1 else n
  count_key was_live (some v) n = if was_live then n else n + 1

  unfoldable pub mem_cost : Bytes → Option Bytes → ℕ
  mem_cost key none = length key + 1
  mem_cost key (some v) = length key + length v

  unfoldable pub remember : Bytes → Option Bytes → Db m.Tree → Db m.Tree
  remember key v db = record db {
    live_keys = count_key (is_live_key m db key) v db.live_keys;
    memtable = m.insert db.memtable key v;
    mem_size = db.mem_size + mem_cost key v;
  }

  unfoldable pub maybe_flush : Db m.Tree → World → Result
  maybe_flush db w =
      if leb db.opts.max_mem_bytes db.mem_size then flush_memtable m db w else (none, db, w)

  unfoldable pub write_appended : Bytes → Option Bytes → Result → Result
  write_appended key v r = elim r.0 [ some e ↦ r | none ↦ maybe_flush (remember key v r.1) r.2 ]

  unfoldable pub write_rolled : Bytes → Option Bytes → Bytes → Result → Result
  write_rolled key v bs r = elim r.0 [
    | some e ↦ r
    | none ↦ write_appended key v (append_active bs r.1 r.2)
  ]

  unfoldable pub write : ℕ → Bytes → Option Bytes → Db m.Tree → World → Result
  write now key v db w = elim (encode now key v) [
    | key_too_large ↦ (some Db.key_too_large, db, w)
    | value_too_large ↦ (some Db.value_too_large, db, w)
    | written bs ↦ write_rolled key v bs (maybe_rollover db w)
  ]

  -- `Set`, at the time `now`; a nil value is an empty one.
  unfoldable pub set : ℕ → Bytes → Option Bytes → Db m.Tree → World → Result
  set now key value db w = write now key (some (slice value)) db w

  unfoldable pub delete : ℕ → Bytes → Db m.Tree → World → Result
  delete now key db w = write now key none db w
