-- ===== src/Db/Open.antt =====
-- `Open` of internal/store/store.go: the state of a store from its files.
use kora_engine.Prelude.{
  ℕ, Bool, true, false, Option, none, some, List, [], ◌∷◌, ◌==◌, if◌then◌else◌,
}
use kora_engine.Manifest.{Manifest, loaded, no_manifest, manifest_corrupt, read_manifest}
use kora_engine.Sstable.Reader.{Reader}
use kora_engine.Merge.{collect_scan}
use kora_engine.Disk.{World, call, write_manifest}
use kora_engine.Memtable.{Memtable}
use kora_engine.Db.{
  SegmentFile, Db, Error, io, bad_table, bad_manifest, bad_segment, Options, fill_defaults,
  current_sst_ids,
}
use kora_engine.Db.Flush.{next_u32, create_segment}
use kora_engine.Db.Replay.{
  Opened, is_nil, open_and_scan, open_sstables, cleanup_orphaned_ssts, list_segment_ids,
  cleanup_leaked_segments, last_of, live_count,
}

module _ (m : Memtable) where
  abbrev pub Result : Type 0
  Result = Option Error × Option (Db m.Tree) × World

  abbrev pub nothing_opened : Opened m
  nothing_opened = record {
    replay = record { memtable = m.empty; live_keys = 0; mem_size = 0 };
    sealed = [];
    active = none;
  }

  abbrev pub refused : Error → World → Result
  refused e w = (some e, none, w)

  unfoldable pub opened_db :
      Options → List ℕ → ℕ → List Reader → ℕ → Opened m → SegmentFile → Db m.Tree
  opened_db opts order next_id readers ss_next_id o active = record {
    opts = opts;
    sealed = o.sealed;
    active = active;
    order = order;
    next_id = next_id;
    memtable = o.replay.memtable;
    mem_size = o.replay.mem_size;
    live_keys = o.replay.live_keys;
    ss_readers = readers;
    ss_next_id = ss_next_id;
  }

  abbrev pub has_readers : List Reader → Bool
  has_readers [] = false
  has_readers (r ∷ rs) = true

  -- The end of `load`: with tables, the live keys are counted in the merged view.
  unfoldable pub recount : Db m.Tree → Db m.Tree
  recount db =
      let n = live_count (collect_scan (m.leaves db.memtable) db.ss_readers none none) in
      if has_readers db.ss_readers then record db { live_keys = n } else db

  unfoldable pub load_scanned :
      Options → Manifest → ℕ → List Reader → Option (Opened m) × World → Result
  load_scanned opts mf ss_next_id readers scanned = elim scanned.0 [
    | none ↦ refused bad_segment scanned.1
    | some o ↦ elim o.active [
      | none ↦ refused bad_segment scanned.1
      | some active ↦ (
        none,
        some (recount (opened_db opts mf.order mf.next_id readers ss_next_id o active)),
        cleanup_leaked_segments mf.order scanned.1,
      )
    ]
  ]

  unfoldable pub load_tables : Options → Manifest → ℕ → Option (List Reader) × World → Result
  load_tables opts mf ss_next_id tables = elim tables.0 [
    | none ↦ refused bad_table tables.1
    | some readers ↦
        load_scanned opts mf ss_next_id readers
          (open_and_scan m mf.order nothing_opened (cleanup_orphaned_ssts mf.sst_ids tables.1))
  ]

  -- `load`, from a manifest that is there.
  unfoldable pub load_manifest : Options → Manifest → World → Result
  load_manifest opts mf w =
      let ss_next_id = if mf.next_sst_id == 0 then 1 else mf.next_sst_id in
      if (is_nil m) mf.order
      then refused bad_manifest w
      else load_tables opts mf ss_next_id (open_sstables mf.sst_ids w)

  unfoldable pub bootstrap_commit : Db m.Tree → World → Result
  bootstrap_commit db w =
      let (done, w') =
        write_manifest
          (record {
            next_id = db.next_id;
            order = db.order;
            next_sst_id = db.ss_next_id;
            sst_ids = current_sst_ids db.ss_readers;
          })
          w in
      if done then (none, some db, w') else refused io w'

  unfoldable pub bootstrap_scanned : Options → List ℕ → Option (Opened m) × World → Result
  bootstrap_scanned opts ids scanned = elim scanned.0 [
    | none ↦ refused bad_segment scanned.1
    | some o ↦ elim o.active [
      | none ↦ refused bad_segment scanned.1
      | some active ↦
          bootstrap_commit (opened_db opts ids (next_u32 (last_of ids)) [] 1 o active) scanned.1
    ]
  ]

  unfoldable pub bootstrap_empty : Options → World → Result
  bootstrap_empty opts w =
      let (seg, w') = create_segment 1 w in
      elim seg [
        | none ↦ refused io w'
        | some s ↦ bootstrap_commit (opened_db opts (1 ∷ []) 2 [] 1 nothing_opened s) w'
      ]

  unfoldable pub bootstrap_with : Options → List ℕ → World → Result
  bootstrap_with opts [] w = bootstrap_empty opts w
  bootstrap_with opts (id ∷ ids) w =
      bootstrap_scanned opts (id ∷ ids) (open_and_scan m (id ∷ ids) nothing_opened w)

  unfoldable pub bootstrap : Options → World → Result
  bootstrap opts w =
      let (ids, w') = list_segment_ids w in
      elim ids [ none ↦ refused io w' | some ids ↦ bootstrap_with opts ids w' ]

  unfoldable pub load : Options → World → Result
  load opts w =
      let (done, w') = call w in
      let step : Result = (elim (read_manifest w'.disk.manifest) [
        | no_manifest ↦ bootstrap opts w'
        | manifest_corrupt ↦ refused bad_manifest w'
        | loaded mf ↦ load_manifest opts mf w'
      ]) in
      if done then step else refused io w'

  unfoldable pub open_db : Options → World → Result
  open_db opts w =
      let (done, w') = call w in
      let step = load (fill_defaults opts) w' in if done then step else refused io w'
