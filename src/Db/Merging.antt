-- ===== src/Db/Merging.antt =====
-- `CompactSSTables` of internal/store/sst_compact.go on an open store, whatever calls fail.
use mathlib.Core.Path.{subst}
use kora_engine.Prelude.{
  ℕ, ◌^◌, ◌<◌, ◌≤◌, ◌≡◌, refl, sym, ap, ◌∙◌, true, false, none, some, [], ◌∷◌, if◌then◌else◌, ltb,
  ◌==◌, length, arith, All, ==-refl,
}
use kora_engine.Bloom.Members.{max_keys}
use kora_engine.Manifest.{manifest_bytes}
use kora_engine.Sstable.Reader.{Reader}
use kora_engine.Sstable.Closing.{IsTable, table_bytes}
use kora_engine.Sstable.Opening.{table_reader}
use kora_engine.Merge.{kway_merge}
use kora_engine.Merge.Tables.{count, data_bytes, merge_of-IsTable, kway_merge-table_bytes}
use kora_engine.Memtable.{Memtable}
use kora_engine.Disk.{Disk, World, change, write_table, write_manifest, remove_table}
use kora_engine.Disk.Files.{file_at, remove_file, file_at-remove_file, file_at-put_file}
use kora_engine.Disk.Calls.{change_done, change_failed, if_keeps, option_keeps}
use kora_engine.Db.{Db, io, out_of_order, bad_table}
use kora_engine.Db.Flush.{next_u32, open_file}
use kora_engine.Db.Compaction.{
  Result, take_sst_id, compact_manifest, compacted, compact_commit, compact_open, compact_write,
  compact_sstables,
}
use kora_engine.Db.Stored.{Contents, ids_below}
use kora_engine.Db.Coupled.{IsOpen, HasRoom, IsHeld}
use kora_engine.Db.Frames.{open_file-table, disk-open_file, remove_table-IsHeld, write_table-IsHeld}
use kora_engine.Db.Merged.{
  merged, merged_contents, merged-stored, Merges, same_store, merged-IsOpen, remove_tables_keeps,
  readers_below,
}

module _ (m : Memtable) (db : Db m.Tree) (c : Contents) (h : IsOpen m db c)
    (room : HasRoom m 1 db) where
  -- The merged table is on disk.
  abbrev HasMerged : World → Type 0
  HasMerged w = file_at db.ss_next_id w.disk.tables ≡ some (table_bytes (merged m db c h room))

  write_table-HasMerged :
      (w : World)
      → (write_table db.ss_next_id (table_bytes (merged m db c h room)) w).0 ≡ true
      → HasMerged (write_table db.ss_next_id (table_bytes (merged m db c h room)) w).1
  unfolding write_table
  write_table-HasMerged w t =
      ap (λ (d : Disk). file_at db.ss_next_id d.tables) (change_done _ _ w t)
      ∙ file_at-put_file db.ss_next_id db.ss_next_id (table_bytes (merged m db c h room))
          w.disk.tables
      ∙ rw (==-refl db.ss_next_id) refl

  -- The files of the compacted store.
  abbrev IsCompacted : Disk → Type 0
  IsCompacted d = IsHeld m db (merged_contents m db c h room) d

  committed :
      (w : World)
      → IsHeld m db c w.disk
      → HasMerged w
      → IsCompacted (record w.disk { manifest = some (manifest_bytes (compact_manifest m db)) })
  unfolding compact_manifest
  committed w (s, f) t = (
    record {
      manifest_at =
          ap
            (λ ids. some (
              manifest_bytes (record {
                next_id = db.next_id;
                order = ids;
                next_sst_id = next_u32 db.ss_next_id;
                sst_ids = db.ss_next_id ∷ [];
              })))
            h.order;
      tables_at = (t, tt);
      sealed_at = s.sealed_at;
      active_at = s.active_at;
    },
    f,
  )

  removed :
      (id : ℕ) (d : Disk)
      → id < db.ss_next_id
      → IsCompacted d
      → IsCompacted (record d { tables = remove_file id d.tables })
  removed id d l (s, f) =
      let q : (id == db.ss_next_id) ≡ false = ground arith in
      (
        record {
          manifest_at = s.manifest_at;
          tables_at = (file_at-remove_file id db.ss_next_id d.tables ∙ rw q s.tables_at.0, tt);
          sealed_at = s.sealed_at;
          active_at = s.active_at;
        },
        f,
      )

  old_readers : All (λ (r : Reader). r.id < db.ss_next_id) db.ss_readers
  old_readers =
      let l = h.next_sst_id in
      subst (All (λ (r : Reader). r.id < db.ss_next_id)) (sym h.readers)
        (readers_below c.next_sst_id db.ss_next_id c.tables l (ids_below c h.contents).0)

  compact_commit-Merges :
      (w : World)
      → IsTable (merged m db c h room)
      → IsHeld m db c w.disk
      → HasMerged w
      → Merges m db c h room
          (compact_commit m db (table_reader db.ss_next_id (merged m db c h room)) w)
  unfolding compact_commit write_manifest
  compact_commit-Merges w t g f =
      let d = record w.disk { manifest = some (manifest_bytes (compact_manifest m db)) } in
      let w' = (change d (λ n. w.disk) w).1 in
      if_keeps (Merges m db c h room) (change d (λ n. w.disk) w).0 _ _
        (λ done.
          let held =
            remove_tables_keeps IsCompacted db.ss_next_id db.ss_readers w' old_readers removed
              (subst IsCompacted (sym (change_done d (λ n. w.disk) w done)) (committed w g f)) in
          (
            merged_contents m db c h room,
            merged-IsOpen m db c h room t,
            unfold compacted in held,
            merged-stored m db c h room,
          ))
        (λ not_done. (same_store m db c h room) (some io) (remove_table db.ss_next_id w') (
          remove_table-IsHeld m db c h w'
            (change_failed (IsHeld m db c) d (λ n. w.disk) w g (λ n. g) not_done)))

  compact_open-Merges :
      (w : World)
      → IsTable (merged m db c h room)
      → IsHeld m db c w.disk
      → HasMerged w
      → Merges m db c h room (compact_open m db w)
  unfolding compact_open
  compact_open-Merges w t g f =
      let w' = (open_file db.ss_next_id w).1 in
      let e = disk-open_file db.ss_next_id w in
      let g' = subst (IsHeld m db c) (sym e) g in
      let f' : HasMerged w' = ap (λ (d : Disk). file_at db.ss_next_id d.tables) e ∙ f in
      option_keeps (Merges m db c h room) (open_file db.ss_next_id w).0 _ _
        (λ n.
          (same_store m db c h room) (some bad_table) (remove_table db.ss_next_id w')
            (remove_table-IsHeld m db c h w' g'))
        (λ r o.
          let q = open_file-table db.ss_next_id (merged m db c h room) w r t f o in
          subst (λ r. (Merges m db c h room) (compact_commit m db r w')) (sym q)
            (compact_commit-Merges w' t g' f'))

  compact_write-Merges :
      (w : World)
      → IsTable (merged m db c h room)
      → IsHeld m db c w.disk
      → Merges m db c h room (compact_write m db w)
  unfolding compact_write
  compact_write-Merges w t g =
      let bs = table_bytes (merged m db c h room) in
      let w' = (write_table db.ss_next_id bs w).1 in
      let g' = write_table-IsHeld m db c h bs w g in
      let written =
        ap kway_merge h.readers ∙ kway_merge-table_bytes c.tables h.contents.are_tables t in
      subst
        (λ t. (Merges m db c h room) (elim t as (λ _. Result m) [
          | none ↦ (some out_of_order, take_sst_id m db, remove_table db.ss_next_id w)
          | some bs ↦
              if (write_table db.ss_next_id bs w).0
              then compact_open m db (write_table db.ss_next_id bs w).1
              else (
                some io,
                take_sst_id m db,
                remove_table db.ss_next_id (write_table db.ss_next_id bs w).1,
              )
        ]))
        (sym written)
        (if_keeps (Merges m db c h room) (write_table db.ss_next_id bs w).0 _ _
          (λ done. compact_open-Merges w' t g' (write_table-HasMerged w done))
          (λ not_done.
            (same_store m db c h room) (some io) (remove_table db.ss_next_id w')
              (remove_table-IsHeld m db c h w' g')))

  -- A compaction of the tables of an open store, whatever calls fail: the store that it returns is open on
  -- the files that it leaves, and in the two the same is stored of every key as before. All entries
  -- together are few and short enough for one table.
  -- The counters are away from their ends.
  pub compact_sstables-Merges :
      (w : World)
      → count c.tables ≤ max_keys
      → data_bytes c.tables < 2 ^ 62
      → IsHeld m db c w.disk
      → Merges m db c h room (compact_sstables m db w)
  unfolding compact_sstables
  compact_sstables-Merges w few short g =
      let w' = (write_table db.ss_next_id [] w).1 in
      let g' = write_table-IsHeld m db c h [] w g in
      let t = merge_of-IsTable c.tables h.contents.are_tables few short in
      if_keeps (Merges m db c h room) (ltb (length db.ss_readers) 2) _ _
        (λ one. (c, h, g, λ key. refl))
        (λ more.
          if_keeps (Merges m db c h room) (write_table db.ss_next_id [] w).0 _ _
            (λ done. compact_write-Merges w' t g')
            (λ not_done.
              (same_store m db c h room) (some io) (remove_table db.ss_next_id w')
                (remove_table-IsHeld m db c h w' g')))
