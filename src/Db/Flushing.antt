-- ===== src/Db/Flushing.antt =====
-- `flushMemtable` of internal/store/flush.go on an open store, whatever calls fail.
use mathlib.Core.Path.{subst}
use kora_engine.Prelude.{
  ℕ, ◌<◌, ◌≡◌, refl, sym, ap, ◌∙◌, true, false, Option, none, some, [], if◌then◌else◌, ◌==◌, arith,
}
use kora_engine.Segment.Scan.{log_bytes}
use kora_engine.Sstable.Reader.{Reader}
use kora_engine.Sstable.Closing.{table_bytes}
use kora_engine.Sstable.Opening.{table_reader}
use kora_engine.Manifest.{contains, manifest_bytes}
use kora_engine.Manifest.Listed.{contains_below}
use kora_engine.Memtable.{Memtable}
use kora_engine.Disk.{
  Disk, World, call, change, write_table, write_manifest, remove_table, remove_segment,
  create_segment_file,
}
use kora_engine.Disk.Files.{file_at, remove_file, file_at-remove_file}
use kora_engine.Disk.Calls.{
  disk-call, change_keeps, change_done, change_failed, if_keeps, option_keeps,
}
use kora_engine.Db.{Db, SegmentFile, io, out_of_order, bad_table}
use kora_engine.Db.Flush.{
  next_u32, create_segment, open_file, Result, flush_manifest, flushed, flush_commit, flush_segment,
  flush_open, flush_write, flush_create, flush_memtable,
}
use kora_engine.Db.Leaves.{written_table-table_bytes}
use kora_engine.Db.Stored.{Contents, order_of}
use kora_engine.Db.Coupled.{IsFresh-remove, IsOpen, HasRoom, IsHeld, leaves-IsTable-IsOpen}
use kora_engine.Db.Frames.{
  remove_segments_keeps, open_file-table, disk-open_file, remove_table-IsHeld,
  remove_segment-IsHeld, write_table-IsHeld, create_segment_file-IsHeld,
  create_segment_file-HasSegment, HasSegment,
}
use kora_engine.Db.Flushed.{
  flushed_contents, Keeps, same_store, HasTable, write_table-HasTable, flushed-stored,
  flushed-IsOpen, flush_manifest-flushed,
}

module _ (m : Memtable) (db : Db m.Tree) (c : Contents) (h : IsOpen m db c)
    (room : HasRoom m 1 db) where
  -- The files of the flushed store stay when a segment is removed that is not its own.
  abbrev IsFlushed : Disk → Type 0
  IsFlushed d =
      IsHeld m (flushed m db (table_reader db.ss_next_id (m.leaves db.memtable)) db.active)
        (flushed_contents m db c h room) d

  committed :
      (w : World)
      → IsHeld m db c w.disk
      → HasTable m db c h room w
      → HasSegment m db c h w
      → IsFlushed (record w.disk { manifest = some (manifest_bytes (flush_manifest m db)) })
  unfolding flushed
  committed w g t s = (
    record {
      manifest_at = ap (λ mf. some (manifest_bytes mf)) (flush_manifest-flushed m db c h room);
      tables_at = (t, g.0.tables_at);
      sealed_at = tt;
      active_at = unfold log_bytes in s;
    },
    λ j l. let r = room.ids in g.1 j (omega arith),
  )

  removed :
      (id : ℕ) (d : Disk)
      → contains db.order id ≡ true
      → IsFlushed d
      → IsFlushed (record d { segments = remove_file id d.segments })
  unfolding flushed
  removed id d k (s, f) =
      let l = order_below id k in
      let q : (id == db.next_id) ≡ false = ground arith in
      (
        record {
          manifest_at = s.manifest_at;
          tables_at = s.tables_at;
          sealed_at = tt;
          active_at = file_at-remove_file id db.next_id d.segments ∙ rw q s.active_at;
        },
        IsFresh-remove (next_u32 db.next_id) id d.segments f,
      )
    where
      order_below : (id : ℕ) → contains db.order id ≡ true → id < db.next_id
      order_below id k =
          let e =
            contains_below c.next_id (order_of c) id h.contents.sane.0.1
              (ap (λ ids. contains ids id) (sym h.order) ∙ k) in
          let n = h.next_id in omega arith

  IsFlushed-active :
      (r : Reader) (seg : SegmentFile) (d : Disk)
      → IsFlushed d
      → IsHeld m (flushed m db r seg) (flushed_contents m db c h room) d
  unfolding flushed
  IsFlushed-active r seg d f = f

  flush_commit-Keeps :
      (seg : SegmentFile) (w : World)
      → seg.id ≡ db.next_id
      → IsHeld m db c w.disk
      → HasTable m db c h room w
      → HasSegment m db c h w
      → Keeps m db c h room
          (flush_commit m db (table_reader db.ss_next_id (m.leaves db.memtable)) seg w)
  unfolding flush_commit write_manifest
  flush_commit-Keeps seg w e g t s =
      if_keeps (Keeps m db c h room) (change _ _ w).0 _ _
        (λ done.
          let d =
            (change (record w.disk { manifest = some (manifest_bytes (flush_manifest m db)) })
              (λ n. w.disk) w).1 in
          (
            (flushed_contents m db c h room),
            (flushed-IsOpen m db c h room) seg e,
            IsFlushed-active _ seg _ (
                remove_segments_keeps IsFlushed db.order d removed
                  (subst IsFlushed (sym (change_done _ _ w done)) (committed w g t s))),
            (flushed-stored m db c h room),
          ))
        (λ not_done.
          let g' = change_failed (IsHeld m db c) _ _ w g (λ n. g) not_done in
          let d =
            (change (record w.disk { manifest = some (manifest_bytes (flush_manifest m db)) })
              (λ n. w.disk) w).1 in
          let d' = remove_segment db.next_id d in
          (same_store m db c h room) (some io) (remove_table db.ss_next_id d')
            (remove_table-IsHeld m db c h d' (remove_segment-IsHeld m db c h d g')))

  create_segment_file-HasTable :
      (w : World)
      → HasTable m db c h room w
      → HasTable m db c h room (create_segment_file db.next_id w).1
  unfolding create_segment_file
  create_segment_file-HasTable w t =
      change_keeps (λ d. file_at db.ss_next_id d.tables ≡ some (table_bytes (m.leaves db.memtable)))
        _ _ w t t (λ n. t)

  flush_segment-Keeps :
      (w : World)
      → IsHeld m db c w.disk
      → HasTable m db c h room w
      → Keeps m db c h room
          (flush_segment m db (table_reader db.ss_next_id (m.leaves db.memtable)) w)
  unfolding flush_segment create_segment
  flush_segment-Keeps w g t =
      let made = (create_segment_file db.next_id w).1 in
      let g' = create_segment_file-IsHeld m db c h w g in
      if_keeps
        (λ (p : Option SegmentFile × World). (Keeps m db c h room) (elim p.0 as (λ _. Result m) [
          | none ↦ (some io, db, remove_table db.ss_next_id p.1)
          | some s ↦ flush_commit m db (table_reader db.ss_next_id (m.leaves db.memtable)) s p.1
        ]))
        (create_segment_file db.next_id w).0 _ _
        (λ done.
          flush_commit-Keeps _ made refl g' (create_segment_file-HasTable w t)
            (create_segment_file-HasSegment m db c h w g done))
        (λ not_done.
          (same_store m db c h room) (some io) (remove_table db.ss_next_id made)
            (remove_table-IsHeld m db c h made g'))

  flush_open-Keeps :
      (w : World)
      → IsHeld m db c w.disk
      → HasTable m db c h room w
      → Keeps m db c h room (flush_open m db w)
  unfolding flush_open
  flush_open-Keeps w g t =
      let w' = (open_file db.ss_next_id w).1 in
      let e = disk-open_file db.ss_next_id w in
      let g' = subst (IsHeld m db c) (sym e) g in
      let t' : HasTable m db c h room w' =
        ap (λ (d : Disk). file_at db.ss_next_id d.tables) e ∙ t in
      option_keeps (Keeps m db c h room) (open_file db.ss_next_id w).0 _ _
        (λ n.
          (same_store m db c h room) (some bad_table) (remove_table db.ss_next_id w')
            (remove_table-IsHeld m db c h w' g'))
        (λ r o.
          let q =
            open_file-table db.ss_next_id (m.leaves db.memtable) w r
              (leaves-IsTable-IsOpen m db c h room) t o in
          subst (λ r. (Keeps m db c h room) (flush_segment m db r w')) (sym q)
            (flush_segment-Keeps w' g' t'))

  flush_write-Keeps : (w : World) → IsHeld m db c w.disk → Keeps m db c h room (flush_write m db w)
  unfolding flush_write
  flush_write-Keeps w g =
      let bs = table_bytes (m.leaves db.memtable) in
      let w' = (write_table db.ss_next_id bs w).1 in
      let g' = write_table-IsHeld m db c h bs w g in
      subst
        (λ t. (Keeps m db c h room) (elim t as (λ _. Result m) [
          | none ↦ (some out_of_order, db, remove_table db.ss_next_id w)
          | some bs ↦
              if (write_table db.ss_next_id bs w).0
              then flush_open m db (write_table db.ss_next_id bs w).1
              else (some io, db, remove_table db.ss_next_id (write_table db.ss_next_id bs w).1)
        ]))
        (sym
          (written_table-table_bytes (m.leaves db.memtable) (leaves-IsTable-IsOpen m db c h room)))
        (if_keeps (Keeps m db c h room) (write_table db.ss_next_id bs w).0 _ _
          (λ done. flush_open-Keeps w' g' (write_table-HasTable m db c h room w done))
          (λ not_done.
            (same_store m db c h room) (some io) (remove_table db.ss_next_id w')
              (remove_table-IsHeld m db c h w' g')))

  flush_create-Keeps :
      (w : World) → IsHeld m db c w.disk → Keeps m db c h room (flush_create m db w)
  unfolding flush_create
  flush_create-Keeps w g =
      let w' = (write_table db.ss_next_id [] w).1 in
      let g' = write_table-IsHeld m db c h [] w g in
      if_keeps (Keeps m db c h room) (write_table db.ss_next_id [] w).0 _ _
        (λ done. flush_write-Keeps w' g') (λ not_done. (same_store m db c h room) (some io) w' g')

  -- A flush of an open store, whatever calls fail: the store that it returns is open on the files that
  -- it leaves, and in the two the same is stored of every key of the tree as before.
  -- The counters are away from their ends, and the memtable is small enough for one table.
  pub flush_memtable-Keeps :
      (w : World) → IsHeld m db c w.disk → Keeps m db c h room (flush_memtable m db w)
  unfolding flush_memtable
  flush_memtable-Keeps w g =
      let w' = (call w).1 in
      let g' = subst (IsHeld m db c) (sym (disk-call w)) g in
      if_keeps (Keeps m db c h room) (m.len db.memtable == 0) _ _
        (λ e. (
          c,
          record {
            contents = h.contents;
            order = h.order;
            active_id = h.active_id;
            readers = h.readers;
            says = h.says;
            keys = h.keys;
            next_id = h.next_id;
            next_sst_id = h.next_sst_id;
          },
          g,
          λ key i. refl,
        ))
        (λ n.
          if_keeps (Keeps m db c h room) (call w).0 _ _ (λ done. flush_create-Keeps w' g')
            (λ not_done. (same_store m db c h room) (some io) w' g'))
