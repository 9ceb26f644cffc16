-- ===== src/Db/Rolling.antt =====
-- `maybeRollover` of internal/store/store.go on an open store that has no table, whatever calls fail.
use mathlib.Core.Path.{subst}
use kora_engine.Prelude.{
  ◌≡◌, refl, sym, ap, ◌∙◌, true, Option, none, some, [], ◌∷◌, ◌++◌, ltb, arith, All-append, inl,
  inr, append-nil, ◌⊎◌,
}
use kora_engine.Segment.Scan.{log_bytes}
use kora_engine.Manifest.{manifest_bytes}
use kora_engine.Memtable.{Memtable}
use kora_engine.Disk.{World, call, change, write_manifest, remove_segment, create_segment_file}
use kora_engine.Disk.Files.{file_at}
use kora_engine.Disk.Calls.{disk-call, change_done, change_failed, if_keeps}
use kora_engine.Db.{Db, SegmentFile, io}
use kora_engine.Db.Flush.{next_u32, create_segment}
use kora_engine.Db.Write.{
  Result, rollover_manifest, rolled_over, rollover_commit, rollover_create, maybe_rollover,
}
use kora_engine.Db.Stored.{Log, Contents}
use kora_engine.Db.Coupled.{IsOpen, HasRoom, IsHeld}
use kora_engine.Db.Frames.{
  remove_segment-IsHeld, create_segment_file-IsHeld, create_segment_file-HasSegment, HasSegment,
}
use kora_engine.Db.Rolled.{
  Rolls, rolled, rolled-order, rolled-IsOpen, rolled-HasRoom, rolled-stored, same_store, no_tables,
}

module _ (m : Memtable) (db : Db m.Tree) (c : Contents) (h : IsOpen m db c)
    (room : HasRoom m 3 db) where
  rolled-IsHeld :
      (na : SegmentFile) (w : World)
      → c.tables ≡ []
      → IsHeld m db c w.disk
      → HasSegment m db c h w
      → IsHeld m
          (rolled_over m db na)
          (rolled m db c h room)
          (record w.disk { manifest = some (manifest_bytes (rollover_manifest m db)) })
  unfolding rolled_over rollover_manifest
  rolled-IsHeld na w none_left (s, f) t = (
    record {
      manifest_at =
          ap
            (λ ids. some (
              manifest_bytes (record {
                next_id = next_u32 db.next_id;
                order = ids;
                next_sst_id = 0;
                sst_ids = [];
              })))
            (ap (λ ids. ids ++ (db.next_id ∷ [])) h.order ∙ sym (rolled-order m db c h room));
      tables_at = tt;
      sealed_at =
          All-append (λ (l : Log). file_at l.0 w.disk.segments ≡ some (log_bytes l.1)) c.sealed
            ((c.active_id, c.active_log) ∷ []) s.sealed_at
            (s.active_at ∙ ap some (append-nil (log_bytes c.active_log)), tt);
      active_at = unfold log_bytes in t;
    },
    λ j l. let r = room.ids in f j (omega arith),
  )

  rollover_commit-Rolls :
      (na : SegmentFile) (w : World)
      → na.id ≡ db.next_id
      → c.tables ≡ []
      → IsHeld m db c w.disk
      → HasSegment m db c h w
      → Rolls m c (rollover_commit m db na w)
  unfolding rollover_commit write_manifest
  rollover_commit-Rolls na w e none_left g t =
      let d = record w.disk { manifest = some (manifest_bytes (rollover_manifest m db)) } in
      if_keeps (Rolls m c) (change d (λ n. w.disk) w).0 _ _
        (λ done. (
          (rolled m db c h room),
          (rolled-IsOpen m db c h room) na e none_left,
          subst (IsHeld m (rolled_over m db na) (rolled m db c h room))
              (sym (change_done d (λ n. w.disk) w done)) (rolled-IsHeld na w none_left g t),
          (rolled-HasRoom m db c h room) na,
          (rolled-stored m db c h room) none_left,
        ))
        (λ not_done.
          let w' = (change d (λ n. w.disk) w).1 in
          (same_store m db c h room) (some io) (remove_segment db.next_id w') (
            remove_segment-IsHeld m db c h w'
              (change_failed (IsHeld m db c) d (λ n. w.disk) w g (λ n. g) not_done)))

  rollover_create-Rolls :
      (w : World) → c.tables ≡ [] → IsHeld m db c w.disk → Rolls m c (rollover_create m db w)
  unfolding rollover_create create_segment
  rollover_create-Rolls w none_left g =
      let made = (create_segment_file db.next_id w).1 in
      let g' = create_segment_file-IsHeld m db c h w g in
      if_keeps
        (λ (p : Option SegmentFile × World). Rolls m c (elim p.0 as (λ _. Result m) [
          | none ↦ (some io, db, p.1)
          | some na ↦ rollover_commit m db na p.1
        ]))
        (create_segment_file db.next_id w).0 _ _
        (λ done.
          rollover_commit-Rolls _ made refl none_left g'
            (create_segment_file-HasSegment m db c h w g done))
        (λ not_done. (same_store m db c h room) (some io) made g')

  -- A rollover, whatever calls fail: the store that it returns is open on the files that it leaves, and
  -- in the two the same is stored as before. Either the active segment is not full, or there is no table.
  -- The counters are away from their ends.
  pub maybe_rollover-Rolls :
      (w : World)
      → (ltb db.active.size db.opts.max_segment_bytes ≡ true) ⊎ (db.ss_readers ≡ [])
      → IsHeld m db c w.disk
      → Rolls m c (maybe_rollover m db w)
  unfolding maybe_rollover
  maybe_rollover-Rolls w may g =
      if_keeps (Rolls m c) (ltb db.active.size db.opts.max_segment_bytes) _ _
        (λ small. (same_store m db c h room) none w g)
        (λ full. elim may [
          | inl small ↦ absurd (cc (small, full))
          | inr no_reader ↦
              let none_left = no_tables c.tables (sym h.readers ∙ no_reader) in
              let w' = (call w).1 in
              let g' = subst (IsHeld m db c) (sym (disk-call w)) g in
              if_keeps (Rolls m c) (call w).0 _ _ (λ done. rollover_create-Rolls w' none_left g')
                (λ not_done. (same_store m db c h room) (some io) w' g')
        ])
