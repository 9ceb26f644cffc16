-- ===== src/Db/Frames.antt =====
-- Calls that change no file of an open store: what they leave is held as before. The calls are those of
-- internal/store/flush.go and of the rollover in internal/store/store.go.
use kora_engine.Prelude.{
  ℕ, ◌≡◌, refl, ap, ◌∙◌, true, Option, none, some, List, [], ◌∷◌, arith, take, ==-refl,
}
use kora_engine.Prelude.Order.{Bytes}
use kora_engine.Sstable.{Entry}
use kora_engine.Sstable.Reader.{Reader, open_table}
use kora_engine.Sstable.Closing.{IsTable, table_bytes}
use kora_engine.Sstable.Opening.{table_reader, open_table-table_bytes}
use kora_engine.Manifest.{contains}
use kora_engine.Manifest.Listed.{contains_self, contains_behind}
use kora_engine.Memtable.{Memtable}
use kora_engine.Disk.{
  Disk, World, call, write_table, remove_table, remove_segment, create_segment_file,
}
use kora_engine.Disk.Files.{file_at, put_file, remove_file, file_at-append_file}
use kora_engine.Disk.Calls.{disk-call, change_keeps, change_done, if_keeps}
use kora_engine.Db.{Db}
use kora_engine.Db.Flush.{open_file, remove_segments}
use kora_engine.Db.Stored.{
  Contents, SameBelow-refl, SameBelow-put, SameBelow-append, SameBelow-remove,
}
use kora_engine.Db.Coupled.{IsFresh-remove, IsFresh-append, IsOpen, IsHeld, IsHeld-frame}

-- What the removal of segments, failed removals included, leaves.
pub remove_segments_keeps :
    (P : Disk → Type 0) (ids : List ℕ) (w : World)
    → ((id : ℕ) (d : Disk)
        → contains ids id ≡ true
        → P d
        → P (record d { segments = remove_file id d.segments }))
    → P w.disk
    → P (remove_segments ids w).disk
unfolding remove_segments remove_segment
remove_segments_keeps P [] w k h = h
remove_segments_keeps P (id ∷ ids) w k h =
    remove_segments_keeps P ids (remove_segment id w) (λ j d c. k j d (contains_behind id j ids c))
      (change_keeps P _ (λ n. w.disk) w h (k id w.disk (contains_self id ids) h) (λ n. h))

-- A table that is on disk opens, or the open fails.
pub open_file-table :
    (id : ℕ) (es : List Entry) (w : World) (r : Reader)
    → IsTable es
    → file_at id w.disk.tables ≡ some (table_bytes es)
    → (open_file id w).0 ≡ some r
    → r ≡ table_reader id es
unfolding open_file
open_file-table id es w r h e =
    if_keeps (λ (p : Option Reader × World). p.0 ≡ some r → r ≡ table_reader id es) (call w).0 _ _
      (λ t o.
        let q =
          ap (λ b. elim b as (λ _. Option Reader) [ none ↦ none | some bs ↦ open_table id bs ])
            (ap (λ (d : Disk). file_at id d.tables) (disk-call w) ∙ e)
          ∙ open_table-table_bytes id es h in
        cc (q, o))
      (λ f o. cc o)

pub disk-open_file : (id : ℕ) (w : World) → (open_file id w).1.disk ≡ w.disk
unfolding open_file
disk-open_file id w =
    if_keeps (λ (p : Option Reader × World). p.1.disk ≡ w.disk) (call w).0 _ _ (λ t. disk-call w)
      (λ f. disk-call w)

module _ (m : Memtable) (db : Db m.Tree) (c : Contents) (h : IsOpen m db c) where
  pub remove_table-IsHeld :
      (w : World) → IsHeld m db c w.disk → IsHeld m db c (remove_table db.ss_next_id w).disk
  unfolding remove_table
  remove_table-IsHeld w g =
      change_keeps (IsHeld m db c) _ (λ n. w.disk) w g
        (IsHeld-frame m db c w.disk _ h g refl
          (SameBelow-remove db.ss_next_id db.ss_next_id w.disk.tables (omega arith))
          (SameBelow-refl db.next_id w.disk.segments) g.1)
        (λ n. g)

  pub remove_segment-IsHeld :
      (w : World) → IsHeld m db c w.disk → IsHeld m db c (remove_segment db.next_id w).disk
  unfolding remove_segment
  remove_segment-IsHeld w g =
      change_keeps (IsHeld m db c) _ (λ n. w.disk) w g
        (IsHeld-frame m db c w.disk _ h g refl (SameBelow-refl db.ss_next_id w.disk.tables)
          (SameBelow-remove db.next_id db.next_id w.disk.segments (omega arith))
          (IsFresh-remove db.next_id db.next_id w.disk.segments g.1))
        (λ n. g)

  pub write_table-IsHeld :
      (bs : Bytes) (w : World)
      → IsHeld m db c w.disk
      → IsHeld m db c (write_table db.ss_next_id bs w).1.disk
  unfolding write_table
  write_table-IsHeld bs w g = change_keeps (IsHeld m db c) _ _ w g (put bs) (λ n. put (take n bs))
    where
      put :
          (bs : Bytes)
          → IsHeld m db c (record w.disk { tables = put_file db.ss_next_id bs w.disk.tables })
      put bs =
          IsHeld-frame m db c w.disk _ h g refl
            (SameBelow-put db.ss_next_id db.ss_next_id bs w.disk.tables (omega arith))
            (SameBelow-refl db.next_id w.disk.segments) g.1

  -- The new segment is there, and empty.
  abbrev pub HasSegment : World → Type 0
  HasSegment w = file_at db.next_id w.disk.segments ≡ some []

  pub create_segment_file-IsHeld :
      (w : World) → IsHeld m db c w.disk → IsHeld m db c (create_segment_file db.next_id w).1.disk
  unfolding create_segment_file
  create_segment_file-IsHeld w g =
      let made =
        IsHeld-frame m db c w.disk _ h g refl (SameBelow-refl db.ss_next_id w.disk.tables)
          (SameBelow-append db.next_id db.next_id [] w.disk.segments (omega arith))
          (IsFresh-append db.next_id db.next_id [] w.disk.segments (λ l. refl) g.1) in
      change_keeps (IsHeld m db c) _ _ w g made (λ n. made)

  pub create_segment_file-HasSegment :
      (w : World)
      → IsHeld m db c w.disk
      → (create_segment_file db.next_id w).0 ≡ true
      → HasSegment (create_segment_file db.next_id w).1
  unfolding create_segment_file
  create_segment_file-HasSegment w g done =
      ap (λ (d : Disk). file_at db.next_id d.segments) (change_done _ _ w done)
      ∙ file_at-append_file db.next_id db.next_id [] w.disk.segments
      ∙ rw (==-refl db.next_id, g.1 db.next_id (omega arith)) refl
