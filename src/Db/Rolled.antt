-- ===== src/Db/Rolled.antt =====
-- The contents of a store behind `maybeRollover` of internal/store/store.go.
use mathlib.Core.Path.{subst}
use kora_engine.Prelude.{
  ◌≡◌, refl, sym, ap, ◌∙◌, Option, List, [], ◌∷◌, ◌++◌, length, arith, All, All-append,
  length-append, append-nil, append_assoc,
}
use kora_engine.Prelude.Order.{Bytes}
use kora_engine.Prelude.Endian.{IsU32}
use kora_engine.Segment.Scan.{IsLoggable}
use kora_engine.Manifest.Listed.{AreAllocated-append}
use kora_engine.Manifest.Validity.{AreAllocated}
use kora_engine.Merge.Newest.{prefer, newest}
use kora_engine.Merge.Scan.{all_entries, open_tables}
use kora_engine.Memtable.{Memtable}
use kora_engine.Disk.{World}
use kora_engine.Db.{Db, SegmentFile, Error}
use kora_engine.Db.Flush.{next_u32}
use kora_engine.Db.Write.{Result, rolled_over}
use kora_engine.Db.View.{got_lookup}
use kora_engine.Db.Stored.{Log, Table, Contents, IsContents, order_of, log_ids}
use kora_engine.Db.Durable.{last_write, log_records, records_of, stored, Says, AreKeys}
use kora_engine.Db.Coupled.{IsOpen, HasRoom, IsHeld}

pub log_records-append :
    (ls : List Log) (l : Log) → log_records (ls ++ (l ∷ [])) ≡ log_records ls ++ l.1
unfolding log_records
log_records-append [] l = append-nil l.1
log_records-append (k ∷ ls) l =
    ap (λ rs. k.1 ++ rs) (log_records-append ls l) ∙ sym (append_assoc k.1 (log_records ls) l.1)

pub log_ids-append : (ls : List Log) (l : Log) → log_ids (ls ++ (l ∷ [])) ≡ log_ids ls ++ (l.0 ∷ [])
log_ids-append [] l = refl
log_ids-append (k ∷ ls) l = ap (λ ids. k.0 ∷ ids) (log_ids-append ls l)

pub no_tables : (ts : List Table) → open_tables ts ≡ [] → ts ≡ []
no_tables [] e = refl
no_tables (t ∷ ts) e = cc e

module _ (m : Memtable) where
  -- A store that is open on its files, in which the same is stored.
  abbrev pub Rolls : Contents → Result m → Type 0
  Rolls c r =
      (e : Contents) × IsOpen m r.1 e
      × IsHeld m r.1 e r.2.disk
      × HasRoom m 2 r.1
      × ((key : Bytes) → stored e key ≡ stored c key)

module _ (m : Memtable) (db : Db m.Tree) (c : Contents) (h : IsOpen m db c)
    (room : HasRoom m 3 db) where
  -- The contents behind a rollover.
  abbrev pub rolled : Contents
  rolled = record {
    next_id = next_u32 db.next_id;
    next_sst_id = 0;
    tables = [];
    sealed = c.sealed ++ ((c.active_id, c.active_log) ∷ []);
    active_id = db.next_id;
    active_log = [];
  }

  pub rolled-records : records_of rolled ≡ records_of c
  rolled-records =
      append-nil (log_records rolled.sealed)
      ∙ log_records-append c.sealed (c.active_id, c.active_log)

  pub rolled-order : order_of rolled ≡ order_of c ++ (db.next_id ∷ [])
  rolled-order =
      ap (λ ids. ids ++ (db.next_id ∷ [])) (log_ids-append c.sealed (c.active_id, c.active_log))

  pub rolled-IsContents : IsContents rolled
  rolled-IsContents =
      let (u1, u2, u3, u4, u5, u6) = h.contents.words in
      let l1 = room.ids in
      let l2 = room.segments in
      let o = sym rolled-order in
      record {
        words = (
          omega arith,
          subst (λ ids. IsU32 (length ids)) o
              (omega (arith, length-append (order_of c) (db.next_id ∷ []), ap length h.order)),
          subst (All IsU32) o
              (All-append IsU32 (order_of c) (db.next_id ∷ []) u3 (omega arith, tt)),
          omega arith,
          omega arith,
          tt,
        );
        sane = (
          subst (AreAllocated (next_u32 db.next_id)) o (
              AreAllocated-append c.next_id db.next_id (next_u32 db.next_id) (order_of c)
                h.contents.sane.0 h.next_id (omega arith)),
          (tt, tt),
        );
        are_tables = tt;
        sealed_logs =
            All-append (λ (l : Log). All IsLoggable l.1) c.sealed ((c.active_id, c.active_log) ∷ [])
              h.contents.sealed_logs (h.contents.loggable, tt);
        loggable = tt;
      }

  pub rolled-IsOpen :
      (na : SegmentFile)
      → na.id ≡ db.next_id
      → c.tables ≡ []
      → IsOpen m (rolled_over m db na) rolled
  unfolding rolled_over
  rolled-IsOpen na e none_left = record {
    contents = rolled-IsContents;
    order = ap (λ ids. ids ++ (db.next_id ∷ [])) h.order ∙ sym rolled-order;
    active_id = e;
    readers = h.readers ∙ ap open_tables none_left;
    says = subst (λ rs. Says m db.memtable (last_write rs)) (sym rolled-records) h.says;
    keys = subst (AreKeys m) (sym rolled-records) h.keys;
    next_id = omega arith;
    next_sst_id = omega arith;
  }

  pub rolled-HasRoom : (na : SegmentFile) → HasRoom m 2 (rolled_over m db na)
  unfolding rolled_over
  rolled-HasRoom na =
      let l1 = room.ids in
      let l2 = room.segments in
      let l3 = room.leaves in
      let l5 = room.tables in
      let l4 = room.sst_ids in
      record {
        ids = omega arith;
        sst_ids = omega arith;
        segments = omega (arith, length-append db.order (db.next_id ∷ []));
        tables = omega arith;
        leaves = omega arith;
      }

  pub rolled-stored : c.tables ≡ [] → (key : Bytes) → stored rolled key ≡ stored c key
  unfolding stored
  rolled-stored none_left key =
      ap (λ rs. got_lookup (prefer (last_write rs key) (newest key []))) rolled-records
      ∙ ap (λ ts. got_lookup (prefer (last_write (records_of c) key) (newest key (all_entries ts))))
          (sym none_left)

  pub less_room : HasRoom m 2 db
  less_room =
      let l1 = room.ids in
      let l2 = room.segments in
      let l3 = room.leaves in
      let l4 = room.sst_ids in
      let l5 = room.tables in
      record {
        ids = omega arith;
        sst_ids = omega arith;
        segments = omega arith;
        tables = omega arith;
        leaves = omega arith;
      }

  pub same_store : (o : Option Error) (w : World) → IsHeld m db c w.disk → Rolls m c (o, db, w)
  same_store o w g = (c, h, g, less_room, λ key. refl)
