-- ===== src/Db/Merged.antt =====
-- The contents of a store behind `CompactSSTables` of internal/store/sst_compact.go.
use kora_engine.Prelude.{
  ℕ, ◌<◌, ◌≤◌, ◌≡◌, ◌≢◌, refl, ap, ◌∙◌, Option, none, some, List, [], ◌∷◌, arith, All,
}
use kora_engine.Prelude.Order.{Bytes, bytes_equal}
use kora_engine.Manifest.Listed.{all_below}
use kora_engine.Sstable.{Entry}
use kora_engine.Sstable.Reader.{Reader, Lookup, found, deleted, absent, failed, entry_lookup}
use kora_engine.Sstable.Closing.{IsTable}
use kora_engine.Sstable.Opening.{table_reader}
use kora_engine.Sstable.Scanning.{find_entry}
use kora_engine.Merge.{make_copy}
use kora_engine.Merge.Newest.{prefer, newest, live}
use kora_engine.Merge.Start.{merge_of, merge_of-newest}
use kora_engine.Merge.Scan.{all_entries, open_tables}
use kora_engine.Merge.Tables.{all_entries-IsSource}
use kora_engine.Memtable.{Memtable}
use kora_engine.Disk.{Disk, World, remove_table}
use kora_engine.Disk.Files.{remove_file}
use kora_engine.Disk.Calls.{change_keeps, if_keeps}
use kora_engine.Db.{Db, Error}
use kora_engine.Db.Flush.{next_u32}
use kora_engine.Db.Compaction.{Result, remove_tables, take_sst_id, compacted}
use kora_engine.Db.View.{got_lookup}
use kora_engine.Db.Stored.{Table, Contents, IsContents, order_of}
use kora_engine.Db.Durable.{last_write, records_of, stored}
use kora_engine.Db.Coupled.{IsOpen, HasRoom, IsHeld}

pub remove_tables_keeps :
    (P : Disk → Type 0) (n : ℕ) (rs : List Reader) (w : World)
    → All (λ (r : Reader). r.id < n) rs
    → ((id : ℕ) (d : Disk) → id < n → P d → P (record d { tables = remove_file id d.tables }))
    → P w.disk
    → P (remove_tables rs w).disk
unfolding remove_tables remove_table
remove_tables_keeps P n [] w b k h = h
remove_tables_keeps P n (r ∷ rs) w (b, bs) k h =
    remove_tables_keeps P n rs (remove_table r.id w) bs k
      (change_keeps P _ (λ x. w.disk) w h (k r.id w.disk b h) (λ x. h))

pub readers_below :
    (k n : ℕ) (ts : List Table)
    → k ≤ n
    → All (λ (t : Table). t.0 < k) ts
    → All (λ (r : Reader). r.id < n) (open_tables ts)
unfolding table_reader
readers_below k n [] l h = tt
readers_below k n (t ∷ ts) l (h, hs) = (omega arith, readers_below k n ts l hs)

pub entry_lookup_ok : (v : Option Bytes) → entry_lookup v ≢ failed
unfolding entry_lookup
entry_lookup_ok none e = cc e
entry_lookup_ok (some v) e = cc e

pub find_entry_ok : (key : Bytes) (es : List Entry) → find_entry key es ≢ failed
unfolding find_entry
find_entry_ok key [] = λ e. cc e
find_entry_ok key (f ∷ es) =
    if_keeps (λ l. l ≢ failed) (bytes_equal f.key key) _ _ (λ t. entry_lookup_ok f.value)
      (λ t. find_entry_ok key es)

pub prefer_ok : (a b : Lookup) → a ≢ failed → b ≢ failed → prefer a b ≢ failed
prefer_ok absent b h k = k
prefer_ok (found v) b h k = h
prefer_ok deleted b h k = h
prefer_ok failed b h k = h

pub newest_ok : (key : Bytes) (srcs : List (List Entry)) → newest key srcs ≢ failed
unfolding newest
newest_ok key [] = λ e. cc e
newest_ok key (es ∷ srcs) =
    prefer_ok (find_entry key es) (newest key srcs) (find_entry_ok key es) (newest_ok key srcs)

-- A reader does not tell a deletion from an absent key.
pub got_lookup-live :
    (l n : Lookup)
    → n ≢ failed
    → got_lookup (prefer l (prefer (live n) absent)) ≡ got_lookup (prefer l n)
got_lookup-live (found v) n h = refl
got_lookup-live deleted n h = refl
got_lookup-live failed n h = refl
got_lookup-live absent (found v) h = refl
got_lookup-live absent deleted h = refl
got_lookup-live absent absent h = refl
got_lookup-live absent failed h = absurd (h refl)

module _ (m : Memtable) (db : Db m.Tree) (c : Contents) (h : IsOpen m db c)
    (room : HasRoom m 1 db) where
  abbrev pub merged : List Entry
  merged = merge_of make_copy (all_entries c.tables)

  -- The contents behind a compaction.
  abbrev pub merged_contents : Contents
  merged_contents = record c {
    next_id = db.next_id;
    next_sst_id = next_u32 db.ss_next_id;
    tables = (db.ss_next_id, merged) ∷ [];
  }

  pub merged-IsContents : IsTable merged → IsContents merged_contents
  merged-IsContents t =
      let (u1, u2, u3, u4, u5, u6) = h.contents.words in
      let l1 = room.ids in
      let l2 = room.sst_ids in
      record {
        words = (omega arith, u2, u3, omega arith, omega arith, (omega arith, tt));
        sane = (
          (
            h.contents.sane.0.0,
            all_below c.next_id db.next_id (order_of c) h.next_id h.contents.sane.0.1,
          ),
          ((tt, tt), (omega arith, tt)),
        );
        are_tables = (t, tt);
        sealed_logs = h.contents.sealed_logs;
        loggable = h.contents.loggable;
      }

  pub merged-stored : (key : Bytes) → stored merged_contents key ≡ stored c key
  unfolding stored newest
  merged-stored key =
      ap (λ l. got_lookup (prefer (last_write (records_of c) key) (prefer l absent)))
        ((merge_of-newest make_copy (all_entries c.tables)
            (all_entries-IsSource c.tables h.contents.are_tables)).1
          key)
      ∙ got_lookup-live (last_write (records_of c) key) (newest key (all_entries c.tables))
          (newest_ok key (all_entries c.tables))

  -- What a compaction leaves: a store that is open on its files and in which the same is stored.
  abbrev pub Merges : Result m → Type 0
  Merges r =
      (e : Contents) × IsOpen m r.1 e
      × IsHeld m r.1 e r.2.disk
      × ((key : Bytes) → stored e key ≡ stored c key)

  pub take_sst_id-IsOpen : IsOpen m (take_sst_id m db) c
  unfolding take_sst_id
  take_sst_id-IsOpen =
      let l1 = room.sst_ids in
      let l2 = h.next_sst_id in
      record {
        contents = h.contents;
        order = h.order;
        active_id = h.active_id;
        readers = h.readers;
        says = h.says;
        keys = h.keys;
        next_id = h.next_id;
        next_sst_id = omega arith;
      }

  pub same_store :
      (o : Option Error) (w : World) → IsHeld m db c w.disk → Merges (o, take_sst_id m db, w)
  same_store o w g = (c, take_sst_id-IsOpen, unfold take_sst_id in g, λ key. refl)

  pub merged-IsOpen :
      IsTable merged → IsOpen m (compacted m db (table_reader db.ss_next_id merged)) merged_contents
  unfolding compacted
  merged-IsOpen t = record {
    contents = merged-IsContents t;
    order = h.order;
    active_id = h.active_id;
    readers = refl;
    says = h.says;
    keys = h.keys;
    next_id = omega arith;
    next_sst_id = omega arith;
  }
