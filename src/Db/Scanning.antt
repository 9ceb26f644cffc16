-- ===== src/Db/Scanning.antt =====
-- `Scan` and `isLiveKey` of an open store (internal/store/scan.go, store.go), beside its `Get`.
use kora_engine.Prelude.{
  ◌≡◌, ◌≢◌, refl, sym, ap, ◌∙◌, Bool, true, false, Option, none, some, List, [], ◌∷◌,
}
use kora_engine.Prelude.Order.{Bytes}
use kora_engine.Sstable.Reader.{Lookup, found, deleted, absent, failed}
use kora_engine.Sstable.Lookup.{raw_get-find_entry}
use kora_engine.Sstable.Scanning.{find_entry}
use kora_engine.Merge.Newest.{prefer, newest}
use kora_engine.Merge.Scan.{all_entries, open_tables}
use kora_engine.Memtable.{Memtable}
use kora_engine.Db.{
  Db, Got, got, missing, get_failed, got_of, get_readers, get, is_live_key, is_live_in, is_some,
}
use kora_engine.Db.View.{AreTables, got_lookup, get_readers-newest}
use kora_engine.Db.Stored.{Contents, Table}
use kora_engine.Db.Coupled.{IsOpen}
use kora_engine.Db.Merged.{find_entry_ok}

abbrev pub is_value : Lookup → Bool
is_value (found v) = true
is_value deleted = false
is_value absent = false
is_value failed = false

abbrev pub is_got : Got → Bool
is_got (got v) = true
is_got missing = false
is_got get_failed = false

is_got-got_lookup : (l : Lookup) → is_got (got_lookup l) ≡ is_value l
is_got-got_lookup (found v) = refl
is_got-got_lookup deleted = refl
is_got-got_lookup absent = refl
is_got-got_lookup failed = refl

is_live_in-newest :
    (ts : List Table) (key : Bytes)
    → AreTables ts
    → is_live_in (open_tables ts) key ≡ is_value (newest key (all_entries ts))
unfolding is_live_in newest
is_live_in-newest [] key h = refl
is_live_in-newest (t ∷ ts) key (h, hs) =
    rw (raw_get-find_entry t.0 t.1 key h, is_live_in)
      (by_lookup (find_entry key t.1) (find_entry_ok key t.1) (is_live_in-newest ts key hs))
  where
    by_lookup :
        (l : Lookup)
        → l ≢ failed
        → is_live_in (open_tables ts) key ≡ is_value (newest key (all_entries ts))
        → (elim l [
          | failed ↦ is_live_in (open_tables ts) key
          | deleted ↦ false
          | found v ↦ true
          | absent ↦ is_live_in (open_tables ts) key
        ])
          ≡ is_value (prefer l (newest key (all_entries ts)))
    by_lookup failed n ih = absurd (n refl)
    by_lookup deleted n ih = refl
    by_lookup (found v) n ih = refl
    by_lookup absent n ih = ih

module _ (m : Memtable) where
  -- In an open store, `isLiveKey` holds of a key exactly if a read of the key finds a value.
  pub is_live_key-get :
      (db : Db m.Tree) (c : Contents) (key : Bytes)
      → IsOpen m db c
      → is_live_key m db key ≡ is_got (get m db key)
  unfolding is_live_key get
  is_live_key-get db c key h = by_get (m.get db.memtable key)
    where
      of_value : (v : Option Bytes) → is_some v ≡ is_got (got_of v)
      of_value none = unfold got_of in refl
      of_value (some v) = unfold got_of in refl

      by_readers : is_live_in db.ss_readers key ≡ is_got (get_readers db.ss_readers key)
      by_readers =
          ap (λ rs. is_live_in rs key) h.readers
          ∙ is_live_in-newest c.tables key h.contents.are_tables
          ∙ sym (is_got-got_lookup (newest key (all_entries c.tables)))
          ∙ ap is_got (sym (get_readers-newest c.tables key h.contents.are_tables))
          ∙ ap (λ rs. is_got (get_readers rs key)) (sym h.readers)

      by_get :
          (g : Option (Option Bytes))
          → (elim g as (λ _. Bool) [ some v ↦ is_some v | none ↦ is_live_in db.ss_readers key ])
            ≡ is_got
                (elim g as (λ _. Got) [ some v ↦ got_of v | none ↦ get_readers db.ss_readers key ])
      by_get none = by_readers
      by_get (some v) = of_value v
