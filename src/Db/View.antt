-- ===== src/Db/View.antt =====
-- What an open store holds, and what its reads (`Get`, `isLiveKey` of internal/store/store.go) see of it.
use kora_engine.Prelude.{ℕ, ◌≡◌, refl, ap, ◌∙◌, Option, none, some, List, [], ◌∷◌, All}
use kora_engine.Prelude.Order.{Bytes, Before}
use kora_engine.Sstable.{Entry}
use kora_engine.Sstable.Reader.{Lookup, found, deleted, absent, failed, entry_lookup}
use kora_engine.Sstable.Layout.{IsSorted}
use kora_engine.Sstable.Closing.{IsTable}
use kora_engine.Sstable.Scanning.{find_entry}
use kora_engine.Sstable.Lookup.{raw_get-find_entry}
use kora_engine.Merge.Newest.{prefer, newest}
use kora_engine.Merge.Heap.{find_entry_past, find_entry_here}
use kora_engine.Merge.Scan.{open_tables, all_entries}
use kora_engine.Memtable.{Memtable, tree_lookup}
use kora_engine.Db.{Db, Got, got, missing, get_failed, get_readers, got_of, get}

-- What a reader of the store makes of what its sources say.
abbrev pub got_lookup : Lookup → Got
got_lookup (found v) = got v
got_lookup deleted = missing
got_lookup absent = missing
got_lookup failed = get_failed

abbrev pub AreTables : List (ℕ × List Entry) → Type 0
AreTables ts = All (λ (t : ℕ × List Entry). IsTable t.1) ts

pub get_readers-newest :
    (ts : List (ℕ × List Entry)) (key : Bytes)
    → AreTables ts
    → get_readers (open_tables ts) key ≡ got_lookup (newest key (all_entries ts))
unfolding get_readers newest
get_readers-newest [] key h = refl
get_readers-newest (t ∷ ts) key (h, hs) =
    rw (raw_get-find_entry t.0 t.1 key h, get_readers)
      (by_lookup (find_entry key t.1) (get_readers-newest ts key hs))
  where
    by_lookup :
        (l : Lookup)
        → get_readers (open_tables ts) key ≡ got_lookup (newest key (all_entries ts))
        → (elim l [
          | failed ↦ get_failed
          | deleted ↦ missing
          | found v ↦ got v
          | absent ↦ get_readers (open_tables ts) key
        ])
          ≡ got_lookup (prefer l (newest key (all_entries ts)))
    by_lookup failed ih = refl
    by_lookup deleted ih = refl
    by_lookup (found v) ih = refl
    by_lookup absent ih = ih

-- In a sorted table, every entry is what a lookup of its key finds.
pub find_entry_self :
    (es : List Entry)
    → IsSorted es
    → All (λ (e : Entry). find_entry e.key es ≡ entry_lookup e.value) es
find_entry_self [] s = tt
find_entry_self (e ∷ es) (b, s) = (find_entry_here e es, skip es b (find_entry_self es s))
  where
    skip :
        (fs : List Entry)
        → All (λ (f : Entry). Before e.key f.key) fs
        → All (λ (f : Entry). find_entry f.key es ≡ entry_lookup f.value) fs
        → All (λ (f : Entry). find_entry f.key (e ∷ es) ≡ entry_lookup f.value) fs
    skip [] b h = tt
    skip (f ∷ fs) (b, bs) (h, hs) = (find_entry_past f.key e es b ∙ h, skip fs bs hs)

module _ (m : Memtable) where
  -- What the sources of a store say of a key: the memtable, and then the tables, newest first.
  abbrev pub sources : m.Tree → List (ℕ × List Entry) → Bytes → Lookup
  sources t ts key = prefer (tree_lookup (m.get t key)) (newest key (all_entries ts))

  pub get-sources :
      (db : Db m.Tree) (ts : List (ℕ × List Entry)) (key : Bytes)
      → db.ss_readers ≡ open_tables ts
      → AreTables ts
      → get m db key ≡ got_lookup (sources db.memtable ts key)
  unfolding get entry_lookup got_of
  get-sources db ts key e h = by_get (m.get db.memtable key)
    where
      of_value :
          (v : Option Bytes)
          → got_of v ≡ got_lookup (prefer (entry_lookup v) (newest key (all_entries ts)))
      of_value none = refl
      of_value (some v) = refl

      by_get :
          (g : Option (Option Bytes))
          → (elim g [ some v ↦ got_of v | none ↦ get_readers db.ss_readers key ])
            ≡ got_lookup (prefer (tree_lookup g) (newest key (all_entries ts)))
      by_get none = ap (λ rs. get_readers rs key) e ∙ get_readers-newest ts key h
      by_get (some v) = of_value v
