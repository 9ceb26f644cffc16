-- ===== src/Db/Durable.antt =====
-- What the files of a store say of a key, and that a store that `Open` of internal/store/store.go makes
-- of them says the same.
use mathlib.Core.List.{foldl, foldl-append}
use mathlib.Core.Path.{subst}
use kora_engine.Prelude.{
  ◌≡◌, refl, sym, ap, ◌∙◌, Bool, true, false, Option, none, some, List, [], ◌∷◌, ◌++◌,
  if◌then◌else◌, All, Bool-cases, inl, inr,
}
use kora_engine.Prelude.Order.{Bytes, bytes_equal}
use kora_engine.Record.{Record}
use kora_engine.Sstable.Reader.{Lookup, absent, entry_lookup}
use kora_engine.Merge.Newest.{prefer, prefer_assoc, prefer-absent, newest}
use kora_engine.Merge.Scan.{all_entries, open_tables}
use kora_engine.Memtable.{Memtable, tree_lookup}
use kora_engine.Disk.{Disk}
use kora_engine.Db.{Db, Got, Options, get}
use kora_engine.Db.Replay.{Replay, replay_value, replay_record, Opened}
use kora_engine.Db.Open.{nothing_opened, opened_db, has_readers, recount, open_db}
use kora_engine.Db.View.{got_lookup, sources, get-sources}
use kora_engine.Db.Stored.{Log, Contents, IsContents, Stored, IsCut}
use kora_engine.Db.Calm.{calm}
use kora_engine.Db.Replayed.{kept_tail, opened_logs}
use kora_engine.Db.Recovery.{reopened, opened_store, open_db-opened_store}

-- What the last record of a key in a log says.
unfoldable pub last_write : List Record → Bytes → Lookup
last_write [] key = absent
last_write (r ∷ rs) key =
    prefer (last_write rs key) (if bytes_equal r.key key then entry_lookup r.value else absent)

unfoldable pub log_records : List Log → List Record
log_records [] = []
log_records (l ∷ ls) = l.1 ++ log_records ls

-- All records of the logs, in the order of the writes.
abbrev pub records_of : Contents → List Record
records_of c = log_records c.sealed ++ c.active_log

-- What is stored of a key: what the last record of it says, or else the newest table.
unfoldable pub stored : Contents → Bytes → Got
stored c key =
    got_lookup (prefer (last_write (records_of c) key) (newest key (all_entries c.tables)))

pub last_write-append :
    (rs ts : List Record) (key : Bytes)
    → last_write (rs ++ ts) key ≡ prefer (last_write ts key) (last_write rs key)
unfolding last_write
last_write-append [] ts key = sym (prefer-absent (last_write ts key))
last_write-append (r ∷ rs) ts key =
    ap (λ l. prefer l (if bytes_equal r.key key then entry_lookup r.value else absent))
      (last_write-append rs ts key)
    ∙ prefer_assoc (last_write ts key) (last_write rs key) _

module _ (m : Memtable) where
  -- A tree that says of every key what `says` says.
  pub record Says (t : m.Tree) (says : Bytes → Lookup) : Type 0 where
    pub is_tree : m.IsTree t
    pub at : (key : Bytes) → m.IsKey key → tree_lookup (m.get t key) ≡ says key

  abbrev pub AreKeys : List Record → Type 0
  AreKeys rs = All (λ (r : Record). m.IsKey r.key) rs

  pub Says-eq :
      (t : m.Tree) (says those : Bytes → Lookup)
      → ((key : Bytes) → says key ≡ those key)
      → Says t says
      → Says t those
  Says-eq t says those e h = record { is_tree = h.is_tree; at = λ key i. h.at key i ∙ e key }

  pub insert-Says :
      (t : m.Tree) (says : Bytes → Lookup) (k : Bytes) (v : Option Bytes)
      → Says t says
      → m.IsKey k
      → Says (m.insert t k v) (λ key. if bytes_equal k key then entry_lookup v else says key)
  insert-Says t says k v s h = record {
    is_tree = m.insert-IsTree t k v s.is_tree h;
    at = λ key i.
        ap tree_lookup (m.get-insert t k key v s.is_tree h i) ∙ by_test key i (bytes_equal k key);
  }
    where
      by_test :
          (key : Bytes)
          → m.IsKey key
          → (b : Bool)
          → tree_lookup (if b then some v else m.get t key)
            ≡ (if b then entry_lookup v else says key)
      by_test key i true = refl
      by_test key i false = s.at key i

  prefer_if :
      (v : Option Bytes) (b : Bool) (l o : Lookup)
      → prefer l (if b then entry_lookup v else o)
        ≡ prefer (prefer l (if b then entry_lookup v else absent)) o
  unfolding entry_lookup
  prefer_if none true l o = sym (prefer_assoc l _ o)
  prefer_if (some v) true l o = sym (prefer_assoc l _ o)
  prefer_if v false l o = sym (prefer_assoc l absent o)

  replay_record-memtable :
      (s : Replay m) (r : Record)
      → (replay_record m s r).memtable ≡ m.insert s.memtable r.key r.value
  unfolding replay_record
  replay_record-memtable s r = of_value r.value
    where
      of_value :
          (v : Option Bytes) → (replay_value m r.key v s).memtable ≡ m.insert s.memtable r.key v
      of_value none = unfold replay_value in refl
      of_value (some v) = unfold replay_value in refl

  replay-Says :
      (rs : List Record) (s : Replay m) (says : Bytes → Lookup)
      → Says s.memtable says
      → AreKeys rs
      → Says (foldl (replay_record m) s rs).memtable (λ key. prefer (last_write rs key) (says key))
  unfolding last_write
  replay-Says [] s says h k = h
  replay-Says (r ∷ rs) s says h (k, ks) =
      Says-eq _ _ _
        (λ key. prefer_if r.value (bytes_equal r.key key) (last_write rs key) (says key))
        (replay-Says rs (replay_record m s r) _
          (subst
            (λ t. Says t (λ key. if bytes_equal r.key key then entry_lookup r.value else says key))
            (sym (replay_record-memtable s r)) (insert-Says s.memtable says r.key r.value h k))
          ks)

  opened_logs-replay :
      (ls : List Log) (o : Opened m)
      → (opened_logs m ls o).replay ≡ foldl (replay_record m) o.replay (log_records ls)
  unfolding opened_logs log_records
  opened_logs-replay [] o = refl
  opened_logs-replay (l ∷ ls) o =
      opened_logs-replay ls _ ∙ sym (foldl-append (replay_record m) o.replay l.1 (log_records ls))

  pub empty-Says : Says m.empty (λ key. absent)
  empty-Says = record { is_tree = m.empty-IsTree; at = λ key i. ap tree_lookup (m.get-empty key) }

  pub reopened-Says :
      (c : Contents)
      → AreKeys (records_of c)
      → Says (reopened m c).replay.memtable (last_write (records_of c))
  unfolding reopened
  reopened-Says c k =
      let e : foldl (replay_record m) (nothing_opened m).replay (records_of c)
          ≡ foldl (replay_record m) (opened_logs m c.sealed (nothing_opened m)).replay
              c.active_log =
        foldl-append (replay_record m) (nothing_opened m).replay (log_records c.sealed) c.active_log
        ∙ ap (λ s. foldl (replay_record m) s c.active_log)
            (sym (opened_logs-replay c.sealed (nothing_opened m))) in
      subst (λ (s : Replay m). Says s.memtable (last_write (records_of c))) e
        (Says-eq _ _ _ (λ key. prefer-absent (last_write (records_of c) key))
          (replay-Says (records_of c) (nothing_opened m).replay _ empty-Says k))

  -- A recount changes nothing that a read looks at.
  recount-reads :
      (db : Db m.Tree)
      → ((recount m db).memtable ≡ db.memtable) × ((recount m db).ss_readers ≡ db.ss_readers)
  unfolding recount
  recount-reads db = elim (Bool-cases (has_readers m db.ss_readers)) [
    | inl e ↦ rw e (refl, refl)
    | inr e ↦ rw e (refl, refl)
  ]

  pub opened_store-reads :
      (opts : Options) (c : Contents)
      → ((opened_store m opts c).memtable ≡ (reopened m c).replay.memtable)
        × ((opened_store m opts c).ss_readers ≡ open_tables c.tables)
  unfolding opened_store opened_db
  opened_store-reads opts c = recount-reads _

  -- `Open` on the files of a store, whatever a torn append has left behind the records of its active
  -- segment, where no call fails: it returns a store; a read of a key finds in it what the last record
  -- of the key in the logs says, or else the newest table that speaks of it; and the files are still
  -- those of the store. The keys of the records, and the key read, are keys of the tree.
  pub open_db-stored :
      (opts : Options) (c : Contents) (tail : Bytes) (d : Disk)
      → IsContents c
      → Stored c tail d
      → IsCut tail
      → AreKeys (records_of c)
      → (db : Db m.Tree) × (e : Disk) × (open_db m opts (calm d) ≡ (none, some db, calm e))
        × Stored c (kept_tail m tail) e
        × ((key : Bytes) → m.IsKey key → get m db key ≡ stored c key)
  unfolding stored
  open_db-stored opts c tail d h s k a =
      let (e, p, q) = open_db-opened_store m opts c tail d h s k in
      let (em, er) = opened_store-reads opts c in
      let says = reopened-Says c a in
      (
        opened_store m opts c,
        e,
        p,
        q,
        λ key i.
            get-sources m (opened_store m opts c) c.tables key er h.are_tables
            ∙ ap (λ t. got_lookup (sources m t c.tables key)) em
            ∙ ap (λ l. got_lookup (prefer l (newest key (all_entries c.tables)))) (says.at key i),
      )
