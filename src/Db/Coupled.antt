-- ===== src/Db/Coupled.antt =====
-- An open store and its files: what internal/store/store.go keeps true between them.
use mathlib.Core.Path.{subst}
use kora_engine.Prelude.{
  ℕ, ◌+◌, ◌^◌, ◌<◌, ◌≤◌, ◌≡◌, refl, sym, ap, ◌∙◌, Option, none, some, List, [], ◌∷◌, if◌then◌else◌,
  length, arith, All, All-append, ◌==◌, Bool-cases, inl, inr,
}
use kora_engine.Prelude.Order.{Bytes, bytes_equal, eq_of_bytes_equal}
use kora_engine.Record.{Record}
use kora_engine.Record.RoundTrip.{Fits}
use kora_engine.Bloom.Members.{max_keys}
use kora_engine.Sstable.Reader.{Lookup, found, deleted, absent, failed, entry_lookup}
use kora_engine.Sstable.Closing.{IsTable}
use kora_engine.Segment.Scan.{IsLoggable}
use kora_engine.Merge.Newest.{prefer, newest}
use kora_engine.Merge.Scan.{all_entries, open_tables}
use kora_engine.Memtable.{Memtable, tree_lookup}
use kora_engine.Disk.{Disk}
use kora_engine.Disk.Files.{
  Folder, file_at, bytes_of, append_file, remove_file, file_at-append_file, file_at-remove_file,
}
use kora_engine.Db.{Db, get}
use kora_engine.Db.View.{got_lookup, get-sources}
use kora_engine.Db.Leaves.{leaves-IsTable, tree_lookup-some}
use kora_engine.Db.Stored.{Log, Contents, IsContents, Stored, Stored-frame, SameBelow, order_of}
use kora_engine.Db.Durable.{last_write, log_records, records_of, stored, Says, AreKeys}

-- No segment has bytes under a number that is not yet given.
abbrev pub IsFresh : ℕ → Folder → Type 0
IsFresh n fs = (j : ℕ) → n ≤ j → bytes_of (file_at j fs) ≡ []

pub IsFresh-remove : (n id : ℕ) (fs : Folder) → IsFresh n fs → IsFresh n (remove_file id fs)
IsFresh-remove n id fs f j l = elim (Bool-cases (id == j)) [
  | inl e ↦ ap bytes_of (file_at-remove_file id j fs) ∙ rw e refl
  | inr e ↦ ap bytes_of (file_at-remove_file id j fs) ∙ rw e (f j l)
]

-- An append of nothing, or to a number that is given.
pub IsFresh-append :
    (n id : ℕ) (bs : Bytes) (fs : Folder)
    → (n ≤ id → bs ≡ [])
    → IsFresh n fs
    → IsFresh n (append_file id bs fs)
IsFresh-append n id bs fs b f j l = elim (Bool-cases (id == j)) [
  | inl e ↦
      let p : bs ≡ [] = b (ground arith) in
      ap bytes_of (file_at-append_file id j bs fs) ∙ rw (e, f j l, p) refl
  | inr e ↦ ap bytes_of (file_at-append_file id j bs fs) ∙ rw e (f j l)
]

no_value : (v : Option Bytes) → ¬ (absent ≡ entry_lookup v)
unfolding entry_lookup
no_value none e = cc e
no_value (some v) e = cc e

-- An entry that a test gives or passes on.
Fits-step :
    (r : Record) (rest : Lookup) (key : Bytes) (v : Option Bytes)
    → Fits r.key r.value
    → (rest ≡ entry_lookup v → Fits key v)
    → prefer rest (if bytes_equal r.key key then entry_lookup r.value else absent) ≡ entry_lookup v
    → Fits key v
Fits-step r (found u) key v f ih e = ih e
Fits-step r deleted key v f ih e = ih e
Fits-step r failed key v f ih e = ih e
Fits-step r absent key v f ih e = elim (Bool-cases (bytes_equal r.key key)) [
  | inl t ↦
      let p : r.key ≡ key = eq_of_bytes_equal r.key key t in
      let q : some r.value ≡ some v =
        tree_lookup-some (some r.value) v
          (ap (λ b. if b then entry_lookup r.value else absent) (sym t) ∙ e) in
      let u : r.value ≡ v = cc q in subst (λ k. Fits k v) p (subst (λ u. Fits r.key u) u f)
  | inr t ↦ absurd (no_value v (ap (λ b. if b then entry_lookup r.value else absent) (sym t) ∙ e))
]

last_write-Fits :
    (rs : List Record) (key : Bytes) (v : Option Bytes)
    → All IsLoggable rs
    → last_write rs key ≡ entry_lookup v
    → Fits key v
unfolding last_write
last_write-Fits [] key v h e = absurd (no_value v e)
last_write-Fits (r ∷ rs) key v (h, hs) e =
    Fits-step r (last_write rs key) key v h.1 (last_write-Fits rs key v hs) e

log_records-IsLoggable :
    (ls : List Log) → All (λ (l : Log). All IsLoggable l.1) ls → All IsLoggable (log_records ls)
unfolding log_records
log_records-IsLoggable [] h = tt
log_records-IsLoggable (l ∷ ls) (h, hs) =
    All-append IsLoggable l.1 (log_records ls) h (log_records-IsLoggable ls hs)

pub records_of-IsLoggable : (c : Contents) → IsContents c → All IsLoggable (records_of c)
records_of-IsLoggable c h =
    All-append IsLoggable (log_records c.sealed) c.active_log
      (log_records-IsLoggable c.sealed h.sealed_logs) h.loggable

module _ (m : Memtable) where
  -- A store in memory whose files hold `c`.
  pub record IsOpen (db : Db m.Tree) (c : Contents) : Type 0 where
    pub contents : IsContents c
    pub order : db.order ≡ order_of c
    pub active_id : db.active.id ≡ c.active_id
    pub readers : db.ss_readers ≡ open_tables c.tables
    pub says : Says m db.memtable (last_write (records_of c))
    pub keys : AreKeys m (records_of c)
    pub next_id : c.next_id ≤ db.next_id
    pub next_sst_id : c.next_sst_id ≤ db.ss_next_id

  -- The counters and the sizes are `k` steps from their ends.
  pub record HasRoom (k : ℕ) (db : Db m.Tree) : Type 0 where
    pub ids : db.next_id + k < 2 ^ 32
    pub sst_ids : db.ss_next_id + k < 2 ^ 32
    pub segments : length db.order + k < 2 ^ 32
    pub tables : length db.ss_readers + k < 2 ^ 32
    pub leaves : length (m.leaves db.memtable) + k ≤ max_keys + 1

  -- The files of the store, and fresh numbers beyond them.
  abbrev pub IsHeld : Db m.Tree → Contents → Disk → Type 0
  IsHeld db c d = Stored c [] d × IsFresh db.next_id d.segments

  -- A change of files that are numbered beyond the counters.
  pub IsHeld-frame :
      (db : Db m.Tree) (c : Contents) (d e : Disk)
      → IsOpen db c
      → IsHeld db c d
      → e.manifest ≡ d.manifest
      → SameBelow db.ss_next_id d.tables e.tables
      → SameBelow db.next_id d.segments e.segments
      → IsFresh db.next_id e.segments
      → IsHeld db c e
  IsHeld-frame db c d e h (s, f) em et es g = (
    Stored-frame c [] d e h.contents s em (λ j l. let k = h.next_sst_id in et j (omega arith))
        (λ j l. let k = h.next_id in es j (omega arith)),
    g,
  )

  pub leaves-IsTable-IsOpen :
      (db : Db m.Tree) (c : Contents) → IsOpen db c → HasRoom 1 db → IsTable (m.leaves db.memtable)
  leaves-IsTable-IsOpen db c h r =
      leaves-IsTable m db.memtable h.says.is_tree
        (λ k v i e.
          last_write-Fits (records_of c) k v (records_of-IsLoggable c h.contents)
            (sym (h.says.at k i) ∙ ap tree_lookup e))
        (let q = r.leaves in omega arith)

  -- A read in an open store finds what is stored.
  pub get-stored :
      (db : Db m.Tree) (c : Contents) (key : Bytes)
      → IsOpen db c
      → m.IsKey key
      → get m db key ≡ stored c key
  unfolding stored
  get-stored db c key h i =
      get-sources m db c.tables key h.readers h.contents.are_tables
      ∙ ap (λ l. got_lookup (prefer l (newest key (all_entries c.tables)))) (h.says.at key i)
