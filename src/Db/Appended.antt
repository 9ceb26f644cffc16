-- ===== src/Db/Appended.antt =====
-- A record behind the log of the active segment of internal/store/store.go: what is then stored.
use mathlib.Core.Path.{subst}
use kora_engine.Prelude.{
  ℕ, zero, suc, ◌≡◌, ◌≢◌, ◌⊎◌, refl, sym, ap, ◌∙◌, Bool, true, false, Option, none, some, List, [],
  ◌∷◌, ◌++◌, if◌then◌else◌, ◌==◌, arith, take, All, All-append, inl, inr, ==-refl, append-nil,
  append_assoc,
}
use kora_engine.Prelude.Order.{Bytes, bytes_equal}
use kora_engine.Prelude.Endian.{put_u32}
use kora_engine.Record.{Record}
use kora_engine.Record.RoundTrip.{record_bytes}
use kora_engine.Segment.Scan.{log_bytes, log_bytes-append, IsLoggable}
use kora_engine.Sstable.Reader.{Lookup, absent, entry_lookup}
use kora_engine.Merge.Newest.{prefer, newest}
use kora_engine.Merge.Scan.{all_entries}
use kora_engine.Memtable.{Memtable}
use kora_engine.Disk.{Disk}
use kora_engine.Disk.Files.{append_file, file_at-append_file}
use kora_engine.Manifest.{contains}
use kora_engine.Manifest.Listed.{contains_left}
use kora_engine.Db.{Db, Got, got_of}
use kora_engine.Db.Write.{grown, remember}
use kora_engine.Db.View.{got_lookup}
use kora_engine.Db.Stored.{
  Log, Contents, IsContents, Stored, IsCut, same_files, order_of, log_ids, ids_below,
}
use kora_engine.Db.Recovery.{listed_logs}
use kora_engine.Db.Durable.{
  last_write, last_write-append, log_records, records_of, stored, AreKeys, Says-eq, insert-Says,
}
use kora_engine.Db.Coupled.{IsFresh-append, IsOpen, IsHeld}

abbrev pub appended : Contents → Record → Contents
appended c r = record c { active_log = c.active_log ++ (r ∷ []) }

-- A function of keys that has a new value at one.
unfoldable pub updated : Bytes → Option Bytes → (Bytes → Got) → Bytes → Got
updated key v f j = if bytes_equal key j then got_of v else f j

pub nil-IsCut : IsCut []
unfolding record_bytes put_u32
nil-IsCut = (
  record { timestamp = 0; key = []; value = none },
  _,
  _,
  (omega arith, (omega arith, omega arith)),
  refl,
)

-- A part of the bytes is all of them, or something is missing.
pub take_cut :
    (n : ℕ) (bs : Bytes)
    → (take n bs ≡ bs) ⊎ ((x : ℕ) × (back : Bytes) × (bs ≡ take n bs ++ (x ∷ back)))
take_cut zero [] = inl refl
take_cut (suc n) [] = inl refl
take_cut zero (b ∷ bs) = inr (b, bs, refl)
take_cut (suc n) (b ∷ bs) = elim (take_cut n bs) [
  | inl e ↦ inl (ap (λ cs. b ∷ cs) e)
  | inr (x, back, e) ↦ inr (x, back, ap (λ cs. b ∷ cs) e)
]

pub append-Stored :
    (c : Contents) (bs : Bytes) (d : Disk)
    → IsContents c
    → Stored c [] d
    → Stored c bs (record d { segments = append_file c.active_id bs d.segments })
append-Stored c bs d h s = record {
  manifest_at = s.manifest_at;
  tables_at = s.tables_at;
  sealed_at =
      same_files log_bytes (λ j. j ≢ c.active_id) d.segments (append_file c.active_id bs d.segments)
        c.sealed
        (λ j n.
          let q : (c.active_id == j) ≡ false = ground arith in
          file_at-append_file c.active_id j bs d.segments ∙ rw q)
        (apart c.sealed (
          listed_logs (order_of c) c.sealed c.active_id
            (contains_left (log_ids c.sealed) (c.active_id ∷ [])) h.sane.0.0))
        s.sealed_at;
  active_at =
      file_at-append_file c.active_id c.active_id bs d.segments
      ∙ rw (==-refl c.active_id, s.active_at, append-nil (log_bytes c.active_log)) refl;
}
  where
    apart :
        (ls : List Log)
        → All (λ (l : Log). (contains (order_of c) l.0 ≡ true) × (l.0 ≢ c.active_id)) ls
        → All (λ (l : Log). l.0 ≢ c.active_id) ls
    apart [] h = tt
    apart (l ∷ ls) (h, hs) = (h.1, apart ls hs)

pub whole-Stored :
    (c : Contents) (r : Record) (d : Disk)
    → Stored c (record_bytes r.timestamp r.key r.value) d
    → Stored (appended c r) [] d
unfolding log_bytes
whole-Stored c r d s = record {
  manifest_at = s.manifest_at;
  tables_at = s.tables_at;
  sealed_at = s.sealed_at;
  active_at =
      s.active_at
      ∙ ap some (
          sym (
            append-nil (log_bytes (c.active_log ++ (r ∷ [])))
            ∙ log_bytes-append c.active_log (r ∷ [])
            ∙ ap (λ bs. log_bytes c.active_log ++ bs)
                (append-nil (record_bytes r.timestamp r.key r.value))));
}

pub appended-IsContents :
    (c : Contents) (r : Record) → IsContents c → IsLoggable r → IsContents (appended c r)
appended-IsContents c r h l = record {
  words = h.words;
  sane = h.sane;
  are_tables = h.are_tables;
  sealed_logs = h.sealed_logs;
  loggable = All-append IsLoggable c.active_log (r ∷ []) h.loggable (l, tt);
}

pub last_write-appended :
    (c : Contents) (r : Record) (key : Bytes)
    → last_write (records_of (appended c r)) key
      ≡ (if bytes_equal r.key key then entry_lookup r.value else last_write (records_of c) key)
unfolding last_write
last_write-appended c r key =
    ap (λ rs. last_write rs key) (sym (append_assoc (log_records c.sealed) c.active_log (r ∷ [])))
    ∙ last_write-append (records_of c) (r ∷ []) key
    ∙ by_test r.value (bytes_equal r.key key) (last_write (records_of c) key)
  where
    by_test :
        (v : Option Bytes) (b : Bool) (l : Lookup)
        → prefer (if b then entry_lookup v else absent) l ≡ (if b then entry_lookup v else l)
    by_test none true l = unfold entry_lookup in refl
    by_test (some v) true l = unfold entry_lookup in refl
    by_test v false l = refl

pub stored-appended :
    (c : Contents) (r : Record) (key : Bytes)
    → stored (appended c r) key ≡ updated r.key r.value (stored c) key
unfolding stored updated
stored-appended c r key =
    ap (λ l. got_lookup (prefer l (newest key (all_entries c.tables))))
      (last_write-appended c r key)
    ∙ by_test (bytes_equal r.key key)
  where
    of_value :
        (v : Option Bytes)
        → got_lookup (prefer (entry_lookup v) (newest key (all_entries c.tables))) ≡ got_of v
    of_value none = unfold entry_lookup in unfold got_of in refl
    of_value (some v) = unfold entry_lookup in unfold got_of in refl

    by_test :
        (b : Bool)
        → got_lookup (
            prefer
              (if b then entry_lookup r.value else last_write (records_of c) key)
              (newest key (all_entries c.tables)))
          ≡ (if b then got_of r.value else stored c key)
    by_test true = of_value r.value
    by_test false = refl

module _ (m : Memtable) where
  pub appended-AreKeys :
      (c : Contents) (r : Record)
      → AreKeys m (records_of c)
      → m.IsKey r.key
      → AreKeys m (records_of (appended c r))
  appended-AreKeys c r k i =
      subst (AreKeys m) (append_assoc (log_records c.sealed) c.active_log (r ∷ []))
        (All-append (λ (r : Record). m.IsKey r.key) (records_of c) (r ∷ []) k (i, tt))

  pub remember-IsOpen :
      (db : Db m.Tree) (c : Contents) (r : Record)
      → IsOpen m db c
      → IsLoggable r
      → m.IsKey r.key
      → IsOpen m
          (remember m r.key r.value (grown m db (record_bytes r.timestamp r.key r.value)))
          (appended c r)
  unfolding remember grown
  remember-IsOpen db c r h l i = record {
    contents = appended-IsContents c r h.contents l;
    order = h.order;
    active_id = h.active_id;
    readers = h.readers;
    says =
        Says-eq m _ _ _ (λ key. sym (last_write-appended c r key))
          (insert-Says m db.memtable (last_write (records_of c)) r.key r.value h.says i);
    keys = appended-AreKeys c r h.keys i;
    next_id = h.next_id;
    next_sst_id = h.next_sst_id;
  }

  pub appended-IsHeld :
      (db : Db m.Tree) (c : Contents) (r : Record) (d : Disk)
      → IsOpen m db c
      → IsHeld m db c d
      → IsHeld m db (appended c r) (record d {
        segments = append_file db.active.id (record_bytes r.timestamp r.key r.value) d.segments;
      })
  appended-IsHeld db c r d h (s, f) =
      let bs = record_bytes r.timestamp r.key r.value in
      let (bt, bl, ba) = ids_below c h.contents in
      let n = h.next_id in
      (
        whole-Stored c r _ (
            subst (λ id. Stored c bs (record d { segments = append_file id bs d.segments }))
              (sym h.active_id) (append-Stored c bs d h.contents s)),
        IsFresh-append db.next_id db.active.id bs d.segments
            (λ l. absurd (omega (arith, l, ba, n, h.active_id))) f,
      )
