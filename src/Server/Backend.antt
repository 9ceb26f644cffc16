-- ===== src/Server/Backend.antt =====
-- The server of internal/server/server.go over the database of internal/store/store.go: a `GET` of the
-- client finds what is stored. The texts of errors, and the operation `Compact`, are parameters.
use kora_engine.Prelude.{ℕ, ◌≡◌, ◌≢◌, refl, ap, ◌∙◌, Option, none, some, List, [], ◌∷◌, ◌++◌}
use kora_engine.Prelude.Order.{Bytes, bytes_equal}
use kora_engine.Record.{Record, slice}
use kora_engine.Proto.{reply, Pairs, read_bulk_string}
use kora_engine.Proto.RoundTrip.{IsShort}
use kora_engine.Sstable.{Entry}
use kora_engine.Sstable.Reader.{Lookup, found, deleted, absent, failed}
use kora_engine.Merge.Newest.{newest}
use kora_engine.Merge.Scan.{all_entries}
use kora_engine.Memtable.{Memtable}
use kora_engine.Disk.{World}
use kora_engine.Disk.Calls.{if_keeps}
use kora_engine.Db
use kora_engine.Db.{Db, Error, bad_table, Got, got, missing, get_failed, get, sstable_count}
use kora_engine.Db.Write
use kora_engine.Db.Compaction.{compact_sstables}
use kora_engine.Db.View.{got_lookup}
use kora_engine.Db.Stored.{Contents}
use kora_engine.Db.Durable.{last_write, records_of, stored}
use kora_engine.Db.Coupled.{IsOpen, get-stored}
use kora_engine.Db.Merged.{entry_lookup_ok, prefer_ok, newest_ok}
use kora_engine.Server.{Engine, Fetched, fetched, fetch_failed, get_name, get_request, serve}
use kora_engine.Server.Answers.{serve-get_request}

-- The value that a read finds, if any.
abbrev pub value_of : Got → Option Bytes
value_of (got v) = some v
value_of missing = none
value_of get_failed = none

last_write_ok : (rs : List Record) (key : Bytes) → last_write rs key ≢ failed
unfolding last_write
last_write_ok [] key = λ e. cc e
last_write_ok (r ∷ rs) key = prefer_ok (last_write rs key) _ (last_write_ok rs key) (
    if_keeps (λ l. l ≢ failed) (bytes_equal r.key key) _ _ (λ t. entry_lookup_ok r.value)
      (λ t e. cc e))

got_lookup_ok : (l : Lookup) → l ≢ failed → got_lookup l ≢ get_failed
got_lookup_ok (found v) h e = cc e
got_lookup_ok deleted h e = cc e
got_lookup_ok absent h e = cc e
got_lookup_ok failed h e = h refl

-- No read of what is stored fails.
stored_ok : (c : Contents) (key : Bytes) → stored c key ≢ get_failed
unfolding stored
stored_ok c key = got_lookup_ok _ (
    prefer_ok (last_write (records_of c) key) (newest key (all_entries c.tables))
      (last_write_ok (records_of c) key) (newest_ok key (all_entries c.tables)))

abbrev pub scanned_pairs : Option (List Entry) → Pairs
scanned_pairs none = []
scanned_pairs (some []) = []
scanned_pairs (some (e ∷ es)) = (some e.key, e.value) ∷ scanned_pairs (some es)

module _ (m : Memtable) (now : ℕ) (text : Error → Bytes)
    (compact : Db m.Tree × World → Option Bytes × (Db m.Tree × World)) where
  unfoldable pub text_of : Option Error → Option Bytes
  text_of none = none
  text_of (some e) = some (text e)

  abbrev pub with_text : Option Error × Db m.Tree × World → Option Bytes × (Db m.Tree × World)
  with_text (err, db, w) = (text_of err, (db, w))

  unfoldable pub fetched_of : Got → Fetched
  fetched_of (got v) = fetched (some v)
  fetched_of missing = fetched none
  fetched_of get_failed = fetch_failed (text bad_table)

  -- The database as the server calls it, with the clock at `now`.
  abbrev pub store_engine : Engine
  store_engine = record {
    State = Db m.Tree × World;
    set = λ key value s. with_text (Db.Write.set m now key value s.0 s.1);
    get = λ s key. fetched_of (get m s.0 key);
    delete = λ key s. with_text (Db.Write.delete m now key s.0 s.1);
    len = λ s. Db.len m s.0;
    scan = λ s start end. scanned_pairs (Db.scan m s.0 start end);
    compact = compact;
    compact_sstables = λ s. with_text (compact_sstables m s.0 s.1);
    sstable_count = λ s. sstable_count m s.0;
  }

  fetched_of_ok : (g : Got) → g ≢ get_failed → fetched_of g ≡ fetched (value_of g)
  unfolding fetched_of
  fetched_of_ok (got v) h = refl
  fetched_of_ok missing h = refl
  fetched_of_ok get_failed h = absurd (h refl)

  -- `Get` of the client against the server of an open store: the request changes nothing, and the client
  -- reads from the answer the value that is stored of the key, or none. The key is one of the tree;
  -- the key and the value are shorter than 2 ^ 62, and the name of the command is in upper case.
  pub serve-stored :
      (upper : Bytes → Bytes) (fields : Bytes → List Bytes) (key : Option Bytes) (rest : Bytes)
      (db : Db m.Tree) (c : Contents) (w : World)
      → upper get_name ≡ get_name
      → IsOpen m db c
      → m.IsKey (slice key)
      → IsShort key
      → IsShort (value_of (stored c (slice key)))
      → (out : Bytes) × (serve store_engine upper fields (get_request key ++ rest) (db, w)
          ≡ some (out, (db, w), rest))
        × (read_bulk_string out ≡ reply (value_of (stored c (slice key))) [])
  serve-stored upper fields key rest db c w u h i k l =
      serve-get_request store_engine upper fields key (value_of (stored c (slice key))) rest (db, w)
        u k l
        (ap fetched_of (get-stored m db c (slice key) h i)
          ∙ fetched_of_ok (stored c (slice key)) (stored_ok c (slice key)))
