-- ===== src/Db/Stored.antt =====
-- What the directory of a store holds, and which changes leave it alone.
use kora_engine.Prelude.{
  ℕ, ◌<◌, ◌≤◌, ◌≡◌, refl, ◌∙◌, false, some, List, [], ◌∷◌, ◌++◌, ◌==◌, arith, All, All-append_left,
  All-append_right,
}
use kora_engine.Prelude.Order.{Bytes}
use kora_engine.Record.{Record}
use kora_engine.Record.RoundTrip.{record_bytes}
use kora_engine.Segment.Scan.{IsLoggable, log_bytes}
use kora_engine.Manifest.{Manifest, manifest_bytes}
use kora_engine.Manifest.Validity.{IsSane}
use kora_engine.Manifest.Codec.{FitsWords}
use kora_engine.Sstable.{Entry}
use kora_engine.Sstable.Closing.{table_bytes}
use kora_engine.Disk.{Disk}
use kora_engine.Disk.Files.{
  Folder, file_at, put_file, append_file, remove_file, file_at-put_file, file_at-append_file,
  file_at-remove_file,
}
use kora_engine.Db.View.{AreTables}

abbrev pub Log : Type 0
Log = ℕ × List Record

abbrev pub Table : Type 0
Table = ℕ × List Entry

-- A store on disk: the tables, newest first, and the logs, the active one last.
pub record Contents : Type 0 where
  pub next_id : ℕ
  pub next_sst_id : ℕ
  pub tables : List Table
  pub sealed : List Log
  pub active_id : ℕ
  pub active_log : List Record

abbrev pub log_ids : List Log → List ℕ
log_ids [] = []
log_ids (l ∷ ls) = l.0 ∷ log_ids ls

-- Oldest first, as in the manifest.
abbrev pub table_ids : List Table → List ℕ
table_ids [] = []
table_ids (t ∷ ts) = table_ids ts ++ (t.0 ∷ [])

abbrev pub order_of : Contents → List ℕ
order_of c = log_ids c.sealed ++ (c.active_id ∷ [])

abbrev pub manifest_of : Contents → Manifest
manifest_of c = record {
  next_id = c.next_id;
  order = order_of c;
  next_sst_id = c.next_sst_id;
  sst_ids = table_ids c.tables;
}

pub record IsContents (c : Contents) : Type 0 where
  pub words : FitsWords (manifest_of c)
  pub sane : IsSane (manifest_of c)
  pub are_tables : AreTables c.tables
  pub sealed_logs : All (λ (l : Log). All IsLoggable l.1) c.sealed
  pub loggable : All IsLoggable c.active_log

-- What a torn append leaves of a record: the front of its bytes, or nothing.
abbrev pub IsCut : Bytes → Type 0
IsCut tail =
    (r : Record) × (x : ℕ) × (back : Bytes) × IsLoggable r
    × (record_bytes r.timestamp r.key r.value ≡ tail ++ (x ∷ back))

pub record Stored (c : Contents) (tail : Bytes) (d : Disk) : Type 0 where
  pub manifest_at : d.manifest ≡ some (manifest_bytes (manifest_of c))
  pub tables_at : All (λ (t : Table). file_at t.0 d.tables ≡ some (table_bytes t.1)) c.tables
  pub sealed_at : All (λ (l : Log). file_at l.0 d.segments ≡ some (log_bytes l.1)) c.sealed
  pub active_at : file_at c.active_id d.segments ≡ some (log_bytes c.active_log ++ tail)

-- The files with a number below `n` are the same.
abbrev pub SameBelow : ℕ → Folder → Folder → Type 0
SameBelow n fs gs = (j : ℕ) → j < n → file_at j gs ≡ file_at j fs

below_tables :
    (n : ℕ) (ts : List Table) → All (λ id. id < n) (table_ids ts) → All (λ (t : Table). t.0 < n) ts
below_tables n [] h = tt
below_tables n (t ∷ ts) h = (
  (All-append_right (λ id. id < n) (table_ids ts) (t.0 ∷ []) h).0,
  below_tables n ts (All-append_left (λ id. id < n) (table_ids ts) (t.0 ∷ []) h),
)

below_logs :
    (n : ℕ) (ls : List Log) → All (λ id. id < n) (log_ids ls) → All (λ (l : Log). l.0 < n) ls
below_logs n [] h = tt
below_logs n (l ∷ ls) (h, hs) = (h, below_logs n ls hs)

-- Files that are the same under some numbers have the same contents under them.
pub same_files {ℓ} :
    {A : Type ℓ} (bytes : A → Bytes) (P : ℕ → Type 0) (fs gs : Folder) (xs : List (ℕ × A))
    → ((j : ℕ) → P j → file_at j gs ≡ file_at j fs)
    → All (λ (x : ℕ × A). P x.0) xs
    → All (λ (x : ℕ × A). file_at x.0 fs ≡ some (bytes x.1)) xs
    → All (λ (x : ℕ × A). file_at x.0 gs ≡ some (bytes x.1)) xs
same_files bytes P fs gs [] s b h = tt
same_files bytes P fs gs (x ∷ xs) s (b, bs) (h, hs) =
    (s x.0 b ∙ h, same_files bytes P fs gs xs s bs hs)

pub ids_below :
    (c : Contents)
    → IsContents c
    → All (λ (t : Table). t.0 < c.next_sst_id) c.tables
      × All (λ (l : Log). l.0 < c.next_id) c.sealed
      × (c.active_id < c.next_id)
ids_below c h =
    let logs = h.sane.0.1 in
    (
      below_tables c.next_sst_id c.tables h.sane.1.1,
      below_logs c.next_id c.sealed
          (All-append_left (λ id. id < c.next_id) (log_ids c.sealed) (c.active_id ∷ []) logs),
      (All-append_right (λ id. id < c.next_id) (log_ids c.sealed) (c.active_id ∷ []) logs).0,
    )

-- A change of files that the manifest does not list leaves the store on disk as it was.
pub Stored-frame :
    (c : Contents) (tail : Bytes) (d e : Disk)
    → IsContents c
    → Stored c tail d
    → e.manifest ≡ d.manifest
    → SameBelow c.next_sst_id d.tables e.tables
    → SameBelow c.next_id d.segments e.segments
    → Stored c tail e
Stored-frame c tail d e h s em et es =
    let (bt, bl, ba) = ids_below c h in
    record {
      manifest_at = em ∙ s.manifest_at;
      tables_at =
          same_files table_bytes (λ id. id < c.next_sst_id) d.tables e.tables c.tables et bt
            s.tables_at;
      sealed_at =
          same_files log_bytes (λ id. id < c.next_id) d.segments e.segments c.sealed es bl
            s.sealed_at;
      active_at = es c.active_id ba ∙ s.active_at;
    }

pub SameBelow-refl : (n : ℕ) (fs : Folder) → SameBelow n fs fs
SameBelow-refl n fs j h = refl

pub SameBelow-put :
    (n id : ℕ) (bs : Bytes) (fs : Folder) → n ≤ id → SameBelow n fs (put_file id bs fs)
SameBelow-put n id bs fs l j h =
    let q : (id == j) ≡ false = ground arith in file_at-put_file id j bs fs ∙ rw q

pub SameBelow-append :
    (n id : ℕ) (bs : Bytes) (fs : Folder) → n ≤ id → SameBelow n fs (append_file id bs fs)
SameBelow-append n id bs fs l j h =
    let q : (id == j) ≡ false = ground arith in file_at-append_file id j bs fs ∙ rw q

pub SameBelow-remove : (n id : ℕ) (fs : Folder) → n ≤ id → SameBelow n fs (remove_file id fs)
SameBelow-remove n id fs l j h =
    let q : (id == j) ≡ false = ground arith in file_at-remove_file id j fs ∙ rw q
