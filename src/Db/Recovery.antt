-- ===== src/Db/Recovery.antt =====
-- `Open` of internal/store/store.go on what a store has left on disk, a torn append included.
use kora_engine.Prelude.{
  ℕ, ◌≡◌, ◌≢◌, refl, sym, ap, ◌∙◌, true, false, none, some, List, [], ◌∷◌, ◌++◌, ◌==◌,
  if◌then◌else◌, length, All, All-append_right,
}
use kora_engine.Prelude.Order.{Bytes}
use kora_engine.Segment.Scan.{log_bytes}
use kora_engine.Manifest.{loaded, no_manifest, manifest_corrupt, read_manifest, contains}
use kora_engine.Manifest.Listed.{contains_left, contains_right, contains_self, contains_behind}
use kora_engine.Manifest.Validity.{Distinct}
use kora_engine.Manifest.Codec.{read_manifest-manifest_bytes}
use kora_engine.Sstable.Closing.{table_bytes}
use kora_engine.Merge.Scan.{open_tables}
use kora_engine.Disk.{Disk, call}
use kora_engine.Memtable.{Memtable}
use kora_engine.Db.{Db, bad_manifest, Options, fill_defaults}
use kora_engine.Db.Replay.{open_sstables, Opened, is_nil, open_and_scan}
use kora_engine.Db.Open.{
  nothing_opened, opened_db, recount, load_scanned, load_tables, load_manifest, load, open_db,
  bootstrap, refused, Result,
}
use kora_engine.Db.Stored.{
  Log, Table, Contents, IsContents, Stored, same_files, IsCut, log_ids, table_ids, order_of,
  manifest_of,
}
use kora_engine.Db.Calm.{
  calm, open_tables_loop-calm, cleanup_orphaned_ssts-calm, cleanup_leaked_segments-calm,
}
use kora_engine.Db.Replayed.{kept_tail, open_and_scan-calm, opened_logs, opened_active}

abbrev Covers : List ℕ → List ℕ → Type 0
Covers live ids = (j : ℕ) → contains ids j ≡ true → contains live j ≡ true

listed_tables :
    (live : List ℕ) (ts : List Table)
    → Covers live (table_ids ts)
    → All (λ (t : Table). contains live t.0 ≡ true) ts
listed_tables live [] h = tt
listed_tables live (t ∷ ts) h = (
  h t.0 (contains_right (table_ids ts) (t.0 ∷ []) t.0 (contains_self t.0 [])),
  listed_tables live ts (λ j k. h j (contains_left (table_ids ts) (t.0 ∷ []) j k)),
)

abbrev IsListed : Contents → ℕ → Type 0
IsListed c j = (contains (order_of c) j ≡ true) × (j ≢ c.active_id)

pub listed_logs :
    (live : List ℕ) (ls : List Log) (a : ℕ)
    → Covers live (log_ids ls)
    → Distinct (log_ids ls ++ (a ∷ []))
    → All (λ (l : Log). (contains live l.0 ≡ true) × (l.0 ≢ a)) ls
listed_logs live [] a h k = tt
listed_logs live (l ∷ ls) a h (n, ns) =
    let (p, u) = All-append_right (λ y. y ≢ l.0) (log_ids ls) (a ∷ []) n in
    (
      (h l.0 (contains_self l.0 (log_ids ls)), λ e. p (sym e)),
      listed_logs live ls a (λ j k. h j (contains_behind l.0 j (log_ids ls) k)) ns,
    )

module _ (m : Memtable) where
  -- What the logs of a store build.
  unfoldable pub reopened : Contents → Opened m
  reopened c = opened_active m c.active_id c.active_log (opened_logs m c.sealed (nothing_opened m))

  unfoldable pub first_sst_id : ℕ → ℕ
  first_sst_id n = if n == 0 then 1 else n

  -- The store that `Open` makes of what is on disk.
  unfoldable pub opened_store : Options → Contents → Db m.Tree
  opened_store opts c = recount m (
      opened_db m (fill_defaults opts) (order_of c) c.next_id (open_tables c.tables)
        (first_sst_id c.next_sst_id) (reopened c)
        (record { id = c.active_id; size = length (log_bytes c.active_log) }))

  is_nil-order_of : (c : Contents) → is_nil m (order_of c) ≡ false
  is_nil-order_of c = of_logs c.sealed
    where
      of_logs : (ls : List Log) → is_nil m (log_ids ls ++ (c.active_id ∷ [])) ≡ false
      of_logs [] = refl
      of_logs (l ∷ ls) = refl

  load_tables-calm :
      (opts : Options) (c : Contents) (tail : Bytes) (n : ℕ) (d : Disk)
      → IsContents c
      → Stored c tail d
      → IsCut tail
      → (e : Disk) × (load_tables m opts (manifest_of c) n (some (open_tables c.tables), calm d) ≡ (
        none,
        some (
            recount m (
              opened_db m opts
                (order_of c)
                c.next_id
                (open_tables c.tables)
                n
                (reopened c)
                (record { id = c.active_id; size = length (log_bytes c.active_log) }))),
        calm e,
      ))
        × Stored c (kept_tail m tail) e
  unfolding load_tables load_scanned
  load_tables-calm opts c tail n d h s k =
      let (ts, p, same_ts) = cleanup_orphaned_ssts-calm (table_ids c.tables) d in
      let (ss, q, at, same) =
        open_and_scan-calm m c.sealed c.active_id c.active_log tail (nothing_opened m)
          (record d { tables = ts }) s.sealed_at h.sealed_logs s.active_at h.loggable k in
      let (gs, r, same_gs) =
        cleanup_leaked_segments-calm (order_of c) (record d { tables = ts; segments = ss }) in
      (
        record d { tables = ts; segments = gs },
        ap
              (λ w.
                load_scanned m opts (manifest_of c) n (open_tables c.tables)
                  (open_and_scan m (order_of c) (nothing_opened m) w))
              p
            ∙ ap (load_scanned m opts (manifest_of c) n (open_tables c.tables)) q
            ∙ (unfold load_scanned in
                unfold reopened in
                ap
                  (λ w. (
                    none,
                    some (
                        recount m (
                          opened_db m opts (order_of c) c.next_id (open_tables c.tables) n
                            (reopened c)
                            (record { id = c.active_id; size = length (log_bytes c.active_log) }))),
                    w,
                  ))
                  r),
        record {
          manifest_at = s.manifest_at;
          tables_at =
              same_files table_bytes (λ id. contains (table_ids c.tables) id ≡ true) d.tables ts
                c.tables same_ts (listed_tables (table_ids c.tables) c.tables (λ j k. k))
                s.tables_at;
          sealed_at =
              same_files log_bytes (IsListed c) d.segments gs c.sealed
                (λ j k. same_gs j k.0 ∙ same j k.1)
                (listed_logs (order_of c) c.sealed c.active_id
                  (contains_left (log_ids c.sealed) (c.active_id ∷ [])) h.sane.0.0)
                s.sealed_at;
          active_at =
              same_gs c.active_id (
                contains_right (log_ids c.sealed) (c.active_id ∷ []) c.active_id
                  (contains_self c.active_id []))
              ∙ at;
        },
      )

  load_manifest-calm :
      (opts : Options) (c : Contents) (tail : Bytes) (d : Disk)
      → IsContents c
      → Stored c tail d
      → load_manifest m opts (manifest_of c) (calm d)
        ≡ load_tables m opts
            (manifest_of c)
            (first_sst_id c.next_sst_id)
            (some (open_tables c.tables), calm d)
  unfolding load_manifest first_sst_id open_sstables
  load_manifest-calm opts c tail d h s = rw (is_nil-order_of c) (
      ap (load_tables m opts (manifest_of c) (first_sst_id c.next_sst_id))
        (open_tables_loop-calm c.tables d h.are_tables s.tables_at))

  load-calm :
      (opts : Options) (c : Contents) (tail : Bytes) (d : Disk)
      → IsContents c
      → Stored c tail d
      → load m opts (calm d) ≡ load_manifest m opts (manifest_of c) (calm d)
  unfolding load call
  load-calm opts c tail d h s =
      ap
        (λ b. elim (read_manifest b) as (λ _. Result m) [
          | no_manifest ↦ bootstrap m opts (calm d)
          | manifest_corrupt ↦ refused m bad_manifest (calm d)
          | loaded mf ↦ load_manifest m opts mf (calm d)
        ])
        s.manifest_at
      ∙ ap
          (λ l. elim l as (λ _. Result m) [
            | no_manifest ↦ bootstrap m opts (calm d)
            | manifest_corrupt ↦ refused m bad_manifest (calm d)
            | loaded mf ↦ load_manifest m opts mf (calm d)
          ])
          (read_manifest-manifest_bytes (manifest_of c) h.words h.sane)

  pub open_db-opened_store :
      (opts : Options) (c : Contents) (tail : Bytes) (d : Disk)
      → IsContents c
      → Stored c tail d
      → IsCut tail
      → (e : Disk) × (open_db m opts (calm d) ≡ (none, some (opened_store opts c), calm e))
        × Stored c (kept_tail m tail) e
  unfolding open_db opened_store call
  open_db-opened_store opts c tail d h s k =
      let o = fill_defaults opts in
      let (e, p, q) = load_tables-calm o c tail (first_sst_id c.next_sst_id) d h s k in
      (e, load-calm o c tail d h s ∙ load_manifest-calm o c tail d h s ∙ p, q)
