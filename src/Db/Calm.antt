-- ===== src/Db/Calm.antt =====
-- The tables that `openSSTables` opens, and the files that `cleanupOrphanedSSTs` and
-- `cleanupLeakedSegments` leave (internal/store/store.go), where no call fails.
use mathlib.Core.List.{reverse, reverse-append}
use kora_engine.Prelude.{
  ℕ, ◌≡◌, refl, ap, ◌∙◌, Bool, true, false, not, ◌&&◌, ltb, ◌^◌, Option, none, some, List, [], ◌∷◌,
  ◌==◌, arith, All, Bool-cases, inl, inr,
}
use kora_engine.Segment.{sort_ids}
use kora_engine.Manifest.{contains}
use kora_engine.Sstable.{Entry}
use kora_engine.Sstable.Reader.{Reader, open_table}
use kora_engine.Sstable.Closing.{table_bytes}
use kora_engine.Sstable.Opening.{table_reader, open_table-table_bytes}
use kora_engine.Merge.Scan.{open_tables}
use kora_engine.Disk.{Disk, World, call, change, remove_table, remove_segment}
use kora_engine.Disk.Files.{Folder, file_at, file_ids, remove_file, file_at-remove_file}
use kora_engine.Db.Flush.{open_file}
use kora_engine.Db.Replay.{
  open_tables_loop, add_reader, remove_orphans, cleanup_orphaned_ssts, remove_leaked,
  list_segment_ids, cleanup_leaked_segments,
}
use kora_engine.Db.View.{AreTables}
use kora_engine.Db.Stored.{Table, table_ids}

-- A world in which every call succeeds.
abbrev pub calm : Disk → World
calm d = record { disk = d; faults = [] }

reverse-table_ids :
    (t : Table) (ts : List Table) → reverse (table_ids (t ∷ ts)) ≡ t.0 ∷ reverse (table_ids ts)
reverse-table_ids t ts = reverse-append (table_ids ts) (t.0 ∷ [])

open_file-calm :
    (id : ℕ) (es : List Entry) (d : Disk)
    → file_at id d.tables ≡ some (table_bytes es)
    → open_table id (table_bytes es) ≡ some (table_reader id es)
    → open_file id (calm d) ≡ (some (table_reader id es), calm d)
unfolding open_file call
open_file-calm id es d e o = rw (e, o)

open_tables_step :
    (id : ℕ) (ids : List ℕ) (w w' : World) (r : Reader)
    → open_file id w ≡ (some r, w')
    → open_tables_loop (id ∷ ids) w ≡ add_reader r (open_tables_loop ids w')
unfolding open_tables_loop
open_tables_step id ids w w' r e =
    ap
      (λ (p : Option Reader × World). elim p.0 as (λ _. Option (List Reader) × World) [
        | none ↦ (none, p.1)
        | some r ↦ add_reader r (open_tables_loop ids p.1)
      ])
      e

pub open_tables_loop-calm :
    (ts : List Table) (d : Disk)
    → AreTables ts
    → All (λ (t : Table). file_at t.0 d.tables ≡ some (table_bytes t.1)) ts
    → open_tables_loop (reverse (table_ids ts)) (calm d) ≡ (some (open_tables ts), calm d)
open_tables_loop-calm [] d h a = unfold open_tables_loop in refl
open_tables_loop-calm (t ∷ ts) d (h, hs) (a, rest) =
    ap (λ ids. open_tables_loop ids (calm d)) (reverse-table_ids t ts)
    ∙ open_tables_step t.0 (reverse (table_ids ts)) (calm d) (calm d) (table_reader t.0 t.1)
        (open_file-calm t.0 t.1 d a (open_table-table_bytes t.0 t.1 h))
    ∙ ap (add_reader (table_reader t.0 t.1)) (open_tables_loop-calm ts d hs rest)
    ∙ unfold add_reader in refl

-- The listed files are the same.
abbrev pub SameListed : List ℕ → Folder → Folder → Type 0
SameListed live fs gs = (j : ℕ) → contains live j ≡ true → file_at j gs ≡ file_at j fs

-- The removal of a file that is not listed.
remove_listed :
    (live : List ℕ) (id : ℕ) (fs : Folder)
    → contains live id ≡ false
    → SameListed live fs (remove_file id fs)
remove_listed live id fs n j h =
    let q : (id == j) ≡ false = elim (Bool-cases (id == j)) [
      | inl e ↦ let p : id ≡ j = ground arith in absurd (cc (ap (contains live) p, n, h))
      | inr e ↦ e
    ] in
    file_at-remove_file id j fs ∙ rw q

and_not : (a b : Bool) → (a && not b) ≡ true → b ≡ false
and_not true true h = cc
and_not true false h = refl
and_not false b h = cc

remove_orphans-calm :
    (live ids : List ℕ) (d : Disk)
    → (fs : Folder) × (remove_orphans live ids (calm d) ≡ calm (record d { tables = fs }))
      × SameListed live d.tables fs
unfolding remove_orphans remove_table change
remove_orphans-calm live [] d = (d.tables, refl, λ j h. refl)
remove_orphans-calm live (id ∷ ids) d =
    elim (Bool-cases (ltb id (10 ^ 6) && not (contains live id))) [
      | inl t ↦
          let (fs, p, same) =
            remove_orphans-calm live ids (record d { tables = remove_file id d.tables }) in
          rw t (
            fs,
            p,
            λ j h.
                same j h
                ∙ remove_listed live id d.tables (and_not (ltb id (10 ^ 6)) (contains live id) t) j
                    h,
          )
      | inr t ↦ rw t (remove_orphans-calm live ids d)
    ]

pub cleanup_orphaned_ssts-calm :
    (live : List ℕ) (d : Disk)
    → (fs : Folder) × (cleanup_orphaned_ssts live (calm d) ≡ calm (record d { tables = fs }))
      × SameListed live d.tables fs
unfolding cleanup_orphaned_ssts call
cleanup_orphaned_ssts-calm live d = remove_orphans-calm live (file_ids d.tables) d

remove_leaked-calm :
    (live ids : List ℕ) (d : Disk)
    → (fs : Folder) × (remove_leaked live ids (calm d) ≡ calm (record d { segments = fs }))
      × SameListed live d.segments fs
unfolding remove_leaked remove_segment change
remove_leaked-calm live [] d = (d.segments, refl, λ j h. refl)
remove_leaked-calm live (id ∷ ids) d = elim (Bool-cases (contains live id)) [
  | inl t ↦ rw t (remove_leaked-calm live ids d)
  | inr t ↦
      let (fs, p, same) =
        remove_leaked-calm live ids (record d { segments = remove_file id d.segments }) in
      rw t (fs, p, λ j h. same j h ∙ remove_listed live id d.segments t j h)
]

pub cleanup_leaked_segments-calm :
    (live : List ℕ) (d : Disk)
    → (fs : Folder) × (cleanup_leaked_segments live (calm d) ≡ calm (record d { segments = fs }))
      × SameListed live d.segments fs
unfolding cleanup_leaked_segments list_segment_ids call
cleanup_leaked_segments-calm live d = remove_leaked-calm live (sort_ids (file_ids d.segments)) d
