-- ===== src/Db/Appending.antt =====
-- A record that internal/store/store.go appends to the active segment (`appendActive`), whole or torn,
-- and what the memory makes of it.
use mathlib.Core.Path.{subst}
use kora_engine.Prelude.{ℕ, ◌⊎◌, sym, [], take, inl, inr}
use kora_engine.Record.{Record}
use kora_engine.Record.RoundTrip.{record_bytes}
use kora_engine.Segment.Scan.{IsLoggable}
use kora_engine.Memtable.{Memtable}
use kora_engine.Disk.{Disk}
use kora_engine.Disk.Files.{append_file}
use kora_engine.Db.{Db}
use kora_engine.Db.Stored.{Contents, Stored, IsCut}
use kora_engine.Db.Coupled.{IsOpen, IsHeld}
use kora_engine.Db.Appended.{appended, take_cut, append-Stored, whole-Stored}

module _ (m : Memtable) where
  -- What a torn append leaves: the record is not there, or it is there whole.
  pub torn-Stored :
      (db : Db m.Tree) (c : Contents) (r : Record) (n : ℕ) (d : Disk)
      → IsOpen m db c
      → IsLoggable r
      → IsHeld m db c d
      → let bs = take n (record_bytes r.timestamp r.key r.value) in
        let e = record d { segments = append_file db.active.id bs d.segments } in
        Stored (appended c r) [] e ⊎ (Stored c bs e × IsCut bs)
  torn-Stored db c r n d h l (s, f) =
      let whole = record_bytes r.timestamp r.key r.value in
      let bs = take n whole in
      let at =
        subst (λ id. Stored c bs (record d { segments = append_file id bs d.segments }))
          (sym h.active_id) (append-Stored c bs d h.contents s) in
      elim (take_cut n whole) [
        | inl e ↦ inl (
            whole-Stored c r _ (
              subst
                (λ t. Stored c t (record d { segments = append_file db.active.id bs d.segments })) e
                at))
        | inr (x, back, e) ↦ inr (at, (r, x, back, l, e))
      ]
