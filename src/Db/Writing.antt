-- ===== src/Db/Writing.antt =====
-- `Set` and `Delete` of internal/store/store.go on an open store, whatever calls fail.
use mathlib.Core.Path.{subst}
use kora_engine.Prelude.{
  ℕ, ◌≡◌, ◌≢◌, refl, sym, ◌∙◌, true, Option, none, some, [], ltb, leb, take, arith, inl, inr, ◌⊎◌,
}
use kora_engine.Prelude.Order.{Bytes}
use kora_engine.Prelude.Endian.{IsU64}
use kora_engine.Record.{Record, Encoded, written, key_too_large, value_too_large, encode}
use kora_engine.Record.RoundTrip.{record_bytes, Fits-of_encode_at}
use kora_engine.Segment.Scan.{IsLoggable}
use kora_engine.Memtable.{Memtable}
use kora_engine.Disk.{Disk, World, call, change, append_segment}
use kora_engine.Disk.Files.{append_file}
use kora_engine.Disk.Calls.{disk-call, change_lem, change_done, if_keeps}
use kora_engine.Db
use kora_engine.Db.{Db, Got, Error, io, get}
use kora_engine.Db.Write.{
  Result, append_active, grown, remember, maybe_flush, write_appended, write_rolled, write,
  maybe_rollover,
}
use kora_engine.Db.Stored.{Contents, Stored}
use kora_engine.Db.Durable.{stored}
use kora_engine.Db.Coupled.{IsOpen, HasRoom, IsHeld, get-stored}
use kora_engine.Db.Appended.{
  appended, appended-IsContents, appended-AreKeys, updated, nil-IsCut, stored-appended,
  remember-IsOpen, appended-IsHeld,
}
use kora_engine.Db.Appending.{torn-Stored}
use kora_engine.Db.Flushing.{flush_memtable-Keeps}
use kora_engine.Db.Rolled.{Rolls}
use kora_engine.Db.Rolling.{maybe_rollover-Rolls}
use kora_engine.Db.Outcome.{Agrees, Survives, Outcome, held-Survives}

module _ (m : Memtable) where
  module _ (db : Db m.Tree) (c : Contents) (h : IsOpen m db c) (room : HasRoom m 2 db) (r : Record)
      (l : IsLoggable r) (i : m.IsKey r.key) where
    abbrev Made : Result m → Type 0
    Made q = Outcome m (stored c) (updated r.key r.value (stored c)) q

    remembered-HasRoom :
        HasRoom m 1 (remember m r.key r.value (grown m db (record_bytes r.timestamp r.key r.value)))
    unfolding remember grown
    remembered-HasRoom =
        let l1 = room.ids in
        let l2 = room.segments in
        let l3 = room.leaves in
        let l4 = room.sst_ids in
        let l5 = room.tables in
        record {
          ids = omega arith;
          sst_ids = omega arith;
          segments = omega arith;
          tables = omega arith;
          leaves = omega (arith, m.length-leaves-insert db.memtable r.key r.value h.says.is_tree i);
        }

    -- The append of the record.
    abbrev Appends : Result m → Type 0
    Appends q =
        ((q.0 ≢ none)
          × (Agrees m) (get m q.1) (stored c)
          × (Survives m) (stored c) (updated r.key r.value (stored c)) q.2.disk)
        ⊎ ((q.0 ≡ none)
            × (q.1 ≡ grown m db (record_bytes r.timestamp r.key r.value))
            × IsHeld m db (appended c r) q.2.disk)

    failed_append :
        (w : World)
        → Survives m (stored c) (updated r.key r.value (stored c)) w.disk
        → Appends (some io, db, w)
    failed_append w s = inl (λ e. cc e, (λ key k. get-stored m db c key h k), s)

    -- The record is on disk.
    appended-Survives :
        (d : Disk)
        → Stored (appended c r) [] d
        → Survives m (stored c) (updated r.key r.value (stored c)) d
    appended-Survives d s = (
      appended c r,
      [],
      appended-IsContents c r h.contents l,
      s,
      nil-IsCut,
      appended-AreKeys m c r h.keys i,
      inr (λ key k. stored-appended c r key),
    )

    torn_append :
        (n : ℕ) (d e : Disk)
        → IsHeld m db c d
        → e ≡ record d {
          segments =
              append_file db.active.id (take n (record_bytes r.timestamp r.key r.value)) d.segments;
        }
        → Survives m (stored c) (updated r.key r.value (stored c)) e
    torn_append n d e g p =
        subst (Survives m (stored c) (updated r.key r.value (stored c))) (sym p)
          (elim (torn-Stored m db c r n d h l g) [
            | inl s ↦ appended-Survives _ s
            | inr (s, k) ↦ (c, _, h.contents, s, k, h.keys, inl (λ key k. refl))
          ])

    get-grown :
        (key : Bytes)
        → m.IsKey key
        → get m (grown m db (record_bytes r.timestamp r.key r.value)) key ≡ stored c key
    unfolding grown
    get-grown key k =
        let e : get m (grown m db (record_bytes r.timestamp r.key r.value)) key ≡ get m db key =
          unfold get in refl in
        e ∙ get-stored m db c key h k

    append_active-Appends :
        (w : World)
        → IsHeld m db c w.disk
        → Appends (append_active m (record_bytes r.timestamp r.key r.value) db w)
    unfolding append_active append_segment
    append_active-Appends w g =
        let bs = record_bytes r.timestamp r.key r.value in
        let d = record w.disk { segments = append_file db.active.id bs w.disk.segments } in
        let part : ℕ → Disk =
          λ n. record w.disk { segments = append_file db.active.id (take n bs) w.disk.segments } in
        let w' = (change d part w).1 in
        let w'' = (call w').1 in
        if_keeps Appends (change d part w).0 _ _
          (λ done.
            let g' =
              subst (IsHeld m db (appended c r)) (sym (change_done d part w done))
                (appended-IsHeld m db c r w.disk h g) in
            let g'' = subst (IsHeld m db (appended c r)) (sym (disk-call w')) g' in
            if_keeps Appends db.opts.sync_on_write _ _
              (λ sync.
                if_keeps Appends (call w').0 _ _ (λ synced. inr (refl, refl, g''))
                  (λ not_synced. inl (λ e. cc e, get-grown, appended-Survives w''.disk g''.0)))
              (λ no_sync. inr (refl, refl, g')))
          (λ not_done. failed_append w' (elim (change_lem d part w) [
            | inl (t, e) ↦ absurd (cc (t, not_done))
            | inr (t, inl e) ↦
                subst (Survives m (stored c) (updated r.key r.value (stored c))) (sym e)
                  (held-Survives m (stored c) _ db c w.disk h g (inl (λ key k. refl)))
            | inr (t, inr (n, e)) ↦ torn_append n w.disk w'.disk g e
          ]))

    remembered-IsOpen :
        (w : World)
        → IsHeld m db (appended c r) w.disk
        → Made (
            maybe_flush m
              (remember m r.key r.value (grown m db (record_bytes r.timestamp r.key r.value)))
              w)
    unfolding maybe_flush
    remembered-IsOpen w g =
        let after =
          remember m r.key r.value (grown m db (record_bytes r.timestamp r.key r.value)) in
        let is_open = remember-IsOpen m db c r h l i in
        let held : IsHeld m after (appended c r) w.disk = unfold remember in unfold grown in g in
        if_keeps Made (leb after.opts.max_mem_bytes after.mem_size) _ _
          (λ full.
            let (e, he, ge, same) =
              flush_memtable-Keeps m after (appended c r) is_open remembered-HasRoom w held in
            inr (e, he, ge, λ key k. same key k ∙ stored-appended c r key))
          (λ not_full. inr (appended c r, is_open, held, λ key k. stored-appended c r key))

    write_appended-Made : (q : Result m) → Appends q → Made (write_appended m r.key r.value q)
    unfolding write_appended
    write_appended-Made (some e, db', w) (inl (n, a, s)) = inl (n, a, s)
    write_appended-Made (some e, db', w) (inr (n, p, g)) = absurd (cc n)
    write_appended-Made (none, db', w) (inl (n, a, s)) = absurd (n refl)
    write_appended-Made (none, db', w) (inr (n, p, g)) =
        subst (λ x. Made (maybe_flush m (remember m r.key r.value x) w)) (sym p)
          (remembered-IsOpen w g)

  write_rolled-Outcome :
      (c : Contents) (r : Record) (q : Result m)
      → IsLoggable r
      → m.IsKey r.key
      → Rolls m c q
      → Outcome m
          (stored c)
          (updated r.key r.value (stored c))
          (write_rolled m r.key r.value (record_bytes r.timestamp r.key r.value) q)
  unfolding write_rolled
  write_rolled-Outcome c r (some e, db, w) l i (b, h, g, room, same) = inl (
    λ n. cc n,
    (λ key k. get-stored m db b key h k ∙ same key),
    (held-Survives m) (stored c) _ db b w.disk h g (inl (λ key k. same key)),
  )
  write_rolled-Outcome c r (none, db, w) l i (b, h, g, room, same) =
      let f : stored b ≡ stored c = λ x key. same key x in
      subst
        (λ f. (Outcome m) f (updated r.key r.value f) (
          write_appended m r.key r.value
            (append_active m (record_bytes r.timestamp r.key r.value) db w)))
        f
        (write_appended-Made db b h room r l i
          (append_active m (record_bytes r.timestamp r.key r.value) db w)
          (append_active-Appends db b h room r l i w g))

  pub write-Outcome :
      (db : Db m.Tree) (c : Contents) (now : ℕ) (key : Bytes) (value : Option Bytes) (w : World)
      → IsOpen m db c
      → HasRoom m 3 db
      → IsHeld m db c w.disk
      → (ltb db.active.size db.opts.max_segment_bytes ≡ true) ⊎ (db.ss_readers ≡ [])
      → IsU64 now
      → m.IsKey key
      → Outcome m (stored c) (updated key value (stored c)) (write m now key value db w)
  unfolding write
  write-Outcome db c now key value w h room g may t i = by_encoded (encode now key value) refl
    where
      refused : (e : Error) → Outcome m (stored c) (updated key value (stored c)) (some e, db, w)
      refused e = inl (
        λ n. cc n,
        (λ key k. get-stored m db c key h k),
        (held-Survives m) (stored c) _ db c w.disk h g (inl (λ key k. refl)),
      )

      by_encoded :
          (enc : Encoded)
          → encode now key value ≡ enc
          → Outcome m (stored c) (updated key value (stored c)) (elim enc as (λ _. Result m) [
            | key_too_large ↦ (some Db.key_too_large, db, w)
            | value_too_large ↦ (some Db.value_too_large, db, w)
            | written bs ↦ write_rolled m key value bs (maybe_rollover m db w)
          ])
      by_encoded key_too_large e = refused Db.key_too_large
      by_encoded value_too_large e = refused Db.value_too_large
      by_encoded (written bs) e =
          let (f, p) = Fits-of_encode_at now key value bs (unfold encode in e) in
          subst
            (λ bs.
              (Outcome m) (stored c) (updated key value (stored c))
                (write_rolled m key value bs (maybe_rollover m db w)))
            (sym p)
            (write_rolled-Outcome c (record { timestamp = now; key = key; value = value })
              (maybe_rollover m db w) (t, f) i (maybe_rollover-Rolls m db c h room w may g))
