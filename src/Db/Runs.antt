-- ===== src/Db/Runs.antt =====
-- Writes to a store of internal/store/store.go, one behind the other, from an empty directory on.
use mathlib.Core.Path.{subst}
use kora_engine.Prelude.{
  ℕ, ◌≡◌, ◌⊎◌, refl, sym, ◌∙◌, true, false, Option, none, some, List, [], ◌∷◌, ltb, ◌==◌, arith,
  false, inl, inr, ap,
}
use kora_engine.Prelude.Order.{Bytes}
use kora_engine.Prelude.Endian.{IsU64}
use kora_engine.Manifest.{manifest_bytes, read_manifest}
use kora_engine.Segment.{sort_ids}
use kora_engine.Memtable.{Memtable}
use kora_engine.Disk.Files.{file_at, file_ids, append_file}
use kora_engine.Segment.Scan.{log_bytes}
use kora_engine.Merge.Newest.{newest}
use kora_engine.Disk.{Disk, World, call, change, create_segment_file, write_manifest}
use kora_engine.Db.{Db, current_sst_ids, Got, missing, Options, fill_defaults, get}
use kora_engine.Db.Flush.{create_segment}
use kora_engine.Db.Write.{write}
use kora_engine.Db.Replay.{list_segment_ids}
use kora_engine.Db.Open.{
  Result, open_db, load, bootstrap, bootstrap_with, bootstrap_empty, bootstrap_commit, opened_db,
  nothing_opened,
}
use kora_engine.Db.Stored.{Contents}
use kora_engine.Db.Calm.{calm}
use kora_engine.Db.Durable.{stored, last_write, log_records, empty-Says}
use kora_engine.Db.Coupled.{IsOpen, HasRoom, IsHeld, get-stored}
use kora_engine.Db.Appended.{updated}
use kora_engine.Db.Outcome.{Agrees, Outcome, held-Survives}
use kora_engine.Db.Writing.{write-Outcome}
use kora_engine.Db.Crash.{Reopens, Survives-Reopens, updated-Agrees}

-- A write: a key, with its value or a deletion.
abbrev pub Write : Type 0
Write = Bytes × Option Bytes

-- What reads find behind some writes.
unfoldable pub after : List Write → (Bytes → Got) → Bytes → Got
after [] f = f
after ((key, value) ∷ ws) f = after ws (updated key value f)

module _ (m : Memtable) where
  -- The counters are away from their ends, and a rollover finds no table.
  abbrev pub CanWrite : Db m.Tree → Type 0
  CanWrite db =
      HasRoom m 3 db
      × ((ltb db.active.size db.opts.max_segment_bytes ≡ true) ⊎ (db.ss_readers ≡ []))

  -- Writes that return no error.
  pub data Run : List Write → Db m.Tree → World → Db m.Tree → World → Type 0 where
    stop : {db : Db m.Tree} {w : World} → Run [] db w db w
    step :
        {ws : List Write} {db mid last : Db m.Tree} {w v u : World} (now : ℕ) (key : Bytes)
        (value : Option Bytes)
        → IsU64 now
        → m.IsKey key
        → CanWrite db
        → write m now key value db w ≡ (none, mid, v)
        → Run ws mid v last u
        → Run ((key, value) ∷ ws) db w last u

  -- A store that is open on its files, with the reads `f`.
  abbrev pub IsStore : (Bytes → Got) → Db m.Tree → World → Type 0
  IsStore f db w = (c : Contents) × IsOpen m db c × IsHeld m db c w.disk × Agrees m (stored c) f

  after-Agrees :
      (ws : List Write) (f g : Bytes → Got) → Agrees m f g → Agrees m (after ws f) (after ws g)
  unfolding after
  after-Agrees [] f g a = a
  after-Agrees ((key, value) ∷ ws) f g a =
      after-Agrees ws (updated key value f) (updated key value g) (updated-Agrees m key value f g a)

  -- A write that returns no error, in a store with the reads `f`.
  pub step-IsStore :
      (f : Bytes → Got) (now : ℕ) (key : Bytes) (value : Option Bytes) (db mid : Db m.Tree)
      (w v : World)
      → IsStore f db w
      → IsU64 now
      → m.IsKey key
      → CanWrite db
      → write m now key value db w ≡ (none, mid, v)
      → IsStore (updated key value f) mid v
  step-IsStore f now key value db mid w v (c, h, g, a) t i (room, may) e =
      elim (subst (Outcome m (stored c) (updated key value (stored c))) e
        (write-Outcome m db c now key value w h room g may t i)) [
          | inl (n, b, s) ↦ absurd (n refl)
          | inr (b, h', g', a') ↦
              (b, h', g', λ j k. a' j k ∙ updated-Agrees m key value (stored c) f a j k)
        ]

  run-IsStore :
      {ws : List Write} {db last : Db m.Tree} {w u : World}
      → (f : Bytes → Got) → IsStore f db w
      → Run ws db w last u
      → IsStore (after ws f) last u
  unfolding after
  run-IsStore f s stop = s
  run-IsStore f s (step {ws} {db} {mid} {last} {w} {v} {u} now key value t i can e run) =
      run-IsStore (updated key value f) (step-IsStore f now key value db mid w v s t i can e) run

  abbrev pub empty_disk : Disk
  empty_disk = record { segments = []; tables = []; manifest = none }

  -- What the first open of an empty directory makes.
  abbrev first_contents : Contents
  first_contents = record {
    next_id = 2;
    next_sst_id = 1;
    tables = [];
    sealed = [];
    active_id = 1;
    active_log = [];
  }

  abbrev pub first_disk : Disk
  first_disk = record {
    segments = (1, []) ∷ [];
    tables = [];
    manifest =
        some
          (manifest_bytes (record { next_id = 2; order = 1 ∷ []; next_sst_id = 1; sst_ids = [] }));
  }

  unfoldable pub first_db : Options → Db m.Tree
  first_db opts =
      opened_db m (fill_defaults opts) (1 ∷ []) 2 [] 1 (nothing_opened m)
        (record { id = 1; size = 0 })

  pub first_open :
      (opts : Options)
      → open_db m opts (calm empty_disk) ≡ (none, some (first_db opts), calm first_disk)
  unfolding open_db load bootstrap bootstrap_with bootstrap_empty bootstrap_commit list_segment_ids
      create_segment create_segment_file write_manifest call change first_db opened_db read_manifest
      sort_ids file_ids file_at append_file current_sst_ids
  first_open opts = refl

  pub first-IsStore : (opts : Options) → IsStore (λ key. missing) (first_db opts) (calm first_disk)
  unfolding first_db opened_db stored log_records last_write newest
  first-IsStore opts = (
    first_contents,
    record {
      contents = record {
        words = (omega arith, omega arith, (omega arith, tt), omega arith, omega arith, tt);
        sane = (((tt, tt), (omega arith, tt)), (tt, tt));
        are_tables = tt;
        sealed_logs = tt;
        loggable = tt;
      };
      order = refl;
      active_id = refl;
      readers = refl;
      says = empty-Says m;
      keys = tt;
      next_id = omega arith;
      next_sst_id = omega arith;
    },
    (
      record {
        manifest_at = refl;
        tables_at = tt;
        sealed_at = tt;
        active_at = unfold file_at in unfold log_bytes in refl;
      },
      λ j l. let q : (1 == j) ≡ false = ground arith in unfold file_at in rw q refl,
    ),
    λ key i. refl,
  )

  -- A directory that is empty is opened, and writes, values and deletions, are made one behind the other,
  -- each returning no error, with the flushes that they cause. Then a read of a key finds what the last
  -- write of it says, and nothing where none was made; and so it does once another process has opened
  -- the store on the files, with no call failing. The keys are keys of the tree; before each write the
  -- counters are away from their ends, and there is no table or the active segment is not full.
  pub Run-get :
      (opts : Options) (ws : List Write) (first last : Db m.Tree) (w u : World)
      → open_db m opts (calm empty_disk) ≡ (none, some first, w)
      → Run ws first w last u
      → Agrees m (get m last) (after ws (λ key. missing))
        × Reopens m opts u.disk (λ r. Agrees m r (after ws (λ key. missing)))
  Run-get opts ws first last w u e run =
      let p : (first_db opts ≡ first) × (calm first_disk ≡ w) =
        opened_same (first_db opts) first (calm first_disk) w (sym (first_open opts) ∙ e) in
      let start : IsStore (λ key. missing) first w =
        subst (λ d. IsStore (λ key. missing) d w) p.0
          (subst (IsStore (λ key. missing) (first_db opts)) p.1 (first-IsStore opts)) in
      let (c, h, g, a) = run-IsStore (λ key. missing) start run in
      let (db, d, q, reads) =
        Survives-Reopens m opts (stored c) (stored c) u.disk
          (held-Survives m (stored c) (stored c) last c u.disk h g (inl (λ j k. refl))) in
      (
        (λ j k. get-stored m last c j h k ∙ a j k),
        (db, d, q, λ j k. elim reads [ inl r ↦ r j k | inr r ↦ r j k ] ∙ a j k),
      )
    where
      db_of : Db m.Tree → Result m → Db m.Tree
      db_of d (o, none, v) = d
      db_of d (o, some b, v) = b

      opened_same :
          (a b : Db m.Tree) (v w : World)
          → Path (Result m) (none, some a, v) (none, some b, w)
          → (a ≡ b) × (v ≡ w)
      opened_same a b v w e = (ap (db_of a) e, ap (λ (r : Result m). r.2) e)
