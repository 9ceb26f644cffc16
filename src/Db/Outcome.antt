-- ===== src/Db/Outcome.antt =====
-- What a write leaves: `Set` and `Delete` of internal/store/store.go, whatever calls fail.
use kora_engine.Prelude.{◌≡◌, ◌≢◌, none, [], ◌⊎◌}
use kora_engine.Prelude.Order.{Bytes}
use kora_engine.Memtable.{Memtable}
use kora_engine.Disk.{Disk}
use kora_engine.Db.{Db, Got, get}
use kora_engine.Db.Write.{Result}
use kora_engine.Db.Stored.{Contents, IsContents, Stored, IsCut}
use kora_engine.Db.Durable.{records_of, stored, AreKeys}
use kora_engine.Db.Coupled.{IsOpen, IsHeld}
use kora_engine.Db.Appended.{nil-IsCut}

module _ (m : Memtable) where
  -- The same on the keys of the tree.
  abbrev pub Agrees : (Bytes → Got) → (Bytes → Got) → Type 0
  Agrees f g = (key : Bytes) → m.IsKey key → f key ≡ g key

  -- The files hold a store, in which `f` is stored or else `g`.
  abbrev pub Survives : (Bytes → Got) → (Bytes → Got) → Disk → Type 0
  Survives f g d =
      (c : Contents) × (tail : Bytes) × IsContents c
      × Stored c tail d
      × IsCut tail
      × AreKeys m (records_of c)
      × (Agrees (stored c) f ⊎ Agrees (stored c) g)

  -- A write that is to turn `f` into `g`: it fails, and reads still find `f`; or it has been made, and the
  -- store is open on its files.
  abbrev pub Outcome : (Bytes → Got) → (Bytes → Got) → Result m → Type 0
  Outcome f g r =
      ((r.0 ≢ none) × Agrees (get m r.1) f × Survives f g r.2.disk)
      ⊎ ((c : Contents) × IsOpen m r.1 c × IsHeld m r.1 c r.2.disk × Agrees (stored c) g)

  pub held-Survives :
      (f g : Bytes → Got) (db : Db m.Tree) (c : Contents) (d : Disk)
      → IsOpen m db c
      → IsHeld m db c d
      → Agrees (stored c) f ⊎ Agrees (stored c) g
      → Survives f g d
  held-Survives f g db c d h (s, u) a = (c, [], h.contents, s, nil-IsCut, h.keys, a)
