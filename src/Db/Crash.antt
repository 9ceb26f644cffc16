-- ===== src/Db/Crash.antt =====
-- A process of internal/store/store.go that stops during a write, and the next one, which opens the
-- store again.
use kora_engine.Prelude.{◌≡◌, ◌⊎◌, ◌∙◌, Option, none, some, if◌then◌else◌, inl, inr, ap}
use kora_engine.Prelude.Order.{Bytes, bytes_equal}
use kora_engine.Memtable.{Memtable}
use kora_engine.Disk.{Disk}
use kora_engine.Db.{Db, Got, Options, get, got_of}
use kora_engine.Db.Open.{open_db}
use kora_engine.Db.Calm.{calm}
use kora_engine.Db.Durable.{open_db-stored}
use kora_engine.Db.Appended.{updated}
use kora_engine.Db.Outcome.{Agrees, Survives, Outcome}

module _ (m : Memtable) where
  -- `Open` on the files, where no call fails, returns a store, whose reads have the property.
  abbrev pub Reopens : Options → Disk → ((Bytes → Got) → Type 0) → Type 0
  Reopens opts d P =
      (db : Db m.Tree) × (e : Disk) × (open_db m opts (calm d) ≡ (none, some db, calm e))
      × P (get m db)

  pub Survives-Reopens :
      (opts : Options) (f g : Bytes → Got) (d : Disk)
      → Survives m f g d
      → Reopens opts d (λ r. Agrees m r f ⊎ Agrees m r g)
  Survives-Reopens opts f g d (c, tail, h, s, k, i, a) =
      let (db, e, p, q, reads) = open_db-stored m opts c tail d h s k i in
      (
        db,
        e,
        p,
        elim a [
          | inl a ↦ inl (λ key k. reads key k ∙ a key k)
          | inr a ↦ inr (λ key k. reads key k ∙ a key k)
        ],
      )

  pub updated-Agrees :
      (key : Bytes) (value : Option Bytes) (f g : Bytes → Got)
      → Agrees m f g
      → Agrees m (updated key value f) (updated key value g)
  unfolding updated
  updated-Agrees key value f g a j k =
      ap (λ x. if bytes_equal key j then got_of value else x) (a j k)
