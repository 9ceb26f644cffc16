-- ===== src/Db/Leaves.antt =====
-- The memtable of a store as a table: what `flushMemtable` of internal/store/flush.go writes.
use kora_engine.Prelude.{
  ℕ, ◌+◌, ◌*◌, ◌^◌, ◌≤◌, ◌≡◌, refl, sym, ◌∙◌, Option, none, some, List, [], ◌∷◌, length, arith, All,
  length-append,
}
use kora_engine.Prelude.Order.{Bytes}
use kora_engine.Record.RoundTrip.{Fits}
use kora_engine.Bloom.Members.{max_keys}
use kora_engine.Sstable.{Entry}
use kora_engine.Sstable.Writer.{data_record}
use kora_engine.Sstable.Reader.{entry_lookup}
use kora_engine.Sstable.Records.{FitsRecord, data_section, length-data_record}
use kora_engine.Sstable.Closing.{IsTable, table_bytes, close-written}
use kora_engine.Sstable.Scanning.{find_entry}
use kora_engine.Sstable.Lookup.{write_entries-new_writer}
use kora_engine.Memtable.{Memtable, tree_lookup}
use kora_engine.Db.Flush.{written_table}
use kora_engine.Db.View.{find_entry_self}

-- A leaf that a lookup finds is in the tree.
pub tree_lookup-some :
    (g : Option (Option Bytes)) (v : Option Bytes) → tree_lookup g ≡ entry_lookup v → g ≡ some v
unfolding entry_lookup
tree_lookup-some none none e = cc
tree_lookup-some none (some v) e = cc
tree_lookup-some (some none) none e = refl
tree_lookup-some (some none) (some v) e = cc
tree_lookup-some (some (some u)) none e = cc
tree_lookup-some (some (some u)) (some v) e = cc

FitsRecord-of_Fits :
    (key : Bytes) (value : Option Bytes)
    → Fits key value
    → FitsRecord (record { key = key; value = value })
FitsRecord-of_Fits key none (h, k) = (omega arith, omega arith)
FitsRecord-of_Fits key (some v) (h, k) = (omega arith, omega arith)

abbrev record_bound : ℕ
record_bound = 8 + 2 ^ 16 + 2 ^ 30

record_bound_of_Fits :
    (key : Bytes) (value : Option Bytes)
    → Fits key value
    → length (data_record (record { key = key; value = value })) ≤ record_bound
record_bound_of_Fits key none (h, k) =
    omega (arith, length-data_record (record { key = key; value = none }), length-append key [])
record_bound_of_Fits key (some v) (h, k) =
    omega (arith, length-data_record (record { key = key; value = some v }), length-append key v)

abbrev FitsLeaf : Entry → Type 0
FitsLeaf e = Fits e.key e.value

fits_records : (es : List Entry) → All FitsLeaf es → All FitsRecord es
fits_records [] h = tt
fits_records (e ∷ es) (h, hs) = (FitsRecord-of_Fits e.key e.value h, fits_records es hs)

short_section :
    (es : List Entry) → All FitsLeaf es → length (data_section es) ≤ length es * record_bound
unfolding data_section
short_section [] h = omega arith
short_section (e ∷ es) (h, hs) = omega (
  arith,
  length-append (data_record e) (data_section es),
  record_bound_of_Fits e.key e.value h,
  short_section es hs,
)

module _ (m : Memtable) where
  leaves_fit :
      (t : m.Tree)
      → m.IsTree t
      → ((k : Bytes) (v : Option Bytes) → m.IsKey k → m.get t k ≡ some v → Fits k v)
      → All FitsLeaf (m.leaves t)
  leaves_fit t h f =
      of_leaves (m.leaves t) (m.leaves-IsKey t h)
        (find_entry_self (m.leaves t) (m.leaves-IsSorted t h))
    where
      of_leaves :
          (es : List Entry)
          → All (λ (e : Entry). m.IsKey e.key) es
          → All (λ (e : Entry). find_entry e.key (m.leaves t) ≡ entry_lookup e.value) es
          → All FitsLeaf es
      of_leaves [] k l = tt
      of_leaves (e ∷ es) (k, ks) (l, ls) = (
        f e.key e.value k
            (tree_lookup-some (m.get t e.key) e.value (sym (m.find_entry-leaves t e.key h k) ∙ l)),
        of_leaves es ks ls,
      )

  pub leaves-IsTable :
      (t : m.Tree)
      → m.IsTree t
      → ((k : Bytes) (v : Option Bytes) → m.IsKey k → m.get t k ≡ some v → Fits k v)
      → length (m.leaves t) ≤ max_keys
      → IsTable (m.leaves t)
  leaves-IsTable t h f n =
      let ls = leaves_fit t h f in
      record {
        sorted = m.leaves-IsSorted t h;
        fits = fits_records (m.leaves t) ls;
        few = n;
        short = omega (arith, short_section (m.leaves t) ls);
      }

pub written_table-table_bytes :
    (es : List Entry) → IsTable es → written_table es ≡ some (table_bytes es)
unfolding written_table
written_table-table_bytes es h =
    rw (write_entries-new_writer es h, written_table) (close-written es h.fits)
