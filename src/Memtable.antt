-- ===== src/Memtable.antt =====
-- What the store relies on of its memtable: the operations of the tree of internal/art, and their laws
-- on the keys that it keeps apart. Art/Store fills the record with the tree, whose keys have no byte 0
-- and at most 64 bytes. A `tombstone{}` is `none`.
pub mod Sorted
pub mod Parts
use kora_engine.Prelude.{ℕ, ◌+◌, ◌≤◌, ◌≡◌, Option, none, some, List, [], if◌then◌else◌, length, All}
use kora_engine.Prelude.Order.{Bytes, bytes_equal}
use kora_engine.Sstable.{Entry}
use kora_engine.Sstable.Reader.{Lookup, absent, entry_lookup}
use kora_engine.Sstable.Layout.{IsSorted}
use kora_engine.Sstable.Scanning.{find_entry}

-- What a lookup in the tree says of a key.
abbrev pub tree_lookup : Option (Option Bytes) → Lookup
tree_lookup none = absent
tree_lookup (some v) = entry_lookup v

pub record Memtable : Type 1 where
  pub Tree : Type 0
  pub empty : Tree
  pub get : Tree → Bytes → Option (Option Bytes)
  pub insert : Tree → Bytes → Option Bytes → Tree
  -- All that `Iterator` yields.
  pub leaves : Tree → List Entry
  pub len : Tree → ℕ
  pub IsKey : Bytes → Type 0
  pub IsTree : Tree → Type 0
  pub empty-IsTree : IsTree empty
  pub insert-IsTree :
      (t : Tree) (k : Bytes) (v : Option Bytes) → IsTree t → IsKey k → IsTree (insert t k v)
  pub get-empty : (k : Bytes) → get empty k ≡ none
  pub get-insert :
      (t : Tree) (k j : Bytes) (v : Option Bytes)
      → IsTree t
      → IsKey k
      → IsKey j
      → get (insert t k v) j ≡ (if bytes_equal k j then some v else get t j)
  pub leaves-IsSorted : (t : Tree) → IsTree t → IsSorted (leaves t)
  pub leaves-IsKey : (t : Tree) → IsTree t → All (λ (e : Entry). IsKey e.key) (leaves t)
  pub find_entry-leaves :
      (t : Tree) (k : Bytes) → IsTree t → IsKey k → find_entry k (leaves t) ≡ tree_lookup (get t k)
  pub len-leaves : (t : Tree) → IsTree t → len t ≡ length (leaves t)
  pub leaves-empty : leaves empty ≡ []
  pub length-leaves-insert :
      (t : Tree) (k : Bytes) (v : Option Bytes)
      → IsTree t
      → IsKey k
      → length (leaves (insert t k v)) ≤ length (leaves t) + 1
