-- ===== src/Art/Store.antt =====
-- The tree of internal/art as the memtable of the store.
use mathlib.Core.Path.{subst}
use kora_engine.Prelude.{
  ℕ, ◌+◌, ◌≡◌, refl, sym, ap, ◌∙◌, Bool, true, false, Option, none, some, [], length, ◌≤◌, All,
  if◌then◌else◌,
}
use kora_engine.Prelude.Order.{Bytes, bytes_equal}
use kora_engine.Sstable.{Entry}
use kora_engine.Sstable.Layout.{IsSorted}
use kora_engine.Memtable.{Memtable, tree_lookup}
use kora_engine.Memtable.Sorted.{lookup, put, lookup-put, length-put, find_entry-lookup}
use kora_engine.Art.{
  Node, Tree, new_tree, insert_key, get_key, leaves_of, insert_node, insert_at, get_at, leaves_at,
  node_leaves,
}
use kora_engine.Art.Shape.{IsNode, IsKey, node-IsSorted, node-IsKey}
use kora_engine.Art.Lookup.{get_node-lookup}
use kora_engine.Art.Adding.{count}
use kora_engine.Art.Insertion.{insert_node-Good}

abbrev pub IsRoot : Option Node → ℕ → Type 0
IsRoot none size = size ≡ 0
IsRoot (some n) size = IsNode [] n × (size ≡ length (node_leaves n))

abbrev pub IsArt : Tree → Type 0
IsArt t = IsRoot t.root t.size

pub get_at-lookup :
    (n : Option Node) (size : ℕ) (k : Bytes)
    → IsRoot n size
    → IsKey k
    → get_at n k ≡ lookup (leaves_at n) k
unfolding get_at leaves_at
get_at-lookup none size k i h = refl
get_at-lookup (some n) size k i h = get_node-lookup n [] k i.0 h.0

pub leaves_at-insert :
    (n : Option Node) (size : ℕ) (k : Bytes) (v : Option Bytes)
    → IsRoot n size
    → IsKey k
    → leaves_of (insert_at n size k v) ≡ put (leaves_at n) k v
unfolding leaves_at insert_at put node_leaves
leaves_at-insert none size k v i h = refl
leaves_at-insert (some n) size k v i h = (insert_node-Good n [] k v i.0 h.0 h).1

pub insert_at-IsArt :
    (n : Option Node) (size : ℕ) (k : Bytes) (v : Option Bytes)
    → IsRoot n size
    → IsKey k
    → IsArt (insert_at n size k v)
unfolding insert_at IsNode node_leaves
insert_at-IsArt none size k v i h = (((k, refl, h.0), h), rw i refl)
insert_at-IsArt (some n) size k v (i, l) h =
    let (j, p, o) = insert_node-Good n [] k v i h.0 h in (j, counted (insert_node n k v 0).1 o)
  where
    counted :
        (g : Bool)
        → length (node_leaves (insert_node n k v 0).0) ≡ count g (length (node_leaves n))
        → (if g then size + 1 else size) ≡ length (node_leaves (insert_node n k v 0).0)
    counted true o = rw l (sym o)
    counted false o = l ∙ sym o

pub leaves_at-IsSorted : (n : Option Node) (size : ℕ) → IsRoot n size → IsSorted (leaves_at n)
unfolding leaves_at
leaves_at-IsSorted none size i = tt
leaves_at-IsSorted (some n) size i = node-IsSorted [] n i.0

pub leaves_at-IsKey :
    (n : Option Node) (size : ℕ) → IsRoot n size → All (λ (e : Entry). IsKey e.key) (leaves_at n)
unfolding leaves_at
leaves_at-IsKey none size i = tt
leaves_at-IsKey (some n) size i = node-IsKey [] n i.0

pub size_leaves : (n : Option Node) (size : ℕ) → IsRoot n size → size ≡ length (leaves_at n)
unfolding leaves_at
size_leaves none size i = i
size_leaves (some n) size i = i.1

-- An insertion keeps the tree well-formed: the prefix of a node is in front of every key below it and
-- fits the node's array, the children's bytes ascend and are those of the keys, and the size is the
-- number of leaves. No byte of the key is 0 and it has at most 64 bytes.
pub insert_key-IsArt :
    (t : Tree) (k : Bytes) (v : Option Bytes) → IsArt t → IsKey k → IsArt (insert_key t k v)
insert_key-IsArt t k v i h = insert_at-IsArt t.root t.size k v i h

-- An insertion into a well-formed tree makes of the list of its leaves what it is for a sorted list:
-- the entry stands in place of that with the same key, or else in front of the first greater key. No
-- byte of the key is 0 and it has at most 64 bytes.
pub leaves_of-insert_key :
    (t : Tree) (k : Bytes) (v : Option Bytes)
    → IsArt t
    → IsKey k
    → leaves_of (insert_key t k v) ≡ put (leaves_of t) k v
leaves_of-insert_key t k v i h = leaves_at-insert t.root t.size k v i h

-- A lookup behind an insertion into a well-formed tree finds the value for the key that was inserted,
-- and of any other key what it found before. No byte of the two keys is 0 and they have at most 64
-- bytes.
pub get_key-insert_key :
    (t : Tree) (k j : Bytes) (v : Option Bytes)
    → IsArt t
    → IsKey k
    → IsKey j
    → get_key (insert_key t k v) j ≡ (if bytes_equal k j then some v else get_key t j)
get_key-insert_key t k j v i h h' =
    let t' = insert_key t k v in
    get_at-lookup t'.root t'.size j (insert_at-IsArt t.root t.size k v i h) h'
    ∙ ap (λ l. lookup l j) (leaves_of-insert_key t k v i h)
    ∙ lookup-put (leaves_of t) k j v
    ∙ ap (λ x. if bytes_equal k j then some v else x) (sym (get_at-lookup t.root t.size j i h'))

pub empty_get : (k : Bytes) → get_key new_tree k ≡ none
unfolding get_at
empty_get k = refl

pub empty_leaves : leaves_of new_tree ≡ []
unfolding leaves_at
empty_leaves = refl

abbrev pub art_memtable : Memtable
art_memtable = record {
  Tree = Tree;
  empty = new_tree;
  get = get_key;
  insert = insert_key;
  leaves = leaves_of;
  len = λ t. t.size;
  IsKey = IsKey;
  IsTree = IsArt;
  empty-IsTree = refl;
  insert-IsTree = insert_key-IsArt;
  get-empty = empty_get;
  get-insert = get_key-insert_key;
  leaves-IsSorted = λ t i. leaves_at-IsSorted t.root t.size i;
  leaves-IsKey = λ t i. leaves_at-IsKey t.root t.size i;
  find_entry-leaves = λ t k i h.
      find_entry-lookup (leaves_of t) k ∙ ap tree_lookup (sym (get_at-lookup t.root t.size k i h));
  len-leaves = λ t i. size_leaves t.root t.size i;
  leaves-empty = empty_leaves;
  length-leaves-insert = λ t k v i h.
      subst (λ l. length l ≤ length (leaves_of t) + 1) (sym (leaves_of-insert_key t k v i h))
        (length-put (leaves_of t) k v);
}
