-- ===== src/Tests/Trees.antt =====
-- A tree of internal/art with a key in front of another.
use kora_engine.Prelude.{◌≡◌, refl, Option, some, none, [], ◌∷◌, arith, if◌then◌else◌}
use kora_engine.Prelude.Order.{Bytes, bytes_equal, compare_bytes}
use kora_engine.Memtable.Sorted.{put}
use kora_engine.Art.{
  Tree, new_tree, insert_key, get_key, leaves_of, leaves_at, node_leaves, insert_at, insert_node,
  fork, add_leaf, add_child, shared_prefix, shared, grown_kind, put_child, insert_sorted, branch,
  clamped, filled, inserted, count_children, in_rest,
}
use kora_engine.Art.Shape.{IsKey}
use kora_engine.Art.Store.{IsArt, insert_key-IsArt, leaves_of-insert_key, get_key-insert_key}

abbrev ka : Bytes
ka = b'k' ∷ b'a' ∷ []

abbrev kb : Bytes
kb = b'k' ∷ b'b' ∷ []

abbrev short : Bytes
short = b'k' ∷ []

ka-IsKey : IsKey ka
ka-IsKey = ((omega arith, (omega arith, tt)), omega arith)

kb-IsKey : IsKey kb
kb-IsKey = ((omega arith, (omega arith, tt)), omega arith)

short-IsKey : IsKey short
short-IsKey = ((omega arith, tt), omega arith)

abbrev one_value : Option Bytes
one_value = some (b'1' ∷ [])

-- A node with the prefix `k` and the leaves of two keys.
abbrev two_tree : Tree
two_tree = insert_key (insert_key new_tree kb one_value) ka one_value

two_tree-IsArt : IsArt two_tree
two_tree-IsArt =
    insert_key-IsArt (insert_key new_tree kb one_value) ka one_value
      (insert_key-IsArt new_tree kb one_value refl kb-IsKey) ka-IsKey

insert_key-IsArt_example : IsArt (insert_key two_tree short none)
insert_key-IsArt_example = insert_key-IsArt two_tree short none two_tree-IsArt short-IsKey

leaves_of-insert_key_example :
    leaves_of (insert_key two_tree short none) ≡ put (leaves_of two_tree) short none
leaves_of-insert_key_example = leaves_of-insert_key two_tree short none two_tree-IsArt short-IsKey

get_key-insert_key_example :
    get_key (insert_key two_tree short none) kb
    ≡ (if bytes_equal short kb then some none else get_key two_tree kb)
get_key-insert_key_example =
    get_key-insert_key two_tree short kb none two_tree-IsArt short-IsKey kb-IsKey

-- The leaves of the three keys, and the order of two of them.
leaves_lem : leaves_of (insert_key two_tree short none) ≡ (
    record { key = short; value = none }
    ∷ record { key = ka; value = one_value }
    ∷ record { key = kb; value = one_value }
    ∷ [])
unfolding leaves_at node_leaves insert_at insert_node fork add_leaf add_child shared_prefix shared
    grown_kind put_child insert_sorted branch bytes_equal compare_bytes clamped filled inserted
    count_children in_rest
leaves_lem = refl
