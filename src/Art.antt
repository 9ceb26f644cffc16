-- ===== src/Art.antt =====
-- internal/art: the tree of the memtable, `Insert`, `Get`, `Len` and `Iterator`. `Delete` is not modelled:
-- nothing calls it. The children of a node are the list of those that are there, each with its byte, in
-- the order of `forEach`; how a kind of node lays them out in its arrays is left out, and with it the
-- number of the slot that a `node48` gives a child.
pub mod Paths
pub mod Shape
pub mod Lookup
pub mod Adding
pub mod Splitting
pub mod Insertion
pub mod Store
use kora_engine.Prelude.{
  ℕ, zero, suc, ◌+◌, ◌-◌, Bool, true, false, Option, none, some, List, [], ◌∷◌, ◌++◌, ltb, leb,
  ◌==◌, if◌then◌else◌, length, take, drop, replicate,
}
use kora_engine.Prelude.Order.{Bytes, bytes_equal}
use kora_engine.Sstable.{Entry}

abbrev pub max_prefix_len : ℕ
max_prefix_len = 64

-- `artHeader`: the array has 64 bytes.
pub record Header : Type 0 where
  pub prefix_len : ℕ
  pub prefix : Bytes

-- `nodeKind`, without that of a leaf.
pub data Kind : Type 0 where
  node4 node16 node48 node256 : Kind

mutual
  pub data Node : Type 0 where
    leaf : Bytes → Option Bytes → Node
    inner : Kind → Header → Children → Node

  pub data Children : Type 0 where
    nil : Children
    child : ℕ → Node → Children → Children

-- How many bytes two byte strings share in front.
unfoldable pub shared : Bytes → Bytes → ℕ
shared [] ys = 0
shared (x ∷ xs) [] = 0
shared (x ∷ xs) (y ∷ ys) = let n = shared xs ys in if x == y then suc n else 0

unfoldable pub shared_prefix : Bytes → Bytes → ℕ → ℕ
shared_prefix a b depth = shared (drop depth a) (drop depth b)

-- No more than the array holds.
unfoldable pub clamped : ℕ → ℕ
clamped n = if ltb max_prefix_len n then max_prefix_len else n

-- `prefixMatch`: over the part of the prefix that the array holds.
unfoldable pub prefix_match : Header → Bytes → ℕ → ℕ
prefix_match h key depth = shared (take (clamped h.prefix_len) h.prefix) (drop depth key)

-- A new array with the bytes in front, as `copy` fills it.
unfoldable pub filled : Bytes → Bytes
filled bs = take max_prefix_len bs ++ replicate (max_prefix_len - length bs) 0

-- `copy(h.prefix[:], h.prefix[shift:])`, which leaves the end of the array as it was.
unfoldable pub shifted : ℕ → Bytes → Bytes
shifted shift bs = drop shift bs ++ drop (max_prefix_len - shift) bs

unfoldable pub count_children : Children → ℕ
count_children nil = 0
count_children (child b n cs) = suc (count_children cs)

-- In front of the first child with a byte that is not below.
unfoldable pub insert_sorted : ℕ → Node → Children → Children
insert_sorted b n nil = child b n nil
insert_sorted b n (child c o cs) =
    let rest = insert_sorted b n cs in if ltb c b then child c o rest else child b n (child c o cs)

-- In place of the child with that byte.
unfoldable pub set_child : ℕ → Node → Children → Children
set_child b n nil = child b n nil
set_child b n (child c o cs) =
    let rest = set_child b n cs in
    if ltb c b then child c o rest else if c == b then child b n cs else child b n (child c o cs)

-- The kind that `addChild` returns, from the kind and the number of children.
unfoldable pub grown_kind : Kind → ℕ → Kind
grown_kind node4 n = if ltb n 4 then node4 else node16
grown_kind node16 n = if ltb n 16 then node16 else node48
grown_kind node48 n = if ltb n 48 then node48 else node256
grown_kind node256 n = node256

unfoldable pub put_child : Kind → ℕ → Node → Children → Children
put_child node4 b n cs = insert_sorted b n cs
put_child node16 b n cs = insert_sorted b n cs
put_child node48 b n cs = set_child b n cs
put_child node256 b n cs = set_child b n cs

unfoldable pub add_child : Kind → Header → Children → ℕ → Node → Node
add_child k h cs b n = let k' = grown_kind k (count_children cs) in inner k' h (put_child k' b n cs)

-- The byte under which a key stands at a depth: 0 behind its end.
unfoldable pub branch : Bytes → ℕ
branch [] = 0
branch (b ∷ bs) = b

-- The bytes that are left at the child.
unfoldable pub next_depth : Bytes → ℕ → ℕ
next_depth key depth = if leb (length key) depth then depth else suc depth

unfoldable mutual
  -- `Get` from a node on.
  unfolding prefix_match

  pub get_node : Node → Bytes → ℕ → Option (Option Bytes)
  get_node (leaf k v) key depth = if bytes_equal k key then some v else none
  get_node (inner kind h cs) key depth =
      let d = depth + h.prefix_len in
      let further = get_child cs (branch (drop d key)) key (next_depth key d) in
      if ltb (prefix_match h key depth) h.prefix_len then none else further

  -- `findChild`, and `Get` in the child.
  pub get_child : Children → ℕ → Bytes → ℕ → Option (Option Bytes)
  get_child nil b key depth = none
  get_child (child c n cs) b key depth =
      let here = get_node n key depth in
      let there = get_child cs b key depth in if c == b then here else there

-- `addLeafToNode`; a leaf has no children.
unfoldable pub add_leaf : Node → Bytes → Option Bytes → ℕ → Node
add_leaf (leaf k v) key value advance = leaf k v
add_leaf (inner kind h cs) key value advance =
    add_child kind h cs (branch (drop advance key)) (leaf key value)

abbrev pub new_node4 : ℕ → Bytes → Node
new_node4 len bytes =
    inner node4 (record { prefix_len = len; prefix = filled (take (clamped len) bytes) }) nil

-- The `node4` that `insertNode` makes in place of a leaf with another key.
unfoldable pub fork : Bytes → Option Bytes → Bytes → Option Bytes → ℕ → Node
fork old v key value depth =
    let n = shared_prefix old key depth in
    add_leaf (add_leaf (new_node4 n (drop depth old)) old v (depth + n)) key value (depth + n)

-- What is left of the prefix of a node that is split where the prefix differs.
unfoldable pub cut_header : Header → ℕ → Header
cut_header h m =
    let left = h.prefix_len - (m + 1) in
    record {
      prefix_len = left;
      prefix = if ltb 0 left then shifted (clamped (m + 1)) h.prefix else h.prefix;
    }

unfoldable pub adopt : Node → ℕ → Node → Node
adopt (leaf k v) b n = leaf k v
adopt (inner kind h cs) b n = inner kind h (child b n cs)

-- `splitNode`. The byte behind the prefix of 64 bytes is a panic of the code: it is 0 here.
unfoldable pub split_node : Kind → Header → Children → Bytes → Option Bytes → ℕ → ℕ → Node
split_node kind h cs key value depth m =
    let n4 = new_node4 m h.prefix in
    add_leaf (adopt n4 (branch (drop m h.prefix)) (inner kind (cut_header h m) cs)) key value
      (depth + m)

-- The end of `insertNode`, behind the insertion in the child: a key that ends at the node is never
-- reported as new where it has a child.
unfoldable pub inserted :
    Kind
    → Header
    → Children
    → ℕ
    → Bytes
    → Option Bytes
    → Bool
    → Option (Children × Bool)
    → Node × Bool
inserted kind h cs b key value more none = (add_child kind h cs b (leaf key value), true)
inserted kind h cs b key value more (some (changed, grown)) =
    (inner kind h changed, if more then grown else false)

-- The child that is changed stands behind one.
unfoldable pub in_rest : ℕ → Node → Option (Children × Bool) → Option (Children × Bool)
in_rest c n none = none
in_rest c n (some (cs, grown)) = some (child c n cs, grown)

unfoldable mutual
  -- `insertNode`.
  unfolding prefix_match

  pub insert_node : Node → Bytes → Option Bytes → ℕ → Node × Bool
  insert_node (leaf k v) key value depth =
      if bytes_equal k key then (leaf k value, false) else (fork k v key value depth, true)
  insert_node (inner kind h cs) key value depth =
      let m = prefix_match h key depth in
      let d = depth + h.prefix_len in
      let b = branch (drop d key) in
      let inside = insert_child cs b key value (next_depth key d) in
      if ltb m h.prefix_len
      then (split_node kind h cs key value depth m, true)
      else inserted kind h cs b key value (ltb d (length key)) inside

  -- `findChild`, and `insertNode` in the child.
  pub insert_child : Children → ℕ → Bytes → Option Bytes → ℕ → Option (Children × Bool)
  insert_child nil b key value depth = none
  insert_child (child c n cs) b key value depth =
      let here = insert_node n key value depth in
      let there = insert_child cs b key value depth in
      if c == b then some (child c here.0 cs, here.1) else in_rest c n there

unfoldable mutual
  -- `collectLeaves`.
  pub node_leaves : Node → List Entry
  node_leaves (leaf k v) = record { key = k; value = v } ∷ []
  node_leaves (inner kind h cs) = child_leaves cs

  pub child_leaves : Children → List Entry
  child_leaves nil = []
  child_leaves (child b n cs) = node_leaves n ++ child_leaves cs

-- `Tree`.
pub record Tree : Type 0 where
  pub root : Option Node
  pub size : ℕ

abbrev pub new_tree : Tree
new_tree = record { root = none; size = 0 }

unfoldable pub insert_at : Option Node → ℕ → Bytes → Option Bytes → Tree
insert_at none size key value = record { root = some (leaf key value); size = size + 1 }
insert_at (some n) size key value =
    let r = insert_node n key value 0 in
    record { root = some r.0; size = if r.1 then size + 1 else size }

unfoldable pub get_at : Option Node → Bytes → Option (Option Bytes)
get_at none key = none
get_at (some n) key = get_node n key 0

-- All that `Iterator` yields.
unfoldable pub leaves_at : Option Node → List Entry
leaves_at none = []
leaves_at (some n) = node_leaves n

abbrev pub insert_key : Tree → Bytes → Option Bytes → Tree
insert_key t key value = insert_at t.root t.size key value

abbrev pub get_key : Tree → Bytes → Option (Option Bytes)
get_key t key = get_at t.root key

abbrev pub leaves_of : Tree → List Entry
leaves_of t = leaves_at t.root
