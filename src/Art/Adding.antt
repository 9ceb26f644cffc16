-- ===== src/Art/Adding.antt =====
-- `addChild` of internal/art: a leaf that is new in a node.
use mathlib.Core.Path.{subst}
use kora_engine.Prelude.{
  ℕ, ◌+◌, ◌<◌, ◌≡◌, refl, sym, ap, ◌≢◌, inl, inr, Bool, true, false, Option, [], ◌∷◌, ◌++◌, length,
  arith, append-nil, append_assoc, ltb, length-append, Bool-cases, ◌==◌,
}
use kora_engine.Prelude.Order.{Bytes}
use kora_engine.Memtable.Sorted.{put}
use kora_engine.Memtable.Parts.{put-append_before, put-first}
use kora_engine.Art.{
  Node, leaf, inner, Header, Kind, node4, node16, node48, node256, Children, nil, child, branch,
  node_leaves, child_leaves, insert_sorted, set_child, put_child, add_child, grown_kind,
  count_children,
}
use kora_engine.Art.Paths.{Nonzero}
use kora_engine.Art.Shape.{
  IsNode, IsChildren, IsChild, IsKey, AllAbove, children-AllBehind, child-AllBefore,
}
use kora_engine.Art.Lookup.{HasPrefix}

abbrev pub count : Bool → ℕ → ℕ
count true n = n + 1
count false n = n

-- No child has the byte.
abbrev pub Absent : ℕ → Children → Type 0
Absent b nil = Unit {0}
Absent b (child c n cs) = (c ≢ b) × Absent b cs

-- The children behind the insertion of a new key.
abbrev Added : Bytes → Bytes → Option Bytes → Children → Children → Type 0
Added q t v cs cs' =
    IsChildren q cs'
    × (child_leaves cs' ≡ put (child_leaves cs) (q ++ t) v)
    × (length (child_leaves cs') ≡ length (child_leaves cs) + 1)
    × ((x : ℕ) → x < branch t → AllAbove x cs → AllAbove x cs')

-- The node behind an insertion below it.
abbrev pub Good : Bytes → Node → Bytes → Option Bytes → Node × Bool → Type 0
Good π n key v r =
    IsNode π r.0
    × (node_leaves r.0 ≡ put (node_leaves n) key v)
    × (length (node_leaves r.0) ≡ count r.1 (length (node_leaves n)))

pub leaf-IsChild :
    (q t : Bytes) (v : Option Bytes)
    → Nonzero t
    → IsKey (q ++ t)
    → IsChild q (branch t) (leaf (q ++ t) v)
unfolding branch IsNode
leaf-IsChild q [] v z k =
    inl (v, refl, ap (λ u. leaf u v) (append-nil q), subst IsKey (append-nil q) k)
leaf-IsChild q (x ∷ t) v (z, zs) k = inr (z, ((t, sym (append_assoc q (x ∷ []) t), zs), k))

AllAbove-trans : (b c : ℕ) (cs : Children) → b < c → AllAbove c cs → AllAbove b cs
AllAbove-trans b c nil l h = tt
AllAbove-trans b c (child d n cs) l (m, h) = (omega arith, AllAbove-trans b c cs l h)

module _ (q t : Bytes) (v : Option Bytes) (z : Nonzero t) (k : IsKey (q ++ t)) where
  nil-Added : Added q t v nil (child (branch t) (leaf (q ++ t) v) nil)
  unfolding IsNode node_leaves put
  nil-Added = ((leaf-IsChild q t v z k, tt, tt), refl, refl, λ x l a. (l, tt))

  first-Added :
      (c : ℕ) (o : Node) (cs : Children)
      → branch t < c
      → IsChildren q (child c o cs)
      → Added q t v (child c o cs) (child (branch t) (leaf (q ++ t) v) (child c o cs))
  unfolding IsNode node_leaves
  first-Added c o cs l (i, a, h) =
      let above : AllAbove (branch t) (child c o cs) = (l, AllAbove-trans (branch t) c cs l a) in
      (
        (leaf-IsChild q t v z k, above, (i, a, h)),
        sym (
            put-first (q ++ t) v (child_leaves (child c o cs)) (
              children-AllBehind q (q ++ t) (branch t) (child c o cs) (t, refl, z, refl) (i, a, h)
                above)),
        omega arith,
        λ x m b. (m, b),
      )

  behind-Added :
      (c : ℕ) (o : Node) (cs cs' : Children)
      → c < branch t
      → IsChildren q (child c o cs)
      → Added q t v cs cs'
      → Added q t v (child c o cs) (child c o cs')
  unfolding IsNode node_leaves
  behind-Added c o cs cs' l (i, a, h) (h', e, n, f) = (
    (i, f c l a, h'),
    rw e (
        sym (
          put-append_before (q ++ t) v (node_leaves o) (child_leaves cs)
            (child-AllBefore q (q ++ t) (branch t) c o (t, refl, z, refl) i l))),
    rw
        (
          length-append (node_leaves o) (child_leaves cs'),
          length-append (node_leaves o) (child_leaves cs),
        )
        (omega arith),
    λ x m b. (b.0, f x m b.1),
  )

  insert_sorted-Added :
      (cs : Children)
      → IsChildren q cs
      → Absent (branch t) cs
      → Added q t v cs (insert_sorted (branch t) (leaf (q ++ t) v) cs)
  unfolding insert_sorted IsNode
  insert_sorted-Added nil h n = nil-Added
  insert_sorted-Added (child c o cs) (i, a, h) (n, ns) = elim (Bool-cases (ltb c (branch t))) [
    | inl l ↦ rw l (
        behind-Added c o cs (insert_sorted (branch t) (leaf (q ++ t) v) cs) (ground arith) (i, a, h)
          (insert_sorted-Added cs h ns))
    | inr l ↦ rw l (first-Added c o cs (ground arith) (i, a, h))
  ]

  set_child-Added :
      (cs : Children)
      → IsChildren q cs
      → Absent (branch t) cs
      → Added q t v cs (set_child (branch t) (leaf (q ++ t) v) cs)
  unfolding set_child IsNode
  set_child-Added nil h n = nil-Added
  set_child-Added (child c o cs) (i, a, h) (n, ns) = elim (Bool-cases (ltb c (branch t))) [
    | inl l ↦ rw l (
        behind-Added c o cs (set_child (branch t) (leaf (q ++ t) v) cs) (ground arith) (i, a, h)
          (set_child-Added cs h ns))
    | inr l ↦
        let d : (c == branch t) ≡ false = ground arith in
        rw (l, d) (first-Added c o cs (ground arith) (i, a, h))
  ]

  put_child-Added :
      (kind : Kind) (cs : Children)
      → IsChildren q cs
      → Absent (branch t) cs
      → Added q t v cs (put_child kind (branch t) (leaf (q ++ t) v) cs)
  unfolding put_child
  put_child-Added node4 cs h n = insert_sorted-Added cs h n
  put_child-Added node16 cs h n = insert_sorted-Added cs h n
  put_child-Added node48 cs h n = set_child-Added cs h n
  put_child-Added node256 cs h n = set_child-Added cs h n

pub add_child-Good :
    (kind : Kind) (h : Header) (cs : Children) (π p z t : Bytes) (v : Option Bytes)
    → HasPrefix h p z
    → Nonzero p
    → IsChildren (π ++ p) cs
    → Absent (branch t) cs
    → Nonzero t
    → IsKey (π ++ (p ++ t))
    → Good π
        (inner kind h cs)
        (π ++ (p ++ t))
        v
        (add_child kind h cs (branch t) (leaf (π ++ (p ++ t)) v), true)
unfolding IsNode node_leaves add_child
add_child-Good kind h cs π p z t v (e, l, m) y c n w k =
    let a = append_assoc π p t in
    let (i, f, o, g) =
      put_child-Added (π ++ p) t v w (subst IsKey (sym a) k) (grown_kind kind (count_children cs))
        cs c n in
    rw (sym a) ((p, z, e, l, m, y, i), f, o)
