-- ===== src/Art/Insertion.antt =====
-- `insertNode` of internal/art puts a key into the sorted leaves of a well-formed tree.
use mathlib.Core.Path.{subst}
use kora_engine.Prelude.{
  ℕ, ◌+◌, ◌<◌, ◌≤◌, ◌≡◌, refl, sym, ap, ◌∙◌, ◌≢◌, inl, inr, Bool, true, false, Option, none, some,
  [], ◌∷◌, ◌++◌, length, arith, append_assoc, ltb, length-append, Bool-cases, ◌==◌, if◌then◌else◌,
  All-append_right,
}
use kora_engine.Prelude.Order.{
  Bytes, bytes_equal, bytes_equal_refl, compare_bytes_refl, eq_of_bytes_equal,
}
use kora_engine.Memtable.Sorted.{put}
use kora_engine.Memtable.Parts.{put-append_before, put-append_behind}
use kora_engine.Art.{
  Node, leaf, inner, Header, Kind, Children, nil, child, branch, next_depth, node_leaves,
  child_leaves, inserted, in_rest, insert_node, insert_child, fork, split_node,
}
use kora_engine.Art.Paths.{Nonzero, eq-Under}
use kora_engine.Art.Shape.{
  IsNode, IsChildren, IsChild, IsKey, AllAbove, children-AllBehind, child-AllBefore,
}
use kora_engine.Art.Lookup.{
  HasPrefix, prefix_match_lem, into_inner, reach, shorter, step_into, below_inner,
}
use kora_engine.Art.Adding.{Good, count, Absent, add_child-Good}
use kora_engine.Art.Splitting.{fork-Good, split_node-Good}

-- The children behind the insertion in one of them, if the key's byte has one.
abbrev Changed : Bytes → Bytes → Option Bytes → Children → Option (Children × Bool) → Type 0
Changed q t v cs none = Absent (branch t) cs
Changed q t v cs (some (cs', g)) =
    IsChildren q cs'
    × (child_leaves cs' ≡ put (child_leaves cs) (q ++ t) v)
    × (length (child_leaves cs') ≡ count g (length (child_leaves cs)))
    × (t ≡ [] → g ≡ false)
    × ((x : ℕ) → AllAbove x cs → (x < branch t) × AllAbove x cs')

count_right : (g : Bool) (m n : ℕ) → count g m + n ≡ count g (m + n)
count_right true m n = omega arith
count_right false m n = refl

count_left : (g : Bool) (m n : ℕ) → m + count g n ≡ count g (m + n)
count_left true m n = omega arith
count_left false m n = refl

-- A node is put back at its place.
here-Changed :
    (q t : Bytes) (v : Option Bytes) (c : ℕ) (n n' : Node) (g : Bool) (cs : Children)
    → Nonzero t
    → branch t ≡ c
    → IsChildren q (child c n cs)
    → IsChild q c n'
    → node_leaves n' ≡ put (node_leaves n) (q ++ t) v
    → length (node_leaves n') ≡ count g (length (node_leaves n))
    → (t ≡ [] → g ≡ false)
    → Changed q t v (child c n cs) (some (child c n' cs, g))
unfolding IsNode node_leaves
here-Changed q t v c n n' g cs z e (i, a, h) i' l o f = (
  (i', a, h),
  rw l (
      sym (
        put-append_behind (q ++ t) v (node_leaves n) (child_leaves cs)
          (children-AllBehind q (q ++ t) c cs (t, refl, z, e) h a))),
  rw
      (
        length-append (node_leaves n') (child_leaves cs),
        length-append (node_leaves n) (child_leaves cs),
        o,
      )
      (count_right g (length (node_leaves n)) (length (child_leaves cs))),
  f,
  λ x b. (omega (arith, b.0), b),
)

in_rest-Changed :
    (q t : Bytes) (v : Option Bytes) (c : ℕ) (n : Node) (cs : Children)
    (r : Option (Children × Bool))
    → Nonzero t
    → c ≢ branch t
    → IsChildren q (child c n cs)
    → Changed q t v cs r
    → Changed q t v (child c n cs) (in_rest c n r)
unfolding IsNode node_leaves in_rest
in_rest-Changed q t v c n cs none z d i h = (d, h)
in_rest-Changed q t v c n cs (some (cs', g)) z d (i, a, k) (h, l, o, f, w) = (
  (i, (w c a).1, h),
  rw l (
      sym (
        put-append_before (q ++ t) v (node_leaves n) (child_leaves cs)
          (child-AllBefore q (q ++ t) (branch t) c n (t, refl, z, refl) i (w c a).0))),
  rw
      (
        length-append (node_leaves n) (child_leaves cs'),
        length-append (node_leaves n) (child_leaves cs),
        o,
      )
      (count_left g (length (node_leaves n)) (length (child_leaves cs))),
  f,
  λ x b. ((w x b.1).0, (b.0, (w x b.1).1)),
)

inserted-Good :
    (kind : Kind) (h : Header) (cs : Children) (π p z t : Bytes) (v : Option Bytes)
    (r : Option (Children × Bool))
    → HasPrefix h p z
    → Nonzero p
    → IsChildren (π ++ p) cs
    → Nonzero t
    → IsKey (π ++ (p ++ t))
    → Changed (π ++ p) t v cs r
    → Good π
        (inner kind h cs)
        (π ++ (p ++ t))
        v
        (inserted kind h cs (branch t) (π ++ (p ++ t)) v (ltb 0 (length t)) r)
unfolding inserted IsNode node_leaves
inserted-Good kind h cs π p z t v none hp y c w k n =
    add_child-Good kind h cs π p z t v hp y c n w k
inserted-Good kind h cs π p z t v (some (cs', g)) (e, l, m) y c w k (i, f, o, a, b) =
    let s : (if ltb 0 (length t) then g else false) ≡ g = told t a in
    rw s ((p, z, e, l, m, y, i), rw (sym (append_assoc π p t)) f, o)
  where
    told : (t : Bytes) → (t ≡ [] → g ≡ false) → (if ltb 0 (length t) then g else false) ≡ g
    told [] a = sym (a refl)
    told (x ∷ t) a = let u : ltb 0 (length (x ∷ t)) ≡ true = ground arith in rw u refl

same_leaf :
    (k0 k : Bytes) (v0 v : Option Bytes)
    → bytes_equal k0 k ≡ true
    → record { key = k0; value = v } ∷ [] ≡ put (record { key = k0; value = v0 } ∷ []) k v
unfolding put
same_leaf k0 k v0 v t = let p = eq_of_bytes_equal k0 k t in rw (p, compare_bytes_refl k, put) refl

-- `insertNode` in a child.
abbrev In : Bytes → Bytes → Option Bytes → Node → Node × Bool
In q t v n = insert_node n (q ++ t) v (next_depth (q ++ t) (length q))

here_end :
    (q t : Bytes) (v v0 : Option Bytes) (c : ℕ) (n : Node) (cs : Children)
    → Nonzero t
    → branch t ≡ c
    → c ≡ 0
    → n ≡ leaf q v0
    → IsKey q
    → AllAbove c cs
    → IsChildren q cs
    → Changed q t v (child c n cs) (some (child c (In q t v n).0 cs, (In q t v n).1))
unfolding IsNode node_leaves insert_node
here_end q t v v0 c n cs z e o p k a h =
    let u : bytes_equal q (q ++ t) ≡ true =
      rw (eq-Under q (q ++ t) (t, refl, z, e ∙ o)) (bytes_equal_refl q) in
    rw (p, u)
      (here-Changed q t v c (leaf q v0) (leaf q v) false cs z e (inl (v0, o, refl, k), a, h)
        (inl (v, o, refl, k)) (same_leaf q (q ++ t) v0 v u) refl (λ w. refl))

here_node :
    (q s : Bytes) (v : Option Bytes) (c : ℕ) (n : Node) (cs : Children)
    → Nonzero (c ∷ s)
    → IsNode (q ++ (c ∷ [])) n
    → AllAbove c cs
    → IsChildren q cs
    → Good
        (q ++ (c ∷ []))
        n
        ((q ++ (c ∷ [])) ++ s)
        v
        (insert_node n ((q ++ (c ∷ [])) ++ s) v (length (q ++ (c ∷ []))))
    → Changed q
        (c ∷ s)
        v
        (child c n cs)
        (some (child c (In q (c ∷ s) v n).0 cs, (In q (c ∷ s) v n).1))
unfolding IsNode node_leaves branch
here_node q s v c n cs z i a h ih =
    let l = length (q ++ (c ∷ [])) in
    let (j, p, o) =
      subst (λ u. Good (q ++ (c ∷ [])) n u v (insert_node n u v l)) (append_assoc q (c ∷ []) s)
        ih in
    let r = insert_node n (q ++ (c ∷ s)) v l in
    rw (below_inner q s c) (
      here-Changed q (c ∷ s) v c n r.0 r.1 cs z refl (inr (z.0, i), a, h) (inr (z.0, j)) p o
        (λ u. cc))

more_lem :
    (h : Header) (π p t : Bytes)
    → h.prefix_len ≡ length p
    → ltb (length π + h.prefix_len) (length (π ++ (p ++ t))) ≡ ltb 0 (length t)
more_lem h π p t l =
    rw (length-append π (p ++ t), length-append p t, l) (shift (length π) (length p) (length t))
  where
    shift : (a b c : ℕ) → ltb (a + b) (a + (b + c)) ≡ ltb 0 c
    shift a b c = ground arith

-- Where the prefix of a node is left.
left_Good :
    (kind : Kind) (h : Header) (cs : Children) (π r p z a s t : Bytes) (v : Option Bytes)
    → HasPrefix h p z
    → Nonzero p
    → IsChildren (π ++ p) cs
    → Nonzero r
    → IsKey (π ++ r)
    → p ≡ a ++ s
    → r ≡ a ++ t
    → 1 ≤ branch s
    → branch s ≢ branch t
    → Good π
        (inner kind h cs)
        (π ++ r)
        v
        (split_node kind h cs (π ++ r) v (length π) (length a), true)
left_Good kind h cs π r p z a s t v hp y c w k f g b d =
    let (s', u) = step_into s (branch s) refl b in
    let f' : p ≡ a ++ (branch s ∷ s') = f ∙ ap (λ l. a ++ l) u in
    subst
      (λ l.
        Good π (inner kind h cs) (π ++ l) v
          (split_node kind h cs (π ++ l) v (length π) (length a), true))
      (sym g)
      (split_node-Good kind h cs π a s' z t (branch s) v (subst (λ l. HasPrefix h l z) f' hp)
        (subst Nonzero f' y) (subst (λ l. IsChildren (π ++ l) cs) f' c) d
        (All-append_right (λ (x : ℕ). 1 ≤ x) a t (subst Nonzero g w))
        (subst (λ l. IsKey (π ++ l)) g k))

mutual
  unfolding IsNode node_leaves insert_node

  pub insert_node-Good :
      (n : Node) (π r : Bytes) (v : Option Bytes)
      → IsNode π n
      → Nonzero r
      → IsKey (π ++ r)
      → Good π n (π ++ r) v (insert_node n (π ++ r) v (length π))
  insert_node-Good (leaf k0 v0) π r v ((r0, e, z0), k) z j =
      elim (Bool-cases (bytes_equal k0 (π ++ r))) [
        | inl t ↦ rw t (((r0, e, z0), k), same_leaf k0 (π ++ r) v0 v t, refl)
        | inr t ↦ rw t (
            subst (λ u. Good π (leaf u v0) (π ++ r) v (fork u v0 (π ++ r) v (length π), true))
              (sym e)
              (fork-Good π r0 r v0 v z0 z (subst IsKey e k) j
                (subst (λ u. bytes_equal u (π ++ r) ≡ false) e t)))
      ]
  insert_node-Good (inner kind h cs) π r v (p, z, e, l, m, y, c) w k = elim (reach p r y w) [
    | inl (t, q, zt) ↦
        let (x, d, b) = into_inner h p z π t (e, l, m) in
        let assoc = append_assoc π p t in
        let k' = subst (λ u. IsKey (π ++ u)) q k in
        let at = next_depth ((π ++ p) ++ t) (length (π ++ p)) in
        let ih : Changed (π ++ p) t v cs (insert_child cs (branch t) (π ++ (p ++ t)) v at) =
          subst (λ u. Changed (π ++ p) t v cs (insert_child cs (branch t) u v at)) assoc
            (insert_child-Changed cs (π ++ p) t v c zt (subst IsKey (sym assoc) k')) in
        rw (q, x, d, b, more_lem h π p t l)
          (inserted-Good kind h cs π p z t v (insert_child cs (branch t) (π ++ (p ++ t)) v at)
            (e, l, m) y c zt k' ih)
    | inr (a, s, t, f, g, o, b, d) ↦
        let x : ltb (length a) h.prefix_len ≡ true = rw l (shorter a s b f) in
        rw (prefix_match_lem h p z π r e l m, o, x)
          (left_Good kind h cs π r p z a s t v (e, l, m) y c w k f g b d)
  ]

  insert_child-Changed :
      (cs : Children) (q t : Bytes) (v : Option Bytes)
      → IsChildren q cs
      → Nonzero t
      → IsKey (q ++ t)
      → Changed q t v cs (insert_child cs (branch t) (q ++ t) v (next_depth (q ++ t) (length q)))
  insert_child-Changed nil q t v i z k = tt
  insert_child-Changed (child c n cs) q t v (i, a, h) z k = elim (Bool-cases (c == branch t)) [
    | inl e ↦
        let same : branch t ≡ c = ground arith in
        rw e (elim i [
          | inl (v0, o, p, j) ↦ here_end q t v v0 c n cs z same o p j a h
          | inr (l, m) ↦
              let (s, f) = step_into t c same l in
              let ks =
                subst IsKey (sym (append_assoc q (c ∷ []) s)) (subst (λ u. IsKey (q ++ u)) f k) in
              let zs = subst Nonzero f z in
              subst
                (λ u.
                  Changed q u v (child c n cs) (some (child c (In q u v n).0 cs, (In q u v n).1)))
                (sym f)
                (here_node q s v c n cs zs m a h (insert_node-Good n (q ++ (c ∷ [])) s v m zs.1 ks))
        ])
    | inr e ↦
        let d : c ≢ branch t = λ p. ground arith in
        rw e (
          in_rest-Changed q t v c n cs
            (insert_child cs (branch t) (q ++ t) v (next_depth (q ++ t) (length q))) z d (i, a, h)
            (insert_child-Changed cs q t v h z k))
  ]
