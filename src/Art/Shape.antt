-- ===== src/Art/Shape.antt =====
-- Well-formed trees of internal/art, and the order of their leaves.
use kora_engine.Prelude.{
  ℕ, ◌<◌, ◌≤◌, ◌≡◌, refl, sym, ◌∙◌, ◌≢◌, ◌⊎◌, inl, inr, Option, [], ◌∷◌, ◌++◌, length, All,
  append-nil, append_assoc, All-append,
}
use kora_engine.Prelude.Order.{Bytes, Before}
use kora_engine.Sstable.{Entry}
use kora_engine.Sstable.Layout.{IsSorted}
use kora_engine.Memtable.Sorted.{AllBehind}
use kora_engine.Memtable.Parts.{AllOther, AllBefore, all_entries_map, IsSorted-append}
use kora_engine.Art.{
  Node, leaf, inner, Children, nil, child, branch, max_prefix_len, node_leaves, child_leaves,
}
use kora_engine.Art.Paths.{Nonzero, Under, Before-Under, not_equal-Under}

-- The keys that the tree keeps apart: no byte is 0, and a prefix of theirs fits a node's array.
abbrev pub IsKey : Bytes → Type 0
IsKey k = Nonzero k × (length k ≤ max_prefix_len)

abbrev pub Tail : Bytes → Bytes → Type 0
Tail q k = (s : Bytes) × (k ≡ q ++ s) × Nonzero s

abbrev pub AllAbove : ℕ → Children → Type 0
AllAbove b nil = Unit {0}
AllAbove b (child c n cs) = (b < c) × AllAbove b cs

-- A key that ends at a node is a leaf under the byte 0.
abbrev pub IsEnd : Bytes → ℕ → Node → Type 0
IsEnd q b n = (v : Option Bytes) × (b ≡ 0) × (n ≡ leaf q v) × IsKey q

unfoldable mutual
  -- Below the bytes `π`.
  pub IsNode : Bytes → Node → Type 0
  IsNode π (leaf k v) = Tail π k × IsKey k
  IsNode π (inner kind h cs) =
      (p : Bytes) × (z : Bytes) × (h.prefix ≡ p ++ z)
      × (h.prefix_len ≡ length p)
      × (length p ≤ max_prefix_len)
      × Nonzero p
      × IsChildren (π ++ p) cs

  pub IsChildren : Bytes → Children → Type 0
  IsChildren q nil = Unit
  IsChildren q (child b n cs) =
      (IsEnd q b n ⊎ ((1 ≤ b) × IsNode (q ++ (b ∷ [])) n)) × AllAbove b cs × IsChildren q cs

abbrev pub IsChild : Bytes → ℕ → Node → Type 0
IsChild q b n = IsEnd q b n ⊎ ((1 ≤ b) × IsNode (q ++ (b ∷ [])) n)

pub Under-of_Tail : (q k : Bytes) (b : ℕ) → 1 ≤ b → Tail (q ++ (b ∷ [])) k → Under q b k
unfolding branch
Under-of_Tail q k b l (s, p, z) = (b ∷ s, p ∙ append_assoc q (b ∷ []) s, (l, z), refl)

pub Tail-of_Under : (q k : Bytes) (b : ℕ) → Under q b k → Tail q k
Tail-of_Under q k b (s, p, z, e) = (s, p, z)

Tail-append : (q p k : Bytes) → Nonzero p → Tail (q ++ p) k → Tail q k
Tail-append q p k y (s, e, z) =
    (p ++ s, e ∙ append_assoc q p s, All-append (λ (x : ℕ). 1 ≤ x) p s y z)

end-Under : (q : Bytes) (b : ℕ) (v : Option Bytes) → b ≡ 0 → Under q b q
unfolding branch
end-Under q b v e = ([], sym (append-nil q), tt, sym e)

mutual
  unfolding IsNode node_leaves

  pub node-Tail :
      (π : Bytes) (n : Node) → IsNode π n → All (λ (e : Entry). Tail π e.key) (node_leaves n)
  node-Tail π (leaf k v) (t, i) = (t, tt)
  node-Tail π (inner kind h cs) (p, z, e, l, m, y, c) =
      all_entries_map (λ e. Tail-append π p e.key y) (child_leaves cs) (children-Tail (π ++ p) cs c)

  pub children-Tail :
      (q : Bytes) (cs : Children)
      → IsChildren q cs
      → All (λ (e : Entry). Tail q e.key) (child_leaves cs)
  children-Tail q nil h = tt
  children-Tail q (child b n cs) (i, a, h) =
      All-append (λ (e : Entry). Tail q e.key) (node_leaves n) (child_leaves cs)
        (elim i [
          | inl (v, e, p, k) ↦ rw p (([], sym (append-nil q), tt), tt)
          | inr (l, m) ↦
              all_entries_map (λ e t. Tail-of_Under q e.key b (Under-of_Tail q e.key b l t))
                (node_leaves n) (node-Tail (q ++ (b ∷ [])) n m)
        ])
        (children-Tail q cs h)

pub child-Under :
    (q : Bytes) (b : ℕ) (n : Node)
    → IsChild q b n
    → All (λ (e : Entry). Under q b e.key) (node_leaves n)
unfolding IsNode node_leaves
child-Under q b n (inl (v, e, p, k)) = rw p (end-Under q b v e, tt)
child-Under q b n (inr (l, m)) =
    all_entries_map (λ e. Under-of_Tail q e.key b l) (node_leaves n) (node-Tail (q ++ (b ∷ [])) n m)

pub children-AllBehind :
    (q k : Bytes) (b : ℕ) (cs : Children)
    → Under q b k
    → IsChildren q cs
    → AllAbove b cs
    → AllBehind k (child_leaves cs)
unfolding IsNode node_leaves
children-AllBehind q k b nil u h a = tt
children-AllBehind q k b (child c n cs) u (i, x, h) (l, a) =
    All-append (λ (e : Entry). Before k e.key) (node_leaves n) (child_leaves cs)
      (all_entries_map (λ e w. Before-Under q k e.key b c u w l) (node_leaves n)
        (child-Under q c n i))
      (children-AllBehind q k b cs u h a)

pub child-AllBefore :
    (q k : Bytes) (b c : ℕ) (n : Node)
    → Under q b k
    → IsChild q c n
    → c < b
    → AllBefore k (node_leaves n)
child-AllBefore q k b c n u i l =
    all_entries_map (λ e w. Before-Under q e.key k c b w u l) (node_leaves n) (child-Under q c n i)

pub child-AllOther :
    (q k : Bytes) (b c : ℕ) (n : Node)
    → Under q b k
    → IsChild q c n
    → c ≢ b
    → AllOther k (node_leaves n)
child-AllOther q k b c n u i l =
    all_entries_map (λ e w. not_equal-Under q e.key k c b w u l) (node_leaves n)
      (child-Under q c n i)

mutual
  unfolding IsNode node_leaves

  pub node-IsSorted : (π : Bytes) (n : Node) → IsNode π n → IsSorted (node_leaves n)
  node-IsSorted π (leaf k v) h = (tt, tt)
  node-IsSorted π (inner kind h cs) (p, z, e, l, m, y, c) = children-IsSorted (π ++ p) cs c

  children-IsSorted : (q : Bytes) (cs : Children) → IsChildren q cs → IsSorted (child_leaves cs)
  children-IsSorted q nil h = tt
  children-IsSorted q (child b n cs) (i, a, h) =
      IsSorted-append (node_leaves n) (child_leaves cs)
        (elim i [
          | inl (v, e, p, k) ↦ rw p (tt, tt)
          | inr (l, m) ↦ node-IsSorted (q ++ (b ∷ [])) n m
        ])
        (children-IsSorted q cs h)
        (all_entries_map (λ e u. children-AllBehind q e.key b cs u h a) (node_leaves n)
          (child-Under q b n i))

mutual
  unfolding IsNode node_leaves

  pub node-IsKey :
      (π : Bytes) (n : Node) → IsNode π n → All (λ (e : Entry). IsKey e.key) (node_leaves n)
  node-IsKey π (leaf k v) (t, i) = (i, tt)
  node-IsKey π (inner kind h cs) (p, z, e, l, m, y, c) = children-IsKey (π ++ p) cs c

  children-IsKey :
      (q : Bytes) (cs : Children)
      → IsChildren q cs
      → All (λ (e : Entry). IsKey e.key) (child_leaves cs)
  children-IsKey q nil h = tt
  children-IsKey q (child b n cs) (i, a, h) =
      All-append (λ (e : Entry). IsKey e.key) (node_leaves n) (child_leaves cs)
        (elim i [ inl (v, e, p, k) ↦ rw p (k, tt) | inr (l, m) ↦ node-IsKey (q ++ (b ∷ [])) n m ])
        (children-IsKey q cs h)
