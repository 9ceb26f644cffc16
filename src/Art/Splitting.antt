-- ===== src/Art/Splitting.antt =====
-- `insertNode` of internal/art where it makes a new node: in place of a leaf, and above a node.
use mathlib.Core.Path.{subst}
use kora_engine.Prelude.{
  ℕ, zero, suc, ◌+◌, ◌-◌, ◌≤◌, ◌≡◌, refl, sym, ap, ◌∙◌, ◌≢◌, inl, inr, true, false, Option, List,
  [], ◌∷◌, ◌++◌, length, arith, append-nil, append_assoc, ltb, length-append, Bool-cases, take,
  drop, replicate, take-append, drop-append, All-append_left, All-append_right,
}
use kora_engine.Prelude.Order.{Bytes, bytes_equal, bytes_equal_refl}
use kora_engine.Sstable.{Entry}
use kora_engine.Memtable.Sorted.{put}
use kora_engine.Art.{
  leaf, inner, Header, Kind, node4, Children, nil, child, branch, node_leaves, child_leaves,
  max_prefix_len, insert_sorted, put_child, add_child, grown_kind, count_children, add_leaf, fork,
  filled, clamped, shared_prefix, shared, cut_header, adopt, split_node, shifted,
}
use kora_engine.Art.Paths.{Nonzero, parted}
use kora_engine.Art.Shape.{IsNode, IsChildren, IsChild, IsKey}
use kora_engine.Art.Lookup.{HasPrefix, drop-two}
use kora_engine.Art.Adding.{Good, leaf-IsChild, add_child-Good}

take_short : (n : ℕ) (a : Bytes) → length a ≤ n → take n a ≡ a
take_short zero [] h = refl
take_short zero (x ∷ a) h = absurd (omega arith)
take_short (suc n) [] h = refl
take_short (suc n) (x ∷ a) h = ap (λ l. x ∷ l) (take_short n a (omega arith))

-- The array of a new node begins with the bytes that are copied to it.
pub new_HasPrefix :
    (a s bs : Bytes)
    → bs ≡ a ++ s
    → length a ≤ max_prefix_len
    → (z : Bytes) × HasPrefix
        (record { prefix_len = length a; prefix = filled (take (clamped (length a)) bs) })
        a
        z
unfolding filled clamped
new_HasPrefix a s bs e h =
    let c : ltb max_prefix_len (length a) ≡ false = ground arith in
    let f : filled (take (clamped (length a)) bs) ≡ a ++ replicate (max_prefix_len - length a) 0 =
      rw (c, e, take-append a s, take_short max_prefix_len a h) refl in
    (replicate (max_prefix_len - length a) 0, (f, refl, h))

module _ (π a s t : Bytes) (v : Option Bytes) (y : Nonzero (a ++ s)) (w : Nonzero (a ++ t))
    (d : branch s ≢ branch t) (k : IsKey (π ++ (a ++ t))) where
  fork_parts :
      (v0 : Option Bytes)
      → IsKey (π ++ (a ++ s))
      → length a ≤ max_prefix_len
      → shared (a ++ s) (a ++ t) ≡ length a
      → Good π
          (leaf (π ++ (a ++ s)) v0)
          (π ++ (a ++ t))
          v
          (fork (π ++ (a ++ s)) v0 (π ++ (a ++ t)) v (length π), true)
  unfolding fork shared_prefix add_leaf add_child grown_kind count_children put_child insert_sorted
      IsNode node_leaves
  fork_parts v0 k0 l o =
      let (z, hp) = new_HasPrefix a s (a ++ s) refl l in
      let h : Header = record {
        prefix_len = length a;
        prefix = filled (take (clamped (length a)) (a ++ s));
      } in
      let zs = All-append_right (λ (x : ℕ). 1 ≤ x) a s y in
      let zt = All-append_right (λ (x : ℕ). 1 ≤ x) a t w in
      let e = append_assoc π a s in
      let one =
        subst (λ u. IsChild (π ++ a) (branch s) (leaf u v0)) e
          (leaf-IsChild (π ++ a) s v0 zs (subst IsKey (sym e) k0)) in
      let good =
        add_child-Good node4 h (child (branch s) (leaf (π ++ (a ++ s)) v0) nil) π a z t v hp
          (All-append_left (λ (x : ℕ). 1 ≤ x) a s y) (one, tt, tt) (d, tt) zt k in
      rw (drop-append π (a ++ s), drop-append π (a ++ t), o, drop-two π a s, drop-two π a t) good

fork_of_parts :
    (π r0 r a s t : Bytes) (v0 v : Option Bytes)
    → Nonzero r0
    → Nonzero r
    → IsKey (π ++ r0)
    → IsKey (π ++ r)
    → r0 ≡ a ++ s
    → r ≡ a ++ t
    → shared r0 r ≡ length a
    → branch s ≢ branch t
    → Good π (leaf (π ++ r0) v0) (π ++ r) v (fork (π ++ r0) v0 (π ++ r) v (length π), true)
fork_of_parts π r0 r a s t v0 v z0 z k0 k f g o n =
    let l0 = length-append π r0 in
    let l1 : length r0 ≡ length (a ++ s) = ap (λ (u : Bytes). length u) f in
    let l2 = length-append a s in
    let o' : shared (a ++ s) (a ++ t) ≡ length a = rw (sym f, sym g) o in
    rw (f, g)
      (fork_parts π a s t v (subst Nonzero f z0) (subst Nonzero g z) n
        (subst (λ u. IsKey (π ++ u)) g k) v0 (subst (λ u. IsKey (π ++ u)) f k0)
        (omega (arith, l0, l1, l2, k0.1)) o')

pub fork-Good :
    (π r0 r : Bytes) (v0 v : Option Bytes)
    → Nonzero r0
    → Nonzero r
    → IsKey (π ++ r0)
    → IsKey (π ++ r)
    → bytes_equal (π ++ r0) (π ++ r) ≡ false
    → Good π (leaf (π ++ r0) v0) (π ++ r) v (fork (π ++ r0) v0 (π ++ r) v (length π), true)
fork-Good π r0 r v0 v z0 z k0 k d =
    let (a, s, t, f, g, o, w) = parted r0 r z0 z in
    elim w [
      | inl (p, q) ↦
          let same : r0 ≡ r = f ∙ ap (λ u. a ++ u) (p ∙ sym q) ∙ sym g in
          absurd (cc (d, bytes_equal_refl (π ++ r), same))
      | inr n ↦ fork_of_parts π r0 r a s t v0 v z0 z k0 k f g o n
    ]

cut_HasPrefix :
    (h : Header) (a s z : Bytes) (x : ℕ)
    → HasPrefix h (a ++ (x ∷ s)) z
    → (y : Bytes) × HasPrefix (cut_header h (length a)) s y
unfolding cut_header shifted clamped
cut_HasPrefix h a s z x (e, l, m) =
    let n = length-append a (x ∷ s) in
    let left : h.prefix_len - (length a + 1) ≡ length s = omega (arith, l, n) in
    let c : ltb max_prefix_len (length a + 1) ≡ false = ground (arith, n) in
    let behind : drop (length a + 1) h.prefix ≡ s ++ z =
      rw (e, append_assoc a (x ∷ s) z) (drop-two a (x ∷ []) (s ++ z)) in
    elim (Bool-cases (ltb 0 (length s))) [
      | inl t ↦
          let tail = drop (max_prefix_len - (length a + 1)) h.prefix in
          (z ++ tail, (rw (left, t, c, behind) (append_assoc s z tail), left, omega (arith, n)))
      | inr t ↦ (
        h.prefix,
        (rw (left, t) (ap (λ u. u ++ h.prefix) (sym (empty_of s t))), left, omega (arith, n)),
      )
    ]
  where
    empty_of : (u : Bytes) → ltb 0 (length u) ≡ false → u ≡ []
    empty_of [] t = refl
    empty_of (b ∷ u) t = absurd (ground arith)

pub split_node-Good :
    (kind : Kind) (h : Header) (cs : Children) (π a s z t : Bytes) (x : ℕ) (v : Option Bytes)
    → HasPrefix h (a ++ (x ∷ s)) z
    → Nonzero (a ++ (x ∷ s))
    → IsChildren (π ++ (a ++ (x ∷ s))) cs
    → x ≢ branch t
    → Nonzero t
    → IsKey (π ++ (a ++ t))
    → Good π
        (inner kind h cs)
        (π ++ (a ++ t))
        v
        (split_node kind h cs (π ++ (a ++ t)) v (length π) (length a), true)
unfolding split_node add_leaf adopt branch IsNode node_leaves
split_node-Good kind h cs π a s z t x v (e, l, m) y c d w k =
    let n = length-append a (x ∷ s) in
    let e' : h.prefix ≡ a ++ (x ∷ s ++ z) = e ∙ append_assoc a (x ∷ s) z in
    let byte : branch (drop (length a) h.prefix) ≡ x = rw (e', drop-append a (x ∷ s ++ z)) refl in
    let (z', hp) = new_HasPrefix a (x ∷ s ++ z) h.prefix e' (omega (arith, n)) in
    let (y', (ce, cl, cm)) = cut_HasPrefix h a s z x (e, l, m) in
    let (xz, sz) = All-append_right (λ (u : ℕ). 1 ≤ u) a (x ∷ s) y in
    let path = append_assoc (π ++ a) (x ∷ []) s ∙ append_assoc π a (x ∷ s) in
    let below_cut : IsNode ((π ++ a) ++ (x ∷ [])) (inner kind (cut_header h (length a)) cs) =
      (s, y', ce, cl, cm, sz, subst (λ u. IsChildren u cs) (sym path) c) in
    let n4 : Header = record {
      prefix_len = length a;
      prefix = filled (take (clamped (length a)) h.prefix);
    } in
    let (good, put_in, longer) =
      add_child-Good node4 n4 (child x (inner kind (cut_header h (length a)) cs) nil) π a z' t v hp
        (All-append_left (λ (u : ℕ). 1 ≤ u) a (x ∷ s) y) (inr (xz, below_cut), tt, tt) (d, tt) w
        k in
    let nothing = append-nil (child_leaves cs) in
    rw (byte, drop-two π a t)
      (
        good,
        put_in ∙ ap (λ l. put l (π ++ (a ++ t)) v) nothing,
        longer ∙ ap (λ (l : List Entry). length l + 1) nothing,
      )
