-- ===== src/Art/Lookup.antt =====
-- `Get` finds in a well-formed tree of internal/art what its leaves say.
use mathlib.Core.Path.{subst}
use kora_engine.Prelude.{
  ℕ, ◌+◌, ◌≤◌, ◌≡◌, refl, sym, ap, ◌∙◌, ◌≢◌, ◌⊎◌, inl, inr, true, false, none, List, [], ◌∷◌, ◌++◌,
  length, arith, append-nil, append_assoc, All-append, drop, ltb, leb, take-append, drop-append,
  length-append, Bool-cases, ◌==◌, All-append_right,
}
use kora_engine.Prelude.Order.{Bytes, bytes_equal, gt_of_Before}
use kora_engine.Sstable.{Entry}
use kora_engine.Memtable.Sorted.{lookup, AllBehind}
use kora_engine.Memtable.Parts.{
  AllOther, all_entries_map, lookup-other, lookup-append_other, lookup-append_left,
}
use kora_engine.Art.{
  Node, leaf, inner, Header, Children, nil, child, branch, next_depth, shared, max_prefix_len,
  node_leaves, child_leaves, clamped, prefix_match, get_node, get_child,
}
use kora_engine.Art.Paths.{Nonzero, Under, not_equal-Under, parted}
use kora_engine.Art.Shape.{
  IsNode, IsChildren, Tail, children-Tail, children-AllBehind, child-AllOther,
}

pub prefix_match_lem :
    (h : Header) (p z π r : Bytes)
    → h.prefix ≡ p ++ z
    → h.prefix_len ≡ length p
    → length p ≤ max_prefix_len
    → prefix_match h (π ++ r) (length π) ≡ shared p r
unfolding prefix_match clamped
prefix_match_lem h p z π r e l m =
    let c : ltb max_prefix_len (length p) ≡ false = ground arith in
    rw (l, c, e, take-append p z, drop-append π r) refl

pub drop-two : (π p t : Bytes) → drop (length π + length p) (π ++ (p ++ t)) ≡ t
drop-two π p t = rw (sym (append_assoc π p t), sym (length-append π p)) (drop-append (π ++ p) t)

pub below_inner :
    (q t : Bytes) (b : ℕ) → next_depth (q ++ (b ∷ t)) (length q) ≡ length (q ++ (b ∷ []))
unfolding next_depth
below_inner q t b =
    let l = length-append q (b ∷ t) in
    let c : leb (length (q ++ (b ∷ t))) (length q) ≡ false = rw l (ground arith) in
    rw (c, length-append q (b ∷ [])) (omega arith)

pub step_into : (t : Bytes) (c : ℕ) → branch t ≡ c → 1 ≤ c → (s : Bytes) × (t ≡ c ∷ s)
unfolding branch
step_into [] c e l = absurd (omega arith)
step_into (x ∷ s) c e l = (s, ap (λ y. y ∷ s) e)

AllOther-of_behind : (k : Bytes) (es : List Entry) → AllBehind k es → AllOther k es
unfolding bytes_equal
AllOther-of_behind k [] h = tt
AllOther-of_behind k (e ∷ es) (h, hs) =
    (rw (gt_of_Before k e.key h) refl, AllOther-of_behind k es hs)

-- Below a node that is split, a leaf goes on with what was left of the prefix.
pub split_Under :
    (π a s k : Bytes)
    → Nonzero s
    → 1 ≤ branch s
    → Tail (π ++ (a ++ s)) k
    → Under (π ++ a) (branch s) k
unfolding branch
split_Under π a [] k y l w = absurd (omega arith)
split_Under π a (x ∷ s) k (y, ys) l (w, e, z) = (
  x ∷ s ++ w,
  e
      ∙ append_assoc π (a ++ (x ∷ s)) w
      ∙ ap (λ u. π ++ u) (append_assoc a (x ∷ s) w)
      ∙ sym (append_assoc π a (x ∷ s ++ w)),
  (y, All-append (λ (x : ℕ). 1 ≤ x) s w ys z),
  refl,
)

-- The prefix of a node is matched, or left in front of a byte of it.
abbrev pub Reach : Bytes → Bytes → Type 0
Reach p r =
    ((t : Bytes) × (r ≡ p ++ t) × Nonzero t)
    ⊎ ((a : Bytes) × (s : Bytes) × (t : Bytes) × (p ≡ a ++ s)
        × (r ≡ a ++ t)
        × (shared p r ≡ length a)
        × (1 ≤ branch s)
        × (branch s ≢ branch t))

pub reach : (p r : Bytes) → Nonzero p → Nonzero r → Reach p r
unfolding branch
reach p r y z = let (a, s, t, f, g, o, d) = parted p r y z in of_parts a s t f g o d
  where
    of_parts :
        (a s t : Bytes)
        → p ≡ a ++ s
        → r ≡ a ++ t
        → shared p r ≡ length a
        → ((s ≡ []) × (t ≡ [])) ⊎ (branch s ≢ branch t)
        → Reach p r
    of_parts a [] t f g o d =
        let e : p ≡ a = f ∙ append-nil a in
        inl (t, rw e g, All-append_right (λ (x : ℕ). 1 ≤ x) a t (subst Nonzero g z))
    of_parts a (x ∷ s) t f g o (inl (u, w)) = cc
    of_parts a (x ∷ s) t f g o (inr d) = inr (
      a,
      x ∷ s,
      t,
      f,
      g,
      o,
      (All-append_right (λ (x : ℕ). 1 ≤ x) a (x ∷ s) (subst Nonzero f y)).0,
      d,
    )

shared-append : (p t : Bytes) → shared p (p ++ t) ≡ length p
unfolding shared
shared-append [] t = refl
shared-append (x ∷ p) t = let c : (x == x) ≡ true = ground arith in rw (c, shared-append p t) refl

-- A node whose prefix the key has.
abbrev pub HasPrefix : Header → Bytes → Bytes → Type 0
HasPrefix h p z = (h.prefix ≡ p ++ z) × (h.prefix_len ≡ length p) × (length p ≤ max_prefix_len)

pub into_inner :
    (h : Header) (p z π t : Bytes)
    → HasPrefix h p z
    → (ltb (prefix_match h (π ++ (p ++ t)) (length π)) h.prefix_len ≡ false)
      × (drop (length π + h.prefix_len) (π ++ (p ++ t)) ≡ t)
      × (next_depth (π ++ (p ++ t)) (length π + h.prefix_len)
          ≡ next_depth ((π ++ p) ++ t) (length (π ++ p)))
into_inner h p z π t (e, l, m) = (
  rw (prefix_match_lem h p z π (p ++ t) e l m, shared-append p t, l) (ground arith),
  rw l (drop-two π p t),
  rw (l, append_assoc π p t, length-append π p) refl,
)

-- A key that leaves the prefix of a node is none of its leaves'.
pub apart_leaves :
    (π a s t : Bytes) (cs : Children)
    → Nonzero (a ++ s)
    → Nonzero (a ++ t)
    → 1 ≤ branch s
    → branch s ≢ branch t
    → IsChildren (π ++ (a ++ s)) cs
    → AllOther (π ++ (a ++ t)) (child_leaves cs)
apart_leaves π a s t cs y z l d c =
    all_entries_map
      (λ e w.
        not_equal-Under (π ++ a) e.key (π ++ (a ++ t)) (branch s) (branch t)
          (split_Under π a s e.key (All-append_right (λ (x : ℕ). 1 ≤ x) a s y) l w)
          (t, sym (append_assoc π a t), All-append_right (λ (x : ℕ). 1 ≤ x) a t z, refl) d)
      (child_leaves cs) (children-Tail (π ++ (a ++ s)) cs c)

pub shorter :
    (a s : Bytes) → 1 ≤ branch s → {p : Bytes} → p ≡ a ++ s → ltb (length a) (length p) ≡ true
unfolding branch
shorter a [] b f = absurd (omega arith)
shorter a (x ∷ s) b f = rw (f, length-append a (x ∷ s)) (ground arith)

mutual
  unfolding IsNode node_leaves get_node

  pub get_node-lookup :
      (n : Node) (π r : Bytes)
      → IsNode π n
      → Nonzero r
      → get_node n (π ++ r) (length π) ≡ lookup (node_leaves n) (π ++ r)
  get_node-lookup (leaf k v) π r i z = refl
  get_node-lookup (inner kind h cs) π r (p, z, e, l, m, y, c) nz = elim (reach p r y nz) [
    | inl (t, q, w) ↦
        let (x, d, b) = into_inner h p z π t (e, l, m) in
        let k : π ++ (p ++ t) ≡ (π ++ p) ++ t = sym (append_assoc π p t) in
        let ih = get_child-lookup cs (π ++ p) t c w in rw (q, x, d, b, k) ih
    | inr (a, s, t, f, g, o, b, d) ↦
        let none_of =
          apart_leaves π a s t cs (subst Nonzero f y) (subst Nonzero g nz) b d
            (subst (λ u. IsChildren (π ++ u) cs) f c) in
        let x : ltb (length a) (length p) ≡ true = shorter a s b f in
        rw (prefix_match_lem h p z π r e l m, o, l, x)
          (sym (
            subst (λ u. lookup (child_leaves cs) (π ++ u) ≡ none) (sym g)
              (lookup-other (π ++ (a ++ t)) (child_leaves cs) none_of)))
  ]

  get_child-lookup :
      (cs : Children) (q t : Bytes)
      → IsChildren q cs
      → Nonzero t
      → get_child cs (branch t) (q ++ t) (next_depth (q ++ t) (length q))
        ≡ lookup (child_leaves cs) (q ++ t)
  get_child-lookup nil q t i z = refl
  get_child-lookup (child c n cs) q t (i, a, h) z = elim (Bool-cases (c == branch t)) [
    | inl e ↦
        let same : branch t ≡ c = ground arith in
        let others =
          AllOther-of_behind (q ++ t) (child_leaves cs)
            (children-AllBehind q (q ++ t) c cs (t, refl, z, same) h a) in
        rw (e, lookup-append_left (q ++ t) (node_leaves n) (child_leaves cs) others)
          (elim i [
            | inl (v, o, p, k) ↦ rw p refl
            | inr (l, m) ↦
                let (s, f) = step_into t c same l in
                let k : q ++ (c ∷ s) ≡ (q ++ (c ∷ [])) ++ s = sym (append_assoc q (c ∷ []) s) in
                let ih =
                  get_node-lookup n (q ++ (c ∷ [])) s m
                    (All-append_right (λ (x : ℕ). 1 ≤ x) (c ∷ []) s (subst Nonzero f z)) in
                rw (f, below_inner q s c, k) ih
          ])
    | inr e ↦
        let diff : c ≢ branch t = λ p. ground arith in
        rw
          (
            e,
            lookup-append_other (q ++ t) (node_leaves n) (child_leaves cs)
                (child-AllOther q (q ++ t) (branch t) c n (t, refl, z, refl) i diff),
          )
          (get_child-lookup cs q t h z)
  ]
