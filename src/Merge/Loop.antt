-- ===== src/Merge/Loop.antt =====
-- The loop that both merges share, on any sorted sources: what it emits against what the sources say.
use mathlib.Core.Path.{subst}
use kora_engine.Prelude.{
  ℕ, zero, suc, ◌<◌, ◌≡◌, refl, sym, ap, ◌∙◌, false, Option, none, some, List, [], ◌∷◌, ◌++◌, arith,
  inl, inr, All, All-append, All-append_left, All-append_right_head,
}
use kora_engine.Prelude.Order.{
  Bytes, Before, compare_bytes, eq_of_compare, bytes_equal, gt_of_Before, Before-of_gt,
  Ordering-cases, Before-trans, bytes_equal_refl,
}
use kora_engine.Sstable.{Entry}
use kora_engine.Sstable.Reader.{absent, entry_lookup}
use kora_engine.Sstable.Layout.{IsSorted}
use kora_engine.Sstable.Scanning.{find_entry, find_entry-behind}
use kora_engine.Merge.{Slot, pop, push_next, is_new, next_last}
use kora_engine.Merge.Newest.{
  prefer, newest, live, entries_of, contents, IsOrdered, NotBefore, NotBefore-cases,
  Before-NotBefore,
}
use kora_engine.Merge.Heap.{pop-Cut, newest_ahead, find_entry_past, find_entry_here}
use kora_engine.Merge.Advance.{
  IsSource, Past, Reached, heap_size, IsHeap, emitted, kept, merged, IsAdvanced, newest-contents,
  advance,
}

-- What the merge emits behind `last`.
pub record IsMerged (last : Option Bytes) (heap : List Slot) (out : List Entry) : Type 0 where
  pub behind : All (λ (e : Entry). Past last e.key) out
  pub sorted : IsSorted out
  pub says : (key : Bytes) → Past last key → find_entry key out ≡ live (newest key (contents heap))

Past_trans : (last : Option Bytes) (m key : Bytes) → Past last m → Before m key → Past last key
Past_trans none m key p b = tt
Past_trans (some k) m key p b = Before-trans k m key p b

all_Past :
    (last : Option Bytes) (m : Bytes) (es : List Entry)
    → Past last m
    → All (λ (e : Entry). Before m e.key) es
    → All (λ (e : Entry). Past last e.key) es
all_Past last m [] p h = tt
all_Past last m (e ∷ es) p (h, hs) = (Past_trans last m e.key p h, all_Past last m es p hs)

all_Before :
    (k m : Bytes) (es : List Entry)
    → Before k m
    → All (λ (e : Entry). Before m e.key) es
    → All (λ (e : Entry). Before k e.key) es
all_Before k m [] p h = tt
all_Before k m (e ∷ es) p (h, hs) = (Before-trans k m e.key p h, all_Before k m es p hs)

-- A round with a new key `m`.
step_new :
    (last : Option Bytes) (m : Bytes) (value : Option Bytes) (more : List Entry)
    (heap heap' : List Slot)
    → Past last m
    → IsMerged (some m) heap' more
    → ((k : Bytes) → Before k m → newest k (contents heap) ≡ absent)
    → live (newest m (contents heap)) ≡ live (entry_lookup value)
    → ((k : Bytes) → Before m k → newest k (contents heap') ≡ newest k (contents heap))
    → IsMerged last heap (emitted m value more)
unfolding emitted entry_lookup
step_new last m none more heap heap' p r below here above = record {
  behind = all_Past last m more p r.behind;
  sorted = r.sorted;
  says = λ key q. elim (Ordering-cases (compare_bytes key m)) [
    | inl b ↦
        find_entry-behind key more (all_Before key m more b r.behind) ∙ ap live (sym (below key b))
    | inr (inl e) ↦
        let e' = eq_of_compare key m e in rw e' (find_entry-behind m more r.behind ∙ sym here)
    | inr (inr g) ↦ let b = Before-of_gt key m g in r.says key b ∙ ap live (above key b)
  ];
}
step_new last m (some v) more heap heap' p r below here above =
    let e : Entry = record { key = m; value = some v } in
    record {
      behind = (p, all_Past last m more p r.behind);
      sorted = (r.behind, r.sorted);
      says = λ key q. elim (Ordering-cases (compare_bytes key m)) [
        | inl b ↦
            find_entry-behind key (e ∷ more) (b, all_Before key m more b r.behind)
            ∙ ap live (sym (below key b))
        | inr (inl q) ↦ let q' = eq_of_compare key m q in rw q' (find_entry_here e more ∙ sym here)
        | inr (inr g) ↦
            let b = Before-of_gt key m g in
            find_entry_past key e more b ∙ r.says key b ∙ ap live (above key b)
      ];
    }

bytes_equal_past : (k m : Bytes) → Before k m → bytes_equal m k ≡ false
unfolding bytes_equal
bytes_equal_past k m b = rw (gt_of_Before k m b)

next_last-some :
    (copy : Bytes → Option Bytes) (last : Option Bytes) (e : Entry)
    → Reached last e.key
    → copy e.key ≡ some e.key
    → next_last copy last e ≡ some e.key
unfolding next_last is_new
next_last-some copy none e r c = c
next_last-some copy (some k) e r c = elim (NotBefore-cases k e.key r) [
  | inl q ↦ rw q (rw (bytes_equal_refl e.key))
  | inr b ↦ rw (bytes_equal_past k e.key b) c
]

-- What the sources say before and behind a round in which the slot `l` was taken.
module _ (copy : Bytes → Option Bytes) (l : Slot) (front back heap : List Slot)
    (s : All (λ (u : Slot). IsSource copy (entries_of u)) (front ++ (l ∷ back)))
    (ahead : All (λ (t : Slot). Before l.head.key t.head.key) front)
    (behind : All (λ (t : Slot). NotBefore l.head.key t.head.key) back)
    (a : IsAdvanced copy l front back heap) where
  abbrev m : Bytes
  m = l.head.key

  IsSorted-slots :
      (h : List Slot)
      → All (λ (u : Slot). IsSource copy (entries_of u)) h
      → All (λ (u : Slot). IsSorted (entries_of u)) h
  IsSorted-slots [] s = tt
  IsSorted-slots (u ∷ h) (s, ss) = (s.0, IsSorted-slots h ss)

  below_round : (k : Bytes) → Before k m → newest k (contents (front ++ (l ∷ back))) ≡ absent
  below_round k b =
      newest_ahead k (front ++ (l ∷ back))
        (All-append (λ (t : Slot). Before k t.head.key) front (l ∷ back) (on_front front ahead)
          (b, on_back back behind))
        (IsSorted-slots (front ++ (l ∷ back)) s)
    where
      on_front :
          (h : List Slot)
          → All (λ (t : Slot). Before m t.head.key) h
          → All (λ (t : Slot). Before k t.head.key) h
      on_front [] g = tt
      on_front (t ∷ h) (g, gs) = (Before-trans k m t.head.key b g, on_front h gs)

      on_back :
          (h : List Slot)
          → All (λ (t : Slot). NotBefore m t.head.key) h
          → All (λ (t : Slot). Before k t.head.key) h
      on_back [] g = tt
      on_back (t ∷ h) (g, gs) = (Before-NotBefore k m t.head.key b g, on_back h gs)

  at_round : live (newest m (contents (front ++ (l ∷ back)))) ≡ live (entry_lookup l.head.value)
  unfolding newest entry_lookup
  at_round =
      ap live (
        newest-contents m front (l ∷ back)
        ∙ ap (λ x. prefer x (newest m (contents (l ∷ back))))
            (newest_ahead m front ahead (
              IsSorted-slots front
                (All-append_left (λ (u : Slot). IsSource copy (entries_of u)) front (l ∷ back) s)))
        ∙ ap (λ x. prefer x (newest m (contents back))) (find_entry_here l.head l.iter))
      ∙ of_value l.head.value
    where
      of_value :
          (v : Option Bytes)
          → live (prefer (entry_lookup v) (newest m (contents back))) ≡ live (entry_lookup v)
      of_value none = refl
      of_value (some v) = refl

  above_round :
      (k : Bytes)
      → Before m k
      → newest k (contents heap) ≡ newest k (contents (front ++ (l ∷ back)))
  unfolding newest
  above_round k b =
      a.says k
      ∙ ap (λ x. prefer (newest k (contents front)) (prefer x (newest k (contents back))))
          (sym (find_entry_past k l.head l.iter b))
      ∙ sym (newest-contents k front (l ∷ back))

  -- A round: its key is new, or it is the last key again.
  step_round :
      (last : Option Bytes) (more : List Entry)
      → Reached last m
      → IsMerged (some m) heap more
      → IsMerged last (front ++ (l ∷ back)) (kept last l.head more)
  unfolding kept is_new emitted
  step_round none more r g =
      step_new none m l.head.value more (front ++ (l ∷ back)) heap tt g below_round at_round
        above_round
  step_round (some k) more r g = elim (NotBefore-cases k m r) [
    | inl e ↦ rw e (rw (bytes_equal_refl m) (same g))
    | inr b ↦ rw (bytes_equal_past k m b) (
        step_new (some k) m l.head.value more (front ++ (l ∷ back)) heap b g below_round at_round
          above_round)
  ]
    where
      same : IsMerged (some m) heap more → IsMerged (some m) (front ++ (l ∷ back)) more
      same g = record {
        behind = g.behind;
        sorted = g.sorted;
        says = λ key p. g.says key p ∙ ap live (above_round key p);
      }

pub merged_lem :
    (copy : Bytes → Option Bytes) (fuel : ℕ) (last : Option Bytes) (heap : List Slot)
    → IsHeap copy last heap
    → heap_size heap < fuel
    → IsMerged last heap (merged copy fuel last heap)
unfolding merged
merged_lem copy zero last heap h f = absurd (omega arith)
merged_lem copy (suc fuel) last [] h f = record {
  behind = tt;
  sorted = tt;
  says = λ key p. unfold find_entry newest in refl;
}
merged_lem copy (suc fuel) last (t ∷ heap) h f =
    let c = pop-Cut t heap h.ordered in
    let l = (pop t heap).0 in
    let o = subst IsOrdered c.whole h.ordered in
    let s = subst (All (λ (u : Slot). IsSource copy (entries_of u))) c.whole h.sources in
    let a = advance copy l.head l.idx l.iter c.front c.back o s c.ahead c.behind in
    let r =
      All-append_right_head (λ (u : Slot). Reached last u.head.key) c.front l c.back
        (subst (All (λ (u : Slot). Reached last u.head.key)) c.whole h.reached) in
    let k = All-append_right_head (λ (u : Slot). IsSource copy (entries_of u)) c.front l c.back s in
    let size = a.size in
    let g =
      merged_lem copy fuel (some l.head.key) _ a.heap_ok (omega (arith, ap heap_size c.whole)) in
    rw (next_last-some copy last l.head r k.1.0, c.others)
      (subst
        (λ w. IsMerged last w (
          kept last l.head
            (merged copy fuel (some l.head.key) (push_next l.idx l.iter (c.front ++ c.back)))))
        (sym c.whole) (step_round copy l c.front c.back _ s c.ahead c.behind a last _ r g))
