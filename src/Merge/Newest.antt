-- ===== src/Merge/Newest.antt =====
-- What a merge of sorted sources should say of a key: what the newest source says that speaks of it.
use kora_engine.Prelude.{
  ◌<◌, ◌≡◌, ◌⊎◌, refl, sym, ap, ◌∙◌, false, List, [], ◌∷◌, ◌++◌, inl, inr, All,
}
use kora_engine.Prelude.Order.{
  Bytes, Before, compare_bytes, compare_bytes_refl, eq_of_compare, is_gt, Ordering-cases,
  Before-trans,
}
use kora_engine.Sstable.{Entry}
use kora_engine.Sstable.Reader.{Lookup, absent, found, deleted, failed}
use kora_engine.Sstable.Scanning.{find_entry}
use kora_engine.Merge.{Slot}

-- What the newer of two sources says, or the older one where the newer does not speak of the key.
abbrev pub prefer : Lookup → Lookup → Lookup
prefer absent older = older
prefer (found v) older = found v
prefer deleted older = deleted
prefer failed older = failed

-- What the sources, newest first, say of a key.
unfoldable pub newest : Bytes → List (List Entry) → Lookup
newest key [] = absent
newest key (src ∷ srcs) = prefer (find_entry key src) (newest key srcs)

-- What is left of it when the deletions are dropped.
abbrev pub live : Lookup → Lookup
live (found v) = found v
live _ = absent

abbrev pub entries_of : Slot → List Entry
entries_of s = s.head ∷ s.iter

abbrev pub contents : List Slot → List (List Entry)
contents [] = []
contents (s ∷ heap) = entries_of s ∷ contents heap

-- The slots stand in the order of their sources.
abbrev pub IsOrdered : List Slot → Type 0
IsOrdered [] = Unit
IsOrdered (s ∷ heap) = All (λ (t : Slot). s.idx < t.idx) heap × IsOrdered heap

-- `key` is at `bound` or behind it.
abbrev pub NotBefore : Bytes → Bytes → Type 0
NotBefore bound key = is_gt (compare_bytes bound key) ≡ false

pub prefer-absent : (l : Lookup) → prefer l absent ≡ l
prefer-absent absent = refl
prefer-absent (found v) = refl
prefer-absent deleted = refl
prefer-absent failed = refl

pub prefer_assoc : (a b c : Lookup) → prefer (prefer a b) c ≡ prefer a (prefer b c)
prefer_assoc absent b c = refl
prefer_assoc (found v) b c = refl
prefer_assoc deleted b c = refl
prefer_assoc failed b c = refl

pub newest-append :
    (key : Bytes) (front back : List (List Entry))
    → newest key (front ++ back) ≡ prefer (newest key front) (newest key back)
unfolding newest
newest-append key [] back = refl
newest-append key (src ∷ front) back =
    ap (prefer (find_entry key src)) (newest-append key front back)
    ∙ sym (prefer_assoc (find_entry key src) (newest key front) (newest key back))

pub contents-append : (a b : List Slot) → contents (a ++ b) ≡ contents a ++ contents b
contents-append [] b = refl
contents-append (s ∷ a) b = ap (λ l. entries_of s ∷ l) (contents-append a b)

-- A cut of the heap around one slot.
pub record Cut (heap : List Slot) (l : Slot) (rest : List Slot) : Type 0 where
  pub front : List Slot
  pub back : List Slot
  pub whole : heap ≡ front ++ (l ∷ back)
  pub others : rest ≡ front ++ back
  pub ahead : All (λ (t : Slot). Before l.head.key t.head.key) front
  pub behind : All (λ (t : Slot). NotBefore l.head.key t.head.key) back

-- `NotBefore`, as the two cases that it leaves.
pub NotBefore-cases : (a b : Bytes) → NotBefore a b → (a ≡ b) ⊎ Before a b
NotBefore-cases a b h = elim (Ordering-cases (compare_bytes a b)) [
  | inl e ↦ inr e
  | inr (inl e) ↦ inl (eq_of_compare a b e)
  | inr (inr e) ↦ absurd (cc (e, h))
]

pub NotBefore_of_Before : (a b : Bytes) → Before a b → NotBefore a b
NotBefore_of_Before a b h = rw h

pub NotBefore_refl : (a : Bytes) → NotBefore a a
NotBefore_refl a = rw (compare_bytes_refl a)

pub NotBefore-Before : (a b c : Bytes) → NotBefore a b → Before b c → Before a c
NotBefore-Before a b c k h = elim (NotBefore-cases a b k) [
  | inl e ↦ rw e h
  | inr l ↦ Before-trans a b c l h
]

pub Before-NotBefore : (a b c : Bytes) → Before a b → NotBefore b c → Before a c
Before-NotBefore a b c h k = elim (NotBefore-cases b c k) [
  | inl e ↦ rw (sym e) h
  | inr l ↦ Before-trans a b c h l
]

pub NotBefore_trans : (a b c : Bytes) → NotBefore a b → NotBefore b c → NotBefore a c
NotBefore_trans a b c h k = elim (NotBefore-cases b c k) [
  | inl e ↦ rw (sym e) h
  | inr l ↦ NotBefore_of_Before a c (NotBefore-Before a b c h l)
]
