-- ===== src/Sstable/Search.antt =====
-- `seekOffset` of internal/sstable/reader.go: the binary search over the sparse index.
use native.Mathlib.Decide.{dec_lt}
use kora_engine.Prelude.{
  ℕ, zero, suc, ◌+◌, ◌-◌, ◌/◌, ◌<◌, ◌≤◌, ◌≡◌, ap, Bool, true, false, List, ◌∷◌, ltb, length, arith,
  Bool-cases, inl, inr,
}
use kora_engine.Prelude.Order.{
  Bytes, Before, compare_bytes, is_gt, gt_of_gt-Before, Before-of_Before_le, is_gt_of_Before,
  gt_of_is_gt,
}
use kora_engine.Sstable.Reader.{IndexEntry, nth_key, nth_offset, search_loop, seek_offset}

-- The keys of an index in strictly ascending order.
abbrev pub AreAscending : List IndexEntry → Type 0
AreAscending index =
    (i j : ℕ) → i < j → j < length index → Before (nth_key index i) (nth_key index j)

abbrev is_beyond : List IndexEntry → Bytes → ℕ → Bool
is_beyond index key i = is_gt (compare_bytes (nth_key index i) key)

-- `count` entries, the first ones, are not beyond the key, and the others are.
pub record IsSplit (index : List IndexEntry) (key : Bytes) (lo top : ℕ) : Type 0 where
  pub within : (i : ℕ) → i < lo → is_beyond index key i ≡ false
  pub beyond : (i : ℕ) → top ≤ i → i < length index → is_beyond index key i ≡ true
  pub ordered : lo ≤ top
  pub bounded : top ≤ length index

module _ (index : List IndexEntry) (key : Bytes) (asc : AreAscending index) where
  IsSplit-left :
      (lo top mid : ℕ)
      → IsSplit index key lo top
      → lo ≤ mid
      → mid < top
      → is_beyond index key mid ≡ true
      → IsSplit index key lo mid
  IsSplit-left lo top mid s a b g =
      let ob = s.bounded in
      record {
        within = s.within;
        beyond = λ i h l. elim (dec_lt mid i) [
          | yes lt ↦ rw (
              gt_of_gt-Before (nth_key index mid) (nth_key index i) key (gt_of_is_gt _ key g)
                (asc mid i lt l))
          | no ge ↦ let e : i ≡ mid = omega arith in rw e g
        ];
        ordered = a;
        bounded = omega arith;
      }

  IsSplit-right :
      (lo top mid : ℕ)
      → IsSplit index key lo top
      → lo ≤ mid
      → mid < top
      → is_beyond index key mid ≡ false
      → IsSplit index key (mid + 1) top
  IsSplit-right lo top mid s a b g =
      let ob = s.bounded in
      record {
        within = λ i h. elim (dec_lt i mid) [
          | yes lt ↦ is_gt_of_Before (nth_key index i) key (
              Before-of_Before_le (nth_key index i) (nth_key index mid) key
                (asc i mid lt (omega arith)) g)
          | no ge ↦ let e : i ≡ mid = omega arith in rw e g
        ];
        beyond = s.beyond;
        ordered = omega arith;
        bounded = ob;
      }

  search_loop-IsSplit :
      (fuel lo top result : ℕ)
      → top < lo + suc fuel
      → IsSplit index key lo top
      → result ≡ lo - 1
      → (c : ℕ) × IsSplit index key c c × (search_loop fuel index key lo top result ≡ c - 1)
  unfolding search_loop
  search_loop-IsSplit zero lo top result f s e =
      let o = s.ordered in let t : top ≡ lo = omega arith in (lo, rw t at s, e)
  search_loop-IsSplit (suc fuel) lo top result f s e =
      let o = s.ordered in
      elim (Bool-cases (ltb lo top)) [
        | inr stop ↦ let t : top ≡ lo = ground arith in (lo, rw t at s, rw (stop, search_loop) e)
        | inl more ↦
            let lt : lo < top = ground arith in
            let mid = (lo + (top - 1)) / 2 in
            let a : lo ≤ mid = omega arith in
            let b : mid < top = omega arith in
            elim (Bool-cases (is_beyond index key mid)) [
              | inl g ↦
                  let (c, p, q) =
                    search_loop-IsSplit fuel lo mid result (omega arith)
                      (IsSplit-left lo top mid s a b g) e in
                  (c, p, rw (more, g, search_loop) q)
              | inr g ↦
                  let (c, p, q) =
                    search_loop-IsSplit fuel (mid + 1) top mid (omega arith)
                      (IsSplit-right lo top mid s a b g) (omega arith) in
                  (c, p, rw (more, g, search_loop) q)
            ]
      ]

-- On an index with ascending keys, `seekOffset` ends at the last entry that is not beyond the key,
-- and at the first one when all are beyond it: `c` entries, the first ones, are not beyond the key,
-- the others are, and the offset is that of entry number `c - 1`.
pub seek_offset-IsSplit :
    (i : IndexEntry) (is : List IndexEntry) (key : Bytes)
    → AreAscending (i ∷ is)
    → (c : ℕ) × IsSplit (i ∷ is) key c c × (seek_offset (i ∷ is) key ≡ nth_offset (i ∷ is) (c - 1))
unfolding seek_offset
seek_offset-IsSplit i is key asc =
    let index = i ∷ is in
    let s : IsSplit index key 0 (length index) = record {
      within = λ n h. absurd (omega arith);
      beyond = λ n h l. absurd (omega arith);
      ordered = omega arith;
      bounded = omega arith;
    } in
    let (c, p, q) =
      search_loop-IsSplit index key asc (length index) 0 (length index) 0 (omega arith) s
        (omega arith) in
    (c, p, ap (nth_offset index) q)
