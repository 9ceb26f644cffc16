-- ===== src/Sstable/Seek.antt =====
-- Where `seekOffset` of internal/sstable/reader.go lands in a table: at a record, behind lesser keys only.
use kora_engine.Prelude.{
  ℕ, zero, suc, ◌+◌, ◌-◌, ◌%◌, ◌<◌, ◌≡◌, refl, sym, ap, ◌∙◌, false, List, [], ◌∷◌, ◌++◌, ◌==◌,
  length, arith, Bool-cases, inl, inr, All, All-append_right_head, append_assoc, length-append,
}
use kora_engine.Prelude.Order.{Bytes, Before, compare_bytes, is_gt, Before-of_Before_le}
use kora_engine.Sstable.{Entry, index_stride}
use kora_engine.Sstable.Writer.{data_record}
use kora_engine.Sstable.Reader.{IndexEntry, nth_key, nth_offset, seek_offset}
use kora_engine.Sstable.Records.{data_section, data_section-append, length-data_section_one}
use kora_engine.Sstable.Layout.{IsSorted, index_from}
use kora_engine.Sstable.Closing.{index_of}
use kora_engine.Sstable.Search.{AreAscending, IsSplit, seek_offset-IsSplit}

All-index :
    (k : Bytes) (es : List Entry) (n off : ℕ)
    → All (λ e. Before k e.key) es
    → All (λ (i : IndexEntry). Before k i.key) (index_from n off es)
unfolding index_from
All-index k [] n off h = tt
All-index k (e ∷ es) n off (h, hs) =
    let r = All-index k es (n + 1) (off + length (data_record e)) hs in
    elim (Bool-cases (n % index_stride == 0)) [ inl t ↦ rw t (h, r) | inr t ↦ rw t r ]

nth_key_at :
    (P : Bytes → Type 0) (is : List IndexEntry) (i : ℕ)
    → All (λ (x : IndexEntry). P x.key) is
    → i < length is
    → P (nth_key is i)
unfolding nth_key
nth_key_at P [] i h l = absurd (omega arith)
nth_key_at P (x ∷ is) zero h l = h.0
nth_key_at P (x ∷ is) (suc i) h l = nth_key_at P is i h.1 (omega arith)

AreAscending-cons :
    (x : IndexEntry) (is : List IndexEntry)
    → All (λ (y : IndexEntry). Before x.key y.key) is
    → AreAscending is
    → AreAscending (x ∷ is)
unfolding nth_key
AreAscending-cons x is h a zero zero lt l = absurd (omega arith)
AreAscending-cons x is h a zero (suc j) lt l = nth_key_at (λ k. Before x.key k) is j h (omega arith)
AreAscending-cons x is h a (suc i) zero lt l = absurd (omega arith)
AreAscending-cons x is h a (suc i) (suc j) lt l = a i j (omega arith) (omega arith)

pub index_from-AreAscending :
    (es : List Entry) (n off : ℕ) → IsSorted es → AreAscending (index_from n off es)
unfolding index_from
index_from-AreAscending [] n off s = λ i j lt l. absurd (omega arith)
index_from-AreAscending (e ∷ es) n off (h, s) =
    let m = off + length (data_record e) in
    let r = index_from-AreAscending es (n + 1) m s in
    elim (Bool-cases (n % index_stride == 0)) [
      | inl t ↦
          rw t (AreAscending-cons _ (index_from (n + 1) m es) (All-index e.key es (n + 1) m h) r)
      | inr t ↦ rw t r
    ]

-- An entry of the index is that of some record, with the offset at which the record begins.
record IsIndexed (es : List Entry) (key : Bytes) (offset : ℕ) : Type 0 where
  front : List Entry
  at : Entry
  back : List Entry
  cut : es ≡ front ++ (at ∷ back)
  same_key : key ≡ at.key
  same_offset : offset ≡ length (data_section front)

index_from-IsIndexed :
    (front es : List Entry) (n off : ℕ)
    → off ≡ length (data_section front)
    → All (λ (i : IndexEntry). IsIndexed (front ++ es) i.key i.offset) (index_from n off es)
unfolding index_from
index_from-IsIndexed front [] n off h = tt
index_from-IsIndexed front (e ∷ es) n off h =
    let a : front ++ (e ∷ es) ≡ (front ++ (e ∷ [])) ++ es = sym (append_assoc front (e ∷ []) es) in
    let m = off + length (data_record e) in
    let l : m ≡ length (data_section (front ++ (e ∷ []))) = omega (
      arith,
      h,
      ap length (data_section-append front (e ∷ [])),
      length-append (data_section front) (data_section (e ∷ [])),
      length-data_section_one e,
    ) in
    let r = rw (← a) at (index_from-IsIndexed (front ++ (e ∷ [])) es (n + 1) m l) in
    elim (Bool-cases (n % index_stride == 0)) [
      | inl t ↦ rw t (
        record { front = front; at = e; back = es; cut = refl; same_key = refl; same_offset = h },
        r,
      )
      | inr t ↦ rw t r
    ]

nth-IsIndexed :
    (es : List Entry) (is : List IndexEntry) (i : ℕ)
    → All (λ (x : IndexEntry). IsIndexed es x.key x.offset) is
    → i < length is
    → IsIndexed es (nth_key is i) (nth_offset is i)
unfolding nth_key nth_offset
nth-IsIndexed es [] i h l = absurd (omega arith)
nth-IsIndexed es (x ∷ is) zero h l = h.0
nth-IsIndexed es (x ∷ is) (suc i) h l = nth-IsIndexed es is i h.1 (omega arith)

-- In sorted entries, those in front of one that is not beyond the key come before the key.
front-Before :
    (key : Bytes) (front : List Entry) (e : Entry) (back : List Entry)
    → IsSorted (front ++ (e ∷ back))
    → is_gt (compare_bytes e.key key) ≡ false
    → All (λ (f : Entry). Before f.key key) front
front-Before key [] e back s g = tt
front-Before key (f ∷ front) e back (h, s) g = (
  Before-of_Before_le f.key e.key key
      (All-append_right_head (λ (x : Entry). Before f.key x.key) front e back h) g,
  front-Before key front e back s g,
)

-- Where a search in a table starts: at the beginning of a record, and all records in front of it
-- are those of lesser keys.
pub record IsStart (es : List Entry) (key : Bytes) (offset : ℕ) : Type 0 where
  pub front : List Entry
  pub back : List Entry
  pub cut : es ≡ front ++ back
  pub at_offset : offset ≡ length (data_section front)
  pub before : All (λ (f : Entry). Before f.key key) front
  pub some_left : 0 < length back

seek-IsStart :
    (es : List Entry) (i : IndexEntry) (is : List IndexEntry) (key : Bytes)
    → IsSorted es
    → 0 < length es
    → All (λ (x : IndexEntry). IsIndexed es x.key x.offset) (i ∷ is)
    → AreAscending (i ∷ is)
    → i.offset ≡ 0
    → IsStart es key (seek_offset (i ∷ is) key)
seek-IsStart es i is key s p h asc z =
    let (c, split, q) = seek_offset-IsSplit i is key asc in at_count c split q
  where
    first : nth_offset (i ∷ is) (0 - 1) ≡ length (data_section [])
    first = unfold nth_offset data_section in z

    at_count :
        (c : ℕ)
        → IsSplit (i ∷ is) key c c
        → seek_offset (i ∷ is) key ≡ nth_offset (i ∷ is) (c - 1)
        → IsStart es key (seek_offset (i ∷ is) key)
    at_count zero split q = record {
      front = [];
      back = es;
      cut = refl;
      at_offset = q ∙ first;
      before = tt;
      some_left = p;
    }
    at_count (suc c) split q =
        let b = split.bounded in
        let x = nth-IsIndexed es (i ∷ is) c h (omega arith) in
        let near : is_gt (compare_bytes x.at.key key) ≡ false =
          rw x.same_key at (split.within c (omega arith)) in
        let e : suc c - 1 ≡ c = omega arith in
        record {
          front = x.front;
          back = x.at ∷ x.back;
          cut = x.cut;
          at_offset = q ∙ ap (nth_offset (i ∷ is)) e ∙ x.same_offset;
          before = front-Before key x.front x.at x.back (rw x.cut at s) near;
          some_left = omega arith;
        }

pub seek_offset-IsStart :
    (e : Entry) (es : List Entry) (key : Bytes)
    → IsSorted (e ∷ es)
    → IsStart (e ∷ es) key (seek_offset (index_of (e ∷ es)) key)
unfolding index_from
seek_offset-IsStart e es key s =
    seek-IsStart (e ∷ es) (record { key = e.key; offset = 0 })
      (index_from 1 (0 + length (data_record e)) es) key s (omega arith)
      (index_from-IsIndexed [] (e ∷ es) 0 0 (unfold data_section in refl))
      (index_from-AreAscending (e ∷ es) 0 0 s) refl
