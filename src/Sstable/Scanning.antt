-- ===== src/Sstable/Scanning.antt =====
-- The loop of a lookup (`RawGet` of internal/sstable/reader.go) over the records that are left.
use kora_engine.Prelude.{
  ℕ, zero, suc, ◌+◌, ◌<◌, ◌≤◌, ◌≡◌, refl, sym, ap, ◌∙◌, Bool, true, false, List, [], ◌∷◌, ◌++◌, leb,
  if◌then◌else◌, length, arith, inl, inr, All, append_assoc, length-append,
}
use kora_engine.Prelude.Order.{
  Bytes, Before, compare_bytes, bytes_equal, is_gt, is_eq, Before-of_gt, gt_of_Before,
  Ordering-cases, Before-trans,
}
use kora_engine.Sstable.{Entry}
use kora_engine.Sstable.Writer.{data_record}
use kora_engine.Sstable.Reader.{Lookup, absent, entry_lookup, get_loop}
use kora_engine.Sstable.Records.{FitsRecord, data_section, read_record-data_record}
use kora_engine.Sstable.Layout.{IsSorted}
use kora_engine.Sstable.Closing.{length-le-data_section}

-- What a table says of a key, read off its entries.
unfoldable pub find_entry : Bytes → List Entry → Lookup
find_entry key [] = absent
find_entry key (e ∷ es) = if bytes_equal e.key key then entry_lookup e.value else find_entry key es

pub find_entry-append :
    (key : Bytes) (front back : List Entry)
    → All (λ (f : Entry). Before f.key key) front
    → find_entry key (front ++ back) ≡ find_entry key back
unfolding find_entry bytes_equal
find_entry-append key [] back h = refl
find_entry-append key (f ∷ front) back (h, hs) =
    rw (h, find_entry) (find_entry-append key front back hs)

pub find_entry-behind :
    (key : Bytes) (es : List Entry)
    → All (λ (f : Entry). Before key f.key) es
    → find_entry key es ≡ absent
unfolding find_entry bytes_equal
find_entry-behind key [] h = refl
find_entry-behind key (f ∷ es) (h, hs) =
    rw (gt_of_Before key f.key h, find_entry) (find_entry-behind key es hs)

-- Past the key that was read, the loop goes on, or stops, as the entries say.
pub get_step :
    (key : Bytes) (e : Entry) (es : List Entry) (stop : Bool) (more : Lookup)
    → All (λ (f : Entry). Before e.key f.key) es
    → (stop ≡ true → es ≡ [])
    → (stop ≡ false → more ≡ find_entry key es)
    → (if is_eq (compare_bytes e.key key)
        then entry_lookup e.value
        else if is_gt (compare_bytes e.key key)
        then absent
        else if stop
        then absent
        else more)
      ≡ find_entry key (e ∷ es)
unfolding find_entry bytes_equal
get_step key e es stop more h a b = elim (Ordering-cases (compare_bytes e.key key)) [
  | inr (inl q) ↦ rw (q, find_entry)
  | inr (inr q) ↦
      rw (q, find_entry)
        (sym (find_entry-behind key es (all_behind (Before-of_gt e.key key q) es h)))
  | inl q ↦ rw (q, find_entry) (stopping stop a b)
]
  where
    all_behind :
        Before key e.key
        → (fs : List Entry) → All (λ (f : Entry). Before e.key f.key) fs
        → All (λ (f : Entry). Before key f.key) fs
    all_behind l [] g = tt
    all_behind l (f ∷ fs) g = (Before-trans key e.key f.key l g.0, all_behind l fs g.1)

    stopping :
        (stop : Bool)
        → (stop ≡ true → es ≡ [])
        → (stop ≡ false → more ≡ find_entry key es)
        → (if stop then absent else more) ≡ find_entry key es
    stopping true a b = rw (a refl) (unfold find_entry in refl)
    stopping false a b = b refl

pub get_loop_record :
    (e : Entry) (rest key : Bytes) (fuel data_end pos : ℕ)
    → FitsRecord e
    → get_loop (suc fuel) data_end key (record { left = data_record e ++ rest; pos = pos }) ≡ (
        if is_eq (compare_bytes e.key key)
        then entry_lookup e.value
        else if is_gt (compare_bytes e.key key)
        then absent
        else if leb data_end (pos + length (data_record e))
        then absent
        else get_loop fuel data_end key
            (record { left = rest; pos = pos + length (data_record e) }))
unfolding get_loop
get_loop_record e rest key fuel data_end pos h = rw (read_record-data_record e rest pos h, get_loop)

pub empty_of_end :
    (es : List Entry) (data_end pos : ℕ)
    → pos + length (data_section es) ≡ data_end
    → leb data_end pos ≡ true
    → es ≡ []
empty_of_end [] data_end pos h t = refl
empty_of_end (e ∷ es) data_end pos h t =
    let l : data_end ≤ pos = ground arith in absurd (omega (arith, length-le-data_section (e ∷ es)))

pub more_of_not_end :
    (es : List Entry) (data_end pos : ℕ)
    → pos + length (data_section es) ≡ data_end
    → leb data_end pos ≡ false
    → 0 < length es
more_of_not_end [] data_end pos h t =
    let l : pos < data_end = ground arith in absurd (unfold data_section in omega arith)
more_of_not_end (e ∷ es) data_end pos h t = omega arith

pub get_loop-find_entry :
    (es : List Entry) (fuel data_end pos : ℕ) (key trailing : Bytes)
    → 0 < length es
    → IsSorted es
    → All FitsRecord es
    → pos + length (data_section es) ≡ data_end
    → length es ≤ fuel
    → get_loop fuel data_end key (record { left = data_section es ++ trailing; pos = pos })
      ≡ find_entry key es
get_loop-find_entry [] fuel data_end pos key trailing n s h l f = absurd (omega arith)
get_loop-find_entry (e ∷ es) zero data_end pos key trailing n s h l f = absurd (omega arith)
get_loop-find_entry (e ∷ es) (suc fuel) data_end pos key trailing n (b, s) (h, hs) l f =
    let pos' = pos + length (data_record e) in
    let a : data_section (e ∷ es) ++ trailing ≡ data_record e ++ (data_section es ++ trailing) =
      unfold data_section in append_assoc (data_record e) (data_section es) trailing in
    let l0 : length (data_section (e ∷ es)) ≡ length (data_record e) + length (data_section es) =
      unfold data_section in length-append (data_record e) (data_section es) in
    let l' : pos' + length (data_section es) ≡ data_end = omega (arith, l0) in
    ap (λ d. get_loop (suc fuel) data_end key (record { left = d; pos = pos })) a
    ∙ get_loop_record e (data_section es ++ trailing) key fuel data_end pos h
    ∙ get_step key e es (leb data_end pos') _ b (empty_of_end es data_end pos' l') (λ t.
      get_loop-find_entry es fuel data_end pos' key trailing (more_of_not_end es data_end pos' l' t)
        s hs l' (omega arith))
