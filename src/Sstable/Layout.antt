-- ===== src/Sstable/Layout.antt =====
-- What the writer of internal/sstable/writer.go has written after a sequence of entries.
use kora_engine.Prelude.{
  ℕ, ◌+◌, ◌%◌, ◌^◌, ◌<◌, ◌≤◌, ◌≡◌, refl, sym, ap, ◌∙◌, Option, none, some, List, [], ◌∷◌, ◌++◌,
  ◌==◌, if◌then◌else◌, length, append-nil, append_assoc, length-append, arith, All, Bool-cases, inl,
  inr,
}
use kora_engine.Prelude.Order.{Bytes, Before, compare_bytes, gt_of_Before}
use kora_engine.Sstable.{Entry, index_stride}
use kora_engine.Sstable.Writer.{
  Writer, check_order, index_entry, append_index, data_record, write_record, set, delete,
  write_entry, write_entries,
}
use kora_engine.Sstable.Records.{data_section}
use kora_engine.Sstable.Reader.{IndexEntry}

-- Strictly ascending keys.
abbrev pub IsSorted : List Entry → Type 0
IsSorted [] = Unit
IsSorted (e ∷ es) = All (λ f. Before e.key f.key) es × IsSorted es

-- Every key is behind the last one written.
abbrev IsBehind : Option Bytes → List Entry → Type 0
IsBehind none es = Unit
IsBehind (some k) es = All (λ f. Before k f.key) es

-- The writer behind one more entry.
abbrev pub wrote : Entry → Writer → Writer
wrote e w = record {
  file = w.file ++ data_record e;
  offset = w.offset + length (data_record e);
  n_records = w.n_records + 1;
  last_key = some e.key;
  index_buf =
      if w.n_records % index_stride == 0
      then w.index_buf ++ index_entry e.key w.offset
      else w.index_buf;
  index_count = if w.n_records % index_stride == 0 then w.index_count + 1 else w.index_count;
}

unfoldable pub written : List Entry → Writer → Writer
written [] w = w
written (e ∷ es) w = written es (wrote e w)

check_order-behind :
    (key : Bytes) (last : Option Bytes) (w : Writer) (es : List Entry) (value : Option Bytes)
    → w.last_key ≡ last
    → IsBehind last (record { key = key; value = value } ∷ es)
    → check_order key w ≡ some (record w { last_key = some key })
unfolding check_order
check_order-behind key none w es value e h = rw (e, check_order)
check_order-behind key (some last) w es value e h =
    let g : compare_bytes key last ≡ _ = gt_of_Before last key h.0 in rw (e, check_order, g)

write_record-wrote :
    (e : Entry) (w : Writer)
    → w.n_records + 1 < 2 ^ 32
    → w.index_count + 1 < 2 ^ 32
    → write_record e (record w { last_key = some e.key }) ≡ wrote e w
unfolding write_record append_index
write_record-wrote e w h k =
    let a : (w.n_records + 1) % 2 ^ 32 ≡ w.n_records + 1 = omega arith in
    let b : (w.index_count + 1) % 2 ^ 32 ≡ w.index_count + 1 = omega arith in
    elim (Bool-cases (w.n_records % index_stride == 0)) [ inl t ↦ rw (t, a, b) | inr t ↦ rw (t, a) ]

write_entry-wrote :
    (key : Bytes) (value : Option Bytes) (w : Writer) (es : List Entry)
    → IsBehind w.last_key (record { key = key; value = value } ∷ es)
    → w.n_records + 1 < 2 ^ 32
    → w.index_count + 1 < 2 ^ 32
    → write_entry (record { key = key; value = value }) w
      ≡ some (wrote (record { key = key; value = value }) w)
unfolding write_entry set delete
write_entry-wrote key none w es b h k =
    rw (check_order-behind key w.last_key w es none refl b)
      (ap some (write_record-wrote (record { key = key; value = none }) w h k))
write_entry-wrote key (some v) w es b h k =
    rw (check_order-behind key w.last_key w es (some v) refl b)
      (ap some (write_record-wrote (record { key = key; value = some v }) w h k))

write_entries_step :
    (e : Entry) (es : List Entry) (w w' : Writer)
    → write_entry e w ≡ some w'
    → write_entries (e ∷ es) w ≡ write_entries es w'
unfolding write_entries
write_entries_step e es w w' h = rw (h, write_entries)

index_count_le : (e : Entry) (w : Writer) → (wrote e w).index_count ≤ w.index_count + 1
index_count_le e w = ground arith

-- Entries in strictly ascending order are all accepted.
pub write_entries-written :
    (es : List Entry) (w : Writer)
    → IsSorted es
    → IsBehind w.last_key es
    → w.n_records + length es < 2 ^ 32
    → w.index_count + length es < 2 ^ 32
    → write_entries es w ≡ some (written es w)
unfolding written
write_entries-written [] w s b h k = unfold write_entries in refl
write_entries-written (e ∷ es) w s b h k =
    write_entries_step e es w (wrote e w)
      (write_entry-wrote e.key e.value w es b (omega arith) (omega arith))
    ∙ write_entries-written es (wrote e w) s.1 s.0 (omega arith) (omega (arith, index_count_le e w))

pub file-written : (es : List Entry) (w : Writer) → (written es w).file ≡ w.file ++ data_section es
unfolding written data_section
file-written [] w = sym (append-nil w.file)
file-written (e ∷ es) w =
    file-written es (wrote e w) ∙ append_assoc w.file (data_record e) (data_section es)

pub offset-written :
    (es : List Entry) (w : Writer) → (written es w).offset ≡ w.offset + length (data_section es)
unfolding written data_section
offset-written [] w = omega arith
offset-written (e ∷ es) w =
    omega (arith, offset-written es (wrote e w), length-append (data_record e) (data_section es))

pub n_records-written :
    (es : List Entry) (w : Writer) → (written es w).n_records ≡ w.n_records + length es
unfolding written
n_records-written [] w = omega arith
n_records-written (e ∷ es) w = omega (arith, n_records-written es (wrote e w))

-- The index of the entries, the first of which is record number `n` at the offset `off`.
unfoldable pub index_from : ℕ → ℕ → List Entry → List IndexEntry
index_from n off [] = []
index_from n off (e ∷ es) =
    let rest = index_from (n + 1) (off + length (data_record e)) es in
    if n % index_stride == 0 then record { key = e.key; offset = off } ∷ rest else rest

unfoldable pub index_bytes : List IndexEntry → Bytes
index_bytes [] = []
index_bytes (i ∷ is) = index_entry i.key i.offset ++ index_bytes is

pub index_buf-written :
    (es : List Entry) (w : Writer)
    → (written es w).index_buf ≡ w.index_buf ++ index_bytes (index_from w.n_records w.offset es)
unfolding written index_from index_bytes
index_buf-written [] w = sym (append-nil w.index_buf)
index_buf-written (e ∷ es) w = elim (Bool-cases (w.n_records % index_stride == 0)) [
  | inl t ↦
      index_buf-written es (wrote e w)
      ∙ rw t (append_assoc w.index_buf (index_entry e.key w.offset) _)
  | inr t ↦ index_buf-written es (wrote e w) ∙ rw t
]

pub index_count-written :
    (es : List Entry) (w : Writer)
    → (written es w).index_count ≡ w.index_count + length (index_from w.n_records w.offset es)
unfolding written index_from
index_count-written [] w = omega arith
index_count-written (e ∷ es) w = elim (Bool-cases (w.n_records % index_stride == 0)) [
  | inl t ↦ index_count-written es (wrote e w) ∙ rw t (omega arith)
  | inr t ↦ index_count-written es (wrote e w) ∙ rw t
]
