-- ===== src/Sstable/Records.antt =====
-- Reading back the data records of internal/sstable, one by one.
use kora_engine.Prelude.{
  ℕ, ◌+◌, ◌%◌, ◌^◌, ◌<◌, ◌≡◌, refl, ap, ◌∙◌, false, Option, none, some, List, [], ◌∷◌, ◌++◌, ◌==◌,
  length, length-append, append-nil, sym, append_assoc, arith,
}
use kora_engine.Prelude.Order.{Bytes}
use kora_engine.Prelude.Endian.{IsU32, put_u32, u32_at, u32_word, read_full-append, read_full-eq}
use kora_engine.Sstable.{
  Entry, entry, slice, tombstone_sentinel, encode_record_header, read_record, read_key, read_value,
  record_size,
}
use kora_engine.Sstable.Writer.{val_len, data_record}

-- The lengths fit their words, and that of a value is not the mark of a deleted key.
abbrev pub FitsRecord : Entry → Type 0
FitsRecord e = IsU32 (length e.key) × (length (slice e.value) < tombstone_sentinel)

read_value-slice :
    (key v rest : Bytes) (pos : ℕ)
    → read_value key (length v) (v ++ rest) pos
      ≡ entry (record { key = key; value = some v }) (record { left = rest; pos = pos + length v })
unfolding read_value
read_value-slice key v rest pos = rw (read_full-append v rest, read_value)

read_key-entry :
    (key : Bytes) (value : Option Bytes) (rest : Bytes) (pos : ℕ)
    → length (slice value) < tombstone_sentinel
    → read_key (length key) (val_len value) ((key ++ slice value) ++ rest) pos
      ≡ entry
          (record { key = key; value = value })
          (record { left = rest; pos = pos + length (key ++ slice value) })
unfolding read_key val_len
read_key-entry key none rest pos h = rw (append-nil key, read_key, read_full-append key rest)
read_key-entry key (some v) rest pos h =
    let n : length v % 2 ^ 32 ≡ length v = omega arith in
    let t : (length v == tombstone_sentinel) ≡ false = ground arith in
    let l : pos + length (key ++ v) ≡ pos + length key + length v =
      omega (arith, length-append key v) in
    rw (append_assoc key v rest, l, read_key, read_full-append key (v ++ rest), n, t)
      (read_value-slice key v rest (pos + length key))

val_len-IsU32 : (value : Option Bytes) → IsU32 (val_len value)
unfolding val_len
val_len-IsU32 none = omega arith
val_len-IsU32 (some v) = omega arith

read_record-header :
    (kl vl : ℕ) (rest : Bytes) (pos : ℕ)
    → IsU32 kl
    → IsU32 vl
    → read_record (record { left = encode_record_header kl vl ++ rest; pos = pos })
      ≡ read_key kl vl rest (pos + 8)
unfolding read_record encode_record_header
read_record-header kl vl rest pos hk hv =
    let a : u32_at 0 (put_u32 kl ++ put_u32 vl) ≡ kl = unfold put_u32 u32_at in u32_word kl hk in
    let b : u32_at 4 (put_u32 kl ++ put_u32 vl) ≡ vl = unfold put_u32 u32_at in u32_word vl hv in
    let l : length (put_u32 kl ++ put_u32 vl) ≡ 8 = unfold put_u32 in refl in
    rw (read_record, read_full-eq 8 (put_u32 kl ++ put_u32 vl) rest l)
      (λ i. read_key (a i) (b i) rest (pos + 8))

pub length-data_record : (e : Entry) → length (data_record e) ≡ 8 + length (e.key ++ slice e.value)
unfolding data_record encode_record_header put_u32
length-data_record e = omega arith

-- A record that was written is read back, and the cursor stands behind it.
pub read_record-data_record :
    (e : Entry) (rest : Bytes) (pos : ℕ)
    → FitsRecord e
    → read_record (record { left = data_record e ++ rest; pos = pos })
      ≡ entry e (record { left = rest; pos = pos + length (data_record e) })
read_record-data_record e rest pos (hk, hv) =
    let hdr = encode_record_header (length e.key) (val_len e.value) in
    let l : pos + 8 + length (e.key ++ slice e.value) ≡ pos + length (data_record e) =
      omega (arith, length-data_record e) in
    let a : data_record e ++ rest ≡ hdr ++ ((e.key ++ slice e.value) ++ rest) =
      unfold data_record in append_assoc hdr (e.key ++ slice e.value) rest in
    ap (λ b. read_record (record { left = b; pos = pos })) a
    ∙ read_record-header (length e.key) (val_len e.value) ((e.key ++ slice e.value) ++ rest) pos hk
        (val_len-IsU32 e.value)
    ∙ read_key-entry e.key e.value rest (pos + 8) hv
    ∙ ap (λ n. entry e (record { left = rest; pos = n })) l

-- The size that `recordSize` computes is that of the written record.
pub length-data_record-record_size :
    (e : Entry)
    → FitsRecord e
    → length (data_record e) ≡ record_size (length e.key) (val_len e.value)
length-data_record-record_size e (hk, hv) = length-data_record e ∙ parts e.key e.value hv
  where
    parts :
        (key : Bytes) (value : Option Bytes)
        → length (slice value) < tombstone_sentinel
        → 8 + length (key ++ slice value) ≡ record_size (length key) (val_len value)
    parts key none h = unfold record_size val_len in rw append-nil (omega arith)
    parts key (some v) h =
        let n : length v % 2 ^ 32 ≡ length v = omega arith in
        let t : (length v == tombstone_sentinel) ≡ false = ground arith in
        unfold record_size val_len in rw (n, t) (omega (arith, length-append key v))

-- The data section of a table.
unfoldable pub data_section : List Entry → Bytes
data_section [] = []
data_section (e ∷ es) = data_record e ++ data_section es

pub data_section-append :
    (es fs : List Entry) → data_section (es ++ fs) ≡ data_section es ++ data_section fs
unfolding data_section
data_section-append [] fs = refl
data_section-append (e ∷ es) fs =
    ap (λ b. data_record e ++ b) (data_section-append es fs)
    ∙ sym (append_assoc (data_record e) (data_section es) (data_section fs))

pub length-data_section_one : (e : Entry) → length (data_section (e ∷ [])) ≡ length (data_record e)
unfolding data_section
length-data_section_one e = rw append-nil
