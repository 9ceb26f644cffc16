-- ===== src/Record/Damage.antt =====
-- What `Decode` of internal/record/record.go makes of a log that a crash cut inside a record.
use kora_engine.Prelude.{
  ℕ, ◌+◌, ◌<◌, ◌≤◌, ◌≡◌, ◌⊎◌, refl, sym, ◌∙◌, Bool, false, not, ◌&&◌, ◌||◌, Option, [], ◌∷◌, ◌++◌,
  ltb, ◌==◌, if◌then◌else◌, length, append_overlap, length-append, arith, le→ltb, inl, inr,
}
use kora_engine.Prelude.Order.{Bytes}
use kora_engine.Prelude.Endian.{IsU64, read_full-short, read_full-at_end}
use kora_engine.Checksum.{crc32, crc32-IsU32}
use kora_engine.Record.{
  Decoded, written, eof, unexpected_eof, encode_at, decode, decode_fields, meta, size, slice,
  value_len, max_key_size, max_value_size, tombstone_sentinel, header_size,
}
use kora_engine.Record.RoundTrip.{
  Fits, header, length-header, decode_header-header, record_bytes-eq, Fits-of_encode_at,
  decode-append, length-record_bytes, tail_size, value_len-IsU32, len_test,
}

-- How many bytes a written record takes is what `Size` says.
pub length-encode_at :
    (ts : ℕ) (key : Bytes) (value : Option Bytes) (bs : Bytes)
    → encode_at ts key value ≡ written bs
    → length bs ≡ size (record { timestamp = ts; key = key; value = value })
unfolding size
length-encode_at ts key value bs h =
    let (f, e) = Fits-of_encode_at ts key value bs h in rw e (length-record_bytes ts key value)

-- The error that the reader reports when a read of some bytes finds only `bs`.
abbrev pub cut_error : Bytes → Decoded
cut_error [] = eof
cut_error (b ∷ bs) = unexpected_eof

abbrev record_header : ℕ → Bytes → Option Bytes → Bytes
record_header ts key value =
    header (crc32 (meta ts key value ++ (key ++ slice value))) ts (length key) (value_len value)

le_total : (a b : ℕ) → (a ≤ b) ⊎ (b < a)
le_total a b = grind arith

decode_short : (bs : Bytes) → length bs < header_size → decode bs ≡ cut_error bs
unfolding decode
decode_short [] h = rw (read_full-at_end header_size (omega arith), decode)
decode_short (b ∷ bs) h = rw (read_full-short header_size b bs h, decode)

decode_fields_short :
    (hdr bs : Bytes) (crc ts kl vl : ℕ)
    → kl ≤ max_key_size
    → (not (vl == tombstone_sentinel) && ltb max_value_size vl) ≡ false
    → length bs < (if vl == tombstone_sentinel then kl else kl + vl)
    → decode_fields hdr crc ts kl vl bs ≡ cut_error bs
unfolding decode_fields
decode_fields_short hdr [] crc ts kl vl hk hv h =
    rw (decode_fields, le→ltb max_key_size kl hk, hv, read_full-at_end _ h)
decode_fields_short hdr (b ∷ bs) crc ts kl vl hk hv h =
    rw (decode_fields, le→ltb max_key_size kl hk, hv, read_full-short _ b bs h)

-- The cut falls on a boundary between the two reads of `Decode`.
abbrev pub at_boundary : Bytes → Bool
at_boundary front = length front == 0 || length front == header_size

cut_error-boundary :
    (bs : Bytes)
    → length bs < header_size
    → cut_error bs ≡ (if at_boundary bs then eof else unexpected_eof)
cut_error-boundary [] h = refl
cut_error-boundary (b ∷ bs) h = ground arith

cut_error-behind :
    (hdr t : Bytes)
    → length hdr ≡ header_size
    → cut_error t ≡ (if at_boundary (hdr ++ t) then eof else unexpected_eof)
cut_error-behind hdr [] e = ground (arith, length-append hdr [])
cut_error-behind hdr (b ∷ bs) e = ground (arith, length-append hdr (b ∷ bs))

-- A whole header with less than its tail behind it.
decode_tail_cut :
    (ts : ℕ) (key : Bytes) (value : Option Bytes) (t : Bytes)
    → IsU64 ts
    → Fits key value
    → length t < length (key ++ slice value)
    → decode (record_header ts key value ++ t) ≡ cut_error t
decode_tail_cut ts key value t ht (hk, hv) h =
    decode-append (record_header ts key value) t (length-header _ ts _ _)
    ∙ decode_header-header _ ts (length key) (value_len value) t (crc32-IsU32 _) ht (omega arith)
        (value_len-IsU32 value hv)
    ∙ decode_fields_short (record_header ts key value) t _ ts (length key) (value_len value) hk
        (len_test value hv) (rw (tail_size key value hv) h)

-- Of a record that is cut short, `Decode` reports a clean end of the log exactly when nothing of it
-- is there or when the cut falls just behind the header; every other cut is an unexpected end.
pub decode_cut :
    (ts : ℕ) (key : Bytes) (value : Option Bytes) (front : Bytes) (x : ℕ) (back : Bytes)
    → IsU64 ts
    → encode_at ts key value ≡ written (front ++ (x ∷ back))
    → decode front ≡ (if at_boundary front then eof else unexpected_eof)
decode_cut ts key value front x back ht h = elim (le_total header_size (length front)) [
  | inr short ↦ decode_short front short ∙ cut_error-boundary front short
  | inl long ↦
      let (f, e) = Fits-of_encode_at ts key value (front ++ (x ∷ back)) h in
      let hdr = record_header ts key value in
      let eq : hdr ++ (key ++ slice value) ≡ front ++ (x ∷ back) =
        sym (e ∙ record_bytes-eq ts key value) in
      let (t, p, q) = append_overlap hdr (key ++ slice value) front (x ∷ back) eq (
        omega (
          arith,
          length-header (crc32 (meta ts key value ++ (key ++ slice value))) ts (length key)
              (value_len value),
        )) in
      rw p (
        decode_tail_cut ts key value t ht f (rw (q, length-append t (x ∷ back)) (omega arith))
        ∙ cut_error-behind hdr t (length-header _ ts _ _))
]
