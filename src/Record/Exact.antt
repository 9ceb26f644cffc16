-- ===== src/Record/Exact.antt =====
-- `Decode` of internal/record/record.go accepts nothing but what `EncodeAt` writes.
use kora_engine.Prelude.{
  ℕ, ◌+◌, ◌≤◌, ◌≡◌, refl, sym, ap, ◌∙◌, Bool, false, not, ◌&&◌, none, some, [], ◌∷◌, ◌++◌, ltb,
  ◌==◌, if◌then◌else◌, length, take, drop, append-nil, length-append, arith, All, All-append_left,
  take-append-drop, take_all, length-take, length-drop, inl, inr, Bool-cases,
}
use kora_engine.Prelude.Order.{Bytes}
use kora_engine.Prelude.Endian.{
  IsByte, u32_at, u64_at, IsU32, IsU64, put_u32, put_u64, Read, full, at_end, cut_short, read_full,
  append-eq_of_read_full, IsU32-head, IsU64-head,
}
use kora_engine.Checksum.{crc32}
use kora_engine.Record.{
  Record, decoded, written, encode_at, decode, decode_header, decode_fields, decode_tail, meta,
  slice, value_len, max_key_size, max_value_size, tombstone_sentinel, header_size, size,
}
use kora_engine.Record.RoundTrip.{
  Fits, header, decode_header-header, record_bytes, record_bytes-append, encode_at-record_bytes,
}

nil_of_length : (bs : Bytes) → length bs ≡ 0 → bs ≡ []
nil_of_length [] h = refl
nil_of_length (b ∷ bs) h = absurd (omega arith)

-- Twenty bytes are a header.
header_of_bytes :
    (hdr : Bytes)
    → All IsByte hdr
    → length hdr ≡ header_size
    → (crc ts kl vl : ℕ) × (hdr ≡ header crc ts kl vl) × IsU32 crc × IsU64 ts × IsU32 kl × IsU32 vl
header_of_bytes hdr h e =
    let (crc, r1, p1, b1, h1, l1) = IsU32-head hdr h (omega arith) in
    let (ts, r2, p2, b2, h2, l2) = IsU64-head r1 h1 (omega arith) in
    let (kl, r3, p3, b3, h3, l3) = IsU32-head r2 h2 (omega arith) in
    let (vl, r4, p4, b4, h4, l4) = IsU32-head r3 h3 (omega arith) in
    let nil : r4 ≡ [] = nil_of_length r4 (omega arith) in
    (
      crc,
      ts,
      kl,
      vl,
      p1
          ∙ ap (λ r. put_u32 crc ++ r)
              (p2
                ∙ ap (λ r. put_u64 ts ++ r)
                    (p3
                      ∙ ap (λ r. put_u32 kl ++ r)
                          (p4 ∙ ap (λ r. put_u32 vl ++ r) nil ∙ append-nil _))),
      b1,
      b2,
      b3,
      b4,
    )

decode_tail-some :
    (hdr tail rest' : Bytes) (crc ts kl : ℕ) (tomb : Bool) (r : Record) (rest : Bytes)
    → decode_tail crc hdr ts kl tomb tail rest' ≡ decoded r rest
    → (crc32 (drop 4 hdr ++ tail) ≡ crc)
      × (rest' ≡ rest)
      × (r.timestamp ≡ ts)
      × (r.key ≡ take kl tail)
      × (r.value ≡ (if tomb then none else some (drop kl tail)))
unfolding decode_tail
decode_tail-some hdr tail rest' crc ts kl tomb r rest h = ground arith

abbrev tail_read : ℕ → ℕ → Bytes → Read
tail_read kl vl rest0 = read_full (if vl == tombstone_sentinel then kl else kl + vl) rest0

decode_fields_read :
    (hdr : Bytes) (crc ts kl vl : ℕ) (rest0 : Bytes) (r : Record) (rest : Bytes) (q : Read)
    → tail_read kl vl rest0 ≡ q
    → decode_fields hdr crc ts kl vl rest0 ≡ decoded r rest
    → (tail rest' : Bytes) × (q ≡ full tail rest')
      × (kl ≤ max_key_size)
      × ((not (vl == tombstone_sentinel) && ltb max_value_size vl) ≡ false)
      × (decode_tail crc hdr ts kl (vl == tombstone_sentinel) tail rest' ≡ decoded r rest)
unfolding decode_fields
decode_fields_read hdr crc ts kl vl rest0 r rest at_end e h = absurd (ground (arith, e, h))
decode_fields_read hdr crc ts kl vl rest0 r rest cut_short e h = absurd (ground (arith, e, h))
decode_fields_read hdr crc ts kl vl rest0 r rest (full t r') e h =
    (t, r', refl, ground arith, ground arith, ground arith)

-- What a successful read of the tail says of the record.
TailOf : ℕ → ℕ → ℕ → Bytes → Record → Type 0
TailOf ts kl vl tail r =
    (r.timestamp ≡ ts)
    × Fits r.key r.value
    × (tail ≡ r.key ++ slice r.value)
    × (length r.key ≡ kl)
    × (value_len r.value ≡ vl)

TailOf-tombstone :
    (ts kl : ℕ) (tail : Bytes) (r : Record)
    → kl ≤ max_key_size
    → length tail ≡ kl
    → r.timestamp ≡ ts
    → r.key ≡ take kl tail
    → r.value ≡ none
    → TailOf ts kl tombstone_sentinel tail r
unfolding TailOf
TailOf-tombstone ts kl tail r hk e t k v =
    let k' : r.key ≡ tail = k ∙ take_all kl tail e in
    rw (k', v) (t, (omega arith, omega arith), sym (append-nil tail), e, unfold value_len in refl)

TailOf-live :
    (ts kl vl : ℕ) (tail : Bytes) (r : Record)
    → kl ≤ max_key_size
    → vl ≤ max_value_size
    → length tail ≡ kl + vl
    → r.timestamp ≡ ts
    → r.key ≡ take kl tail
    → r.value ≡ some (drop kl tail)
    → TailOf ts kl vl tail r
unfolding TailOf
TailOf-live ts kl vl tail r hk hv e t k v =
    let a : length (take kl tail) ≡ kl = length-take kl tail (omega arith) in
    let b : length (drop kl tail) ≡ vl = omega (arith, length-drop kl tail) in
    rw (k, v)
      (t, (omega arith, omega arith), sym (take-append-drop kl tail), a, unfold value_len in b)

decode_fields_some :
    (hdr : Bytes) (crc ts kl vl : ℕ) (rest0 : Bytes) (r : Record) (rest : Bytes)
    → decode_fields hdr crc ts kl vl rest0 ≡ decoded r rest
    → (tail : Bytes) × (rest0 ≡ tail ++ rest)
      × TailOf ts kl vl tail r
      × (crc32 (drop 4 hdr ++ tail) ≡ crc)
decode_fields_some hdr crc ts kl vl rest0 r rest h =
    let (tail, rest', q, hk, hv, d) = decode_fields_read hdr crc ts kl vl rest0 r rest _ refl h in
    let (c, e, t, k, v) =
      decode_tail-some hdr tail rest' crc ts kl (vl == tombstone_sentinel) r rest d in
    let (p, l) = append-eq_of_read_full _ rest0 tail rest' q in
    (
      tail,
      rw (← e) p,
      elim (Bool-cases (vl == tombstone_sentinel)) [
        | inl s ↦
            let vs : vl ≡ tombstone_sentinel = ground arith in
            rw vs (TailOf-tombstone ts kl tail r hk (rw s at l) t k (rw s at v))
        | inr s ↦ TailOf-live ts kl vl tail r hk (ground arith) (rw s at l) t k (rw s at v)
      ],
      c,
    )

Fits-of_tail :
    (ts kl vl : ℕ) (tail : Bytes) (r : Record) → TailOf ts kl vl tail r → Fits r.key r.value
unfolding TailOf
Fits-of_tail ts kl vl tail r t = t.1

tail_parts :
    (ts kl vl : ℕ) (tail : Bytes) (r : Record)
    → TailOf ts kl vl tail r
    → tail ≡ r.key ++ slice r.value
unfolding TailOf
tail_parts ts kl vl tail r t = t.2

decode_full :
    (bs : Bytes) (r : Record) (rest : Bytes) (q : Read)
    → read_full header_size bs ≡ q
    → decode bs ≡ decoded r rest
    → (hdr rest0 : Bytes) × (q ≡ full hdr rest0) × (decode_header hdr rest0 ≡ decoded r rest)
unfolding decode decode_header
decode_full bs r rest at_end e h = absurd (ground (arith, e, h))
decode_full bs r rest cut_short e h = absurd (ground (arith, e, h))
decode_full bs r rest (full hdr rest0) e h = (hdr, rest0, refl, ground arith)

-- The parts that were read are the parts that the writer puts down.
header_record :
    (crc ts kl vl : ℕ) (tail rest : Bytes) (r : Record)
    → TailOf ts kl vl tail r
    → crc32 (drop 4 (header crc ts kl vl) ++ tail) ≡ crc
    → header crc ts kl vl ++ (tail ++ rest) ≡ record_bytes r.timestamp r.key r.value ++ rest
unfolding TailOf
header_record crc ts kl vl tail rest r (t, f, p, k, v) c =
    let m : meta r.timestamp r.key r.value ≡ put_u64 ts ++ (put_u32 kl ++ put_u32 vl) =
      unfold meta in λ i. put_u64 (t i) ++ (put_u32 (k i) ++ put_u32 (v i)) in
    let d : crc32 ((put_u64 ts ++ (put_u32 kl ++ put_u32 vl)) ++ tail) ≡ crc =
      unfold put_u32 put_u64 in c in
    let c' : crc32 (meta r.timestamp r.key r.value ++ (r.key ++ slice r.value)) ≡ crc =
      (λ i. crc32 (m i ++ sym p i)) ∙ d in
    rw (record_bytes-append r.timestamp r.key r.value rest, c', t, k, v, ← p)

-- Whatever bytes are on disk, a record that the reader returns is one that the writer would have
-- written there: the bytes it took are the encoding of the record, checksum included.
pub encode_at-decode :
    (bs : Bytes) (r : Record) (rest : Bytes)
    → All IsByte bs
    → decode bs ≡ decoded r rest
    → (front : Bytes) × (encode_at r.timestamp r.key r.value ≡ written front) × (bs ≡ front ++ rest)
encode_at-decode bs r rest h e =
    let (hdr, rest0, q, d) = decode_full bs r rest _ refl e in
    let (p, l) = append-eq_of_read_full _ bs hdr rest0 q in
    let hh : All IsByte hdr = All-append_left IsByte hdr rest0 (rw p at h) in
    let (crc, ts, kl, vl, ph, bc, bt, bk, bv) = header_of_bytes hdr hh l in
    let f : decode_fields (header crc ts kl vl) crc ts kl vl rest0 ≡ decoded r rest =
      sym (decode_header-header crc ts kl vl rest0 bc bt bk bv)
      ∙ (ap (λ x. decode_header x rest0) (sym ph) ∙ d) in
    let (tail, pt, t, c) = decode_fields_some (header crc ts kl vl) crc ts kl vl rest0 r rest f in
    (
      record_bytes r.timestamp r.key r.value,
      encode_at-record_bytes _ r.key r.value (Fits-of_tail ts kl vl tail r t),
      p
          ∙ ap (λ x. hdr ++ x) pt
          ∙ ap (λ x. x ++ (tail ++ rest)) ph
          ∙ header_record crc ts kl vl tail rest r t c,
    )

-- A record that the reader returns took as many bytes as `Size` says.
pub decode-size :
    (bs : Bytes) (r : Record) (rest : Bytes)
    → decode bs ≡ decoded r rest
    → length bs ≡ size r + length rest
unfolding size decode_header
decode-size bs r rest e =
    let (hdr, rest0, q, d) = decode_full bs r rest _ refl e in
    let (p, l) = append-eq_of_read_full _ bs hdr rest0 q in
    let (tail, pt, t, c) =
      decode_fields_some hdr (u32_at 0 hdr) (u64_at 4 hdr) (u32_at 12 hdr) (u32_at 16 hdr) rest0 r
        rest d in
    let lt : length tail ≡ length (r.key ++ slice r.value) =
      ap length (tail_parts (u64_at 4 hdr) (u32_at 12 hdr) (u32_at 16 hdr) tail r t) in
    rw
      (
        p,
        pt,
        length-append hdr (tail ++ rest),
        length-append tail rest,
        lt,
        length-append r.key (slice r.value),
        l,
      )
      (omega arith)
