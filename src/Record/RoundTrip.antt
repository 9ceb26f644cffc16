-- ===== src/Record/RoundTrip.antt =====
-- The record codec of internal/record/record.go: what `Decode` makes of what `EncodeAt` wrote.
use kora_engine.Prelude.{
  ℕ, ◌+◌, ◌/◌, ◌%◌, ◌^◌, append-nil, ◌≤◌, ◌≡◌, refl, sym, ap, ◌∙◌, false, not, ◌&&◌, Option, none,
  some, [], ◌++◌, ltb, ◌==◌, if◌then◌else◌, length, length-append, take-append, drop-append, arith,
  ==-refl, le→ltb,
}
use kora_engine.Prelude.Order.{Bytes}
use kora_engine.Prelude.Endian.{
  IsU32, IsU64, put_u32, put_u64, u32_at, u64_at, u32_word, u64_word, read_full-eq,
}
use kora_engine.Checksum.{crc32, crc32-IsU32}
use kora_engine.Record.{
  written, decoded, encode_at, decode, decode_header, decode_fields, decode_tail, meta, slice,
  value_len, max_key_size, max_value_size, tombstone_sentinel, header_size, is_nil,
}

-- The twenty bytes in front of a record.
abbrev pub header : ℕ → ℕ → ℕ → ℕ → Bytes
header crc ts kl vl = put_u32 crc ++ (put_u64 ts ++ (put_u32 kl ++ put_u32 vl))

pub length-header : (crc ts kl vl : ℕ) → length (header crc ts kl vl) ≡ header_size
unfolding put_u32 put_u64
length-header crc ts kl vl = refl

-- The reader finds the four fields where the writer put them.
pub decode_header-header :
    (crc ts kl vl : ℕ) (rest : Bytes)
    → IsU32 crc
    → IsU64 ts
    → IsU32 kl
    → IsU32 vl
    → decode_header (header crc ts kl vl) rest
      ≡ decode_fields (header crc ts kl vl) crc ts kl vl rest
unfolding decode_header
decode_header-header crc ts kl vl rest hc ht hk hv =
    let a : u32_at 0 (header crc ts kl vl) ≡ crc =
      unfold u32_at put_u32 put_u64 in u32_word crc hc in
    let b : u64_at 4 (header crc ts kl vl) ≡ ts =
      unfold u64_at put_u32 put_u64 in
      rw
        (u32_word (ts / 2 ^ 32) (omega arith), u32_word (ts % 2 ^ 32) (omega arith), u64_word ts) in
    let c : u32_at 12 (header crc ts kl vl) ≡ kl =
      unfold u32_at put_u32 put_u64 in u32_word kl hk in
    let d : u32_at 16 (header crc ts kl vl) ≡ vl =
      unfold u32_at put_u32 put_u64 in u32_word vl hv in
    unfold decode_header in λ i. decode_fields (header crc ts kl vl) (a i) (b i) (c i) (d i) rest

-- What `EncodeAt` wrote, when it did not refuse.
unfoldable pub record_bytes : ℕ → Bytes → Option Bytes → Bytes
record_bytes ts key value =
    put_u32 (crc32 (meta ts key value ++ (key ++ slice value)))
    ++ (meta ts key value ++ (key ++ slice value))

-- The sizes that `EncodeAt` accepts.
abbrev pub Fits : Bytes → Option Bytes → Type 0
Fits key value = (length key ≤ max_key_size) × (length (slice value) ≤ max_value_size)

value_test :
    (value : Option Bytes)
    → length (slice value) ≤ max_value_size
    → (not (is_nil value) && ltb max_value_size (length (slice value))) ≡ false
value_test none h = refl
value_test (some v) h = le→ltb _ _ h

pub encode_at-record_bytes :
    (ts : ℕ) (key : Bytes) (value : Option Bytes)
    → Fits key value
    → encode_at ts key value ≡ written (record_bytes ts key value)
unfolding encode_at record_bytes
encode_at-record_bytes ts key value (hk, hv) = rw (le→ltb max_key_size _ hk, value_test value hv)

pub Fits-of_encode_at :
    (ts : ℕ) (key : Bytes) (value : Option Bytes) (bs : Bytes)
    → encode_at ts key value ≡ written bs
    → Fits key value × (bs ≡ record_bytes ts key value)
unfolding encode_at record_bytes
Fits-of_encode_at ts key none bs h = ground arith
Fits-of_encode_at ts key (some v) bs h = ground arith

-- The record with its parts, as the header and the tail that the reader splits it into.
pub record_bytes-append :
    (ts : ℕ) (key : Bytes) (value : Option Bytes) (rest : Bytes)
    → record_bytes ts key value ++ rest
      ≡ header (crc32 (meta ts key value ++ (key ++ slice value))) ts (length key) (value_len value)
        ++ ((key ++ slice value) ++ rest)
unfolding record_bytes meta put_u32 put_u64
record_bytes-append ts key value rest = refl

pub record_bytes-eq :
    (ts : ℕ) (key : Bytes) (value : Option Bytes)
    → record_bytes ts key value
      ≡ header (crc32 (meta ts key value ++ (key ++ slice value))) ts (length key) (value_len value)
        ++ (key ++ slice value)
unfolding record_bytes meta put_u32 put_u64
record_bytes-eq ts key value = refl

pub tail_size :
    (key : Bytes) (value : Option Bytes)
    → length (slice value) ≤ max_value_size
    → (if value_len value == tombstone_sentinel then length key else length key + value_len value)
      ≡ length (key ++ slice value)
unfolding value_len
tail_size key none h = rw append-nil
tail_size key (some v) h = ground (arith, length-append key v)

decode_tail-record :
    (ts : ℕ) (key : Bytes) (value : Option Bytes) (rest : Bytes)
    → length (slice value) ≤ max_value_size
    → decode_tail
        (crc32 (meta ts key value ++ (key ++ slice value)))
        (header
          (crc32 (meta ts key value ++ (key ++ slice value)))
          ts
          (length key)
          (value_len value))
        ts
        (length key)
        (value_len value == tombstone_sentinel)
        (key ++ slice value)
        rest
      ≡ decoded (record { timestamp = ts; key = key; value = value }) rest
unfolding decode_tail meta put_u32 put_u64 value_len
decode_tail-record ts key none rest h = rw (==-refl _, take-append key [])
decode_tail-record ts key (some v) rest h =
    let e : (length v == tombstone_sentinel) ≡ false = ground arith in
    rw (e, ==-refl _, take-append key v, drop-append key v)

pub value_len-IsU32 :
    (value : Option Bytes) → length (slice value) ≤ max_value_size → IsU32 (value_len value)
unfolding value_len
value_len-IsU32 none h = omega arith
value_len-IsU32 (some v) h = omega arith

-- The lengths that the reader checks pass its tests.
pub len_test :
    (value : Option Bytes)
    → length (slice value) ≤ max_value_size
    → (not (value_len value == tombstone_sentinel) && ltb max_value_size (value_len value)) ≡ false
unfolding value_len
len_test none h = refl
len_test (some v) h = ground arith

pub decode-append :
    (hdr rest : Bytes) → length hdr ≡ header_size → decode (hdr ++ rest) ≡ decode_header hdr rest
unfolding decode decode_header
decode-append hdr rest e = rw (decode, read_full-eq header_size hdr rest e)

decode_fields-append :
    (hdr tail rest : Bytes) (crc ts kl vl : ℕ)
    → kl ≤ max_key_size
    → (not (vl == tombstone_sentinel) && ltb max_value_size vl) ≡ false
    → (if vl == tombstone_sentinel then kl else kl + vl) ≡ length tail
    → decode_fields hdr crc ts kl vl (tail ++ rest)
      ≡ decode_tail crc hdr ts kl (vl == tombstone_sentinel) tail rest
unfolding decode_fields decode_tail
decode_fields-append hdr tail rest crc ts kl vl hk hv e =
    rw (decode_fields, le→ltb max_key_size kl hk, hv, read_full-eq _ tail rest (sym e))

-- Reading back a record that was written gives the record, a delete marker included, and leaves
-- whatever follows it.
pub decode-encode_at :
    (ts : ℕ) (key : Bytes) (value : Option Bytes) (bs rest : Bytes)
    → IsU64 ts
    → encode_at ts key value ≡ written bs
    → decode (bs ++ rest) ≡ decoded (record { timestamp = ts; key = key; value = value }) rest
decode-encode_at ts key value bs rest ht h =
    let ((hk, hv), e) = Fits-of_encode_at ts key value bs h in
    let crc = crc32 (meta ts key value ++ (key ++ slice value)) in
    let hdr = header crc ts (length key) (value_len value) in
    rw e (
      ap decode (record_bytes-append ts key value rest)
      ∙ decode-append hdr ((key ++ slice value) ++ rest) (length-header crc ts _ _)
      ∙ decode_header-header crc ts (length key) (value_len value) ((key ++ slice value) ++ rest)
          (crc32-IsU32 _) ht (omega arith) (value_len-IsU32 value hv)
      ∙ decode_fields-append hdr (key ++ slice value) rest crc ts (length key) (value_len value) hk
          (len_test value hv) (tail_size key value hv)
      ∙ decode_tail-record ts key value rest hv)

pub length-record_bytes :
    (ts : ℕ) (key : Bytes) (value : Option Bytes)
    → length (record_bytes ts key value) ≡ header_size + length key + length (slice value)
unfolding record_bytes meta put_u32 put_u64
length-record_bytes ts key value = omega (arith, length-append key (slice value))
