-- ===== src/Record.antt =====
-- internal/record/record.go: the log record and its binary codec. A reader is the list of the bytes
-- that are left; a writer is the list of the bytes written so far.
pub mod RoundTrip
pub mod Damage
pub mod Exact
use kora_engine.Prelude.{
  ℕ, ◌+◌, ◌^◌, ◌<◌, Bool, true, false, not, ◌&&◌, Option, none, some, List, [], ◌++◌, ltb, ◌==◌,
  if◌then◌else◌, length, take, drop,
}
use kora_engine.Prelude.Order.{Bytes}
use kora_engine.Prelude.Endian.{
  put_u32, put_u64, u32_at, u64_at, Read, full, at_end, cut_short, read_full,
}
use kora_engine.Checksum.{crc32}

abbrev pub tombstone_sentinel : ℕ
tombstone_sentinel = 0xFFFF_FFFF

abbrev pub max_key_size : ℕ
max_key_size = 2 ^ 16

abbrev pub max_value_size : ℕ
max_value_size = 2 ^ 30

abbrev pub header_size : ℕ
header_size = 20

-- A nil `Value`, a delete marker, is `none`.
pub record Record : Type 0 where
  pub timestamp : ℕ
  pub key : Bytes
  pub value : Option Bytes

abbrev pub is_nil : Option Bytes → Bool
is_nil none = true
is_nil (some v) = false

-- The bytes of a slice; a nil slice has none.
abbrev pub slice : Option Bytes → Bytes
slice none = []
slice (some v) = v

unfoldable pub is_tombstone : Record → Bool
is_tombstone r = is_nil r.value

unfoldable pub size : Record → ℕ
size r = header_size + length r.key + length (slice r.value)

-- What `EncodeAt` returns: the bytes that it wrote, or one of its errors.
pub data Encoded : Type 0 where
  written : Bytes → Encoded
  key_too_large value_too_large : Encoded

unfoldable pub value_len : Option Bytes → ℕ
value_len none = tombstone_sentinel
value_len (some v) = length v

-- The sixteen bytes `meta`.
unfoldable pub meta : ℕ → Bytes → Option Bytes → Bytes
unfolding value_len
meta ts key value = put_u64 ts ++ (put_u32 (length key) ++ put_u32 (value_len value))

unfoldable pub encode_at : ℕ → Bytes → Option Bytes → Encoded
encode_at ts key value =
    if ltb max_key_size (length key)
    then key_too_large
    else if not (is_nil value) && ltb max_value_size (length (slice value))
    then value_too_large
    else (let m = meta ts key value in
        let body = m ++ (key ++ slice value) in written (put_u32 (crc32 body) ++ body))

-- `now` is `time.Now().UnixMilli()`.
unfoldable pub encode : ℕ → Bytes → Option Bytes → Encoded
encode now key value = encode_at now key value

-- What `Decode` returns; `decoded` has the bytes that the reader still holds.
pub data Decoded : Type 0 where
  decoded : Record → Bytes → Decoded
  eof unexpected_eof corrupted : Decoded

pub decode_tail : ℕ → Bytes → ℕ → ℕ → Bool → Bytes → Bytes → Decoded
decode_tail crc hdr ts key_len tombstone tail rest =
    if crc32 (drop 4 hdr ++ tail) == crc
    then decoded
        (record {
          timestamp = ts;
          key = take key_len tail;
          value = if tombstone then none else some (drop key_len tail);
        })
        rest
    else corrupted

pub decode_fields : Bytes → ℕ → ℕ → ℕ → ℕ → Bytes → Decoded
unfolding decode_tail
decode_fields hdr crc ts key_len val_len rest =
    let tombstone = val_len == tombstone_sentinel in
    if ltb max_key_size key_len
    then corrupted
    else if not tombstone && ltb max_value_size val_len
    then corrupted
    else elim (read_full (if tombstone then key_len else key_len + val_len) rest) [
      | at_end ↦ eof
      | cut_short ↦ unexpected_eof
      | full tail rest' ↦ decode_tail crc hdr ts key_len tombstone tail rest'
    ]

pub decode_header : Bytes → Bytes → Decoded
unfolding decode_fields
decode_header hdr rest =
    decode_fields hdr (u32_at 0 hdr) (u64_at 4 hdr) (u32_at 12 hdr) (u32_at 16 hdr) rest

unfoldable pub decode : Bytes → Decoded
unfolding decode_header
decode bs = elim (read_full header_size bs) [
  | at_end ↦ eof
  | cut_short ↦ unexpected_eof
  | full hdr rest ↦ decode_header hdr rest
]
