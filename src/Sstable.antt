-- ===== src/Sstable.antt =====
-- internal/sstable: the sorted table file. This module has the data record format of sstable.go,
-- with the buffered reader of reader.go; Writer and Reader build and read whole files.
pub mod Writer
pub mod Reader
pub mod Records
pub mod Layout
pub mod Closing
pub mod Opening
pub mod Search
pub mod Seek
pub mod Scanning
pub mod Lookup
pub mod Ranges
pub mod Compaction
use kora_engine.Prelude.{
  ℕ, ◌+◌, ◌^◌, Bool, true, false, Option, none, some, List, [], ◌∷◌, ◌++◌, ◌==◌, if◌then◌else◌,
  length,
}
use kora_engine.Prelude.Order.{Bytes}
use kora_engine.Prelude.Endian.{put_u32, u32_at, Read, full, at_end, cut_short, read_full}

abbrev pub index_stride : ℕ
index_stride = 16

abbrev pub tombstone_sentinel : ℕ
tombstone_sentinel = 0xFFFF_FFFF

-- "KORA".
abbrev pub magic : ℕ
magic = 0x4B4F_5241

abbrev pub footer_size : ℕ
footer_size = 28

-- A key with its value, or with the mark of a deleted key.
pub record Entry : Type 0 where
  pub key : Bytes
  pub value : Option Bytes

abbrev pub slice : Option Bytes → Bytes
slice none = []
slice (some v) = v

unfoldable pub encode_record_header : ℕ → ℕ → Bytes
encode_record_header key_len val_len = put_u32 key_len ++ put_u32 val_len

unfoldable pub record_size : ℕ → ℕ → ℕ
record_size key_len val_len = 8 + key_len + (if val_len == tombstone_sentinel then 0 else val_len)

-- `bufReader`: the bytes from the current position to the end of the file, and the position.
pub record Cursor : Type 0 where
  pub left : Bytes
  pub pos : ℕ

-- What `readRecord` returns.
pub data ReadRecord : Type 0 where
  entry : Entry → Cursor → ReadRecord
  eof corrupt : ReadRecord

read_value : Bytes → ℕ → Bytes → ℕ → ReadRecord
read_value key val_len left pos = elim (read_full val_len left) [
  | full value rest ↦
      entry (record { key = key; value = some value }) (record { left = rest; pos = pos + val_len })
  | at_end ↦ corrupt
  | cut_short ↦ corrupt
]

read_key : ℕ → ℕ → Bytes → ℕ → ReadRecord
unfolding read_value
read_key key_len val_len left pos = elim (read_full key_len left) [
  | full key rest ↦
      if val_len == tombstone_sentinel
      then entry (record { key = key; value = none }) (record { left = rest; pos = pos + key_len })
      else read_value key val_len rest (pos + key_len)
  | at_end ↦ corrupt
  | cut_short ↦ corrupt
]

unfoldable pub read_record : Cursor → ReadRecord
unfolding read_key
read_record c = elim (read_full 8 c.left) [
  | full hdr rest ↦ read_key (u32_at 0 hdr) (u32_at 4 hdr) rest (c.pos + 8)
  | at_end ↦ eof
  | cut_short ↦ eof
]
