-- ===== src/Tests/Records.antt =====
-- The record codec, the scan of a segment and the Bloom filter at concrete inputs.
use mathlib.Core.List.{foldl, Perm}
use kora_engine.Prelude.{
  ℕ, ◌+◌, ◌≡◌, ◌≢◌, refl, true, none, some, List, [], ◌∷◌, ◌++◌, if◌then◌else◌, length, arith, All,
}
use kora_engine.Prelude.Order.{Bytes}
use kora_engine.Prelude.Endian.{put_u32, put_u64}
use kora_engine.Checksum.{crc32}
use kora_engine.Record.{Record, written, decoded, eof, unexpected_eof, meta, encode_at, decode}
use kora_engine.Record.RoundTrip.{record_bytes, decode-encode_at, encode_at-record_bytes}
use kora_engine.Record.Damage.{decode_cut, at_boundary}
use kora_engine.Record.Exact.{encode_at-decode}
use kora_engine.Segment.{complete, partial_tail, no_fuel, scan_segment, sort_ids}
use kora_engine.Segment.Scan.{
  always, log_bytes, scan_segment-log_bytes, scan_segment_cut, scan_segment-ne-no_fuel,
}
use kora_engine.Segment.Sorting.{IsAscending, sort_ids_lem}
use kora_engine.Bloom.{new, has}
use kora_engine.Bloom.Members.{add_all, has-add_all, new-IsFilter}

-- "k" with the value "v", written at time 7, and the deletion of "k".
abbrev put_k : Record
put_k = record { timestamp = 7; key = b'k' ∷ []; value = some (b'v' ∷ []) }

abbrev del_k : Record
del_k = record { timestamp = 8; key = b'k' ∷ []; value = none }

put_k_bytes : Bytes
put_k_bytes = record_bytes 7 (b'k' ∷ []) (some (b'v' ∷ []))

encoded : encode_at 7 (b'k' ∷ []) (some (b'v' ∷ [])) ≡ written put_k_bytes
unfolding put_k_bytes
encoded = encode_at-record_bytes 7 (b'k' ∷ []) (some (b'v' ∷ [])) (omega arith)

decode-encode_at_example : decode (put_k_bytes ++ 1 ∷ []) ≡ decoded put_k (1 ∷ [])
decode-encode_at_example =
    decode-encode_at 7 (b'k' ∷ []) (some (b'v' ∷ [])) put_k_bytes (1 ∷ []) (omega arith) encoded

-- The twenty bytes of the header of the record.
abbrev head_k : Bytes
head_k =
    put_u32 (crc32 (meta 7 (b'k' ∷ []) (some (b'v' ∷ [])) ++ b'k' ∷ b'v' ∷ []))
    ++ meta 7 (b'k' ∷ []) (some (b'v' ∷ []))

split_k : encode_at 7 (b'k' ∷ []) (some (b'v' ∷ [])) ≡ written (head_k ++ b'k' ∷ b'v' ∷ [])
unfolding put_k_bytes record_bytes meta put_u32 put_u64
split_k = encoded

-- A log cut just behind a header reads as a clean end.
decode_cut_example : decode head_k ≡ (if at_boundary head_k then eof else unexpected_eof)
decode_cut_example =
    decode_cut 7 (b'k' ∷ []) (some (b'v' ∷ [])) head_k b'k' (b'v' ∷ []) (omega arith) split_k

-- The deletion of "k" on disk; it decodes by computation.
abbrev tomb_bytes : Bytes
tomb_bytes =
    put_u32 (crc32 (meta 8 (b'k' ∷ []) none ++ b'k' ∷ [])) ++ (meta 8 (b'k' ∷ []) none ++ b'k' ∷ [])

tomb_decoded : decode (tomb_bytes ++ 9 ∷ []) ≡ decoded del_k (9 ∷ [])
tomb_decoded =
    decode-encode_at 8 (b'k' ∷ []) none tomb_bytes (9 ∷ []) (omega arith)
      (unfold record_bytes in encode_at-record_bytes 8 (b'k' ∷ []) none (omega arith))

encode_at-decode_example :
    (front : Bytes) × (encode_at 8 (b'k' ∷ []) none ≡ written front)
    × (tomb_bytes ++ 9 ∷ [] ≡ front ++ 9 ∷ [])
unfolding put_u32 put_u64 meta crc32
encode_at-decode_example =
    encode_at-decode (tomb_bytes ++ 9 ∷ []) del_k (9 ∷ []) (omega arith) tomb_decoded

-- A callback that counts the records.
abbrev count_record : ℕ → Record → ℕ
count_record n r = n + 1

scan_segment-log_bytes_example :
    scan_segment (always count_record) (log_bytes (put_k ∷ del_k ∷ [])) 0 ≡ record {
      state = foldl count_record 0 (put_k ∷ del_k ∷ []);
      end_offset = length (log_bytes (put_k ∷ del_k ∷ []));
      status = complete;
    }
scan_segment-log_bytes_example =
    scan_segment-log_bytes count_record (put_k ∷ del_k ∷ []) 0 (omega arith)

scan_segment_cut_example :
    scan_segment (always count_record) (log_bytes (del_k ∷ []) ++ head_k) 0 ≡ record {
      state = foldl count_record 0 (del_k ∷ []);
      end_offset = length (log_bytes (del_k ∷ []));
      status = if at_boundary head_k then complete else partial_tail;
    }
unfolding record_bytes meta put_u32 put_u64
scan_segment_cut_example =
    scan_segment_cut count_record (del_k ∷ []) put_k head_k b'k' (b'v' ∷ []) 0 (omega arith)
      (omega arith) refl

-- A file of garbage.
scan_segment-ne-no_fuel_example :
    (scan_segment (always count_record) (1 ∷ 2 ∷ 3 ∷ []) 0).status ≢ no_fuel
scan_segment-ne-no_fuel_example = scan_segment-ne-no_fuel (always count_record) (1 ∷ 2 ∷ 3 ∷ []) 0

sort_ids_run : sort_ids (3 ∷ 1 ∷ 2 ∷ []) ≡ 1 ∷ 2 ∷ 3 ∷ []
unfolding sort_ids
sort_ids_run = refl

sort_ids_lem_example :
    IsAscending (sort_ids (3 ∷ 1 ∷ 2 ∷ [])) × Perm (sort_ids (3 ∷ 1 ∷ 2 ∷ [])) (3 ∷ 1 ∷ 2 ∷ [])
sort_ids_lem_example = sort_ids_lem (3 ∷ 1 ∷ 2 ∷ [])

abbrev two_keys : List Bytes
two_keys = (b'a' ∷ []) ∷ (b'b' ∷ []) ∷ []

has-add_all_example : All (λ key. has (add_all (new 2) two_keys) key ≡ true) two_keys
has-add_all_example = has-add_all two_keys (new 2) (new-IsFilter 2 (omega arith))
