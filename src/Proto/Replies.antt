-- ===== src/Proto/Replies.antt =====
-- The replies that the server writes, the client reads.
use kora_engine.Prelude.{
  ℕ, ◌*◌, ◌/◌, ◌%◌, ◌^◌, ◌<◌, ◌≡◌, refl, ap, ◌∙◌, true, Option, none, some, [], ◌∷◌, ◌++◌, ◌==◌,
  length, All, arith, append_assoc,
}
use kora_engine.Prelude.Order.{Bytes}
use kora_engine.Proto.{
  crlf, put_decimal, plus, read_line, write_error, write_integer, write_bulk_string,
  write_array_len, reply, server_error, simple_of_line, read_simple_string, reply_of_bulk,
  bulk_reply_of_line, read_bulk_string, reply_of_number, integer_of_line, read_integer, Pairs,
  read_pairs_loop, pairs_of_length, pairs_of_line, read_pairs, write_pairs, write_scan_reply,
}
use kora_engine.Proto.Numbers.{atoi-put_decimal}
use kora_engine.Proto.RoundTrip.{
  IsPlain, read_line-line, number_line, IsShort, bulk_data, bulk_bytes, null_line, null_length,
  read_bulk_arg-write_bulk_string, array_bytes,
}

-- A reply to GET that the server writes, the client reads: a value shorter than 2 ^ 62, or null.
pub read_bulk_string-write_bulk_string :
    (b : Option Bytes) (rest : Bytes)
    → IsShort b
    → read_bulk_string (write_bulk_string b ++ rest) ≡ reply b rest
unfolding read_bulk_string bulk_reply_of_line reply_of_bulk
read_bulk_string-write_bulk_string none rest h =
    rw (null_line rest, null_length rest, read_bulk_string)
read_bulk_string-write_bulk_string (some b) rest h =
    ap read_bulk_string (bulk_bytes b rest)
    ∙ rw (
      number_line b'$' (length b) (b ++ (crlf ++ rest)) (omega arith),
      atoi-put_decimal (length b) (omega arith),
      bulk_data b rest,
      read_bulk_string,
    )

-- A count below 2 ^ 63 that the server writes, the client reads.
pub read_integer-write_integer :
    (n : ℕ) (rest : Bytes)
    → n < 2 ^ 63
    → read_integer (write_integer n ++ rest) ≡ reply (plus n) rest
unfolding read_integer integer_of_line reply_of_number write_integer
read_integer-write_integer n rest h =
    ap (λ x. read_integer (b':' ∷ x)) (append_assoc (put_decimal n) crlf rest)
    ∙ rw (number_line b':' n rest (omega arith), atoi-put_decimal n h, read_integer)

read_pairs_loop-write_pairs :
    (pairs : Pairs) (rest : Bytes)
    → All (λ (p : Option Bytes × Option Bytes). IsShort p.0 × IsShort p.1) pairs
    → read_pairs_loop (length pairs) (write_pairs pairs ++ rest) ≡ reply pairs rest
unfolding read_pairs_loop write_pairs
read_pairs_loop-write_pairs [] rest h = refl
read_pairs_loop-write_pairs (p ∷ pairs) rest ((hk, hv), hs) = rw (
  append_assoc (write_bulk_string p.0) (write_bulk_string p.1 ++ write_pairs pairs) rest,
  append_assoc (write_bulk_string p.1) (write_pairs pairs) rest,
  read_bulk_arg-write_bulk_string p.0 (write_bulk_string p.1 ++ (write_pairs pairs ++ rest)) hk,
  read_bulk_arg-write_bulk_string p.1 (write_pairs pairs ++ rest) hv,
  read_pairs_loop-write_pairs pairs rest hs,
  read_pairs_loop,
)

pairs_of_number :
    (n : ℕ) (rest : Bytes)
    → n < 2 ^ 62
    → pairs_of_line (b'*' ∷ put_decimal (n * 2)) rest ≡ read_pairs_loop n rest
unfolding pairs_of_line pairs_of_length
pairs_of_number n rest h =
    let even : (n * 2 % 2 == 0) ≡ true = ground arith in
    let half : n * 2 / 2 ≡ n = omega arith in
    rw (atoi-put_decimal (n * 2) (omega arith), even, half)

-- The reply to SCAN that the server writes, the client reads: every pair, in order. The pairs
-- and their number are shorter than 2 ^ 62.
pub read_pairs-write_scan_reply :
    (pairs : Pairs) (rest : Bytes)
    → length pairs < 2 ^ 62
    → All (λ (p : Option Bytes × Option Bytes). IsShort p.0 × IsShort p.1) pairs
    → read_pairs (write_scan_reply pairs ++ rest) ≡ reply pairs rest
unfolding read_pairs write_scan_reply
read_pairs-write_scan_reply pairs rest l h =
    let n = length pairs * 2 in
    ap read_pairs (
      append_assoc (write_array_len n) (write_pairs pairs) rest
      ∙ array_bytes n (write_pairs pairs ++ rest))
    ∙ rw (number_line b'*' n (write_pairs pairs ++ rest) (omega arith), read_pairs)
        (pairs_of_number (length pairs) (write_pairs pairs ++ rest) l
          ∙ read_pairs_loop-write_pairs pairs rest h)

error_line :
    (msg rest : Bytes)
    → All IsPlain msg
    → read_line (write_error msg ++ rest) ≡ some (b'-' ∷ b'E' ∷ b'R' ∷ b'R' ∷ b' ' ∷ msg, rest)
unfolding write_error
error_line msg rest h =
    ap (λ x. read_line (b'-' ∷ b'E' ∷ b'R' ∷ b'R' ∷ b' ' ∷ x)) (append_assoc msg crlf rest)
    ∙ read_line-line (b'-' ∷ b'E' ∷ b'R' ∷ b'R' ∷ b' ' ∷ msg) rest
        (omega arith, (omega arith, (omega arith, (omega arith, (omega arith, h)))))

-- An error that the server sends instead of a reply reaches the client as that error, whichever
-- reply it waits for. Every byte of the message is above 13, so that none ends a line.
pub write_error-server_error :
    (msg rest : Bytes)
    → All IsPlain msg
    → (read_simple_string (write_error msg ++ rest)
        ≡ server_error (b'E' ∷ b'R' ∷ b'R' ∷ b' ' ∷ msg) rest)
      × (read_bulk_string (write_error msg ++ rest)
          ≡ server_error (b'E' ∷ b'R' ∷ b'R' ∷ b' ' ∷ msg) rest)
      × (read_integer (write_error msg ++ rest)
          ≡ server_error (b'E' ∷ b'R' ∷ b'R' ∷ b' ' ∷ msg) rest)
      × (read_pairs (write_error msg ++ rest) ≡ server_error (b'E' ∷ b'R' ∷ b'R' ∷ b' ' ∷ msg) rest)
unfolding read_simple_string simple_of_line read_bulk_string bulk_reply_of_line read_integer
    integer_of_line read_pairs pairs_of_line
write_error-server_error msg rest h =
    let e = error_line msg rest h in
    (rw (e, read_simple_string), rw (e, read_bulk_string), rw (e, read_integer), rw (e, read_pairs))
