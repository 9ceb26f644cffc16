-- ===== src/Proto.antt =====
-- internal/proto/resp.go, and `writeCmd` of client/client.go: the wire protocol. A connection is the
-- list of the bytes to come; a writer is the list of the bytes written. Numbers are written by `%d`
-- and read by `strconv.Atoi`. An allocation that is too large is a panic, which is not modelled.
pub mod Numbers
pub mod RoundTrip
pub mod Replies
use kora_engine.Prelude.{
  ℕ, zero, suc, ◌+◌, ◌-◌, ◌*◌, ◌/◌, ◌%◌, ◌^◌, Bool, true, false, not, ◌&&◌, ◌||◌, Option, none,
  some, List, [], ◌∷◌, ◌++◌, ltb, leb, ◌==◌, if◌then◌else◌, length, take,
}
use kora_engine.Prelude.Order.{Bytes}
use kora_engine.Prelude.Endian.{Read, full, at_end, cut_short, read_full}

abbrev pub crlf : Bytes
crlf = 13 ∷ 10 ∷ []

-- The digits of a number, on fuel; one round for each digit.
unfoldable pub decimal : ℕ → ℕ → Bytes
decimal zero n = []
decimal (suc fuel) n =
    let front = decimal fuel (n / 10) in
    if ltb n 10 then (48 + n) ∷ [] else front ++ ((48 + n % 10) ∷ [])

unfoldable pub put_decimal : ℕ → Bytes
put_decimal n = decimal (suc n) n

unfoldable pub write_simple_string : Bytes → Bytes
write_simple_string s = b'+' ∷ (s ++ crlf)

unfoldable pub write_ok : Bytes
write_ok = b'+' ∷ b'O' ∷ b'K' ∷ crlf

unfoldable pub write_error : Bytes → Bytes
write_error msg = b'-' ∷ b'E' ∷ b'R' ∷ b'R' ∷ b' ' ∷ (msg ++ crlf)

-- The callers pass counts, which are not negative.
unfoldable pub write_integer : ℕ → Bytes
write_integer n = b':' ∷ (put_decimal n ++ crlf)

unfoldable pub write_bulk_string : Option Bytes → Bytes
write_bulk_string none = b'$' ∷ b'-' ∷ b'1' ∷ crlf
write_bulk_string (some b) = b'$' ∷ (put_decimal (length b) ++ (crlf ++ (b ++ crlf)))

unfoldable pub write_array_len : ℕ → Bytes
write_array_len n = b'*' ∷ (put_decimal n ++ crlf)

unfoldable pub write_bulk_strings : List (Option Bytes) → Bytes
write_bulk_strings [] = []
write_bulk_strings (a ∷ args) = write_bulk_string a ++ write_bulk_strings args

-- `writeCmd`.
unfoldable pub write_cmd : Bytes → List (Option Bytes) → Bytes
write_cmd cmd args =
    write_array_len (1 + length args) ++ (write_bulk_string (some cmd) ++ write_bulk_strings args)

-- What `Atoi` returns.
pub data Atoi : Type 0 where
  plus minus : ℕ → Atoi
  invalid : Atoi

abbrev pub is_digit : ℕ → Bool
is_digit c = leb 48 c && leb c 57

unfoldable pub atoi_digits : ℕ → Bytes → Option ℕ
atoi_digits n [] = some n
atoi_digits n (c ∷ cs) =
    let more = atoi_digits (n * 10 + (c - 48)) cs in if is_digit c then more else none

unfoldable pub atoi_unsigned : Bytes → Option ℕ
atoi_unsigned [] = none
atoi_unsigned (c ∷ cs) = atoi_digits 0 (c ∷ cs)

unfoldable pub atoi_plus : Option ℕ → Atoi
atoi_plus none = invalid
atoi_plus (some n) = if ltb n (2 ^ 63) then plus n else invalid

unfoldable pub atoi_minus : Option ℕ → Atoi
atoi_minus none = invalid
atoi_minus (some n) = if n == 0 then plus 0 else if leb n (2 ^ 63) then minus n else invalid

unfoldable pub atoi : Bytes → Atoi
atoi [] = invalid
atoi (c ∷ cs) =
    if c == b'-'
    then atoi_minus (atoi_unsigned cs)
    else if c == b'+'
    then atoi_plus (atoi_unsigned cs)
    else atoi_plus (atoi_unsigned (c ∷ cs))

-- `ReadString('\n')`; `none` is the end of the connection.
unfoldable pub read_string : Bytes → Option (Bytes × Bytes)
read_string [] = none
read_string (b ∷ bs) =
    let more : Option (Bytes × Bytes) = (elim (read_string bs) [
      | none ↦ none
      | some (line, rest) ↦ some (b ∷ line, rest)
    ]) in
    if b == 10 then some (b ∷ [], bs) else more

abbrev pub is_empty : Bytes → Bool
is_empty [] = true
is_empty (b ∷ bs) = false

-- `strings.TrimRight(line, "\r\n")`.
unfoldable pub trim_right : Bytes → Bytes
trim_right [] = []
trim_right (b ∷ bs) =
    let rest = trim_right bs in if is_empty rest && (b == 13 || b == 10) then [] else b ∷ rest

unfoldable pub read_line : Bytes → Option (Bytes × Bytes)
read_line bs = elim (read_string bs) [
  | none ↦ none
  | some (line, rest) ↦ some (trim_right line, rest)
]

-- The data of a bulk string behind its length, with the two bytes that end it, which are not looked at.
unfoldable pub read_bulk_data : Atoi → Bytes → Option (Option Bytes × Bytes)
read_bulk_data invalid bs = none
read_bulk_data (minus n) bs = some (none, bs)
read_bulk_data (plus n) bs = elim (read_full (n + 2) bs) [
  | full buf rest ↦ some (some (take n buf), rest)
  | at_end ↦ none
  | cut_short ↦ none
]

unfoldable pub bulk_of_line : Bytes → Bytes → Option (Option Bytes × Bytes)
bulk_of_line [] bs = none
bulk_of_line (t ∷ len) bs =
    let bulk = read_bulk_data (atoi len) bs in if t == b'$' then bulk else none

-- `readBulkArg`; `none` is any of its errors.
unfoldable pub read_bulk_arg : Bytes → Option (Option Bytes × Bytes)
read_bulk_arg bs = elim (read_line bs) [ none ↦ none | some (line, rest) ↦ bulk_of_line line rest ]

unfoldable pub read_args : ℕ → Bytes → Option (List (Option Bytes) × Bytes)
read_args zero bs = some ([], bs)
read_args (suc n) bs = elim (read_bulk_arg bs) [
  | none ↦ none
  | some (a, rest) ↦ elim (read_args n rest) [
    | none ↦ none
    | some (args, rest') ↦ some (a ∷ args, rest')
  ]
]

unfoldable pub array_of_length : Atoi → Bytes → Option (List (Option Bytes) × Bytes)
array_of_length invalid bs = none
array_of_length (minus n) bs = none
array_of_length (plus n) bs = read_args n bs

unfoldable pub array_of_line : Bytes → Bytes → Option (List (Option Bytes) × Bytes)
array_of_line [] bs = none
array_of_line (t ∷ []) bs = none
array_of_line (t ∷ c ∷ cs) bs =
    let array = array_of_length (atoi (c ∷ cs)) bs in if t == b'*' then array else none

unfoldable pub read_array_command : Bytes → Option (List (Option Bytes) × Bytes)
read_array_command bs = elim (read_line bs) [
  | none ↦ none
  | some (line, rest) ↦ array_of_line line rest
]

abbrev pub all_some : List Bytes → List (Option Bytes)
all_some [] = []
all_some (b ∷ bs) = some b ∷ all_some bs

-- `fields` is `strings.Fields`.
module _ (fields : Bytes → List Bytes) where
  unfoldable pub read_inline_command : Bytes → Option (List (Option Bytes) × Bytes)
  read_inline_command bs = elim (read_line bs) [
    | none ↦ none
    | some (line, rest) ↦ some (all_some (fields line), rest)
  ]

  unfoldable pub read_command : Bytes → Option (List (Option Bytes) × Bytes)
  read_command [] = none
  read_command (b ∷ bs) =
      if b == b'*' then read_array_command (b ∷ bs) else read_inline_command (b ∷ bs)

-- What a reader of replies returns: a value and the bytes behind it, the error that the server sent,
-- or an error of its own.
pub data Reply {ℓ} (A : Type ℓ) : Type ℓ where
  reply : A → Bytes → Reply A
  server_error : Bytes → Bytes → Reply A
  failed : Reply A

unfoldable pub simple_of_line : Bytes → Bytes → Reply Bytes
simple_of_line [] bs = failed
simple_of_line (t ∷ s) bs =
    if t == b'+' then reply s bs else if t == b'-' then server_error s bs else failed

unfoldable pub read_simple_string : Bytes → Reply Bytes
read_simple_string bs = elim (read_line bs) [
  | none ↦ failed
  | some (line, rest) ↦ simple_of_line line rest
]

unfoldable pub reply_of_bulk : Option (Option Bytes × Bytes) → Reply (Option Bytes)
reply_of_bulk none = failed
reply_of_bulk (some (b, rest)) = reply b rest

-- A null bulk string is `none`.
unfoldable pub bulk_reply_of_line : Bytes → Bytes → Reply (Option Bytes)
bulk_reply_of_line [] bs = failed
bulk_reply_of_line (t ∷ len) bs =
    let bulk = reply_of_bulk (read_bulk_data (atoi len) bs) in
    if t == b'-' then server_error len bs else if t == b'$' then bulk else failed

unfoldable pub read_bulk_string : Bytes → Reply (Option Bytes)
read_bulk_string bs = elim (read_line bs) [
  | none ↦ failed
  | some (line, rest) ↦ bulk_reply_of_line line rest
]

unfoldable pub reply_of_number : Atoi → Bytes → Reply Atoi
reply_of_number invalid bs = failed
reply_of_number (plus n) bs = reply (plus n) bs
reply_of_number (minus n) bs = reply (minus n) bs

unfoldable pub integer_of_line : Bytes → Bytes → Reply Atoi
integer_of_line [] bs = failed
integer_of_line (t ∷ n) bs =
    let number = reply_of_number (atoi n) bs in
    if t == b'-' then server_error n bs else if t == b':' then number else failed

unfoldable pub read_integer : Bytes → Reply Atoi
read_integer bs = elim (read_line bs) [
  | none ↦ failed
  | some (line, rest) ↦ integer_of_line line rest
]

abbrev pub Pairs : Type 0
Pairs = List (Option Bytes × Option Bytes)

unfoldable pub read_pairs_loop : ℕ → Bytes → Reply Pairs
read_pairs_loop zero bs = reply [] bs
read_pairs_loop (suc n) bs = elim (read_bulk_arg bs) [
  | none ↦ failed
  | some (k, rest) ↦ elim (read_bulk_arg rest) [
    | none ↦ failed
    | some (v, rest') ↦ elim (read_pairs_loop n rest') [
      | failed ↦ failed
      | server_error msg rest'' ↦ failed
      | reply pairs rest'' ↦ reply ((k, v) ∷ pairs) rest''
    ]
  ]
]

-- A negative length that is even is a panic of the code, and `failed` here.
unfoldable pub pairs_of_length : Atoi → Bytes → Reply Pairs
pairs_of_length invalid bs = failed
pairs_of_length (minus n) bs = failed
pairs_of_length (plus n) bs =
    let pairs = read_pairs_loop (n / 2) bs in if n % 2 == 0 then pairs else failed

unfoldable pub pairs_of_line : Bytes → Bytes → Reply Pairs
pairs_of_line [] bs = failed
pairs_of_line (t ∷ n) bs =
    let pairs = pairs_of_length (atoi n) bs in
    if t == b'-' then server_error n bs else if t == b'*' then pairs else failed

unfoldable pub read_pairs : Bytes → Reply Pairs
read_pairs bs = elim (read_line bs) [ none ↦ failed | some (line, rest) ↦ pairs_of_line line rest ]

-- The reply of the server to SCAN.
unfoldable pub write_pairs : Pairs → Bytes
write_pairs [] = []
write_pairs (p ∷ pairs) = write_bulk_string p.0 ++ (write_bulk_string p.1 ++ write_pairs pairs)

unfoldable pub write_scan_reply : Pairs → Bytes
write_scan_reply pairs = write_array_len (length pairs * 2) ++ write_pairs pairs
