-- ===== src/Proto/RoundTrip.antt =====
-- What one side of a connection writes, the other side reads.
use kora_engine.Prelude.{
  ℕ, ◌+◌, ◌^◌, ◌<◌, ◌≡◌, refl, sym, ap, ◌∙◌, false, ◌&&◌, Option, none, some, List, [], ◌∷◌, ◌++◌,
  ◌==◌, if◌then◌else◌, length, All, arith, append_assoc, length-append, take-append,
}
use kora_engine.Prelude.Order.{Bytes}
use kora_engine.Prelude.Endian.{full, read_full, read_full-eq}
use kora_engine.Proto.{
  crlf, put_decimal, plus, atoi, atoi_minus, atoi_unsigned, atoi_digits, read_string, trim_right,
  read_line, is_empty, write_bulk_string, write_array_len, write_bulk_strings, write_cmd,
  read_bulk_data, bulk_of_line, read_bulk_arg, read_args, array_of_length, array_of_line,
  read_array_command, read_command,
}
use kora_engine.Proto.Numbers.{IsDigit, put_decimal-IsDigit, atoi-put_decimal}

-- A byte that ends no line.
abbrev pub IsPlain : ℕ → Type 0
IsPlain c = 13 < c

pub read_string-line :
    (line rest : Bytes)
    → All IsPlain line
    → read_string (line ++ (crlf ++ rest)) ≡ some (line ++ crlf, rest)
unfolding read_string
read_string-line [] rest h = refl
read_string-line (c ∷ line) rest (h, hs) =
    let p : (c == 10) ≡ false = ground arith in rw (p, read_string-line line rest hs, read_string)

pub trim_right-line : (line : Bytes) → All IsPlain line → trim_right (line ++ crlf) ≡ line
unfolding trim_right
trim_right-line [] h = refl
trim_right-line (c ∷ line) (h, hs) =
    let p : (c == 13) ≡ false = ground arith in
    let q : (c == 10) ≡ false = ground arith in rw (trim_right-line line hs, p, q) (keeps line)
  where
    keeps : (line : Bytes) → (if is_empty line && false then [] else c ∷ line) ≡ c ∷ line
    keeps [] = refl
    keeps (d ∷ line) = refl

pub read_line-line :
    (line rest : Bytes) → All IsPlain line → read_line (line ++ (crlf ++ rest)) ≡ some (line, rest)
unfolding read_line
read_line-line line rest h = rw (read_string-line line rest h, trim_right-line line h, read_line)

pub IsPlain-digits : (bs : Bytes) → All IsDigit bs → All IsPlain bs
IsPlain-digits [] h = tt
IsPlain-digits (b ∷ bs) (h, hs) = (omega arith, IsPlain-digits bs hs)

-- A line that holds a type byte and a number.
pub number_line :
    (t n : ℕ) (rest : Bytes)
    → IsPlain t
    → read_line (t ∷ (put_decimal n ++ (crlf ++ rest))) ≡ some (t ∷ put_decimal n, rest)
number_line t n rest h =
    read_line-line (t ∷ put_decimal n) rest
      (h, IsPlain-digits (put_decimal n) (put_decimal-IsDigit n))

-- A null bulk string, or one that a slice can hold.
abbrev pub IsShort : Option Bytes → Type 0
IsShort none = Unit
IsShort (some b) = length b < 2 ^ 62

pub bulk_data :
    (b rest : Bytes) → read_bulk_data (plus (length b)) (b ++ (crlf ++ rest)) ≡ some (some b, rest)
unfolding read_bulk_data
bulk_data b rest =
    let l : length (b ++ crlf) ≡ length b + 2 = length-append b crlf in
    let e : b ++ (crlf ++ rest) ≡ (b ++ crlf) ++ rest = sym (append_assoc b crlf rest) in
    let f : read_full (length b + 2) (b ++ (crlf ++ rest)) ≡ full (b ++ crlf) rest =
      ap (read_full (length b + 2)) e ∙ read_full-eq (length b + 2) (b ++ crlf) rest l in
    rw (f, read_bulk_data) (ap (λ x. some (some x, rest)) (take-append b crlf))

pub bulk_bytes :
    (b rest : Bytes)
    → write_bulk_string (some b) ++ rest
      ≡ b'$' ∷ (put_decimal (length b) ++ (crlf ++ (b ++ (crlf ++ rest))))
unfolding write_bulk_string
bulk_bytes b rest =
    ap (λ x. b'$' ∷ x)
      (append_assoc (put_decimal (length b)) (crlf ++ (b ++ crlf)) rest
        ∙ ap (λ x. put_decimal (length b) ++ (crlf ++ x)) (append_assoc b crlf rest))

pub null_line :
    (rest : Bytes)
    → read_line (write_bulk_string none ++ rest) ≡ some (b'$' ∷ b'-' ∷ b'1' ∷ [], rest)
unfolding write_bulk_string read_line read_string trim_right
null_line rest = refl

pub null_length : (rest : Bytes) → read_bulk_data (atoi (b'-' ∷ b'1' ∷ [])) rest ≡ some (none, rest)
unfolding atoi atoi_minus atoi_unsigned atoi_digits read_bulk_data
null_length rest = refl

pub null_arg : (rest : Bytes) → read_bulk_arg (write_bulk_string none ++ rest) ≡ some (none, rest)
unfolding read_bulk_arg bulk_of_line
null_arg rest = rw (null_line rest, read_bulk_arg) (null_length rest)

pub read_bulk_arg-write_bulk_string :
    (b : Option Bytes) (rest : Bytes)
    → IsShort b
    → read_bulk_arg (write_bulk_string b ++ rest) ≡ some (b, rest)
unfolding read_bulk_arg bulk_of_line
read_bulk_arg-write_bulk_string none rest h = null_arg rest
read_bulk_arg-write_bulk_string (some b) rest h =
    ap read_bulk_arg (bulk_bytes b rest)
    ∙ rw
        (
          number_line b'$' (length b) (b ++ (crlf ++ rest)) (omega arith),
          atoi-put_decimal (length b) (omega arith),
          read_bulk_arg,
        )
        (bulk_data b rest)

pub read_args-write_bulk_strings :
    (args : List (Option Bytes)) (rest : Bytes)
    → All IsShort args
    → read_args (length args) (write_bulk_strings args ++ rest) ≡ some (args, rest)
unfolding read_args write_bulk_strings
read_args-write_bulk_strings [] rest h = refl
read_args-write_bulk_strings (a ∷ args) rest (h, hs) = rw (
  append_assoc (write_bulk_string a) (write_bulk_strings args) rest,
  read_bulk_arg-write_bulk_string a (write_bulk_strings args ++ rest) h,
  read_args-write_bulk_strings args rest hs,
  read_args,
)

pub array_bytes :
    (n : ℕ) (rest : Bytes) → write_array_len n ++ rest ≡ b'*' ∷ (put_decimal n ++ (crlf ++ rest))
unfolding write_array_len
array_bytes n rest = ap (λ x. b'*' ∷ x) (append_assoc (put_decimal n) crlf rest)

pub array_of_number :
    (n : ℕ) (line rest : Bytes)
    → n < 2 ^ 63
    → line ≡ put_decimal n
    → array_of_line (b'*' ∷ line) rest ≡ read_args n rest
unfolding array_of_line array_of_length atoi
array_of_number n [] rest h e = absurd (cc (ap atoi e ∙ atoi-put_decimal n h))
array_of_number n (c ∷ cs) rest h e =
    let p : atoi (c ∷ cs) ≡ plus n = ap atoi e ∙ atoi-put_decimal n h in
    ap (λ x. array_of_length x rest) p

pub read_array_command-array :
    (n : ℕ) (rest : Bytes)
    → n < 2 ^ 63
    → read_array_command (b'*' ∷ (put_decimal n ++ (crlf ++ rest))) ≡ read_args n rest
unfolding read_array_command
read_array_command-array n rest h =
    rw (number_line b'*' n rest (omega arith), read_array_command)
      (array_of_number n (put_decimal n) rest h refl)

pub read_command-array :
    (fields : Bytes → List Bytes) (n : ℕ) (rest : Bytes)
    → n < 2 ^ 63
    → read_command fields (write_array_len n ++ rest) ≡ read_args n rest
unfolding read_command
read_command-array fields n rest h =
    ap (read_command fields) (array_bytes n rest) ∙ read_array_command-array n rest h

-- A command that the client writes, the server reads: the name and the arguments, null and empty
-- ones included, and it leaves whatever follows. They, and their number, are shorter than 2 ^ 62.
-- `fields`, which splits a command that is typed as text, has no part in it.
pub read_command-write_cmd :
    (fields : Bytes → List Bytes) (cmd : Bytes) (args : List (Option Bytes)) (rest : Bytes)
    → length args < 2 ^ 62
    → All IsShort (some cmd ∷ args)
    → read_command fields (write_cmd cmd args ++ rest) ≡ some (some cmd ∷ args, rest)
unfolding write_cmd write_bulk_strings
read_command-write_cmd fields cmd args rest l h =
    let k = 1 + length args in
    let e : k ≡ length (some cmd ∷ args) = omega arith in
    ap (read_command fields)
      (append_assoc (write_array_len k) (write_bulk_strings (some cmd ∷ args)) rest)
    ∙ read_command-array fields k (write_bulk_strings (some cmd ∷ args) ++ rest) (omega arith)
    ∙ ap (λ n. read_args n (write_bulk_strings (some cmd ∷ args) ++ rest)) e
    ∙ read_args-write_bulk_strings (some cmd ∷ args) rest h
