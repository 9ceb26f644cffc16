-- ===== src/Tests/Wire.antt =====
-- The wire protocol at concrete inputs.
use kora_engine.Prelude.{◌≡◌, none, some, List, [], ◌∷◌, ◌++◌, arith}
use kora_engine.Prelude.Order.{Bytes}
use kora_engine.Proto.{
  plus, write_cmd, read_command, write_bulk_string, read_bulk_string, write_integer, read_integer,
  Pairs, write_scan_reply, read_pairs, write_error, reply, server_error, read_simple_string,
}
use kora_engine.Proto.RoundTrip.{read_command-write_cmd}
use kora_engine.Proto.Replies.{
  read_bulk_string-write_bulk_string, read_integer-write_integer, read_pairs-write_scan_reply,
  write_error-server_error,
}

-- "GET".
abbrev get : Bytes
get = b'G' ∷ b'E' ∷ b'T' ∷ []

-- A splitter of text commands that finds no words.
abbrev no_fields : Bytes → List Bytes
no_fields line = []

read_command-write_cmd_example :
    read_command no_fields (write_cmd get (some (b'k' ∷ []) ∷ none ∷ []) ++ (b'x' ∷ []))
    ≡ some (some get ∷ some (b'k' ∷ []) ∷ none ∷ [], b'x' ∷ [])
read_command-write_cmd_example =
    read_command-write_cmd no_fields get (some (b'k' ∷ []) ∷ none ∷ []) (b'x' ∷ []) (omega arith)
      (omega arith, (omega arith, (tt, tt)))

read_bulk_string-write_bulk_string_example :
    read_bulk_string (write_bulk_string (some []) ++ []) ≡ reply (some []) []
read_bulk_string-write_bulk_string_example =
    read_bulk_string-write_bulk_string (some []) [] (omega arith)

read_integer-write_integer_example : read_integer (write_integer 120 ++ []) ≡ reply (plus 120) []
read_integer-write_integer_example = read_integer-write_integer 120 [] (omega arith)

abbrev one_pair : Pairs
one_pair = (some (b'k' ∷ []), some (b'v' ∷ [])) ∷ []

read_pairs-write_scan_reply_example :
    read_pairs (write_scan_reply one_pair ++ []) ≡ reply one_pair []
read_pairs-write_scan_reply_example =
    read_pairs-write_scan_reply one_pair [] (omega arith) ((omega arith, omega arith), tt)

write_error-server_error_example :
    (read_simple_string (write_error get ++ []) ≡ server_error (b'E' ∷ b'R' ∷ b'R' ∷ b' ' ∷ get) [])
    × (read_bulk_string (write_error get ++ []) ≡ server_error (b'E' ∷ b'R' ∷ b'R' ∷ b' ' ∷ get) [])
    × (read_integer (write_error get ++ []) ≡ server_error (b'E' ∷ b'R' ∷ b'R' ∷ b' ' ∷ get) [])
    × (read_pairs (write_error get ++ []) ≡ server_error (b'E' ∷ b'R' ∷ b'R' ∷ b' ' ∷ get) [])
write_error-server_error_example =
    write_error-server_error get [] (omega arith, (omega arith, (omega arith, tt)))
