-- ===== src/Server.antt =====
-- internal/server/server.go: a command of a connection and its reply. The database is a parameter, an
-- implementation of the interface Engine, and so is `strings.ToUpper`. The calls of client/client.go
-- stand beside the commands that they send.
pub mod Answers
pub mod Backend
use Prim.Native.Char.{code}
use Prim.Native.String.{String}
use kora_engine.Prelude.{
  ℕ, zero, suc, ◌+◌, ◌*◌, ◌<◌, ◌^◌, ◌≡◌, refl, sym, ap, ◌∙◌, Bool, true, false, Option, none, some,
  List, [], ◌∷◌, ◌++◌, if◌then◌else◌, length, arith, All, append-nil,
}
use kora_engine.Prelude.Order.{Bytes, bytes_equal}
use kora_engine.Record.{slice}
use kora_engine.Proto.{
  Reply, reply, server_error, failed, Pairs, Atoi, plus, put_decimal, write_simple_string, write_ok,
  write_error, write_integer, write_bulk_string, write_scan_reply, write_cmd, read_command,
  read_bulk_string, read_integer, read_pairs,
}
use kora_engine.Proto.RoundTrip.{IsShort, read_command-write_cmd}
use kora_engine.Proto.Replies.{read_bulk_string-write_bulk_string}

-- What a read of the database returns: a value, or none, or an error's text.
pub data Fetched : Type 0 where
  fetched : Option Bytes → Fetched
  fetch_failed : Bytes → Fetched

-- What the server calls of the database. A call that changes it returns the text of its error.
pub record Engine : Type 1 where
  pub State : Type 0
  pub set : Bytes → Option Bytes → State → Option Bytes × State
  pub get : State → Bytes → Fetched
  pub delete : Bytes → State → Option Bytes × State
  pub len : State → ℕ
  pub scan : State → Option Bytes → Option Bytes → Pairs
  pub compact : State → Option Bytes × State
  pub compact_sstables : State → Option Bytes × State
  pub sstable_count : State → ℕ

-- The bytes of a text, each a code below 128.
abbrev pub codes : String → Bytes
codes String.[] = []
codes (String.◌∷◌ c s) = code c ∷ codes s

abbrev pub set_name : Bytes
set_name = codes "SET"

abbrev pub get_name : Bytes
get_name = codes "GET"

abbrev pub del_name : Bytes
del_name = codes "DEL"

abbrev pub ping_name : Bytes
ping_name = codes "PING"

abbrev pub dbsize_name : Bytes
dbsize_name = codes "DBSIZE"

abbrev pub scan_name : Bytes
scan_name = codes "SCAN"

abbrev pub compact_name : Bytes
compact_name = codes "COMPACT"

abbrev pub compact_sst_name : Bytes
compact_sst_name = codes "COMPACT-SST"

abbrev pub set_usage : Bytes
set_usage = codes "SET requires 2 arguments: SET key value"

abbrev pub get_usage : Bytes
get_usage = codes "GET requires 1 argument: GET key"

-- `…` is three bytes.
abbrev pub del_usage : Bytes
del_usage = codes "DEL requires at least 1 argument: DEL key [key " ++ (226 ∷ 128 ∷ 166 ∷ codes "]")

-- A bound of a scan; an empty one is none.
unfoldable pub bound : Option Bytes → Option Bytes
bound none = none
bound (some []) = none
bound (some (b ∷ bs)) = some (b ∷ bs)

-- The two bounds from the arguments that are there.
unfoldable pub bounds : List (Option Bytes) → Option Bytes × Option Bytes
bounds [] = (none, none)
bounds (start ∷ []) = (bound start, none)
bounds (start ∷ end ∷ args) = (bound start, bound end)

-- `scan` of the client: no bound is sent as an empty one.
unfoldable pub scan_request : Option Bytes → Option Bytes → Bytes
scan_request start end = write_cmd scan_name (some (slice start) ∷ some (slice end) ∷ [])

unfoldable pub get_request : Option Bytes → Bytes
get_request key = write_cmd get_name (key ∷ [])

unfoldable pub set_request : Option Bytes → Option Bytes → Bytes
set_request key value = write_cmd set_name (key ∷ value ∷ [])

unfoldable pub delete_request : List (Option Bytes) → Bytes
delete_request keys = write_cmd del_name keys

unfoldable pub dbsize_request : Bytes
dbsize_request = write_cmd dbsize_name []

module _ (e : Engine) (upper : Bytes → Bytes) (fields : Bytes → List Bytes) where
  unfoldable pub answer : Bytes → Option Bytes × e.State → Bytes × e.State
  answer done (none, s) = (done, s)
  answer done (some msg, s) = (write_error msg, s)

  unfoldable pub dispatch_ping : List (Option Bytes) → Bytes
  dispatch_ping [] = write_simple_string (codes "PONG")
  dispatch_ping (a ∷ args) = write_bulk_string a

  unfoldable pub dispatch_set : List (Option Bytes) → e.State → Bytes × e.State
  dispatch_set [] s = (write_error set_usage, s)
  dispatch_set (key ∷ []) s = (write_error set_usage, s)
  dispatch_set (key ∷ value ∷ []) s = answer write_ok (e.set (slice key) value s)
  dispatch_set (key ∷ value ∷ a ∷ args) s = (write_error set_usage, s)

  unfoldable pub fetched_reply : Fetched → Bytes
  fetched_reply (fetched v) = write_bulk_string v
  fetched_reply (fetch_failed msg) = write_error msg

  unfoldable pub dispatch_get : List (Option Bytes) → e.State → Bytes × e.State
  dispatch_get [] s = (write_error get_usage, s)
  dispatch_get (key ∷ []) s = (fetched_reply (e.get s (slice key)), s)
  dispatch_get (key ∷ a ∷ args) s = (write_error get_usage, s)

  abbrev pub found_one : Option Bytes → ℕ
  found_one none = 0
  found_one (some v) = 1

  -- The loop of DEL; `n` keys that it has deleted were there.
  unfoldable pub del_loop : List (Option Bytes) → ℕ → e.State → Bytes × e.State
  del_loop [] n s = (write_integer n, s)
  del_loop (key ∷ keys) n s = elim (e.get s (slice key)) [
    | fetch_failed msg ↦ (write_error msg, s)
    | fetched v ↦
        let (err, s') = e.delete (slice key) s in
        elim err [ some msg ↦ (write_error msg, s') | none ↦ del_loop keys (n + found_one v) s' ]
  ]

  unfoldable pub dispatch_del : List (Option Bytes) → e.State → Bytes × e.State
  dispatch_del [] s = (write_error del_usage, s)
  dispatch_del (key ∷ keys) s = del_loop (key ∷ keys) 0 s

  unfoldable pub dispatch_scan : List (Option Bytes) → e.State → Bytes
  dispatch_scan args s = let (start, end) = bounds args in write_scan_reply (e.scan s start end)

  unfoldable pub sst_reply : e.State → Bytes
  sst_reply s = write_simple_string (codes "OK sstables=" ++ put_decimal (e.sstable_count s))

  unfoldable pub dispatch_compact_sst : e.State → Bytes × e.State
  dispatch_compact_sst s = let (err, s') = e.compact_sstables s in answer (sst_reply s') (err, s')

  -- The command's name comes in upper case.
  unfoldable pub dispatch_named : Bytes → List (Option Bytes) → e.State → Bytes × e.State
  dispatch_named cmd args s =
      if bytes_equal cmd ping_name
      then (dispatch_ping args, s)
      else if bytes_equal cmd set_name
      then dispatch_set args s
      else if bytes_equal cmd get_name
      then dispatch_get args s
      else if bytes_equal cmd del_name
      then dispatch_del args s
      else if bytes_equal cmd dbsize_name
      then (write_integer (e.len s), s)
      else if bytes_equal cmd scan_name
      then (dispatch_scan args s, s)
      else if bytes_equal cmd compact_name
      then answer write_ok (e.compact s)
      else if bytes_equal cmd compact_sst_name
      then dispatch_compact_sst s
      else (write_error (codes "unknown command '" ++ (cmd ++ codes "'")), s)

  -- A blank line has no reply.
  unfoldable pub dispatch : List (Option Bytes) → e.State → Bytes × e.State
  dispatch [] s = ([], s)
  dispatch (cmd ∷ args) s = dispatch_named (upper (slice cmd)) args s

  -- One round of `handle`: the reply, and what is left to read; `none` hangs up.
  unfoldable pub serve : Bytes → e.State → Option (Bytes × e.State × Bytes)
  serve bs s = elim (read_command fields bs) [
    | none ↦ none
    | some (args, rest) ↦ let (out, s') = dispatch args s in some (out, s', rest)
  ]
