-- ===== src/Tests/Serving.antt =====
-- Commands and their answers at concrete inputs, over a database in memory.
use kora_engine.Prelude.{◌≡◌, refl, Option, none, some, List, [], ◌∷◌, ◌++◌, length, arith}
use kora_engine.Prelude.Order.{Bytes, bytes_equal, compare_bytes}
use kora_engine.Record.{slice}
use kora_engine.Proto.{reply, Pairs, read_bulk_string, read_pairs}
use kora_engine.Sstable.{Entry}
use kora_engine.Server.{Engine, Fetched, fetched, bound, codes, get_request, scan_request, serve}
use kora_engine.Server.Answers.{serve-get_request, serve-scan_request}
use kora_engine.Memtable.Sorted.{lookup, put}

abbrev fetch : Option (Option Bytes) → Fetched
fetch none = fetched none
fetch (some v) = fetched v

abbrev pairs_of : List Entry → Pairs
pairs_of [] = []
pairs_of (e ∷ es) = (some e.key, e.value) ∷ pairs_of es

-- A sorted list, of which a scan yields everything.
abbrev memory : Engine
memory = record {
  State = List Entry;
  set = λ key v s. (none, put s key (some (slice v)));
  get = λ s key. fetch (lookup s key);
  delete = λ key s. (none, put s key none);
  len = λ s. length s;
  scan = λ s start end. pairs_of s;
  compact = λ s. (none, s);
  compact_sstables = λ s. (none, s);
  sstable_count = λ s. 0;
}

abbrev stored_entry : List Entry
stored_entry = record { key = codes "k"; value = some (codes "value") } ∷ []

-- Another command follows.
serve-get_request_example :
    (out : Bytes) × (serve memory
        (λ bs. bs)
        (λ bs. [])
        (get_request (some (codes "k")) ++ codes "PING")
        stored_entry
      ≡ some (out, stored_entry, codes "PING"))
    × (read_bulk_string out ≡ reply (some (codes "value")) [])
unfolding bytes_equal compare_bytes
serve-get_request_example =
    serve-get_request memory (λ bs. bs) (λ bs. []) (some (codes "k")) (some (codes "value"))
      (codes "PING") stored_entry refl (omega arith) (omega arith) refl

serve-scan_request_example :
    (out : Bytes) × (serve memory
        (λ bs. bs)
        (λ bs. [])
        (scan_request none (some (codes "z")) ++ [])
        stored_entry
      ≡ some (out, stored_entry, []))
    × (read_pairs out ≡ reply (memory.scan stored_entry (bound none) (bound (some (codes "z")))) [])
serve-scan_request_example =
    serve-scan_request memory (λ bs. bs) (λ bs. []) none (some (codes "z")) [] stored_entry refl tt
      (omega arith) (omega arith) ((omega arith, omega arith), tt)
