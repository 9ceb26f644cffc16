-- ===== src/Server/Answers.antt =====
-- A call of client/client.go against internal/server/server.go: the command is read and answered, and
-- the client reads the answer.
use kora_engine.Prelude.{
  ◌<◌, ◌^◌, ◌≡◌, refl, sym, ap, ◌∙◌, Option, none, some, List, [], ◌∷◌, ◌++◌, length, arith, All,
  append-nil,
}
use kora_engine.Prelude.Order.{Bytes, bytes_equal, compare_bytes}
use kora_engine.Record.{slice}
use kora_engine.Proto.{
  reply, write_bulk_string, write_scan_reply, write_cmd, read_bulk_string, read_pairs,
}
use kora_engine.Proto.RoundTrip.{IsShort, read_command-write_cmd}
use kora_engine.Proto.Replies.{read_bulk_string-write_bulk_string, read_pairs-write_scan_reply}
use kora_engine.Server.{
  Engine, fetched, get_name, scan_name, bound, bounds, get_request, scan_request, fetched_reply,
  dispatch_get, dispatch_scan, dispatch_named, dispatch, serve,
}

module _ (e : Engine) (upper : Bytes → Bytes) (fields : Bytes → List Bytes) where
  -- A command that the client sends is dispatched by its name.
  serve-write_cmd :
      (cmd : Bytes) (args : List (Option Bytes)) (rest : Bytes) (s : e.State)
      → upper cmd ≡ cmd
      → length args < 2 ^ 62
      → All IsShort (some cmd ∷ args)
      → serve e upper fields (write_cmd cmd args ++ rest) s
        ≡ some (
          (dispatch_named e upper fields cmd args s).0,
          (dispatch_named e upper fields cmd args s).1,
          rest,
        )
  unfolding serve dispatch
  serve-write_cmd cmd args rest s u l h =
      rw (read_command-write_cmd fields cmd args rest l h, serve, u) refl

  -- `Get` of the client: the server reads its request, leaves the database and what follows alone, and
  -- the client reads from the answer what the database finds. The key and the value are shorter than
  -- 2 ^ 62, and the name of the command is in upper case.
  pub serve-get_request :
      (key v : Option Bytes) (rest : Bytes) (s : e.State)
      → upper get_name ≡ get_name
      → IsShort key
      → IsShort v
      → e.get s (slice key) ≡ fetched v
      → (out : Bytes) × (serve e upper fields (get_request key ++ rest) s ≡ some (out, s, rest))
        × (read_bulk_string out ≡ reply v [])
  unfolding get_request dispatch_named dispatch_get bytes_equal compare_bytes fetched_reply
  serve-get_request key v rest s u k l g = (
    write_bulk_string v,
    serve-write_cmd get_name (key ∷ []) rest s u (omega arith) (omega arith, (k, tt))
        ∙ ap (λ f. some (fetched_reply e upper fields f, s, rest)) g,
    ap read_bulk_string (sym (append-nil (write_bulk_string v)))
        ∙ read_bulk_string-write_bulk_string v [] l,
  )

  -- `Scan` of the client: from the answer it reads the pairs that the database yields between its bounds,
  -- where an empty bound is none. The bounds, the pairs and their number are shorter than 2 ^ 62, and
  -- the name of the command is in upper case.
  pub serve-scan_request :
      (start end : Option Bytes) (rest : Bytes) (s : e.State)
      → upper scan_name ≡ scan_name
      → IsShort start
      → IsShort end
      → length (e.scan s (bound start) (bound end)) < 2 ^ 62
      → All
          (λ (p : Option Bytes × Option Bytes). IsShort p.0 × IsShort p.1)
          (e.scan s (bound start) (bound end))
      → (out : Bytes) × (serve e upper fields (scan_request start end ++ rest) s
          ≡ some (out, s, rest))
        × (read_pairs out ≡ reply (e.scan s (bound start) (bound end)) [])
  unfolding scan_request dispatch_named dispatch_scan bytes_equal compare_bytes bounds
  serve-scan_request start end rest s u k l n h =
      let pairs = e.scan s (bound start) (bound end) in
      (
        write_scan_reply pairs,
        serve-write_cmd scan_name (some (slice start) ∷ some (slice end) ∷ []) rest s u
              (omega arith) (omega arith, (slice_short start k, (slice_short end l, tt)))
            ∙ ap
                (λ (b : Option Bytes × Option Bytes).
                  some (write_scan_reply (e.scan s b.0 b.1), s, rest))
                (both start end),
        ap read_pairs (sym (append-nil (write_scan_reply pairs)))
            ∙ read_pairs-write_scan_reply pairs [] n h,
      )
    where
      slice_short : (b : Option Bytes) → IsShort b → IsShort (some (slice b))
      slice_short none h = omega arith
      slice_short (some bs) h = h

      bound_slice : (b : Option Bytes) → bound (some (slice b)) ≡ bound b
      bound_slice none = unfold bound in refl
      bound_slice (some bs) = refl

      both :
          (a b : Option Bytes)
          → Path
              (Option Bytes × Option Bytes)
              (bound (some (slice a)), bound (some (slice b)))
              (bound a, bound b)
      both a b = λ x. (bound_slice a x, bound_slice b x)
