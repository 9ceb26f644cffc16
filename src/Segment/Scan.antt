-- ===== src/Segment/Scan.antt =====
-- `scanSegment` of internal/store/segment.go over a log that `EncodeAt` wrote, whole or cut by a crash.
use mathlib.Core.List.{foldl}
use kora_engine.Prelude.{
  ℕ, zero, suc, ◌+◌, ◌<◌, ◌≡◌, ◌≢◌, refl, sym, ap, ◌∙◌, Bool, true, false, Option, none, some, List,
  [], ◌∷◌, ◌++◌, if◌then◌else◌, length, append-nil, append_assoc, length-append, arith, All,
}
use kora_engine.Prelude.Order.{Bytes}
use kora_engine.Prelude.Endian.{IsU64, read_full}
use kora_engine.Record.{
  Record, Decoded, decoded, eof, unexpected_eof, corrupted, written, size, decode,
}
use kora_engine.Record.RoundTrip.{decode-encode_at, record_bytes, Fits, encode_at-record_bytes}
use kora_engine.Record.Damage.{decode_cut, at_boundary, length-encode_at}
use kora_engine.Record.Exact.{decode-size}
use kora_engine.Segment.{
  Scanned, Callback, Status, complete, partial_tail, corrupt, no_fuel, scan_loop, scan_segment,
}

-- A record that `EncodeAt` accepts.
abbrev pub IsLoggable : Record → Type 0
IsLoggable r = IsU64 r.timestamp × Fits r.key r.value

-- The bytes of a log of records, one encoding after the other.
unfoldable pub log_bytes : List Record → Bytes
log_bytes [] = []
log_bytes (r ∷ rs) = record_bytes r.timestamp r.key r.value ++ log_bytes rs

pub log_bytes-append : (rs ts : List Record) → log_bytes (rs ++ ts) ≡ log_bytes rs ++ log_bytes ts
unfolding log_bytes
log_bytes-append [] ts = refl
log_bytes-append (r ∷ rs) ts =
    rw (log_bytes-append rs ts) (sym (append_assoc _ (log_bytes rs) (log_bytes ts)))

size_pos : (r : Record) → 0 < size r
unfolding size
size_pos r = omega arith

module _ {ℓ} {S : Type ℓ} (step : S → Record → S) where
  -- A callback that never fails and does not look at the offsets, as both callers' are.
  abbrev pub always : Callback S
  always s r off n = (step s r, false)

  scan_loop_record :
      (fuel : ℕ) (r : Record) (rest : Bytes) (off : ℕ) (s : S)
      → IsLoggable r
      → scan_loop always (suc fuel) (record_bytes r.timestamp r.key r.value ++ rest) off s
        ≡ scan_loop always fuel rest (off + size r) (step s r)
  unfolding scan_loop
  scan_loop_record fuel r rest off s (ht, f) = rw (
    decode-encode_at r.timestamp r.key r.value _ rest ht (encode_at-record_bytes _ r.key r.value f),
    scan_loop,
  )

  length-record :
      (r : Record) → IsLoggable r → length (record_bytes r.timestamp r.key r.value) ≡ size r
  length-record r (ht, f) =
      length-encode_at r.timestamp r.key r.value _ (encode_at-record_bytes _ r.key r.value f)

  -- How a scan ends at a tail that is no record.
  abbrev stop_status : Decoded → Option Status
  stop_status (decoded r rest) = none
  stop_status eof = some complete
  stop_status unexpected_eof = some partial_tail
  stop_status corrupted = some corrupt

  stop_status-if :
      (b : Bool)
      → stop_status (if b then eof else unexpected_eof)
        ≡ some (if b then complete else partial_tail)
  stop_status-if true = refl
  stop_status-if false = refl

  scan_loop_stop :
      (fuel : ℕ) (d : Decoded) (tail : Bytes) (off : ℕ) (s : S) (st : Status)
      → decode tail ≡ d
      → stop_status d ≡ some st
      → scan_loop always (suc fuel) tail off s ≡ record { state = s; end_offset = off; status = st }
  unfolding scan_loop
  scan_loop_stop fuel (decoded r rest) tail off s st e h = cc
  scan_loop_stop fuel eof tail off s st e h = rw (e, scan_loop) (ground arith)
  scan_loop_stop fuel unexpected_eof tail off s st e h = rw (e, scan_loop) (ground arith)
  scan_loop_stop fuel corrupted tail off s st e h = rw (e, scan_loop) (ground arith)

  scan_loop-log_bytes :
      (fuel : ℕ) (rs : List Record) (tail : Bytes) (off : ℕ) (s : S) (st : Status)
      → All IsLoggable rs
      → length (log_bytes rs ++ tail) < fuel
      → stop_status (decode tail) ≡ some st
      → scan_loop always fuel (log_bytes rs ++ tail) off s
        ≡ record { state = foldl step s rs; end_offset = off + length (log_bytes rs); status = st }
  unfolding log_bytes
  scan_loop-log_bytes zero rs tail off s st h hf e = absurd (omega arith)
  scan_loop-log_bytes (suc fuel) [] tail off s st h hf e =
      scan_loop_stop fuel (decode tail) tail off s st refl e
      ∙ ap (λ n. record { state = s; end_offset = n; status = st }) (omega arith)
  scan_loop-log_bytes (suc fuel) (r ∷ rs) tail off s st (hr, hs) hf e =
      let b = record_bytes r.timestamp r.key r.value in
      let l : length b ≡ size r = length-record r hr in
      let n : length ((b ++ log_bytes rs) ++ tail) ≡ size r + length (log_bytes rs ++ tail) =
        omega (
          arith,
          l,
          length-append (b ++ log_bytes rs) tail,
          length-append b (log_bytes rs),
          length-append (log_bytes rs) tail,
        ) in
      let m : off + length (b ++ log_bytes rs) ≡ off + size r + length (log_bytes rs) =
        omega (arith, l, length-append b (log_bytes rs)) in
      rw (append_assoc b (log_bytes rs) tail, m)
        (scan_loop_record fuel r (log_bytes rs ++ tail) off s hr
          ∙ scan_loop-log_bytes fuel rs tail (off + size r) (step s r) st hs
              (omega (arith, size_pos r)) e)

  scan_segment_stop :
      (rs : List Record) (tail : Bytes) (s : S) (st : Status)
      → All IsLoggable rs
      → stop_status (decode tail) ≡ some st
      → scan_segment always (log_bytes rs ++ tail) s
        ≡ record { state = foldl step s rs; end_offset = length (log_bytes rs); status = st }
  unfolding scan_segment
  scan_segment_stop rs tail s st h e =
      scan_loop-log_bytes (suc (length (log_bytes rs ++ tail))) rs tail 0 s st h (omega arith) e
      ∙ ap (λ n. record { state = foldl step s rs; end_offset = n; status = st }) (omega arith)

  -- Replaying a whole log hands every record to the callback in order and stops at the end of it.
  pub scan_segment-log_bytes :
      (rs : List Record) (s : S)
      → All IsLoggable rs
      → scan_segment always (log_bytes rs) s
        ≡ record { state = foldl step s rs; end_offset = length (log_bytes rs); status = complete }
  scan_segment-log_bytes rs s h =
      ap (λ b. scan_segment always b s) (sym (append-nil (log_bytes rs)))
      ∙ scan_segment_stop rs [] s complete h (unfold decode read_full in refl)

  -- A crash cut the append of the record `r` behind the log: the records in front of it are all
  -- replayed, and the end offset is where `r` began. The cut is reported as a partial tail, except
  -- where nothing of `r` was written, or the header only.
  pub scan_segment_cut :
      (rs : List Record) (r : Record) (front : Bytes) (x : ℕ) (back : Bytes) (s : S)
      → All IsLoggable rs
      → IsLoggable r
      → record_bytes r.timestamp r.key r.value ≡ front ++ (x ∷ back)
      → scan_segment always (log_bytes rs ++ front) s ≡ record {
        state = foldl step s rs;
        end_offset = length (log_bytes rs);
        status = if at_boundary front then complete else partial_tail;
      }
  scan_segment_cut rs r front x back s h (ht, f) e = scan_segment_stop rs front s _ h (
      ap stop_status (
        decode_cut r.timestamp r.key r.value front x back ht
          (encode_at-record_bytes r.timestamp r.key r.value f ∙ ap written e))
      ∙ stop_status-if (at_boundary front))

module _ {ℓ} {S : Type ℓ} (fn : Callback S) where
  if-ne-no_fuel :
      (b : Bool) (x y : Scanned S)
      → x.status ≢ no_fuel
      → y.status ≢ no_fuel
      → (if b then x else y).status ≢ no_fuel
  if-ne-no_fuel true x y h k = h
  if-ne-no_fuel false x y h k = k

  scan_round :
      (fuel : ℕ) (bs : Bytes) (off : ℕ) (s : S) (d : Decoded)
      → decode bs ≡ d
      → ((rest : Bytes) (n : ℕ) (s' : S)
          → length rest < length bs
          → (scan_loop fn fuel rest n s').status ≢ no_fuel)
      → (scan_loop fn (suc fuel) bs off s).status ≢ no_fuel
  unfolding scan_loop
  scan_round fuel bs off s (decoded rec rest) e ih =
      let (s', failed) = fn s rec off (size rec) in
      rw (e, scan_loop)
        (if-ne-no_fuel failed _ _ (λ p. cc)
          (ih rest (off + size rec) s' (omega (arith, decode-size bs rec rest e, size_pos rec))))
  scan_round fuel bs off s eof e ih = rw (e, scan_loop) (λ p. cc)
  scan_round fuel bs off s unexpected_eof e ih = rw (e, scan_loop) (λ p. cc)
  scan_round fuel bs off s corrupted e ih = rw (e, scan_loop) (λ p. cc)

  scan_loop-ne-no_fuel :
      (fuel : ℕ) (bs : Bytes) (off : ℕ) (s : S)
      → length bs < fuel
      → (scan_loop fn fuel bs off s).status ≢ no_fuel
  scan_loop-ne-no_fuel zero bs off s h = absurd (omega arith)
  scan_loop-ne-no_fuel (suc fuel) bs off s h =
      scan_round fuel bs off s (decode bs) refl
        (λ rest n s' l. scan_loop-ne-no_fuel fuel rest n s' (omega arith))

  -- On any file and with any callback the scan comes to an end of its own: it reads to the end of
  -- the file, to a damaged record or to a failure of the callback.
  pub scan_segment-ne-no_fuel : (file : Bytes) (s : S) → (scan_segment fn file s).status ≢ no_fuel
  unfolding scan_segment
  scan_segment-ne-no_fuel file s = scan_loop-ne-no_fuel (suc (length file)) file 0 s (omega arith)
