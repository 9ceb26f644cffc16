-- ===== src/Segment.antt =====
-- internal/store/segment.go: reading a segment file record by record (`scanSegment`) and the
-- insertion sort of segment ids (`sortIDs`).
pub mod Scan
pub mod Sorting
use kora_engine.Prelude.{
  ℕ, zero, suc, ◌+◌, Bool, true, false, List, [], ◌∷◌, ltb, if◌then◌else◌, length,
}
use mathlib.Core.List.{reverse, foldl}
use kora_engine.Prelude.Order.{Bytes}
use kora_engine.Record.{Record, Decoded, decoded, eof, unexpected_eof, corrupted, size, decode}

-- How a scan ended; `no_fuel` is no outcome of the code.
pub data Status : Type 0 where
  complete partial_tail corrupt callback_failed no_fuel : Status

-- The state that the callback has built, and the offset and the error that `scanSegment` returns.
pub record Scanned {ℓ} (S : Type ℓ) : Type ℓ where
  pub state : S
  pub end_offset : ℕ
  pub status : Status

-- What a callback returns: the state that it leaves, and whether it failed.
abbrev pub Callback {ℓ} : Type ℓ → Type ℓ
Callback S = S → Record → ℕ → ℕ → S × Bool

module _ {ℓ} {S : Type ℓ} (fn : Callback S) where
  unfoldable pub scan_loop : ℕ → Bytes → ℕ → S → Scanned S
  scan_loop zero bs off s = record { state = s; end_offset = off; status = no_fuel }
  scan_loop (suc fuel) bs off s = elim (decode bs) [
    | eof ↦ record { state = s; end_offset = off; status = complete }
    | unexpected_eof ↦ record { state = s; end_offset = off; status = partial_tail }
    | corrupted ↦ record { state = s; end_offset = off; status = corrupt }
    | decoded rec rest ↦
        let (s', failed) = fn s rec off (size rec) in
        let more = scan_loop fuel rest (off + size rec) s' in
        if failed then record { state = s'; end_offset = off; status = callback_failed } else more
  ]

  -- A record takes twenty bytes at least, so one round for each byte, and one for the end, is enough.
  unfoldable pub scan_segment : Bytes → S → Scanned S
  scan_segment file s = scan_loop (suc (length file)) file 0 s

-- `sortIDs`: the inner loop moves an id to the left past the greater ones. The sorted part stands in
-- front of it with its last element first.
pub sift_left : ℕ → List ℕ → List ℕ
sift_left id [] = id ∷ []
sift_left id (j ∷ sorted) = if ltb id j then j ∷ sift_left id sorted else id ∷ j ∷ sorted

pub sort_loop : List ℕ → List ℕ → List ℕ
unfolding sift_left
sort_loop sorted [] = sorted
sort_loop sorted (id ∷ ids) = sort_loop (sift_left id sorted) ids

unfoldable pub sort_ids : List ℕ → List ℕ
unfolding sort_loop
sort_ids ids = reverse (sort_loop [] ids)
