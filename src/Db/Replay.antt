-- ===== src/Db/Replay.antt =====
-- `openAndScan`, `openSSTables` and the two cleanups of internal/store/store.go, which `load` uses.
use mathlib.Core.List.{reverse}
use kora_engine.Prelude.{
  ℕ, ◌+◌, ◌-◌, ◌^◌, Bool, true, false, not, ◌&&◌, Option, none, some, List, [], ◌∷◌, ltb,
  if◌then◌else◌, length, take,
}
use kora_engine.Prelude.Order.{Bytes}
use kora_engine.Manifest.{contains}
use kora_engine.Record.{Record}
use kora_engine.Segment.{
  Callback, Scanned, complete, partial_tail, corrupt, callback_failed, no_fuel, scan_segment,
  sort_ids,
}
use kora_engine.Sstable.{Entry}
use kora_engine.Sstable.Reader.{Reader}
use kora_engine.Disk.{World, call, put_segment, remove_segment, remove_table}
use kora_engine.Disk.Files.{file_at, file_ids, bytes_of}
use kora_engine.Memtable.{Memtable}
use kora_engine.Db.{SegmentFile, is_some}
use kora_engine.Db.Flush.{create_segment, open_file}

-- `openSegmentReadOnly`.
unfoldable pub open_segment : ℕ → World → Option SegmentFile × World
open_segment id w =
    let (done, w') = call w in
    if done
    then (
      elim (file_at id w'.disk.segments) [
        | none ↦ none
        | some bs ↦ some (record { id = id; size = length bs })
      ],
      w',
    )
    else (none, w')

unfoldable pub add_reader : Reader → Option (List Reader) × World → Option (List Reader) × World
add_reader r (none, w) = (none, w)
add_reader r (some rs, w) = (some (r ∷ rs), w)

-- The loop of `openSSTables`, on the ids newest first.
unfoldable pub open_tables_loop : List ℕ → World → Option (List Reader) × World
open_tables_loop [] w = (some [], w)
open_tables_loop (id ∷ ids) w =
    let (reader, w') = open_file id w in
    elim reader [ none ↦ (none, w') | some r ↦ add_reader r (open_tables_loop ids w') ]

unfoldable pub open_sstables : List ℕ → World → Option (List Reader) × World
open_sstables ids w = open_tables_loop (reverse ids) w

-- `Sscanf` with `%06d` takes six digits at most, and leaves a file with a longer name alone.
unfoldable pub remove_orphans : List ℕ → List ℕ → World → World
remove_orphans live [] w = w
remove_orphans live (id ∷ ids) w =
    remove_orphans live ids
      (if ltb id (10 ^ 6) && not (contains live id) then remove_table id w else w)

unfoldable pub cleanup_orphaned_ssts : List ℕ → World → World
cleanup_orphaned_ssts live w =
    let (done, w') = call w in if done then remove_orphans live (file_ids w'.disk.tables) w' else w'

unfoldable pub remove_leaked : List ℕ → List ℕ → World → World
remove_leaked live [] w = w
remove_leaked live (id ∷ ids) w =
    remove_leaked live ids (if contains live id then w else remove_segment id w)

-- `listSegmentIDs`.
unfoldable pub list_segment_ids : World → Option (List ℕ) × World
list_segment_ids w =
    let (done, w') = call w in
    if done then (some (sort_ids (file_ids w'.disk.segments)), w') else (none, w')

unfoldable pub cleanup_leaked_segments : List ℕ → World → World
cleanup_leaked_segments order w =
    let (ids, w') = list_segment_ids w in
    elim ids [ none ↦ w' | some ids ↦ remove_leaked order ids w' ]

abbrev pub last_of : List ℕ → ℕ
last_of [] = 0
last_of (id ∷ []) = id
last_of (id ∷ i ∷ ids) = last_of (i ∷ ids)

abbrev pub live_count : Option (List Entry) → ℕ
live_count none = 0
live_count (some es) = length es

module _ (m : Memtable) where
  -- What the replay of a log builds.
  pub record Replay : Type 0 where
    pub memtable : m.Tree
    pub live_keys : ℕ
    pub mem_size : ℕ

  abbrev pub was_live : Option (Option Bytes) → Bool
  was_live none = false
  was_live (some v) = is_some v

  -- The callback of `openAndScan`.
  unfoldable pub replay_value : Bytes → Option Bytes → Replay → Replay
  replay_value key none s = record s {
    live_keys = if was_live (m.get s.memtable key) then s.live_keys - 1 else s.live_keys;
    memtable = m.insert s.memtable key none;
  }
  replay_value key (some v) s = record {
    live_keys = if was_live (m.get s.memtable key) then s.live_keys else s.live_keys + 1;
    memtable = m.insert s.memtable key (some v);
    mem_size = s.mem_size + (length key + length v);
  }

  unfoldable pub replay_record : Replay → Record → Replay
  replay_record s r = replay_value r.key r.value s

  abbrev pub replay_callback : Callback Replay
  replay_callback s r off n = (replay_record s r, false)

  -- What `openAndScan` has built: the replay, the segments that are open, and the active one, which
  -- comes last.
  pub record Opened : Type 0 where
    pub replay : Replay
    pub sealed : List SegmentFile
    pub active : Option SegmentFile

  unfoldable pub end_of_scan :
      Bool → ℕ → Bytes → Scanned Replay → World → Option (Replay × ℕ) × World
  end_of_scan is_active id bs s w = elim s.status [
    | complete ↦ (some (s.state, s.end_offset), w)
    | partial_tail ↦
        let (done, w') = put_segment id (take s.end_offset bs) w in
        let cut : Option (Replay × ℕ) × World =
          if done then (some (s.state, s.end_offset), w') else (none, w') in
        if is_active then cut else (none, w)
    | corrupt ↦ (none, w)
    | callback_failed ↦ (none, w)
    | no_fuel ↦ (none, w)
  ]

  -- One segment: it is opened, created if it is the active one, and its file is scanned. The result
  -- has the offset up to which it holds records.
  unfoldable pub scan_opened :
      Bool → ℕ → Replay → Option SegmentFile × World → Option (Replay × ℕ) × World
  scan_opened is_active id s opened = elim opened.0 [
    | none ↦ (none, opened.1)
    | some seg ↦
        let (done, w) = call opened.1 in
        let bs = bytes_of (file_at id w.disk.segments) in
        if done
        then end_of_scan is_active id bs (scan_segment replay_callback bs s) w
        else (none, w)
  ]

  unfoldable pub open_one : Bool → ℕ → Replay → World → Option (Replay × ℕ) × World
  open_one is_active id s w =
      scan_opened is_active id s (if is_active then create_segment id w else open_segment id w)

  abbrev pub is_nil : List ℕ → Bool
  is_nil [] = true
  is_nil (id ∷ ids) = false

  unfoldable pub add_opened : Bool → SegmentFile → Opened → Replay → Opened
  add_opened true seg o s = record o { replay = s; active = some seg }
  add_opened false seg o s = record o { replay = s; sealed = seg ∷ o.sealed }

  unfoldable pub open_and_scan : List ℕ → Opened → World → Option Opened × World
  open_and_scan [] o w = (some o, w)
  open_and_scan (id ∷ ids) o w =
      let (scanned, w') = open_one (is_nil ids) id o.replay w in
      elim scanned [
        | none ↦ (none, w')
        | some (s, size) ↦
            open_and_scan ids (add_opened (is_nil ids) (record { id = id; size = size }) o s) w'
      ]
