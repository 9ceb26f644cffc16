-- ===== src/Db/Replayed.antt =====
-- `openAndScan` of internal/store/store.go on the logs of a store, a torn append included, where no
-- call fails.
use mathlib.Core.List.{foldl}
use mathlib.Core.Path.{subst}
use kora_engine.Prelude.{
  ℕ, ◌≡◌, ◌≢◌, refl, sym, ap, ◌∙◌, Bool, true, false, Option, none, some, List, [], ◌∷◌, ◌++◌, ◌==◌,
  if◌then◌else◌, length, arith, All, Bool-cases, inl, inr, take-append, append-nil, ==-refl,
}
use kora_engine.Prelude.Order.{Bytes}
use kora_engine.Record.{Record}
use kora_engine.Record.Damage.{at_boundary}
use kora_engine.Segment.{complete, partial_tail, scan_segment}
use kora_engine.Segment.Scan.{IsLoggable, log_bytes, scan_segment-log_bytes, scan_segment_cut}
use kora_engine.Disk.{Disk, World, call, change, put_segment, create_segment_file}
use kora_engine.Disk.Files.{
  Folder, file_at, bytes_of, append_file, put_file, file_at-append_file, file_at-put_file,
}
use kora_engine.Memtable.{Memtable}
use kora_engine.Db.{SegmentFile}
use kora_engine.Db.Flush.{create_segment}
use kora_engine.Db.Replay.{
  open_segment, Replay, replay_record, replay_callback, Opened, end_of_scan, scan_opened, open_one,
  is_nil, add_opened, open_and_scan,
}
use kora_engine.Db.Stored.{Log, IsCut, log_ids}
use kora_engine.Db.Calm.{calm}

module _ (m : Memtable) where
  scan_opened-calm :
      (is_active : Bool) (id : ℕ) (s : Replay m) (seg : SegmentFile) (bs : Bytes) (d : Disk)
      → file_at id d.segments ≡ some bs
      → scan_opened m is_active id s (some seg, calm d)
        ≡ end_of_scan m is_active id bs (scan_segment (replay_callback m) bs s) (calm d)
  unfolding scan_opened call
  scan_opened-calm is_active id s seg bs d e =
      ap
        (λ b.
          end_of_scan m is_active id (bytes_of b) (scan_segment (replay_callback m) (bytes_of b) s)
            (calm d))
        e

  -- A sealed segment is replayed whole.
  open_one_sealed :
      (id : ℕ) (rs : List Record) (s : Replay m) (d : Disk)
      → file_at id d.segments ≡ some (log_bytes rs)
      → All IsLoggable rs
      → open_one m false id s (calm d)
        ≡ (some (foldl (replay_record m) s rs, length (log_bytes rs)), calm d)
  unfolding open_one open_segment call end_of_scan
  open_one_sealed id rs s d e h =
      ap
        (λ b. scan_opened m false id s (
          elim b as (λ _. Option SegmentFile) [
            | none ↦ none
            | some bs ↦ some (record { id = id; size = length bs })
          ],
          calm d,
        ))
        e
      ∙ scan_opened-calm false id s _ (log_bytes rs) d e
      ∙ ap (λ sc. end_of_scan m false id (log_bytes rs) sc (calm d))
          (scan_segment-log_bytes (replay_record m) rs s h)

  -- What is left behind the records of an active segment that is opened.
  abbrev pub kept_tail : Bytes → Bytes
  kept_tail tail = if at_boundary tail then tail else []

  abbrev AtEnd : ℕ → List Record → Bytes → Replay m → Disk → Option (Replay m × ℕ) × World → Type 0
  AtEnd id rs tail s d r =
      (fs : Folder) × (r ≡ (
        some (foldl (replay_record m) s rs, length (log_bytes rs)),
        calm (record d { segments = fs }),
      ))
      × (file_at id fs ≡ some (log_bytes rs ++ kept_tail tail))
      × ((j : ℕ) → j ≢ id → file_at j fs ≡ file_at j d.segments)

  end_of_scan-calm :
      (id : ℕ) (rs : List Record) (tail : Bytes) (s : Replay m) (d : Disk)
      → file_at id d.segments ≡ some (log_bytes rs ++ tail)
      → AtEnd id rs tail s d (
          end_of_scan m true id
            (log_bytes rs ++ tail)
            (record {
              state = foldl (replay_record m) s rs;
              end_offset = length (log_bytes rs);
              status = if at_boundary tail then complete else partial_tail;
            })
            (calm d))
  unfolding end_of_scan put_segment change
  end_of_scan-calm id rs tail s d e = elim (Bool-cases (at_boundary tail)) [
    | inl t ↦ rw t (d.segments, refl, e, λ j n. refl)
    | inr t ↦
        rw (t, take-append (log_bytes rs) tail)
          (
            put_file id (log_bytes rs) d.segments,
            refl,
            file_at-put_file id id (log_bytes rs) d.segments
                ∙ rw (==-refl id) (ap some (sym (append-nil (log_bytes rs)))),
            λ j n.
                let q : (id == j) ≡ false = ground arith in
                file_at-put_file id j (log_bytes rs) d.segments ∙ rw q,
          )
  ]

  open_one_active :
      (id : ℕ) (rs : List Record) (tail : Bytes) (s : Replay m) (d : Disk)
      → file_at id d.segments ≡ some (log_bytes rs ++ tail)
      → All IsLoggable rs
      → IsCut tail
      → AtEnd id rs tail s d (open_one m true id s (calm d))
  unfolding open_one create_segment create_segment_file change
  open_one_active id rs tail s d e h (r, x, back, hr, b) =
      let fs = append_file id [] d.segments in
      let e' : file_at id fs ≡ some (log_bytes rs ++ tail) =
        file_at-append_file id id [] d.segments
        ∙ rw (==-refl id, e) (ap some (append-nil (log_bytes rs ++ tail))) in
      let scanned = scan_segment_cut (replay_record m) rs r tail x back s h hr b in
      let (gs, p, at, same) = end_of_scan-calm id rs tail s (record d { segments = fs }) e' in
      (
        gs,
        scan_opened-calm true id s _ (log_bytes rs ++ tail) (record d { segments = fs }) e'
            ∙ ap
                (λ sc.
                  end_of_scan m true id (log_bytes rs ++ tail) sc
                    (calm (record d { segments = fs })))
                scanned
            ∙ p,
        at,
        λ j n.
            let q : (id == j) ≡ false = ground arith in
            same j n ∙ file_at-append_file id j [] d.segments ∙ rw q,
      )

  -- What the sealed logs add to what is opened.
  unfoldable pub opened_logs : List Log → Opened m → Opened m
  opened_logs [] o = o
  opened_logs (l ∷ ls) o = opened_logs ls (record o {
    replay = foldl (replay_record m) o.replay l.1;
    sealed = record { id = l.0; size = length (log_bytes l.1) } ∷ o.sealed;
  })

  abbrev pub opened_active : ℕ → List Record → Opened m → Opened m
  opened_active id rs o = record o {
    replay = foldl (replay_record m) o.replay rs;
    active = some (record { id = id; size = length (log_bytes rs) });
  }

  open_step_at :
      (id : ℕ) (ids : List ℕ) (o : Opened m) (w w' : World) (s : Replay m) (size : ℕ)
      → open_one m (is_nil m ids) id o.replay w ≡ (some (s, size), w')
      → open_and_scan m (id ∷ ids) o w
        ≡ open_and_scan m ids (add_opened m (is_nil m ids) (record { id = id; size = size }) o s) w'
  unfolding open_and_scan
  open_step_at id ids o w w' s size e =
      ap
        (λ (p : Option (Replay m × ℕ) × World). elim p.0 as (λ _. Option (Opened m) × World) [
          | none ↦ (none, p.1)
          | some (s, size) ↦
              open_and_scan m ids
                (add_opened m (is_nil m ids) (record { id = id; size = size }) o s) p.1
        ])
        e

  open_step :
      (id : ℕ) (ids : List ℕ) (o : Opened m) (w w' : World) (s : Replay m) (size : ℕ) (last : Bool)
      → is_nil m ids ≡ last
      → open_one m last id o.replay w ≡ (some (s, size), w')
      → open_and_scan m (id ∷ ids) o w
        ≡ open_and_scan m ids (add_opened m last (record { id = id; size = size }) o s) w'
  open_step id ids o w w' s size last n =
      subst
        (λ b.
          open_one m b id o.replay w ≡ (some (s, size), w')
          → open_and_scan m (id ∷ ids) o w
            ≡ open_and_scan m ids (add_opened m b (record { id = id; size = size }) o s) w')
        n (open_step_at id ids o w w' s size)

  is_nil-append : (xs : List ℕ) (a : ℕ) → is_nil m (xs ++ (a ∷ [])) ≡ false
  is_nil-append [] a = refl
  is_nil-append (x ∷ xs) a = refl

  pub open_and_scan-calm :
      (ls : List Log) (id : ℕ) (rs : List Record) (tail : Bytes) (o : Opened m) (d : Disk)
      → All (λ (l : Log). file_at l.0 d.segments ≡ some (log_bytes l.1)) ls
      → All (λ (l : Log). All IsLoggable l.1) ls
      → file_at id d.segments ≡ some (log_bytes rs ++ tail)
      → All IsLoggable rs
      → IsCut tail
      → (fs : Folder) × (open_and_scan m (log_ids ls ++ (id ∷ [])) o (calm d)
          ≡ (some (opened_active id rs (opened_logs ls o)), calm (record d { segments = fs })))
        × (file_at id fs ≡ some (log_bytes rs ++ kept_tail tail))
        × ((j : ℕ) → j ≢ id → file_at j fs ≡ file_at j d.segments)
  unfolding opened_logs add_opened
  open_and_scan-calm [] id rs tail o d a l e h k =
      let (fs, p, at, same) = open_one_active id rs tail o.replay d e h k in
      (
        fs,
        open_step id [] o (calm d) (calm (record d { segments = fs })) _ _ true refl p
            ∙ unfold open_and_scan in refl,
        at,
        same,
      )
  open_and_scan-calm (g ∷ ls) id rs tail o d (a, as') (l, ls') e h k =
      let (fs, p, at, same) = open_and_scan-calm ls id rs tail _ d as' ls' e h k in
      (
        fs,
        open_step g.0 (log_ids ls ++ (id ∷ [])) o (calm d) (calm d) _ _ false
              (is_nil-append (log_ids ls) id) (open_one_sealed g.0 g.1 o.replay d a l)
            ∙ p,
        at,
        same,
      )
