-- ===== src/Manifest/Validity.antt =====
-- The checks of internal/store/manifest.go on the ids of a manifest.
use mathlib.Core.Logic.{◌↔◌}
use kora_engine.Prelude.{
  ℕ, ◌≤◌, ◌<◌, ◌≡◌, ◌≢◌, refl, true, false, Option, none, some, List, [], ◌∷◌, ltb, leb,
  if◌then◌else◌, drop, arith, All, Option-cases, inl, inr,
}
use kora_engine.Prelude.Order.{Bytes}
use kora_engine.Manifest.{
  Manifest, loaded, contains, validate_loop, validate_segments, validate_ssts, read_manifest,
  read_manifest_v1, read_manifest_v2,
}

abbrev pub Distinct : List ℕ → Type 0
Distinct [] = Unit
Distinct (x ∷ xs) = All (λ y. y ≢ x) xs × Distinct xs

-- The ids are different, and the counter is beyond them all.
abbrev pub AreAllocated : ℕ → List ℕ → Type 0
AreAllocated next ids = Distinct ids × All (λ id. id < next) ids

abbrev Fresh : List ℕ → List ℕ → Type 0
Fresh seen ids = All (λ id. contains seen id ≡ false) ids

Fresh-cons :
    (x : ℕ) (seen ids : List ℕ) → Fresh (x ∷ seen) ids → All (λ y. y ≢ x) ids × Fresh seen ids
unfolding contains
Fresh-cons x seen [] h = (tt, tt)
Fresh-cons x seen (id ∷ ids) (h, hs) =
    let (a, b) = Fresh-cons x seen ids hs in ((ground arith, a), (ground arith, b))

cons-Fresh :
    (x : ℕ) (seen ids : List ℕ) → All (λ y. y ≢ x) ids → Fresh seen ids → Fresh (x ∷ seen) ids
unfolding contains
cons-Fresh x seen [] h k = tt
cons-Fresh x seen (id ∷ ids) (h, hs) (k, ks) = (ground arith, cons-Fresh x seen ids hs ks)

validate_loop-some :
    (seen : List ℕ) (m : ℕ) (ids : List ℕ) (r : ℕ)
    → validate_loop seen m ids ≡ some r
    → Distinct ids × Fresh seen ids × (m ≤ r) × All (λ id. id ≤ r) ids
unfolding validate_loop
validate_loop-some seen m [] r h = (tt, tt, ground arith, tt)
validate_loop-some seen m (id ∷ ids) r h =
    let c : contains seen id ≡ false = ground arith in
    let k : validate_loop (id ∷ seen) (if ltb m id then id else m) ids ≡ some r = ground arith in
    let (d, f, le, a) = validate_loop-some (id ∷ seen) _ ids r k in
    let (n, g) = Fresh-cons id seen ids f in ((n, d), (c, g), ground arith, (ground arith, a))

validate_loop_accepts :
    (seen : List ℕ) (m : ℕ) (ids : List ℕ) (next : ℕ)
    → Distinct ids
    → Fresh seen ids
    → m < next
    → All (λ id. id < next) ids
    → (r : ℕ) × (validate_loop seen m ids ≡ some r) × (r < next)
unfolding validate_loop
validate_loop_accepts seen m [] next d f h a = (m, refl, h)
validate_loop_accepts seen m (id ∷ ids) next (n, d) (c, f) h (b, a) =
    let (r, e, l) =
      validate_loop_accepts (id ∷ seen) (if ltb m id then id else m) ids next d
        (cons-Fresh id seen ids n f) (ground arith) a in
    (r, rw c e, l)

All-le-lt :
    (r next : ℕ) (ids : List ℕ) → r < next → All (λ id. id ≤ r) ids → All (λ id. id < next) ids
All-le-lt r next [] h a = tt
All-le-lt r next (x ∷ xs) h (b, a) = (omega arith, All-le-lt r next xs h a)

validate_sound :
    (next : ℕ) (ids : List ℕ) → validate_segments next ids ≡ true → AreAllocated next ids
unfolding validate_segments
validate_sound next [] h = (tt, tt)
validate_sound next (x ∷ xs) h = elim (Option-cases (validate_loop [] 0 (x ∷ xs))) [
  | inl e ↦ cc (rw (e, validate_segments) at h)
  | inr (r, e) ↦
      let (d, f, le, a) = validate_loop-some [] 0 (x ∷ xs) r e in
      let lt : r < next = beyond (rw (e, validate_segments) at h) in
      (d, All-le-lt r next (x ∷ xs) lt a)
]
  where
    beyond : {r : ℕ} → (if leb next r then false else true) ≡ true → r < next
    beyond h = ground arith

Fresh-nil : (ids : List ℕ) → Fresh [] ids
unfolding contains
Fresh-nil [] = tt
Fresh-nil (x ∷ xs) = (refl, Fresh-nil xs)

validate_complete :
    (next : ℕ) (ids : List ℕ) → AreAllocated next ids → validate_segments next ids ≡ true
unfolding validate_segments
validate_complete next [] h = unfold validate_loop in refl
validate_complete next (x ∷ xs) (d, a) =
    let (r, e, lt) =
      validate_loop_accepts [] 0 (x ∷ xs) next d (Fresh-nil (x ∷ xs)) (omega arith) a in
    rw (e, validate_segments) (below r lt)
  where
    below : (r : ℕ) → r < next → (if leb next r then false else true) ≡ true
    below r h = ground arith

-- The loader accepts exactly the lists of different segment ids below the counter.
pub validate_segments-AreAllocated :
    (next : ℕ) (ids : List ℕ) → (validate_segments next ids ≡ true) ↔ AreAllocated next ids
validate_segments-AreAllocated next ids = (validate_sound next ids, validate_complete next ids)

-- The check on the ids of SSTables is the same.
pub validate_ssts-AreAllocated :
    (next : ℕ) (ids : List ℕ) → (validate_ssts next ids ≡ true) ↔ AreAllocated next ids
unfolding validate_ssts validate_segments
validate_ssts-AreAllocated next ids = (validate_sound next ids, validate_complete next ids)

-- What the loader promises of a manifest.
abbrev pub IsSane : Manifest → Type 0
IsSane m = AreAllocated m.next_id m.order × AreAllocated m.next_sst_id m.sst_ids

v1_checks :
    (bs : Bytes) (m : Manifest)
    → read_manifest_v1 bs ≡ loaded m
    → (validate_segments m.next_id m.order ≡ true) × (m.sst_ids ≡ [])
unfolding read_manifest_v1
v1_checks bs m h = ground arith

v2_checks :
    (bs : Bytes) (m : Manifest)
    → read_manifest_v2 bs ≡ loaded m
    → (validate_segments m.next_id m.order ≡ true) × (validate_ssts m.next_sst_id m.sst_ids ≡ true)
unfolding read_manifest_v2
v2_checks bs m h = ground arith

v1-IsSane : (bs : Bytes) (m : Manifest) → read_manifest_v1 bs ≡ loaded m → IsSane m
v1-IsSane bs m h = let (a, b) = v1_checks bs m h in (validate_sound _ _ a, rw b (tt, tt))

v2-IsSane : (bs : Bytes) (m : Manifest) → read_manifest_v2 bs ≡ loaded m → IsSane m
v2-IsSane bs m h =
    let (a, b) = v2_checks bs m h in (validate_sound _ _ a, (validate_ssts-AreAllocated _ _).0 b)

-- Whatever the bytes on disk, a manifest that loads has no repeated id, of segments and of SSTables,
-- and its counters are beyond every id that it lists.
pub read_manifest-IsSane :
    (file : Option Bytes) (m : Manifest) → read_manifest file ≡ loaded m → IsSane m
unfolding read_manifest
read_manifest-IsSane none m h = cc
read_manifest-IsSane (some b) m h = ground (arith, v1-IsSane (drop 4 b) m, v2-IsSane (drop 4 b) m)
