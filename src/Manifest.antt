-- ===== src/Manifest.antt =====
-- internal/store/manifest.go: the manifest, its two file formats, and the checks on loading.
-- Creating, syncing and renaming the file are not modelled.
pub mod Validity
pub mod Codec
pub mod Listed
use kora_engine.Prelude.{
  ℕ, zero, suc, ◌+◌, ◌*◌, Bool, true, false, not, ◌&&◌, Option, none, some, List, [], ◌∷◌, ◌++◌,
  ltb, leb, ◌==◌, if◌then◌else◌, length, drop,
}
use kora_engine.Prelude.Order.{Bytes}
use kora_engine.Prelude.Endian.{put_u32, u32_at}
use kora_engine.Checksum.{crc32}

pub record Manifest : Type 0 where
  pub next_id : ℕ
  pub order : List ℕ
  pub next_sst_id : ℕ
  pub sst_ids : List ℕ

abbrev pub manifest_v1 : ℕ
manifest_v1 = 1

abbrev pub manifest_v2 : ℕ
manifest_v2 = 2

unfoldable pub put_ids : List ℕ → Bytes
put_ids [] = []
put_ids (id ∷ ids) = put_u32 id ++ put_ids ids

-- `writeManifest`, up to the bytes that it hands to the file; `PutUint32` keeps the low 32 bits.
unfoldable pub payload : Manifest → Bytes
payload m =
    put_u32 manifest_v2
    ++ (put_u32 m.next_id
        ++ (put_u32 (length m.order)
            ++ (put_ids m.order
                ++ (put_u32 m.next_sst_id ++ (put_u32 (length m.sst_ids) ++ put_ids m.sst_ids)))))

unfoldable pub manifest_bytes : Manifest → Bytes
manifest_bytes m = put_u32 (crc32 (payload m)) ++ payload m

-- What `readManifest` returns.
pub data Loaded : Type 0 where
  loaded : Manifest → Loaded
  no_manifest manifest_corrupt : Loaded

pub contains : List ℕ → ℕ → Bool
contains [] id = false
contains (x ∷ seen) id = if id == x then true else contains seen id

-- The loop of `validateSegments` and `validateSSTs`: the greatest id, or none on a repeated one.
pub validate_loop : List ℕ → ℕ → List ℕ → Option ℕ
validate_loop seen max_id [] = some max_id
validate_loop seen max_id (id ∷ ids) =
    let rest = validate_loop (id ∷ seen) (if ltb max_id id then id else max_id) ids in
    if contains seen id then none else rest

is_empty : List ℕ → Bool
is_empty [] = true
is_empty (x ∷ xs) = false

pub validate_segments : ℕ → List ℕ → Bool
unfolding is_empty
validate_segments next ids = elim (validate_loop [] 0 ids) [
  | none ↦ false
  | some max_id ↦ if not (is_empty ids) && leb next max_id then false else true
]

pub validate_ssts : ℕ → List ℕ → Bool
unfolding is_empty
validate_ssts next ids = elim (validate_loop [] 0 ids) [
  | none ↦ false
  | some max_id ↦ if not (is_empty ids) && leb next max_id then false else true
]

-- `count` words from the offset on.
pub read_ids : ℕ → ℕ → Bytes → List ℕ
read_ids zero off bs = []
read_ids (suc count) off bs = u32_at off bs ∷ read_ids count (off + 4) bs

pub read_manifest_v1 : Bytes → Loaded
read_manifest_v1 bs =
    let next = u32_at 4 bs in
    let count = u32_at 8 bs in
    let order = read_ids count 12 bs in
    if ltb (length bs) 12
    then manifest_corrupt
    else if not (length bs == 12 + 4 * count)
    then manifest_corrupt
    else if validate_segments next order
    then loaded (record { next_id = next; order = order; next_sst_id = 1; sst_ids = [] })
    else manifest_corrupt

pub read_manifest_v2 : Bytes → Loaded
read_manifest_v2 bs =
    let next = u32_at 4 bs in
    let seg_count = u32_at 8 bs in
    let order = read_ids seg_count 12 bs in
    let off = 12 + 4 * seg_count in
    let next_sst = u32_at off bs in
    let sst_count = u32_at (off + 4) bs in
    let ssts = read_ids sst_count (off + 8) bs in
    if ltb (length bs) 20
    then manifest_corrupt
    else if ltb (length bs) (off + 8)
    then manifest_corrupt
    else if not (length bs == off + 8 + 4 * sst_count)
    then manifest_corrupt
    else if not (validate_segments next order)
    then manifest_corrupt
    else if not (validate_ssts next_sst ssts)
    then manifest_corrupt
    else loaded (record { next_id = next; order = order; next_sst_id = next_sst; sst_ids = ssts })

read_version : ℕ → Bytes → Loaded
read_version version bs =
    if version == manifest_v1
    then read_manifest_v1 bs
    else if version == manifest_v2
    then read_manifest_v2 bs
    else manifest_corrupt

-- `none` is a directory with no manifest in it.
unfoldable pub read_manifest : Option Bytes → Loaded
unfolding read_version
read_manifest none = no_manifest
read_manifest (some b) =
    let bs = drop 4 b in
    if ltb (length b) 16
    then manifest_corrupt
    else if not (crc32 bs == u32_at 0 b)
    then manifest_corrupt
    else read_version (u32_at 0 bs) bs
