-- ===== src/Tests/Manifests.antt =====
-- The manifest at concrete inputs.
use mathlib.Core.Logic.{◌↔◌}
use kora_engine.Prelude.{◌≡◌, true, some, [], ◌∷◌, ◌++◌, arith}
use kora_engine.Prelude.Endian.{put_u32}
use kora_engine.Checksum.{crc32}
use kora_engine.Manifest.{Manifest, loaded, manifest_bytes, read_manifest, validate_segments}
use kora_engine.Manifest.Validity.{
  IsSane, AreAllocated, read_manifest-IsSane, validate_segments-AreAllocated,
}
use kora_engine.Manifest.Codec.{
  read_manifest-manifest_bytes, v1_payload, v1_manifest, read_manifest-v1,
}

-- Two segments and one SSTable.
abbrev live : Manifest
live = record { next_id = 4; order = 2 ∷ 3 ∷ []; next_sst_id = 2; sst_ids = 1 ∷ [] }

live_loads : read_manifest (some (manifest_bytes live)) ≡ loaded live
live_loads = read_manifest-manifest_bytes live (omega arith) (omega arith)

read_manifest-manifest_bytes_example : read_manifest (some (manifest_bytes live)) ≡ loaded live
read_manifest-manifest_bytes_example = read_manifest-manifest_bytes live (omega arith) (omega arith)

read_manifest-IsSane_example : IsSane live
read_manifest-IsSane_example = read_manifest-IsSane (some (manifest_bytes live)) live live_loads

read_manifest-v1_example :
    read_manifest (some (put_u32 (crc32 (v1_payload 3 (1 ∷ 2 ∷ []))) ++ v1_payload 3 (1 ∷ 2 ∷ [])))
    ≡ loaded (v1_manifest 3 (1 ∷ 2 ∷ []))
read_manifest-v1_example =
    read_manifest-v1 3 (1 ∷ 2 ∷ []) (omega arith) (omega arith) (omega arith) (omega arith)

validate_segments-AreAllocated_example :
    (validate_segments 3 (1 ∷ 2 ∷ []) ≡ true) ↔ AreAllocated 3 (1 ∷ 2 ∷ [])
validate_segments-AreAllocated_example = validate_segments-AreAllocated 3 (1 ∷ 2 ∷ [])
