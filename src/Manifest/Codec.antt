-- ===== src/Manifest/Codec.antt =====
-- The manifest file of internal/store/manifest.go: what `readManifest` makes of what
-- `writeManifest` wrote, and of a file in the older format.
use kora_engine.Prelude.{
  ℕ, ◌+◌, ◌*◌, ◌≤◌, ◌≡◌, refl, sym, ap, ◌∙◌, true, false, some, List, [], ◌∷◌, ◌++◌, ltb, ◌==◌,
  length, drop, length-append, append_assoc, append-nil, arith, All, le→ltb, ==-refl,
}
use kora_engine.Prelude.Order.{Bytes}
use kora_engine.Prelude.Endian.{IsU32, put_u32, u32_at, u32_at-append, length-put_u32, u32_word}
use kora_engine.Checksum.{crc32, crc32-IsU32}
use kora_engine.Manifest.{
  Manifest, loaded, manifest_v1, manifest_v2, put_ids, payload, manifest_bytes, read_ids,
  read_manifest, read_version, read_manifest_v1, read_manifest_v2, validate_segments, validate_ssts,
}
use kora_engine.Manifest.Validity.{
  IsSane, AreAllocated, validate_segments-AreAllocated, validate_ssts-AreAllocated,
}

length-put_ids : (ids : List ℕ) → length (put_ids ids) ≡ 4 * length ids
unfolding put_ids
length-put_ids [] = refl
length-put_ids (id ∷ ids) =
    omega (arith, length-append (put_u32 id) (put_ids ids), length-put_u32 id, length-put_ids ids)

read_ids-put_ids :
    (ids : List ℕ) (a rest : Bytes) (off : ℕ)
    → length a ≡ off
    → All IsU32 ids
    → read_ids (length ids) off (a ++ (put_ids ids ++ rest)) ≡ ids
unfolding read_ids put_ids
read_ids-put_ids [] a rest off e h = refl
read_ids-put_ids (id ∷ ids) a rest off e (h, hs) =
    let w : u32_at off (a ++ (put_u32 id ++ (put_ids ids ++ rest))) ≡ id =
      u32_at-append a id _ off e h in
    let r : read_ids (length ids) (off + 4) ((a ++ put_u32 id) ++ (put_ids ids ++ rest)) ≡ ids =
      read_ids-put_ids ids (a ++ put_u32 id) rest (off + 4)
        (omega (arith, length-append a (put_u32 id), length-put_u32 id, e)) hs in
    rw (append_assoc (put_u32 id) (put_ids ids) rest, w)
      (ap (λ l. id ∷ l) (rw (append_assoc a (put_u32 id) (put_ids ids ++ rest)) at r))

-- The fields fit their words on disk.
abbrev pub FitsWords : Manifest → Type 0
FitsWords m =
    IsU32 m.next_id
    × IsU32 (length m.order)
    × All IsU32 m.order
    × IsU32 m.next_sst_id
    × IsU32 (length m.sst_ids)
    × All IsU32 m.sst_ids

v2_of_parts :
    (bs : Bytes) (m : Manifest)
    → u32_at 4 bs ≡ m.next_id
    → u32_at 8 bs ≡ length m.order
    → read_ids (length m.order) 12 bs ≡ m.order
    → u32_at (12 + 4 * length m.order) bs ≡ m.next_sst_id
    → u32_at (12 + 4 * length m.order + 4) bs ≡ length m.sst_ids
    → read_ids (length m.sst_ids) (12 + 4 * length m.order + 8) bs ≡ m.sst_ids
    → length bs ≡ 12 + 4 * length m.order + 8 + 4 * length m.sst_ids
    → IsSane m
    → read_manifest_v2 bs ≡ loaded m
unfolding read_manifest_v2
v2_of_parts bs m a b c d e f l (s, t) =
    let vs : validate_segments m.next_id m.order ≡ true =
      (validate_segments-AreAllocated _ _).1 s in
    let vt : validate_ssts m.next_sst_id m.sst_ids ≡ true = (validate_ssts-AreAllocated _ _).1 t in
    let t1 : ltb (length bs) 20 ≡ false = le→ltb _ _ (omega arith) in
    let t2 : ltb (length bs) (12 + 4 * length m.order + 8) ≡ false = le→ltb _ _ (omega arith) in
    let t3 : (length bs == 12 + 4 * length m.order + 8 + 4 * length m.sst_ids) ≡ true =
      rw l (==-refl _) in
    rw (read_manifest_v2, a, b, c, d, e, f, t1, t2, t3, vs, vt)

abbrev front : Manifest → Bytes
front m = put_u32 manifest_v2 ++ (put_u32 m.next_id ++ put_u32 (length m.order))

length-front : (m : Manifest) → length (front m) ≡ 12
unfolding put_u32
length-front m = refl

abbrev behind : Manifest → Bytes
behind m = put_u32 m.next_sst_id ++ (put_u32 (length m.sst_ids) ++ put_ids m.sst_ids)

payload-front : (m : Manifest) → payload m ≡ front m ++ (put_ids m.order ++ behind m)
unfolding payload put_u32
payload-front m = refl

payload-behind : (m : Manifest) → payload m ≡ (front m ++ put_ids m.order) ++ behind m
payload-behind m = payload-front m ∙ sym (append_assoc (front m) (put_ids m.order) (behind m))

length-payload :
    (m : Manifest) → length (payload m) ≡ 12 + 4 * length m.order + 8 + 4 * length m.sst_ids
length-payload m = rw (payload-behind m) (
    omega (
      arith,
      length-append (front m ++ put_ids m.order) (behind m),
      length-append (front m) (put_ids m.order),
      length-front m,
      length-put_ids m.order,
      length-put_ids m.sst_ids,
      length-append (put_u32 m.next_sst_id) (put_u32 (length m.sst_ids) ++ put_ids m.sst_ids),
      length-append (put_u32 (length m.sst_ids)) (put_ids m.sst_ids),
      length-put_u32 m.next_sst_id,
      length-put_u32 (length m.sst_ids),
    ))

v2-payload : (m : Manifest) → FitsWords m → IsSane m → read_manifest_v2 (payload m) ≡ loaded m
v2-payload m (h1, h2, h3, h4, h5, h6) s =
    let p = front m ++ put_ids m.order in
    let lp : length p ≡ 12 + 4 * length m.order =
      omega (
        arith,
        length-append (front m) (put_ids m.order),
        length-front m,
        length-put_ids m.order,
      ) in
    let q = p ++ put_u32 m.next_sst_id in
    let lq : length q ≡ 12 + 4 * length m.order + 4 =
      omega (arith, lp, length-append p (put_u32 m.next_sst_id), length-put_u32 m.next_sst_id) in
    let r = q ++ put_u32 (length m.sst_ids) in
    let lr : length r ≡ 12 + 4 * length m.order + 8 = omega (
      arith,
      lq,
      length-append q (put_u32 (length m.sst_ids)),
      length-put_u32 (length m.sst_ids),
    ) in
    let eq : payload m ≡ q ++ (put_u32 (length m.sst_ids) ++ put_ids m.sst_ids) =
      payload-behind m ∙ sym (append_assoc p (put_u32 m.next_sst_id) _) in
    let er : payload m ≡ r ++ (put_ids m.sst_ids ++ []) =
      eq
      ∙ sym (append_assoc q (put_u32 (length m.sst_ids)) _)
      ∙ ap (λ l. r ++ l) (sym (append-nil (put_ids m.sst_ids))) in
    v2_of_parts (payload m) m (unfold payload put_u32 u32_at in u32_word m.next_id h1)
      (unfold payload put_u32 u32_at in u32_word (length m.order) h2)
      (rw (payload-front m) (read_ids-put_ids m.order (front m) (behind m) 12 (length-front m) h3))
      (rw (payload-behind m) (u32_at-append p m.next_sst_id _ _ lp h4))
      (rw eq (u32_at-append q (length m.sst_ids) _ _ lq h5))
      (rw er (read_ids-put_ids m.sst_ids r [] _ lr h6)) (length-payload m) s

-- A payload behind its checksum is handed to the reader of its version.
framed :
    (bs : Bytes)
    → 12 ≤ length bs
    → read_manifest (some (put_u32 (crc32 bs) ++ bs)) ≡ read_version (u32_at 0 bs) bs
unfolding read_manifest
framed bs h =
    let l : ltb (length (put_u32 (crc32 bs) ++ bs)) 16 ≡ false =
      le→ltb _ _
        (omega (arith, length-append (put_u32 (crc32 bs)) bs, length-put_u32 (crc32 bs))) in
    let c : u32_at 0 (put_u32 (crc32 bs) ++ bs) ≡ crc32 bs =
      u32_at-append [] (crc32 bs) bs 0 refl (crc32-IsU32 bs) in
    let d : drop 4 (put_u32 (crc32 bs) ++ bs) ≡ bs = unfold put_u32 in refl in
    rw (read_manifest, l, d, c, ==-refl (crc32 bs))

-- Reading what was written gives the manifest back: the file format loses nothing of a manifest
-- whose fields fit their words and whose ids are different and below their counters.
pub read_manifest-manifest_bytes :
    (m : Manifest) → FitsWords m → IsSane m → read_manifest (some (manifest_bytes m)) ≡ loaded m
unfolding manifest_bytes
read_manifest-manifest_bytes m h s =
    let v : u32_at 0 (payload m) ≡ manifest_v2 =
      unfold payload in u32_at-append [] manifest_v2 _ 0 refl (omega arith) in
    framed (payload m) (omega (arith, length-payload m))
    ∙ ap (λ v. read_version v (payload m)) v
    ∙ unfold read_version in v2-payload m h s

abbrev pub v1_manifest : ℕ → List ℕ → Manifest
v1_manifest next order = record { next_id = next; order = order; next_sst_id = 1; sst_ids = [] }

-- The older format holds no SSTables.
pub v1_payload : ℕ → List ℕ → Bytes
v1_payload next order =
    put_u32 manifest_v1 ++ (put_u32 next ++ (put_u32 (length order) ++ put_ids order))

v1_of_parts :
    (bs : Bytes) (next : ℕ) (order : List ℕ)
    → u32_at 4 bs ≡ next
    → u32_at 8 bs ≡ length order
    → read_ids (length order) 12 bs ≡ order
    → length bs ≡ 12 + 4 * length order
    → AreAllocated next order
    → read_manifest_v1 bs ≡ loaded (v1_manifest next order)
unfolding read_manifest_v1
v1_of_parts bs next order a b c l s =
    let vs : validate_segments next order ≡ true = (validate_segments-AreAllocated _ _).1 s in
    let t1 : ltb (length bs) 12 ≡ false = le→ltb _ _ (omega arith) in
    let t3 : (length bs == 12 + 4 * length order) ≡ true = rw l (==-refl _) in
    rw (read_manifest_v1, a, b, c, t1, t3, vs)

-- A manifest in the older format, behind its checksum, whose ids are different and below the counter
-- and fit their words, as the counter and the number of ids do, loads with its segments and its counter,
-- no SSTables, and 1 as the first SSTable id.
pub read_manifest-v1 :
    (next : ℕ) (order : List ℕ)
    → IsU32 next
    → IsU32 (length order)
    → All IsU32 order
    → AreAllocated next order
    → read_manifest (some (put_u32 (crc32 (v1_payload next order)) ++ v1_payload next order))
      ≡ loaded (v1_manifest next order)
unfolding v1_payload put_u32
read_manifest-v1 next order hn hl ho s =
    let bs = v1_payload next order in
    let pre = put_u32 manifest_v1 ++ (put_u32 next ++ put_u32 (length order)) in
    let lp : length pre ≡ 12 = unfold put_u32 in refl in
    let eq : bs ≡ pre ++ (put_ids order ++ []) =
      ap (λ l. pre ++ l) (sym (append-nil (put_ids order))) in
    let l : length bs ≡ 12 + 4 * length order =
      omega (arith, length-append pre (put_ids order), lp, length-put_ids order) in
    let v : u32_at 0 bs ≡ manifest_v1 =
      unfold v1_payload in u32_at-append [] manifest_v1 _ 0 refl (omega arith) in
    framed bs (omega arith)
    ∙ ap (λ v. read_version v bs) v
    ∙ unfold read_version in
      v1_of_parts bs next order (unfold v1_payload put_u32 u32_at in u32_word next hn)
        (unfold v1_payload put_u32 u32_at in u32_word (length order) hl)
        (rw eq (read_ids-put_ids order pre [] 12 lp ho)) l s
