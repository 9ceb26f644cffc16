-- ===== src/Disk.antt =====
-- The files of a store's directory, and the calls on them that may fail. A call asks the world for its
-- fault: none, a failure with no effect, or a failure with a part of its effect. A process that is
-- killed is one whose remaining calls all fail.
pub mod Files
pub mod Calls
use kora_engine.Prelude.{
  ℕ, ◌+◌, Bool, true, false, Option, none, some, List, [], ◌∷◌, ◌++◌, length, take,
}
use kora_engine.Prelude.Order.{Bytes}
use kora_engine.Manifest.{Manifest, manifest_bytes}
use kora_engine.Disk.Files.{Folder, file_at, put_file, append_file, remove_file}

pub data Fault : Type 0 where
  fails : Fault
  torn : ℕ → Fault

-- The segment files `%06d.data`, the tables `sst/%06d.sst`, and the manifest. Temporary files are
-- left out: nothing reads them.
pub record Disk : Type 0 where
  pub segments : Folder
  pub tables : Folder
  pub manifest : Option Bytes

pub record World : Type 0 where
  pub disk : Disk
  pub faults : List (Option Fault)

next_fault : List (Option Fault) → Option Fault
next_fault [] = none
next_fault (f ∷ fs) = f

later_faults : List (Option Fault) → List (Option Fault)
later_faults [] = []
later_faults (f ∷ fs) = fs

unfoldable pub called : Option Fault → World → Bool × World
called none w = (true, w)
called (some f) w = (false, w)

-- A call with no effect on the files: a sync, an open, a listing. The test is whether it succeeds.
unfoldable pub call : World → Bool × World
unfolding next_fault later_faults called
call w = called (next_fault w.faults) (record w { faults = later_faults w.faults })

unfoldable pub changed : Option Fault → Disk → (ℕ → Disk) → World → Bool × World
changed none d part w = (true, record w { disk = d })
changed (some fails) d part w = (false, w)
changed (some (torn n)) d part w = (false, record w { disk = part n })

-- A call that changes the files: to the first disk, or, when it is torn after `n` bytes, to that of `n`.
unfoldable pub change : Disk → (ℕ → Disk) → World → Bool × World
unfolding next_fault later_faults changed
change d part w = changed (next_fault w.faults) d part (record w { faults = later_faults w.faults })

-- `os.OpenFile` with `O_CREATE`, which keeps a file that is there.
unfoldable pub create_segment_file : ℕ → World → Bool × World
create_segment_file id w =
    let d = record w.disk { segments = append_file id [] w.disk.segments } in change d (λ n. d) w

unfoldable pub append_segment : ℕ → Bytes → World → Bool × World
append_segment id bs w =
    change (record w.disk { segments = append_file id bs w.disk.segments })
      (λ n. record w.disk { segments = append_file id (take n bs) w.disk.segments }) w

unfoldable pub put_segment : ℕ → Bytes → World → Bool × World
put_segment id bs w =
    change (record w.disk { segments = put_file id bs w.disk.segments }) (λ n. w.disk) w

unfoldable pub remove_segment : ℕ → World → World
remove_segment id w =
    (change (record w.disk { segments = remove_file id w.disk.segments }) (λ n. w.disk) w).1

unfoldable pub write_table : ℕ → Bytes → World → Bool × World
write_table id bs w =
    change (record w.disk { tables = put_file id bs w.disk.tables })
      (λ n. record w.disk { tables = put_file id (take n bs) w.disk.tables }) w

unfoldable pub remove_table : ℕ → World → World
remove_table id w =
    (change (record w.disk { tables = remove_file id w.disk.tables }) (λ n. w.disk) w).1

-- `writeManifest`: the new bytes go to a temporary file, which a rename puts in place.
unfoldable pub write_manifest : Manifest → World → Bool × World
write_manifest m w = change (record w.disk { manifest = some (manifest_bytes m) }) (λ n. w.disk) w
