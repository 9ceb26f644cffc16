-- ===== src/Disk/Files.antt =====
-- A directory: file contents by the number in the file's name.
use kora_engine.Prelude.{
  ℕ, ◌≡◌, refl, Option, none, some, List, [], ◌∷◌, ◌++◌, ◌==◌, if◌then◌else◌, arith,
}
use kora_engine.Prelude.Order.{Bytes}

abbrev pub Folder : Type 0
Folder = List (ℕ × Bytes)

unfoldable pub file_at : ℕ → Folder → Option Bytes
file_at id [] = none
file_at id ((i, bs) ∷ fs) = if i == id then some bs else file_at id fs

unfoldable pub put_file : ℕ → Bytes → Folder → Folder
put_file id bs [] = (id, bs) ∷ []
put_file id bs ((i, cs) ∷ fs) = if i == id then (id, bs) ∷ fs else (i, cs) ∷ put_file id bs fs

-- Behind what is there; a file that is not there begins empty.
unfoldable pub append_file : ℕ → Bytes → Folder → Folder
append_file id bs [] = (id, bs) ∷ []
append_file id bs ((i, cs) ∷ fs) =
    if i == id then (id, cs ++ bs) ∷ fs else (i, cs) ∷ append_file id bs fs

unfoldable pub remove_file : ℕ → Folder → Folder
remove_file id [] = []
remove_file id ((i, cs) ∷ fs) =
    let rest = remove_file id fs in if i == id then rest else (i, cs) ∷ rest

unfoldable pub file_ids : Folder → List ℕ
file_ids [] = []
file_ids ((i, bs) ∷ fs) = i ∷ file_ids fs

-- The bytes of a file; none where it is missing.
abbrev pub bytes_of : Option Bytes → Bytes
bytes_of none = []
bytes_of (some bs) = bs

pub file_at-put_file :
    (id j : ℕ) (bs : Bytes) (fs : Folder)
    → file_at j (put_file id bs fs) ≡ (if id == j then some bs else file_at j fs)
unfolding file_at put_file
file_at-put_file id j bs [] = refl
file_at-put_file id j bs ((i, cs) ∷ fs) = ground (arith, file_at-put_file id j bs fs)

pub file_at-append_file :
    (id j : ℕ) (bs : Bytes) (fs : Folder)
    → file_at j (append_file id bs fs)
      ≡ (if id == j then some (bytes_of (file_at j fs) ++ bs) else file_at j fs)
unfolding file_at append_file
file_at-append_file id j bs [] = refl
file_at-append_file id j bs ((i, cs) ∷ fs) = ground (arith, file_at-append_file id j bs fs)

pub file_at-remove_file :
    (id j : ℕ) (fs : Folder)
    → file_at j (remove_file id fs) ≡ (if id == j then none else file_at j fs)
unfolding file_at remove_file
file_at-remove_file id j [] = ground arith
file_at-remove_file id j ((i, cs) ∷ fs) = ground (arith, file_at-remove_file id j fs)
