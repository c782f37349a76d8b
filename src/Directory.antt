-- ===== src/Directory.antt =====
-- code/filesys/directory.h and directory.cc: the table of file names. A name is the list of its
-- characters before the NUL. An index outside the table is `none`, and so is the use of an entry
-- that is not there. `FetchFrom` and `WriteBack` are in FileSystem/Layout, and `List` and `Print` print.
pub mod Search
pub mod Match
pub mod Names
pub mod Removal
use jalepenos.Base.{
  ℕ, zero, suc, Bool, true, false, not, ◌&&◌, List, [], ◌∷◌, Option, none, some, ◌==◌,
  if◌then◌else◌, ◌>>=◌, get_elem?, set,
}
use jalepenos.Base.Int.{ℤ, pos, negsuc}

abbrev pub file_name_max_len : ℕ
file_name_max_len = 9

pub record DirectoryEntry : Type 0 where
  pub in_use : Bool
  pub sector : ℤ
  pub name : List ℕ

pub record Directory : Type 0 where
  pub table_size : ℕ
  pub table : List DirectoryEntry

-- !strncmp(a, b, n)
unfoldable pub same_name : ℕ → List ℕ → List ℕ → Bool
same_name zero a b = true
same_name (suc n) [] [] = true
same_name (suc n) [] (y ∷ b) = false
same_name (suc n) (x ∷ a) [] = false
same_name (suc n) (x ∷ a) (y ∷ b) = (x == y) && same_name n a b

-- What `strncpy(to, name, n)` leaves in `to`, of which the code compares the first `n` characters.
unfoldable pub copy_name : ℕ → List ℕ → List ℕ
copy_name zero a = []
copy_name (suc n) [] = []
copy_name (suc n) (x ∷ a) = x ∷ copy_name n a

abbrev pub put_entry : Directory → ℕ → DirectoryEntry → Directory
put_entry d i e = record d { table = set d.table i e }

-- The `for` loop of the constructor, `n` rounds from `i` on.
unfoldable pub init_loop : ℕ → ℕ → Directory → Option Directory
init_loop zero i d = some d
init_loop (suc n) i d =
    get_elem? d.table i >>= λ e. init_loop n (suc i) (put_entry d i (record e { in_use = false }))

-- `garbage` is what the new table holds.
unfoldable pub init : List DirectoryEntry → ℕ → Option Directory
init garbage size = init_loop size 0 (record { table_size = size; table = garbage })

abbrev pub matches : List ℕ → DirectoryEntry → Bool
matches name e = e.in_use && same_name file_name_max_len e.name name

-- The `for` loop of FindIndex, `n` rounds from `i` on.
unfoldable pub find_index_loop : ℕ → ℕ → Directory → List ℕ → Option ℤ
find_index_loop zero i d name = some (negsuc 0)
find_index_loop (suc n) i d name =
    let rest = find_index_loop n (suc i) d name in
    get_elem? d.table i >>= λ e. if matches name e then some (pos i) else rest

unfoldable pub find_index : Directory → List ℕ → Option ℤ
find_index d name = find_index_loop d.table_size 0 d name

-- `table[i].sector` for an index, -1 for -1.
unfoldable pub sector_at : Directory → ℤ → Option ℤ
sector_at d (pos i) = get_elem? d.table i >>= λ e. some e.sector
sector_at d (negsuc zero) = some (negsuc 0)
sector_at d (negsuc (suc n)) = none

unfoldable pub find : Directory → List ℕ → Option ℤ
find d name = find_index d name >>= λ i. sector_at d i

-- The `for` loop of Add, `n` rounds from `i` on.
unfoldable pub add_loop : ℕ → ℕ → Directory → List ℕ → ℤ → Option (Bool × Directory)
add_loop zero i d name new_sector = some (false, d)
add_loop (suc n) i d name new_sector =
    let rest = add_loop n (suc i) d name new_sector in
    get_elem? d.table i >>= λ e.
    if not e.in_use
    then some (
      true,
      put_entry d i
          (record { in_use = true; sector = new_sector; name = copy_name file_name_max_len name }),
    )
    else rest

-- What Add and Remove do with the index that FindIndex gives.
unfoldable pub add_at : Directory → List ℕ → ℤ → ℤ → Option (Bool × Directory)
add_at d name new_sector (negsuc zero) = add_loop d.table_size 0 d name new_sector
add_at d name new_sector i = some (false, d)

unfoldable pub add : Directory → List ℕ → ℤ → Option (Bool × Directory)
add d name new_sector = find_index d name >>= λ i. add_at d name new_sector i

unfoldable pub remove_at : Directory → ℤ → Option (Bool × Directory)
remove_at d (pos i) =
    get_elem? d.table i >>= λ e. some (true, put_entry d i (record e { in_use = false }))
remove_at d (negsuc zero) = some (false, d)
remove_at d (negsuc (suc n)) = none

unfoldable pub remove : Directory → List ℕ → Option (Bool × Directory)
remove d name = find_index d name >>= λ i. remove_at d i
