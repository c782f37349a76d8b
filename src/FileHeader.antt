-- ===== src/FileHeader.antt =====
-- code/filesys/filehdr.h and filehdr.cc: which disk sectors hold a file, allocated from a bitmap of
-- sectors. A write or read outside `dataSectors` and a failed ASSERT are `none`. `FetchFrom` and
-- `WriteBack` are in FileSystem/Layout, and `Print` prints.
pub mod Sectors
pub mod Allocation
use jalepenos.Base.{
  ℕ, zero, suc, ◌*◌, ◌/◌, Bool, true, false, List, Option, none, some, ltb, if◌then◌else◌, ◌>>=◌,
  length, set, get_elem?,
}
use jalepenos.Base.Int.{ℤ}
use jalepenos.BitMap.{BitMap, div_round_up, num_clear, find, test, clear}

abbrev pub sector_size : ℕ
sector_size = 128

-- (SectorSize - 2 * sizeof(int)) / sizeof(int)
abbrev pub num_direct : ℕ
num_direct = 30

abbrev pub max_file_size : ℕ
max_file_size = num_direct * sector_size

pub record FileHeader : Type 0 where
  pub num_bytes : ℕ
  pub num_sectors : ℕ
  pub data_sectors : List ℤ

-- dataSectors[i] = sector;
unfoldable pub store_sector : FileHeader → ℕ → ℤ → Option FileHeader
store_sector h i sector =
    if ltb i (length h.data_sectors)
    then some (record h { data_sectors = set h.data_sectors i sector })
    else none

-- The `for` loop of Allocate, `n` rounds from `i` on.
unfoldable pub allocate_loop : ℕ → ℕ → FileHeader → BitMap → Option (FileHeader × BitMap)
allocate_loop zero i h free_map = some (h, free_map)
allocate_loop (suc n) i h free_map = do
  (sector, free_map') ← find free_map
  h' ← store_sector h i sector
  allocate_loop n (suc i) h' free_map'

unfoldable pub allocate : FileHeader → BitMap → ℕ → Option (Bool × FileHeader × BitMap)
allocate h free_map file_size =
    let sized = record h {
      num_bytes = file_size;
      num_sectors = div_round_up file_size sector_size;
    } in
    num_clear free_map >>= λ clear.
    if ltb clear sized.num_sectors
    then some (false, sized, free_map)
    else (allocate_loop sized.num_sectors 0 sized free_map >>= λ (h', free_map').
        some (true, h', free_map'))

-- The `for` loop of Deallocate, `n` rounds from `i` on.
unfoldable pub deallocate_loop : ℕ → ℕ → FileHeader → BitMap → Option BitMap
deallocate_loop zero i h free_map = some free_map
deallocate_loop (suc n) i h free_map = do
  sector ← get_elem? h.data_sectors i
  marked ← test free_map sector
  free_map' ← (if marked then clear free_map sector else none)
  deallocate_loop n (suc i) h free_map'

unfoldable pub deallocate : FileHeader → BitMap → Option BitMap
deallocate h free_map = deallocate_loop h.num_sectors 0 h free_map

unfoldable pub byte_to_sector : FileHeader → ℕ → Option ℤ
byte_to_sector h offset = get_elem? h.data_sectors (offset / sector_size)

unfoldable pub file_length : FileHeader → ℕ
file_length h = h.num_bytes
