-- ===== src/FileSystem.antt =====
-- code/filesys/filesys.cc: Create, Open and Remove over the directory, the bitmap of free sectors and the
-- file headers on the disk. What `new` gives holds anything, and is an argument. `List` and `Print` print.
pub mod Layout
pub mod Words
pub mod Entries
pub mod Stored
pub mod Flush
pub mod Fetch
pub mod Kept
pub mod Mounted
pub mod Removing
pub mod Removed
pub mod Undone
pub mod Creation
use jalepenos.Base.{
  ℕ, zero, suc, ◌*◌, ◌/◌, Bool, true, false, List, Option, none, some, if◌then◌else◌, ◌>>=◌,
}
use jalepenos.Base.Int.{ℤ, pos, negsuc}
use jalepenos.Disk.{num_sectors}
use jalepenos.BitMap
use jalepenos.BitMap.{BitMap}
use jalepenos.FileHeader.{FileHeader, allocate, deallocate}
use jalepenos.Directory
use jalepenos.Directory.{DirectoryEntry, Directory}
use jalepenos.OpenFile.{OpenFile, Sectors, open_file}
use jalepenos.FileSystem.Layout.{
  fetch_map, write_map, fetch_header, write_header, fetch_directory, write_directory,
}

abbrev pub free_map_sector : ℤ
free_map_sector = pos 0

abbrev pub directory_sector : ℤ
directory_sector = pos 1

abbrev pub num_dir_entries : ℕ
num_dir_entries = 10

-- NumSectors / BitsInByte, and sizeof(DirectoryEntry) * NumDirEntries.
abbrev pub free_map_file_size : ℕ
free_map_file_size = num_sectors / 8

abbrev pub directory_file_size : ℕ
directory_file_size = 20 * num_dir_entries

pub record FileSystem : Type 0 where
  pub free_map_file : OpenFile
  pub directory_file : OpenFile

-- What a new table of entries, a new array of words, a new file header and a new buffer hold.
pub record Garbage : Type 0 where
  pub table : List DirectoryEntry
  pub words : List ℕ
  pub header : FileHeader
  pub buffer : ℕ → ℕ

-- directory = new Directory(NumDirEntries); directory->FetchFrom(directoryFile);
unfoldable pub current_directory : Garbage → FileSystem → Sectors → Option Directory
current_directory g fs d = Directory.init g.table num_dir_entries >>= λ dir.
    fetch_directory dir fs.directory_file d g.buffer

-- freeMap = new BitMap(NumSectors); freeMap->FetchFrom(freeMapFile);
unfoldable pub current_map : Garbage → FileSystem → Sectors → Option BitMap
current_map g fs d =
    BitMap.init g.words num_sectors >>= λ m. fetch_map m fs.free_map_file d g.buffer

-- hdr->WriteBack(sector); directory->WriteBack(directoryFile); freeMap->WriteBack(freeMapFile);
unfoldable pub flush_new :
    Garbage → FileSystem → FileHeader → ℤ → Directory → BitMap → Sectors → Option Sectors
flush_new g fs hdr sector dir m d = write_header hdr sector d >>= λ d1.
    write_directory dir fs.directory_file d1 g.buffer >>= λ d2.
    write_map m fs.free_map_file d2 g.buffer

-- The innermost branch of Create: the space for the data.
unfoldable pub create_data :
    Garbage → FileSystem → ℕ → ℤ → Directory → BitMap → Sectors → Option (Bool × Sectors)
create_data g fs size sector dir m d = allocate g.header m size >>= λ (granted, hdr, m1).
    if granted
    then (flush_new g fs hdr sector dir m1 d >>= λ d1. some (true, d1))
    else some (false, d)

-- The branch where Find has given a sector for the header.
unfoldable pub create_entry :
    Garbage → FileSystem → List ℕ → ℕ → Directory → Sectors → ℤ × BitMap → Option (Bool × Sectors)
create_entry g fs name size dir d (negsuc n, m) = some (false, d)
create_entry g fs name size dir d (pos sector, m) =
    Directory.add dir name (pos sector) >>= λ (entered, dir1).
    if entered then create_data g fs size (pos sector) dir1 m d else some (false, d)

-- directory->Find(name) != -1
unfoldable pub is_known : ℤ → Bool
is_known (pos n) = true
is_known (negsuc zero) = false
is_known (negsuc (suc n)) = true

-- FileSystem::Create
unfoldable pub create : Garbage → FileSystem → List ℕ → ℕ → Sectors → Option (Bool × Sectors)
create g fs name size d = current_directory g fs d >>= λ dir. Directory.find dir name >>= λ known.
    if is_known known
    then some (false, d)
    else (current_map g fs d >>= λ m. BitMap.find m >>= create_entry g fs name size dir d)

unfoldable pub open_at : ℤ → Sectors → Option (Option OpenFile)
open_at (pos sector) d = fetch_header (pos sector) d >>= λ hdr. some (some (open_file hdr))
open_at (negsuc n) d = some none

-- FileSystem::Open; NULL is none.
unfoldable pub open_name : Garbage → FileSystem → List ℕ → Sectors → Option (Option OpenFile)
open_name g fs name d =
    current_directory g fs d >>= λ dir. Directory.find dir name >>= λ sector. open_at sector d

-- The part of Remove that changes the disk.
unfoldable pub remove_at :
    Garbage → FileSystem → List ℕ → ℤ → Directory → Sectors → Option (Bool × Sectors)
remove_at g fs name sector dir d = fetch_header sector d >>= λ hdr. current_map g fs d >>= λ m.
    deallocate hdr m >>= λ m1. BitMap.clear m1 sector >>= λ m2.
    Directory.remove dir name >>= λ (_, dir1). write_map m2 fs.free_map_file d g.buffer >>= λ d1.
    write_directory dir1 fs.directory_file d1 g.buffer >>= λ d2. some (true, d2)

-- sector == -1
unfoldable pub is_missing : ℤ → Bool
is_missing (pos n) = false
is_missing (negsuc zero) = true
is_missing (negsuc (suc n)) = false

-- FileSystem::Remove
unfoldable pub remove : Garbage → FileSystem → List ℕ → Sectors → Option (Bool × Sectors)
remove g fs name d = current_directory g fs d >>= λ dir. Directory.find dir name >>= λ sector.
    if is_missing sector then some (false, d) else remove_at g fs name sector dir d

-- ASSERT(header->Allocate(freeMap, size));
unfoldable pub must_allocate : FileHeader → BitMap → ℕ → Option (FileHeader × BitMap)
must_allocate hdr m size =
    allocate hdr m size >>= λ (granted, hdr1, m1). if granted then some (hdr1, m1) else none

-- FileSystem::FileSystem with format = TRUE, on new bytes of `Garbage` for both headers.
unfoldable pub format : Garbage → FileHeader → Sectors → Option (FileSystem × Sectors)
format g dir_hdr d = BitMap.init g.words num_sectors >>= λ m.
    Directory.init g.table num_dir_entries >>= λ dir. BitMap.mark m free_map_sector >>= λ m1.
    BitMap.mark m1 directory_sector >>= λ m2.
    must_allocate g.header m2 free_map_file_size >>= λ (map_hdr, m3).
    must_allocate dir_hdr m3 directory_file_size >>= λ (dir_hdr1, m4).
    write_header map_hdr free_map_sector d >>= λ d1.
    write_header dir_hdr1 directory_sector d1 >>= λ d2. fetch_header free_map_sector d2 >>= λ h1.
    fetch_header directory_sector d2 >>= λ h2.
    let fs : FileSystem = record { free_map_file = open_file h1; directory_file = open_file h2 } in
    write_map m4 fs.free_map_file d2 g.buffer >>= λ d3.
    write_directory dir fs.directory_file d3 g.buffer >>= λ d4. some (fs, d4)

-- FileSystem::FileSystem with format = FALSE.
unfoldable pub mount : Sectors → Option FileSystem
mount d = fetch_header free_map_sector d >>= λ h1. fetch_header directory_sector d >>= λ h2.
    some (record { free_map_file = open_file h1; directory_file = open_file h2 })
