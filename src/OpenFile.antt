-- ===== src/OpenFile.antt =====
-- code/filesys/openfile.h and openfile.cc: reading and writing a part of a file whose header is in memory.
-- Positions and lengths are ints that are not negative. The synchronous disk is what it keeps, the bytes of each
-- sector by their offset; a sector that the disk refuses is `none`. A new buffer holds anything.
pub mod Bytes
pub mod Size
pub mod Requests
pub mod Writes
pub mod Stored
pub mod Elsewhere
use jalepenos.Base.{
  ℕ, zero, suc, ◌+◌, ◌-◌, ◌*◌, ◌/◌, ◌^◌, Bool, true, false, not, ◌&&◌, ◌||◌, Option, none, some,
  ltb, leb, ◌==◌, if◌then◌else◌, update, ◌>>=◌,
}
use jalepenos.Base.Int.{ℤ, pos, negsuc}
use jalepenos.FileHeader.{FileHeader, sector_size, file_length, byte_to_sector}
use jalepenos.Disk.{num_sectors}

pub record OpenFile : Type 0 where
  pub hdr : FileHeader
  pub seek_position : ℕ

-- The bytes of each sector.
abbrev pub Sectors : Type 0
Sectors = ℕ → ℕ → ℕ

-- OpenFile::OpenFile, with the header that FetchFrom has read.
abbrev pub open_file : FileHeader → OpenFile
open_file hdr = record { hdr = hdr; seek_position = 0 }

unfoldable pub seek : OpenFile → ℕ → OpenFile
seek f position = record f { seek_position = position }

-- synchDisk->ReadSector
unfoldable pub read_sector : Sectors → ℤ → Option (ℕ → ℕ)
read_sector d (pos s) = if ltb s num_sectors then some (d s) else none
read_sector d (negsuc s) = none

-- synchDisk->WriteSector
unfoldable pub write_sector : Sectors → ℤ → (ℕ → ℕ) → Option Sectors
write_sector d (pos s) bytes = if ltb s num_sectors then some (update d s bytes) else none
write_sector d (negsuc s) bytes = none

-- bcopy(&from[start], &to[base], n)
unfoldable pub copy_bytes : (ℕ → ℕ) → ℕ → (ℕ → ℕ) → ℕ → ℕ → ℕ → ℕ
copy_bytes to base from start n q =
    if leb base q && ltb q (base + n) then from (start + (q - base)) else to q

-- The loop of ReadAt, `n` rounds from sector `i` of the file on.
unfoldable pub read_loop : ℕ → ℕ → ℕ → FileHeader → Sectors → (ℕ → ℕ) → Option (ℕ → ℕ)
read_loop zero i first h d buf = some buf
read_loop (suc n) i first h d buf = byte_to_sector h (i * sector_size) >>= λ s.
    read_sector d s >>= λ bytes.
    read_loop n (suc i) first h d (copy_bytes buf ((i - first) * sector_size) bytes 0 sector_size)

-- The number of bytes of a request that lie in the file. A sum of 2 ^ 31 or more is negative as an int,
-- and is not above the length.
abbrev pub in_file : ℕ → ℕ → ℕ → ℕ
in_file length num_bytes position =
    if ltb length (position + num_bytes) && ltb (position + num_bytes) (2 ^ 31)
    then length - position
    else num_bytes

abbrev pub is_refused : ℕ → ℕ → ℕ → Bool
is_refused length num_bytes position = (num_bytes == 0) || leb length position

-- The end of the request is negative as an int, and so is the size of the buffer, which `new` refuses.
abbrev pub is_too_long : ℕ → ℕ → Bool
is_too_long n position = leb (2 ^ 31) (position + n)

-- OpenFile::ReadAt, into `to` from `base` on: the number of bytes read, and the memory after.
unfoldable pub read_at : OpenFile → Sectors → (ℕ → ℕ) → (ℕ → ℕ) → ℕ → ℕ → ℕ → Option (ℕ × (ℕ → ℕ))
read_at f d garbage to base num_bytes position =
    let length = file_length f.hdr in
    let n = in_file length num_bytes position in
    let first = position / sector_size in
    let last = (position + n - 1) / sector_size in
    let sectors = read_loop (1 + last - first) first first f.hdr d garbage in
    if is_refused length num_bytes position
    then some (0, to)
    else if is_too_long n position
    then none
    else (sectors >>= λ buf. some (n, copy_bytes to base buf (position - first * sector_size) n))

-- The loop of WriteAt, `n` rounds from sector `i` of the file on.
unfoldable pub write_loop : ℕ → ℕ → ℕ → FileHeader → (ℕ → ℕ) → Sectors → Option Sectors
write_loop zero i first h buf d = some d
write_loop (suc n) i first h buf d = byte_to_sector h (i * sector_size) >>= λ s.
    write_sector d s (λ o. buf ((i - first) * sector_size + o)) >>= λ d1.
    write_loop n (suc i) first h buf d1

-- OpenFile::WriteAt: the number of bytes written, and the disk after.
unfoldable pub write_at : OpenFile → Sectors → (ℕ → ℕ) → (ℕ → ℕ) → ℕ → ℕ → Option (ℕ × Sectors)
write_at f d garbage from num_bytes position =
    let length = file_length f.hdr in
    let n = in_file length num_bytes position in
    let first = position / sector_size in
    let last = (position + n - 1) / sector_size in
    let first_aligned = position == first * sector_size in
    let last_aligned = (position + n) == (last + 1) * sector_size in
    let head = read_at f d garbage garbage 0 sector_size (first * sector_size) in
    if is_refused length num_bytes position
    then some (0, d)
    else if is_too_long n position
    then none
    else ((if first_aligned then some (0, garbage) else head) >>= λ (_, buf1).
        (if not last_aligned && (not (first == last) || first_aligned)
          then read_at f d garbage buf1 ((last - first) * sector_size) sector_size
              (last * sector_size)
          else some (0, buf1))
        >>= λ (_, buf2).
            write_loop (1 + last - first) first first f.hdr
              (copy_bytes buf2 (position - first * sector_size) from 0 n) d
            >>= λ d1. some (n, d1))

-- OpenFile::Read
unfoldable pub read : OpenFile → Sectors → (ℕ → ℕ) → (ℕ → ℕ) → ℕ → Option (ℕ × (ℕ → ℕ) × OpenFile)
read f d garbage into num_bytes =
    read_at f d garbage into 0 num_bytes f.seek_position >>= λ (n, into1).
    some (n, into1, record f { seek_position = f.seek_position + n })

-- OpenFile::Write
unfoldable pub write : OpenFile → Sectors → (ℕ → ℕ) → (ℕ → ℕ) → ℕ → Option (ℕ × Sectors × OpenFile)
write f d garbage from num_bytes =
    write_at f d garbage from num_bytes f.seek_position >>= λ (n, d1).
    some (n, d1, record f { seek_position = f.seek_position + n })

-- OpenFile::Length
unfoldable pub file_size : OpenFile → ℕ
file_size f = file_length f.hdr
