-- ===== src/FileSystem/Layout.antt =====
-- The structures that are copied to and from the disk, as the bytes that the host keeps them in: i386,
-- little endian, ints of four bytes aligned to four. `FetchFrom` and `WriteBack` of BitMap, FileHeader
-- and Directory.
use jalepenos.Base.{
  ℕ, zero, suc, ◌+◌, ◌-◌, ◌*◌, ◌/◌, ◌%◌, not, List, [], ◌∷◌, Option, none, some, ◌==◌, ltb,
  if◌then◌else◌, ◌>>=◌, get_elem?, get_or, map,
}
use jalepenos.Base.Int.{ℤ}
use jalepenos.Machine.Words.Signs.{to_int}
use jalepenos.Machine.Translate.{to_unsigned}
use jalepenos.BitMap.{BitMap}
use jalepenos.FileHeader.{FileHeader}
use jalepenos.Directory.{DirectoryEntry, Directory, file_name_max_len}
use jalepenos.OpenFile.{OpenFile, Sectors, read_at, write_at, read_sector, write_sector}

-- Byte `k` of an int.
unfoldable pub int_byte : ℕ → ℕ → ℕ
int_byte w k =
    if k == 0
    then w % 256
    else if k == 1
    then w / 256 % 256
    else if k == 2
    then w / 65536 % 256
    else w / 16777216 % 256

-- An array of ints.
unfoldable pub words_bytes : List ℕ → ℕ → ℕ
unfolding int_byte
words_bytes ws q = int_byte (get_or ws (q / 4) 0) (q % 4)

unfoldable pub int_of : (ℕ → ℕ) → ℕ → ℕ
int_of b p = b p + 256 * b (p + 1) + 65536 * b (p + 2) + 16777216 * b (p + 3)

-- `n` ints, from int `i` on.
unfoldable pub words_of : ℕ → ℕ → (ℕ → ℕ) → List ℕ
unfolding int_of
words_of zero i b = []
words_of (suc n) i b = int_of b (4 * i) ∷ words_of n (suc i) b

-- BitMap::FetchFrom; `garbage` is what the new buffer of ReadAt holds, and so below.
unfoldable pub fetch_map : BitMap → OpenFile → Sectors → (ℕ → ℕ) → Option BitMap
fetch_map m file d garbage =
    read_at file d garbage (words_bytes m.map) 0 (m.num_words * 4) 0 >>= λ (_, bytes).
    some (record m { map = words_of m.num_words 0 bytes })

-- BitMap::WriteBack
unfoldable pub write_map : BitMap → OpenFile → Sectors → (ℕ → ℕ) → Option Sectors
write_map m file d garbage =
    write_at file d garbage (words_bytes m.map) (m.num_words * 4) 0 >>= λ (_, d1). some d1

-- The ints of a file header, which fill a sector.
abbrev pub header_words : FileHeader → List ℕ
header_words h = h.num_bytes ∷ h.num_sectors ∷ map to_unsigned h.data_sectors

abbrev pub header_of : List ℕ → Option FileHeader
header_of (n ∷ s ∷ ws) =
    some (record { num_bytes = n; num_sectors = s; data_sectors = map to_int ws })
header_of ws = none

-- FileHeader::FetchFrom
unfoldable pub fetch_header : ℤ → Sectors → Option FileHeader
fetch_header sector d = read_sector d sector >>= λ bytes. header_of (words_of 32 0 bytes)

-- FileHeader::WriteBack
unfoldable pub write_header : FileHeader → ℤ → Sectors → Option Sectors
write_header h sector d = write_sector d sector (words_bytes (header_words h))

-- Byte `k` of a directory entry: inUse, sector, the name; what stands between them is not looked at.
unfoldable pub entry_byte : DirectoryEntry → ℕ → ℕ
entry_byte e k =
    if k == 0
    then (if e.in_use then 1 else 0)
    else if ltb k 4
    then 0
    else if ltb k 8
    then int_byte (to_unsigned e.sector) (k - 4)
    else get_or e.name (k - 8) 0

abbrev pub no_entry : Option DirectoryEntry → ℕ → ℕ
no_entry none k = 0
no_entry (some e) k = entry_byte e k

unfoldable pub table_bytes : List DirectoryEntry → ℕ → ℕ
table_bytes t q = no_entry (get_elem? t (q / 20)) (q % 20)

-- The characters of a name up to its NUL, `n` at most.
unfoldable pub name_of : ℕ → (ℕ → ℕ) → ℕ → List ℕ
name_of zero b p = []
name_of (suc n) b p = let rest = name_of n b (suc p) in if b p == 0 then [] else b p ∷ rest

unfoldable pub entry_of : (ℕ → ℕ) → ℕ → DirectoryEntry
unfolding int_of name_of
entry_of b p = record {
  in_use = not (b p == 0);
  sector = to_int (int_of b (p + 4));
  name = name_of file_name_max_len b (p + 8);
}

-- `n` entries, from entry `i` on.
unfoldable pub entries_of : ℕ → ℕ → (ℕ → ℕ) → List DirectoryEntry
entries_of zero i b = []
entries_of (suc n) i b = entry_of b (20 * i) ∷ entries_of n (suc i) b

-- Directory::FetchFrom
unfoldable pub fetch_directory : Directory → OpenFile → Sectors → (ℕ → ℕ) → Option Directory
fetch_directory dir file d garbage =
    read_at file d garbage (table_bytes dir.table) 0 (dir.table_size * 20) 0 >>= λ (_, bytes).
    some (record dir { table = entries_of dir.table_size 0 bytes })

-- Directory::WriteBack
unfoldable pub write_directory : Directory → OpenFile → Sectors → (ℕ → ℕ) → Option Sectors
write_directory dir file d garbage =
    write_at file d garbage (table_bytes dir.table) (dir.table_size * 20) 0 >>= λ (_, d1). some d1
