-- ===== src/FileSystem/Removed.antt =====
-- What Remove leaves.
use jalepenos.Base.{
  ℕ, ◌*◌, ◌≤◌, ◌<◌, ◌≡◌, ◌∙◌, ap, subst, Bool, true, false, not, ◌&&◌, List, ◌∷◌, Option, none,
  some, if◌then◌else◌, ◌>>=◌, arith, length,
}
use jalepenos.Base.Int.{pos, negsuc}
use jalepenos.BitMap
use jalepenos.BitMap.{BitMap}
use jalepenos.BitMap.Bit.{is_set, cleared, clear-cleared, is_set-cleared}
use jalepenos.FileHeader.{FileHeader, deallocate_loop, deallocate}
use jalepenos.FileHeader.Sectors.{mem, Distinct, Stores, deallocate_loop_lem}
use jalepenos.Directory
use jalepenos.Directory.{Directory, file_name_max_len, same_name, find_index, sector_at}
use jalepenos.Directory.Removal.{Removal, unknown, removed, remove-Removal}
use jalepenos.OpenFile.{Sectors}
use jalepenos.OpenFile.Elsewhere.{Whenever}
use jalepenos.FileSystem
use jalepenos.FileSystem.{Garbage, FileSystem, is_missing, create}
use jalepenos.FileSystem.Layout.{fetch_header, write_map, write_directory}
use jalepenos.FileSystem.Flush.{Holds}
use jalepenos.FileSystem.Fetch.{current_directory-Holds, current_map-Holds}
use jalepenos.FileSystem.Kept.{IsDiskMap, IsDiskTable}
use jalepenos.FileSystem.Mounted.{IsMounted, from_gives, DiskMap-IsValid}
use jalepenos.FileSystem.Removing.{clear-kept, deallocate-kept, remove-kept, write_both-Holds}

-- The name stands for the file whose header is in sector `s` and whose data are in the sectors `xs`; they
-- are marked, and none of them is one of the bitmap's or the directory's.
pub record IsFile (fs : FileSystem) (at_map at_dir : ℕ → ℕ) (dir : Directory) (m : BitMap)
    (d : Sectors) (name : List ℕ) (hdr : FileHeader) (s : ℕ) (xs : List ℕ) : Type 0 where
  pub there : Directory.find dir name ≡ some (pos s)
  pub header : fetch_header (pos s) d ≡ some hdr
  pub count : hdr.num_sectors ≡ length xs
  pub stored : Stores hdr.data_sectors 0 xs
  pub distinct : Distinct xs
  pub on_disk : s < 1024
  pub inside : (j : ℕ) → mem j xs ≡ true → j < 1024
  pub are_set : (j : ℕ) → mem j xs ≡ true → is_set m j ≡ true
  pub not_map : (i : ℕ) → i * 128 < fs.free_map_file.hdr.num_bytes → mem (at_map i) (s ∷ xs) ≡ false
  pub not_dir :
      (i : ℕ) → i * 128 < fs.directory_file.hdr.num_bytes → mem (at_dir i) (s ∷ xs) ≡ false

-- A directory and a bitmap on a disk, in which the sectors are clear and the name is gone, and all else
-- is as in the other two.
pub record IsRemoved (fs : FileSystem) (at_map at_dir : ℕ → ℕ) (dir dir1 : Directory)
    (m m1 : BitMap) (d1 : Sectors) (name : List ℕ) (xs : List ℕ) : Type 0 where
  pub mounted : IsMounted fs at_map at_dir dir1 m1 d1
  pub bits : (j : ℕ) → is_set m1 j ≡ (not (mem j xs) && is_set m j)
  pub finds :
      (other : List ℕ)
      → Directory.find dir1 other ≡ (
          if same_name file_name_max_len name other
          then some (negsuc 0)
          else Directory.find dir other)

after_both {ℓ κ ν} :
    {A : Type ℓ} {B : Type κ} {C : Type ν} (x : Option A) (y : A → Option B) (z : B → C) (b : B)
    → (x >>= y) ≡ some b
    → (x >>= λ a. y a >>= λ b1. some (z b1)) ≡ some (z b)
after_both none y z b e = absurd cc
after_both (some a) y z b e = ap (λ o. o >>= λ b1. some (z b1)) e

not_unknown :
    (dir : Directory) (name : List ℕ) (s : ℕ)
    → Directory.find dir name ≡ some (pos s)
    → find_index dir name ≡ some (negsuc 0)
    → ⊥
unfolding Directory.find sector_at
not_unknown dir name s there e =
    let gone : some (negsuc 0) ≡ some (pos s) = rw e at there in absurd cc

module _ (g : Garbage) (fs : FileSystem) (at_map at_dir : ℕ → ℕ) (dir : Directory) (m : BitMap)
    (d : Sectors) (name : List ℕ) (mounted : IsMounted fs at_map at_dir dir m d)
    (entries : 10 ≤ length g.table) where
  freed :
      (hdr : FileHeader) (s : ℕ) (xs : List ℕ)
      → IsFile fs at_map at_dir dir m d name hdr s xs
      → (m1 : BitMap) × (m2 : BitMap) × (deallocate hdr m ≡ some m1)
        × (BitMap.clear m1 (pos s) ≡ some m2)
        × IsDiskMap m2
        × ((j : ℕ) → is_set m2 j ≡ (not (mem j (s ∷ xs)) && is_set m j))
  unfolding deallocate
  freed hdr s xs file =
      let (m1, ran, valid, same, after) =
        deallocate_loop_lem xs 0 hdr m (DiskMap-IsValid m mounted.map) file.stored file.distinct
          (λ j in_file. omega (arith, file.inside j in_file, mounted.map.bits)) file.are_set in
      let given : deallocate hdr m ≡ some m1 =
        ap (λ n. deallocate_loop n 0 hdr m) file.count ∙ ran in
      let map1 : IsDiskMap m1 =
        subst (Whenever IsDiskMap) given (deallocate-kept hdr m mounted.map) in
      let hi : s < m1.num_bits = omega (arith, file.on_disk, map1.bits) in
      let done = clear-cleared m1 s hi in
      (
        m1,
        cleared m1 s,
        ap (λ n. deallocate_loop n 0 hdr m) file.count ∙ ran,
        done,
        subst (Whenever IsDiskMap) done (clear-kept m1 (pos s) map1),
        λ j. ground (arith, is_set-cleared m1 s valid j hi, after j),
      )

  abbrev last_writes : BitMap → Directory → Option (Bool × Sectors)
  last_writes m2 dir1 = write_map m2 fs.free_map_file d g.buffer >>= λ d1.
      write_directory dir1 fs.directory_file d1 g.buffer >>= λ d2. some (true, d2)

  -- The two writes at the end, once everything has been taken out.
  written :
      (hdr : FileHeader) (s : ℕ) (xs : List ℕ) (m2 : BitMap) (r : Bool × Directory)
      → IsFile fs at_map at_dir dir m d name hdr s xs
      → IsDiskMap m2
      → ((j : ℕ) → is_set m2 j ≡ (not (mem j (s ∷ xs)) && is_set m j))
      → IsDiskTable r.1
      → Removal dir name r
      → (d1 : Sectors) × (last_writes m2 r.1 ≡ some (true, d1))
        × IsRemoved fs at_map at_dir dir r.1 m m2 d1 name (s ∷ xs)
  written hdr s xs m2 (false, dir1) file map2 bits table1 (unknown e) =
      absurd (not_unknown dir name s file.there e)
  written hdr s xs m2 (true, dir1) file map2 bits table1 (removed i _ e valid finds) =
      let (d1, wrote, holds) =
        from_gives (Holds fs at_map at_dir dir1 m2)
          (write_map m2 fs.free_map_file d g.buffer >>= λ d1.
            write_directory dir1 fs.directory_file d1 g.buffer)
          (write_both-Holds g fs at_map at_dir mounted.files dir1 m2 table1 map2 d) in
      (
        d1,
        after_both (write_map m2 fs.free_map_file d g.buffer)
            (λ d1. write_directory dir1 fs.directory_file d1 g.buffer) (λ d2. (true, d2)) d1 wrote,
        record {
          mounted = record {
            files = mounted.files;
            table = table1;
            map = map2;
            names = valid;
            holds = holds;
            map_taken =
                λ i lt. ground (arith, bits (at_map i), file.not_map i lt, mounted.map_taken i lt);
            dir_taken =
                λ i lt. ground (arith, bits (at_dir i), file.not_dir i lt, mounted.dir_taken i lt);
          };
          bits = bits;
          finds = finds;
        },
      )

  -- On the disk of a file system, Remove of the name of a file goes through and returns TRUE, and the disk
  -- is that of a file system again, without the name and with the sectors of the file clear.
  pub remove-IsRemoved :
      (hdr : FileHeader) (s : ℕ) (xs : List ℕ)
      → IsFile fs at_map at_dir dir m d name hdr s xs
      → (d1 : Sectors) × (dir1 : Directory) × (m1 : BitMap) × (FileSystem.remove g fs name d
          ≡ some (true, d1))
        × IsRemoved fs at_map at_dir dir dir1 m m1 d1 name (s ∷ xs)
  unfolding FileSystem.remove FileSystem.remove_at is_missing
  remove-IsRemoved hdr s xs file =
      let (m1, m2, given, done, map2, bits) = freed hdr s xs file in
      let (r, ran, gone) = remove-Removal dir name mounted.names in
      let table1 : IsDiskTable r.1 =
        subst (Whenever (λ (b, d1). IsDiskTable d1)) ran (remove-kept dir name mounted.table) in
      let fetched =
        current_directory-Holds g fs at_map at_dir mounted.files dir m mounted.table mounted.map d
          mounted.holds entries in
      let fetched_map =
        current_map-Holds g fs at_map at_dir mounted.files dir m mounted.table mounted.map d
          mounted.holds in
      let (d1, wrote, all) = written hdr s xs m2 r file map2 bits table1 gone in
      (d1, r.1, m2, rw (fetched, file.there, file.header, fetched_map, given, done, ran) wrote, all)
