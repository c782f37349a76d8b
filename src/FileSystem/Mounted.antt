-- ===== src/FileSystem/Mounted.antt =====
-- The disk of a file system, and small lemmas on its parts.
use jalepenos.Base.{
  ℕ, zero, suc, ◌*◌, ◌≤◌, ◌<◌, ◌≡◌, refl, sym, ◌∙◌, Bool, true, false, List, [], ◌∷◌, Option, none,
  some, ◌==◌, arith, length, get_elem?-some,
}
use jalepenos.Base.Int.{ℤ, pos, negsuc}
use jalepenos.BitMap.{BitMap}
use jalepenos.BitMap.Bit
use jalepenos.BitMap.Bit.{is_set, marked, marked-IsValid, is_set-marked}
use jalepenos.FileHeader.{FileHeader}
use jalepenos.Directory
use jalepenos.Directory.{Directory, file_name_max_len, same_name, find_index, sector_at}
use jalepenos.Directory.Search.{First, missed, found_at, first-First, index_of}
use jalepenos.Directory.Names
use jalepenos.Directory.Names.{Addition, known, no_room, entered, add-Addition, found, find-at}
use jalepenos.OpenFile.{Sectors}
use jalepenos.OpenFile.Bytes.{IsMapped, Gives}
use jalepenos.OpenFile.Elsewhere.{IsApart}
use jalepenos.FileSystem.{FileSystem}
use jalepenos.FileSystem.Flush.{Files, Holds}
use jalepenos.FileSystem.Kept.{IsDiskMap, IsDiskTable}

-- The disk of a file system: its two files hold the directory and the bitmap of free sectors, in which
-- the sectors of both are marked.
pub record IsMounted (fs : FileSystem) (at_map at_dir : ℕ → ℕ) (dir : Directory) (m : BitMap)
    (d : Sectors) : Type 0 where
  pub files : Files fs at_map at_dir
  pub table : IsDiskTable dir
  pub map : IsDiskMap m
  pub names : Names.IsValid dir
  pub holds : Holds fs at_map at_dir dir m d
  pub map_taken : (i : ℕ) → i * 128 < fs.free_map_file.hdr.num_bytes → is_set m (at_map i) ≡ true
  pub dir_taken : (i : ℕ) → i * 128 < fs.directory_file.hdr.num_bytes → is_set m (at_dir i) ≡ true

pub from_gives {ℓ} :
    {A : Type ℓ} (P : A → Type 0) (o : Option A) → Gives P o → (a : A) × (o ≡ some a) × P a
from_gives P none g = absurd g
from_gives P (some a) g = (a, refl, g)

-- A clear sector is none of a file's whose sectors are marked.
pub clear-IsApart :
    (h : FileHeader) (at : ℕ → ℕ) (m : BitMap) (s : ℕ)
    → IsMapped h at
    → ((i : ℕ) → i * 128 < h.num_bytes → is_set m (at i) ≡ true)
    → is_set m s ≡ false
    → IsApart h s
clear-IsApart h at m s mapped taken free i lt e =
    let same : some (pos (at i)) ≡ some (pos s) = sym (mapped.stored i lt) ∙ e in
    let used : is_set m (at i) ≡ true = taken i lt in absurd cc

pub DiskMap-IsValid : (m : BitMap) → IsDiskMap m → Bit.IsValid m
DiskMap-IsValid m o = record {
  sized = o.whole ∙ sym o.words;
  covers = omega (arith, o.bits, o.words);
}

pub same_name_refl : (n : ℕ) (a : List ℕ) → same_name n a a ≡ true
unfolding same_name
same_name_refl zero a = refl
same_name_refl (suc n) [] = refl
same_name_refl (suc n) (x ∷ a) =
    let here : (x == x) ≡ true = ground arith in rw here (same_name_refl n a)

index_found :
    (dir : Directory) (n : ℕ) (f : ℕ → Bool) {o : Option ℕ}
    → n ≤ length dir.table
    → First f n 0 o
    → (z : ℤ) × (sector_at dir (index_of o) ≡ some z)
unfolding index_of sector_at
index_found dir n f room (missed all) = (negsuc 0, refl)
index_found dir n f room (found_at k lo hi e) =
    let (entry, at) = get_elem?-some dir.table k (omega (arith, hi, room)) in
    (entry.sector, rw at refl)

pub find-some :
    (dir : Directory) (name : List ℕ)
    → Names.IsSized dir
    → (z : ℤ) × (Directory.find dir name ≡ some z)
find-some dir name sized =
    let (z, e) =
      index_found dir dir.table_size _ {o = found dir name} (omega (arith, sized))
        (first-First _ _ _) in
    (z, find-at dir name sized ∙ e)
