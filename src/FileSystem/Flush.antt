-- ===== src/FileSystem/Flush.antt =====
-- The three writes that end Create.
use jalepenos.Base.{
  ℕ, ◌*◌, ◌/◌, ◌%◌, ◌≤◌, ◌<◌, ◌≡◌, ◌∙◌, ap, fun_ext, Option, none, some, ltb, if◌then◌else◌, ◌>>=◌,
  arith,
}
use jalepenos.Base.Int.{pos}
use jalepenos.BitMap.{BitMap}
use jalepenos.Disk.{num_sectors}
use jalepenos.FileHeader.{FileHeader}
use jalepenos.Directory.{Directory}
use jalepenos.OpenFile.{OpenFile, Sectors, read_sector, write_at}
use jalepenos.OpenFile.Bytes.{IsMapped, Gives}
use jalepenos.OpenFile.Writes.{bind-Gives, map-Gives}
use jalepenos.OpenFile.Elsewhere.{Whenever, bind-Whenever, IsApart, Untouched, write_at-Untouched}
use jalepenos.FileSystem.{Garbage, FileSystem, flush_new}
use jalepenos.FileSystem.Layout.{
  words_bytes, words_of, header_of, write_map, fetch_header, write_header, table_bytes,
  write_directory,
}
use jalepenos.FileSystem.Words.{IsWhole}
use jalepenos.FileSystem.Stored.{
  Starts, write_map-Starts, write_directory-Starts, fetch_header-write_header,
}

-- Every sector of which the first holds is as it was.
abbrev pub Keeps : (ℕ → Type 0) → Sectors → Sectors → Type 0
Keeps C d d1 = (s : ℕ) → C s → Untouched s d d1

pub gives_both {ℓ} :
    {A : Type ℓ} (P Q : A → Type 0) (o : Option A)
    → Gives P o
    → Whenever Q o
    → Gives (λ a. P a × Q a) o
gives_both P Q none g w = g
gives_both P Q (some a) g w = (g, w)

Whenever-all {ℓ} :
    {A : Type ℓ} (C : ℕ → Type 0) (P : ℕ → A → Type 0) (o : Option A)
    → ((s : ℕ) → C s → Whenever (P s) o)
    → Whenever (λ a. (s : ℕ) → C s → P s a) o
Whenever-all C P none h = tt
Whenever-all C P (some a) h = h

write_map-Keeps :
    (m : BitMap) (f : OpenFile) (d : Sectors) (garbage : ℕ → ℕ)
    → Whenever (Keeps (IsApart f.hdr) d) (write_map m f d garbage)
unfolding write_map
write_map-Keeps m f d garbage =
    Whenever-all (IsApart f.hdr) (λ s. Untouched s d) _
      (λ s apart.
        bind-Whenever (λ (n, d1). Untouched s d d1) (Untouched s d)
          (write_at f d garbage (words_bytes m.map) (m.num_words * 4) 0) (λ (n, d1). some d1)
          (write_at-Untouched f s d garbage (words_bytes m.map) (m.num_words * 4) 0 apart)
          (λ (n, d1) u. u))

pub write_directory-Keeps :
    (dir : Directory) (f : OpenFile) (d : Sectors) (garbage : ℕ → ℕ)
    → Whenever (Keeps (IsApart f.hdr) d) (write_directory dir f d garbage)
unfolding write_directory
write_directory-Keeps dir f d garbage =
    Whenever-all (IsApart f.hdr) (λ s. Untouched s d) _
      (λ s apart.
        bind-Whenever (λ (n, d1). Untouched s d d1) (Untouched s d)
          (write_at f d garbage (table_bytes dir.table) (dir.table_size * 20) 0)
          (λ (n, d1). some d1)
          (write_at-Untouched f s d garbage (table_bytes dir.table) (dir.table_size * 20) 0 apart)
          (λ (n, d1) u. u))

fetch_header-Untouched :
    (s : ℕ) (d d1 : Sectors) → Untouched s d d1 → fetch_header (pos s) d1 ≡ fetch_header (pos s) d
unfolding fetch_header read_sector
fetch_header-Untouched s d d1 same =
    ap
      (λ (b : ℕ → ℕ).
        (if ltb s num_sectors then some b else none) >>= λ bytes. header_of (words_of 32 0 bytes))
      (fun_ext same)

-- The files of the bitmap and of the directory are on the disk, with room for what they hold, and have no
-- sector in common.
pub record Files (fs : FileSystem) (at_map at_dir : ℕ → ℕ) : Type 0 where
  pub map_file : IsMapped fs.free_map_file.hdr at_map
  pub dir_file : IsMapped fs.directory_file.hdr at_dir
  pub map_room : 128 ≤ fs.free_map_file.hdr.num_bytes
  pub dir_room : 200 ≤ fs.directory_file.hdr.num_bytes
  pub apart :
      (i : ℕ) → i * 128 < fs.directory_file.hdr.num_bytes → IsApart fs.free_map_file.hdr (at_dir i)

-- What the disk holds.
pub record Holds (fs : FileSystem) (at_map at_dir : ℕ → ℕ) (dir : Directory) (m : BitMap)
    (d : Sectors) : Type 0 where
  pub names : Starts at_dir d (table_bytes dir.table) 200
  pub bits : Starts at_map d (words_bytes m.map) 128

module _ (g : Garbage) (fs : FileSystem) (at_map at_dir : ℕ → ℕ) (files : Files fs at_map at_dir)
    (dir : Directory) (m : BitMap) (ten : dir.table_size ≡ 10) (whole : m.num_words ≡ 32)
    (hdr : FileHeader) (s : ℕ) where
  abbrev Flushed : Sectors → Type 0
  Flushed d1 = Holds fs at_map at_dir dir m d1 × (fetch_header (pos s) d1 ≡ some hdr)

  abbrev Half : Sectors → Type 0
  Half d1 = Starts at_dir d1 (table_bytes dir.table) 200 × (fetch_header (pos s) d1 ≡ some hdr)

  last_write :
      (d : Sectors)
      → IsApart fs.free_map_file.hdr s
      → Half d
      → Gives Flushed (write_map m fs.free_map_file d g.buffer)
  last_write d apart (names, there) =
      let size : m.num_words * 4 ≡ 128 = omega (arith, whole) in
      map-Gives _ Flushed _
        (gives_both (λ d1. Starts at_map d1 (words_bytes m.map) (m.num_words * 4))
          (Keeps (IsApart fs.free_map_file.hdr) d) _
          (write_map-Starts fs.free_map_file at_map files.map_file m d g.buffer
            (omega (arith, whole)) (omega (arith, whole, files.map_room)))
          (write_map-Keeps m fs.free_map_file d g.buffer))
        (λ d1 (bits, keeps). (
          record {
            names = λ p lt.
                keeps (at_dir (p / 128)) (files.apart (p / 128) (omega (arith, lt, files.dir_room)))
                  (p % 128)
                ∙ names p lt;
            bits = λ p lt. bits p (omega (arith, lt, size));
          },
          fetch_header-Untouched s d d1 (keeps s apart) ∙ there,
        ))

  pub flush_new-Flushed :
      (d : Sectors)
      → s < num_sectors
      → IsWhole hdr
      → IsApart fs.free_map_file.hdr s
      → IsApart fs.directory_file.hdr s
      → Gives Flushed (flush_new g fs hdr (pos s) dir m d)
  unfolding flush_new
  flush_new-Flushed d on_disk ints apart_map apart_dir =
      let size : dir.table_size * 20 ≡ 200 = omega (arith, ten) in
      bind-Gives (λ d1. fetch_header (pos s) d1 ≡ some hdr) Flushed (write_header hdr (pos s) d)
        (λ d1. write_directory dir fs.directory_file d1 g.buffer >>= λ d2.
          write_map m fs.free_map_file d2 g.buffer)
        (fetch_header-write_header hdr s d on_disk ints)
        (λ d1 there.
          bind-Gives Half Flushed (write_directory dir fs.directory_file d1 g.buffer)
            (λ d2. write_map m fs.free_map_file d2 g.buffer)
            (map-Gives _ Half _
              (gives_both (λ d2. Starts at_dir d2 (table_bytes dir.table) (dir.table_size * 20))
                (Keeps (IsApart fs.directory_file.hdr) d1) _
                (write_directory-Starts fs.directory_file at_dir files.dir_file dir d1 g.buffer
                  (omega (arith, ten)) (omega (arith, ten, files.dir_room)))
                (write_directory-Keeps dir fs.directory_file d1 g.buffer))
              (λ d2 (names, keeps). (
                λ p lt. names p (omega (arith, lt, size)),
                fetch_header-Untouched s d1 d2 (keeps s apart_dir) ∙ there,
              )))
            (λ d2 half. last_write d2 apart_map half))
