-- ===== src/FileSystem/Stored.antt =====
-- `WriteBack` and `FetchFrom` through the file or the sector that holds the structure.
use jalepenos.Base.{
  ℕ, ◌+◌, ◌-◌, ◌*◌, ◌≤◌, ◌<◌, ◌≡◌, refl, sym, ◌∙◌, ap, true, ◌&&◌, List, Option, none, some, ltb,
  leb, ◌==◌, ◌>>=◌, arith, length,
}
use jalepenos.Base.Int.{pos}
use jalepenos.BitMap.{BitMap}
use jalepenos.Disk.{num_sectors}
use jalepenos.FileHeader.{FileHeader}
use jalepenos.Directory.{DirectoryEntry, Directory}
use jalepenos.OpenFile.{OpenFile, Sectors, read_at, write_at, read_sector, write_sector}
use jalepenos.OpenFile.Bytes.{IsMapped, byte_of, Gives}
use jalepenos.OpenFile.Size.{file_small}
use jalepenos.OpenFile.Requests.{served, IsRead, read_at-IsRead}
use jalepenos.OpenFile.Stored.{IsStored, write_at-IsStored}
use jalepenos.OpenFile.Writes.{bind-Gives, map-Gives}
use jalepenos.FileSystem.Layout.{
  words_bytes, words_of, fetch_map, write_map, header_words, fetch_header, write_header,
  table_bytes, entries_of, fetch_directory, write_directory,
}
use jalepenos.FileSystem.Words.{words_of-bytes, header_of-bytes, AreInts, IsWhole}
use jalepenos.FileSystem.Entries.{entries_of-bytes, AreStorable}

all-Gives {ℓ} :
    {A : Type ℓ} (P : ℕ → A → Type 0) (n : ℕ) (o : Option A)
    → 0 < n
    → ((p : ℕ) → p < n → Gives (P p) o)
    → Gives (λ a. (p : ℕ) → p < n → P p a) o
all-Gives P n none some_p h = h 0 some_p
all-Gives P n (some a) some_p h = h

gives_some {ℓ κ} :
    {A : Type ℓ} {B : Type κ} (P : A → Type 0) (x : Option A) (f : A → B) (b : B)
    → Gives P x
    → ((a : A) → P a → f a ≡ b)
    → (x >>= λ a. some (f a)) ≡ some b
gives_some P none f b g h = absurd g
gives_some P (some a) f b g h = ap some (h a g)

-- The file starts with the first `n` of these bytes.
abbrev pub Starts : (ℕ → ℕ) → Sectors → (ℕ → ℕ) → ℕ → Type 0
Starts at d from n = (p : ℕ) → p < n → byte_of at d p ≡ from p

module _ (f : OpenFile) (at : ℕ → ℕ) (mapped : IsMapped f.hdr at) where
  pub write_at-Starts :
      (d : Sectors) (garbage from : ℕ → ℕ) (n : ℕ)
      → 0 < n
      → n ≤ f.hdr.num_bytes
      → Gives (λ (m, d1). Starts at d1 from n) (write_at f d garbage from n 0)
  write_at-Starts d garbage from n some_bytes fits =
      let all : served f.hdr.num_bytes n 0 ≡ n = ground arith in
      all-Gives (λ p (m, d1). byte_of at d1 p ≡ from p) n _ some_bytes
        (λ p lt.
          map-Gives (IsStored at d from (served f.hdr.num_bytes n 0) 0 p)
            (λ (m, d1). byte_of at d1 p ≡ from p) _
            (write_at-IsStored f at mapped d garbage from n 0 p
              (omega (arith, fits, file_small f.hdr at mapped)) (omega (arith, lt, fits)))
            (λ (m, d1) (count, byte).
              let inside : (leb 0 p && ltb p (0 + served f.hdr.num_bytes n 0)) ≡ true =
                ground arith in
              let same : p - 0 ≡ p = omega arith in byte ∙ rw (inside, same) refl))

  pub read_at-Starts :
      (d : Sectors) (garbage to from : ℕ → ℕ) (n : ℕ)
      → 0 < n
      → n ≤ f.hdr.num_bytes
      → Starts at d from n
      → Gives (λ (m, to1). (p : ℕ) → p < n → to1 p ≡ from p) (read_at f d garbage to 0 n 0)
  read_at-Starts d garbage to from n some_bytes fits starts =
      let all : served f.hdr.num_bytes n 0 ≡ n = ground arith in
      map-Gives (IsRead at d to 0 (served f.hdr.num_bytes n 0) 0)
        (λ (m, to1). (p : ℕ) → p < n → to1 p ≡ from p) _
        (read_at-IsRead f at mapped d garbage to 0 n 0
          (λ _. omega (arith, fits, file_small f.hdr at mapped)))
        (λ r i p lt.
          let inside : (leb 0 p && ltb p (0 + served f.hdr.num_bytes n 0)) ≡ true = ground arith in
          let same : 0 + (p - 0) ≡ p = omega arith in i.bytes p ∙ rw (inside, same) (starts p lt))

  -- The bitmap that the file starts with.
  pub fetch_map-Starts :
      (m : BitMap) (old : List ℕ) (d : Sectors) (garbage : ℕ → ℕ)
      → length m.map ≡ m.num_words
      → 0 < m.num_words
      → m.num_words * 4 ≤ f.hdr.num_bytes
      → AreInts m.map
      → Starts at d (words_bytes m.map) (m.num_words * 4)
      → fetch_map (record m { map = old }) f d garbage ≡ some m
  unfolding fetch_map
  fetch_map-Starts m old d garbage len some_words fits ints starts =
      gives_some (λ (n, to1). (p : ℕ) → p < m.num_words * 4 → to1 p ≡ words_bytes m.map p)
        (read_at f d garbage (words_bytes old) 0 (m.num_words * 4) 0)
        (λ (n, to1). record m { map = words_of m.num_words 0 to1 }) m
        (read_at-Starts d garbage (words_bytes old) (words_bytes m.map) (m.num_words * 4)
          (omega (arith, some_words)) fits starts)
        (λ (n, to1) same.
          let back : words_of m.num_words 0 to1 ≡ m.map =
            ap (λ k. words_of k 0 to1) (sym len)
            ∙ words_of-bytes m.map 0 to1 ints (λ q lt.
              let place : 4 * 0 + q ≡ q = omega arith in
              ap to1 place ∙ same q (omega (arith, lt, len))) in
          ap (λ ws. record m { map = ws }) back)

  -- The directory that the file starts with.
  pub fetch_directory-Starts :
      (dir : Directory) (old : List DirectoryEntry) (d : Sectors) (garbage : ℕ → ℕ)
      → length dir.table ≡ dir.table_size
      → 0 < dir.table_size
      → dir.table_size * 20 ≤ f.hdr.num_bytes
      → AreStorable dir.table
      → Starts at d (table_bytes dir.table) (dir.table_size * 20)
      → fetch_directory (record dir { table = old }) f d garbage ≡ some dir
  unfolding fetch_directory
  fetch_directory-Starts dir old d garbage len some_entries fits storable starts =
      gives_some (λ (n, to1). (p : ℕ) → p < dir.table_size * 20 → to1 p ≡ table_bytes dir.table p)
        (read_at f d garbage (table_bytes old) 0 (dir.table_size * 20) 0)
        (λ (n, to1). record dir { table = entries_of dir.table_size 0 to1 }) dir
        (read_at-Starts d garbage (table_bytes old) (table_bytes dir.table) (dir.table_size * 20)
          (omega (arith, some_entries)) fits starts)
        (λ (n, to1) same.
          let back : entries_of dir.table_size 0 to1 ≡ dir.table =
            ap (λ k. entries_of k 0 to1) (sym len)
            ∙ entries_of-bytes dir.table 0 to1 storable (λ q lt.
              let place : 20 * 0 + q ≡ q = omega arith in
              ap to1 place ∙ same q (omega (arith, lt, len))) in
          ap (λ t. record dir { table = t }) back)

  pub write_map-Starts :
      (m : BitMap) (d : Sectors) (garbage : ℕ → ℕ)
      → 0 < m.num_words
      → m.num_words * 4 ≤ f.hdr.num_bytes
      → Gives (λ d1. Starts at d1 (words_bytes m.map) (m.num_words * 4)) (write_map m f d garbage)
  unfolding write_map
  write_map-Starts m d garbage some_words fits =
      bind-Gives (λ (k, d1). Starts at d1 (words_bytes m.map) (m.num_words * 4))
        (λ d1. Starts at d1 (words_bytes m.map) (m.num_words * 4))
        (write_at f d garbage (words_bytes m.map) (m.num_words * 4) 0) (λ (k, d1). some d1)
        (write_at-Starts d garbage (words_bytes m.map) (m.num_words * 4) (omega (arith, some_words))
          fits)
        (λ (k, d1) starts. starts)

  pub write_directory-Starts :
      (dir : Directory) (d : Sectors) (garbage : ℕ → ℕ)
      → 0 < dir.table_size
      → dir.table_size * 20 ≤ f.hdr.num_bytes
      → Gives
          (λ d1. Starts at d1 (table_bytes dir.table) (dir.table_size * 20))
          (write_directory dir f d garbage)
  unfolding write_directory
  write_directory-Starts dir d garbage some_entries fits =
      bind-Gives (λ (k, d1). Starts at d1 (table_bytes dir.table) (dir.table_size * 20))
        (λ d1. Starts at d1 (table_bytes dir.table) (dir.table_size * 20))
        (write_at f d garbage (table_bytes dir.table) (dir.table_size * 20) 0) (λ (k, d1). some d1)
        (write_at-Starts d garbage (table_bytes dir.table) (dir.table_size * 20)
          (omega (arith, some_entries)) fits)
        (λ (k, d1) starts. starts)

  -- For a file whose sectors are on the disk, and a bitmap of at least one word whose words are
  -- ints and that the file has room for, WriteBack goes through, and FetchFrom after it, on a
  -- bitmap of that size, gives the same bitmap.
  pub fetch_map-write_map :
      (m : BitMap) (old : List ℕ) (d : Sectors) (garbage : ℕ → ℕ)
      → length m.map ≡ m.num_words
      → 0 < m.num_words
      → m.num_words * 4 ≤ f.hdr.num_bytes
      → AreInts m.map
      → Gives
          (λ d1. fetch_map (record m { map = old }) f d1 garbage ≡ some m)
          (write_map m f d garbage)
  fetch_map-write_map m old d garbage len some_words fits ints =
      map-Gives _ _ _ (write_map-Starts m d garbage some_words fits)
        (λ d1. fetch_map-Starts m old d1 garbage len some_words fits ints)

  -- For a file whose sectors are on the disk, and a table of at least one entry that the file
  -- has room for, whose names have nine characters at most, none of them NUL, and whose sectors
  -- are ints, WriteBack goes through, and FetchFrom after it, on a directory of that size, gives
  -- the same table.
  pub fetch_directory-write_directory :
      (dir : Directory) (old : List DirectoryEntry) (d : Sectors) (garbage : ℕ → ℕ)
      → length dir.table ≡ dir.table_size
      → 0 < dir.table_size
      → dir.table_size * 20 ≤ f.hdr.num_bytes
      → AreStorable dir.table
      → Gives
          (λ d1. fetch_directory (record dir { table = old }) f d1 garbage ≡ some dir)
          (write_directory dir f d garbage)
  fetch_directory-write_directory dir old d garbage len some_entries fits storable =
      map-Gives _ _ _ (write_directory-Starts dir d garbage some_entries fits)
        (λ d1. fetch_directory-Starts dir old d1 garbage len some_entries fits storable)

-- For a sector of the disk and a file header of thirty slots in which every number is an int,
-- WriteBack goes through, and FetchFrom of the sector after it gives the same header.
pub fetch_header-write_header :
    (h : FileHeader) (s : ℕ) (d : Sectors)
    → s < num_sectors
    → IsWhole h
    → Gives (λ d1. fetch_header (pos s) d1 ≡ some h) (write_header h (pos s) d)
unfolding fetch_header write_header read_sector write_sector
fetch_header-write_header h s d on_disk whole =
    let inside : ltb s num_sectors ≡ true = ground arith in
    let here : (s == s) ≡ true = ground arith in
    rw (inside, here) (header_of-bytes h (words_bytes (header_words h)) whole (λ q lt. refl))
