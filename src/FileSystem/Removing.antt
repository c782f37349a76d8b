-- ===== src/FileSystem/Removing.antt =====
-- What Clear, Deallocate and Remove leave can be stored, and the two writes that end Remove.
use jalepenos.Base.{
  ℕ, zero, suc, ◌-◌, ◌*◌, ◌/◌, ◌%◌, ◌^◌, ◌<◌, ◌≡◌, refl, sym, ◌∙◌, true, false, List, [], ◌∷◌,
  Option, none, some, ltb, ◌>>=◌, arith, inl, inr, Bool-cases, length-set, get_elem?, bit_and,
}
use jalepenos.Base.Bits.{bit_and-lt}
use jalepenos.Base.Int.{ℤ, pos, negsuc}
use jalepenos.BitMap.{BitMap, word_at, test, clear}
use jalepenos.FileHeader.{FileHeader, deallocate_loop, deallocate}
use jalepenos.Directory
use jalepenos.Directory.{DirectoryEntry, Directory, put_entry, find_index}
use jalepenos.OpenFile.{Sectors}
use jalepenos.OpenFile.Bytes.{Gives}
use jalepenos.OpenFile.Writes.{bind-Gives, map-Gives}
use jalepenos.OpenFile.Elsewhere.{Whenever, bind-Whenever, any-Whenever, IsApart}
use jalepenos.FileSystem.{Garbage, FileSystem}
use jalepenos.FileSystem.Layout.{words_bytes, table_bytes, write_map, write_directory}
use jalepenos.FileSystem.Entries.{AreStorable, IsStorable}
use jalepenos.FileSystem.Stored.{Starts, write_map-Starts, write_directory-Starts}
use jalepenos.FileSystem.Flush.{Keeps, Files, Holds, gives_both, write_directory-Keeps}
use jalepenos.FileSystem.Kept.{IsDiskMap, IsDiskTable, set-AreInts, get_or-AreInts, set-AreStorable}

pub clear-kept : (m : BitMap) (z : ℤ) → IsDiskMap m → Whenever IsDiskMap (clear m z)
unfolding clear
clear-kept m (negsuc n) o = tt
clear-kept m (pos i) o = elim (Bool-cases (ltb i m.num_bits)) [
  | inl inside ↦
      let w = bit_and (word_at m i) (2 ^ 32 - 1 - 2 ^ (i % 32)) in
      rw inside record {
        bits = o.bits;
        words = o.words;
        whole = length-set m.map (i / 32) w ∙ o.whole;
        ints =
            set-AreInts m.map (i / 32) w
              (bit_and-lt 32 (word_at m i) (2 ^ 32 - 1 - 2 ^ (i % 32))
                (get_or-AreInts m.map (i / 32) o.ints))
              o.ints;
      }
  | inr outside ↦ rw outside tt
]

deallocate_loop-kept :
    (n i : ℕ) (h : FileHeader) (m : BitMap)
    → IsDiskMap m
    → Whenever IsDiskMap (deallocate_loop n i h m)
unfolding deallocate_loop
deallocate_loop-kept zero i h m o = o
deallocate_loop-kept (suc n) i h m o = any-Whenever IsDiskMap (get_elem? h.data_sectors i) _ (λ z.
    any-Whenever IsDiskMap (test m z) _ (λ marked. elim (Bool-cases marked) [
      | inl yes_set ↦ rw yes_set (
          bind-Whenever IsDiskMap IsDiskMap (clear m z) (λ m1. deallocate_loop n (suc i) h m1)
            (clear-kept m z o) (λ m1 o1. deallocate_loop-kept n (suc i) h m1 o1))
      | inr no_set ↦ rw no_set tt
    ]))

pub deallocate-kept :
    (h : FileHeader) (m : BitMap) → IsDiskMap m → Whenever IsDiskMap (deallocate h m)
unfolding deallocate
deallocate-kept h m o = deallocate_loop-kept h.num_sectors 0 h m o

-- The entry that is no longer in use can still be stored.
freed-IsStorable :
    (t : List DirectoryEntry) (i : ℕ) (e : DirectoryEntry)
    → get_elem? t i ≡ some e
    → AreStorable t
    → IsStorable (record e { in_use = false })
freed-IsStorable [] i e at a = absurd cc
freed-IsStorable (x ∷ t) zero e at (here, a) =
    let same : x ≡ e = cc in
    record {
      sector = rw (sym same) here.sector;
      short = rw (sym same) here.short;
      no_nul = rw (sym same) here.no_nul;
    }
freed-IsStorable (x ∷ t) (suc i) e at (here, a) = freed-IsStorable t i e at a

remove_at-kept :
    (d : Directory) (i : ℤ)
    → IsDiskTable d
    → Whenever (λ (b, d1). IsDiskTable d1) (Directory.remove_at d i)
unfolding Directory.remove_at
remove_at-kept d (pos i) o = entry (get_elem? d.table i) refl
  where
    entry :
        (e : Option DirectoryEntry)
        → get_elem? d.table i ≡ e
        → Whenever
            (λ (b, d1). IsDiskTable d1)
            (e >>= λ e. some (true, put_entry d i (record e { in_use = false })))
    entry none at = tt
    entry (some e) at = record {
      entries = o.entries;
      sized = length-set d.table i (record e { in_use = false }) ∙ o.sized;
      storable =
          set-AreStorable d.table i (record e { in_use = false })
            (freed-IsStorable d.table i e at o.storable) o.storable;
    }
remove_at-kept d (negsuc zero) o = o
remove_at-kept d (negsuc (suc n)) o = tt

pub remove-kept :
    (d : Directory) (name : List ℕ)
    → IsDiskTable d
    → Whenever (λ (b, d1). IsDiskTable d1) (Directory.remove d name)
unfolding Directory.remove
remove-kept d name o =
    any-Whenever (λ (b, d1). IsDiskTable d1) (find_index d name) (Directory.remove_at d)
      (λ i. remove_at-kept d i o)

module _ (g : Garbage) (fs : FileSystem) (at_map at_dir : ℕ → ℕ) (files : Files fs at_map at_dir)
    (dir : Directory) (m : BitMap) (table : IsDiskTable dir) (map : IsDiskMap m) where
  -- The sectors of the bitmap are none of the directory's.
  map-IsApart :
      (j : ℕ) → j * 128 < fs.free_map_file.hdr.num_bytes → IsApart fs.directory_file.hdr (at_map j)
  map-IsApart j short i lt e =
      let same : some (pos (at_dir i)) ≡ some (pos (at_map j)) =
        sym (files.dir_file.stored i lt) ∙ e in
      let at : at_dir i ≡ at_map j = cc in
      files.apart i lt j short (files.map_file.stored j short ∙ rw at refl)

  pub write_both-Holds :
      (d : Sectors)
      → Gives (Holds fs at_map at_dir dir m) (
          write_map m fs.free_map_file d g.buffer >>= λ d1.
          write_directory dir fs.directory_file d1 g.buffer)
  write_both-Holds d =
      let map_size : m.num_words * 4 ≡ 128 = omega (arith, map.words) in
      let dir_size : dir.table_size * 20 ≡ 200 = omega (arith, table.entries) in
      bind-Gives (λ d1. Starts at_map d1 (words_bytes m.map) (m.num_words * 4))
        (Holds fs at_map at_dir dir m) (write_map m fs.free_map_file d g.buffer)
        (λ d1. write_directory dir fs.directory_file d1 g.buffer)
        (write_map-Starts fs.free_map_file at_map files.map_file m d g.buffer
          (omega (arith, map.words)) (omega (arith, map.words, files.map_room)))
        (λ d1 bits.
          map-Gives _ (Holds fs at_map at_dir dir m) _
            (gives_both (λ d2. Starts at_dir d2 (table_bytes dir.table) (dir.table_size * 20))
              (Keeps (IsApart fs.directory_file.hdr) d1) _
              (write_directory-Starts fs.directory_file at_dir files.dir_file dir d1 g.buffer
                (omega (arith, table.entries)) (omega (arith, table.entries, files.dir_room)))
              (write_directory-Keeps dir fs.directory_file d1 g.buffer))
            (λ d2 (names, keeps). record {
              names = λ p lt. names p (omega (arith, lt, dir_size));
              bits = λ p lt.
                  keeps (at_map (p / 128))
                    (map-IsApart (p / 128) (omega (arith, lt, files.map_room))) (p % 128)
                  ∙ bits p (omega (arith, lt, map_size));
            }))
