-- ===== src/FileSystem/Fetch.antt =====
-- The fetches that start every operation.
use jalepenos.Base.{
  ℕ, zero, suc, ◌+◌, ◌≤◌, ◌<◌, ◌≡◌, refl, sym, ◌∙◌, ap, false, List, some, arith, length, set,
  length-set, get_elem?-some,
}
use jalepenos.BitMap
use jalepenos.BitMap.{BitMap, clear_loop, div_round_up}
use jalepenos.BitMap.Bit.{cleared, clear-cleared}
use jalepenos.Directory
use jalepenos.Directory.{DirectoryEntry, Directory, init_loop}
use jalepenos.OpenFile.{Sectors}
use jalepenos.FileSystem.{Garbage, FileSystem, current_directory, current_map}
use jalepenos.FileSystem.Layout.{fetch_map, fetch_directory}
use jalepenos.FileSystem.Stored.{fetch_map-Starts, fetch_directory-Starts}
use jalepenos.FileSystem.Flush.{Files, Holds}
use jalepenos.FileSystem.Kept.{IsDiskMap, IsDiskTable}

init_loop_lem :
    (n i : ℕ) (d : Directory)
    → i + n ≤ length d.table
    → (t : List DirectoryEntry) × (init_loop n i d ≡ some (record d { table = t }))
unfolding init_loop
init_loop_lem zero i d room = (d.table, refl)
init_loop_lem (suc n) i d room =
    let (e, at) = get_elem?-some d.table i (omega arith) in
    let e1 : DirectoryEntry = record e { in_use = false } in
    let (t, ran) =
      init_loop_lem n (suc i) (record d { table = set d.table i e1 })
        (omega (arith, room, length-set d.table i e1)) in
    (t, rw at ran)

clear_loop_lem :
    (n i : ℕ) (b : BitMap)
    → i + n ≤ b.num_bits
    → (ws : List ℕ) × (clear_loop n i b ≡ some (record b { map = ws }))
unfolding clear_loop
clear_loop_lem zero i b room = (b.map, refl)
clear_loop_lem (suc n) i b room =
    let h : i < b.num_bits = omega arith in
    let (ws, ran) = clear_loop_lem n (suc i) (cleared b i) (omega arith) in
    (ws, rw (clear-cleared b i h) ran)

module _ (g : Garbage) (fs : FileSystem) (at_map at_dir : ℕ → ℕ) (files : Files fs at_map at_dir)
    (dir : Directory) (m : BitMap) (table : IsDiskTable dir) (map : IsDiskMap m) (d : Sectors)
    (holds : Holds fs at_map at_dir dir m d) where
  pub current_directory-Holds : 10 ≤ length g.table → current_directory g fs d ≡ some dir
  unfolding current_directory Directory.init
  current_directory-Holds room =
      let (t, ran) =
        init_loop_lem 10 0 (record { table_size = 10; table = g.table }) (omega (arith, room)) in
      rw ran (
        ap
          (λ (n : ℕ).
            fetch_directory (record { table_size = n; table = t }) fs.directory_file d g.buffer)
          (sym table.entries)
        ∙ fetch_directory-Starts fs.directory_file at_dir files.dir_file dir t d g.buffer
            (table.sized ∙ sym table.entries) (omega (arith, table.entries))
            (omega (arith, table.entries, files.dir_room)) table.storable
            (λ p lt. holds.names p (omega (arith, lt, table.entries))))

  pub current_map-Holds : current_map g fs d ≡ some m
  unfolding current_map BitMap.init div_round_up
  current_map-Holds =
      let (ws, ran) =
        clear_loop_lem 1024 0 (record { num_bits = 1024; num_words = 32; map = g.words })
          (omega arith) in
      rw ran (
        ap
          (λ ((n, k) : ℕ × ℕ).
            fetch_map (record { num_bits = n; num_words = k; map = ws }) fs.free_map_file d
              g.buffer)
          (ap (λ (n : ℕ). (n, 32)) (sym map.bits) ∙ ap (λ (k : ℕ). (m.num_bits, k)) (sym map.words))
        ∙ fetch_map-Starts fs.free_map_file at_map files.map_file m ws d g.buffer
            (map.whole ∙ sym map.words) (omega (arith, map.words))
            (omega (arith, map.words, files.map_room)) map.ints
            (λ p lt. holds.bits p (omega (arith, lt, map.words))))
