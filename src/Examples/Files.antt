-- ===== src/Examples/Files.antt =====
-- File headers on concrete inputs.
use jalepenos.Base.{
  ℕ, zero, suc, ◌+◌, ◌/◌, ◌%◌, ◌≡◌, ◌∙◌, sym, refl, Bool, true, false, List, [], ◌∷◌, some, arith,
  replicate,
}
use jalepenos.Base.Int.{pos}
use jalepenos.BitMap.{BitMap, test, mark, find, find_loop, num_clear, num_clear_loop, div_round_up}
use jalepenos.BitMap.Bit.{IsValid}
use jalepenos.FileHeader.{FileHeader, allocate, allocate_loop, store_sector, deallocate}
use jalepenos.FileHeader.Allocation.{Allocation, allocate-Allocation, deallocate-allocate}
use jalepenos.Disk.{Disk, Stats, sectors_per_track, rotation_time, compute_latency}
use jalepenos.Disk.Latency.{compute_latency-position}
use jalepenos.Directory
use jalepenos.Directory.{Directory, add, remove}
use jalepenos.Directory.Search.{matches_at, test_entry}
use jalepenos.Directory.Names.{Addition, add-Addition}
use jalepenos.Directory.Removal.{Removal, remove-Removal}

abbrev blank : FileHeader
blank = record { num_bytes = 0; num_sectors = 0; data_sectors = replicate 30 (pos 0) }

-- Forty sectors, of which sectors 0, 2 and 32 are used.
abbrev sectors : BitMap
sectors = record { num_bits = 40; num_words = 2; map = 5 ∷ 1 ∷ [] }

sectors-IsValid : IsValid sectors
sectors-IsValid = record { sized = refl; covers = omega arith }

abbrev filled : FileHeader
filled = record {
  num_bytes = 200;
  num_sectors = 2;
  data_sectors = pos 1 ∷ pos 3 ∷ replicate 28 (pos 0);
}

abbrev fewer : BitMap
fewer = record { num_bits = 40; num_words = 2; map = 15 ∷ 1 ∷ [] }

sectors-allocate : allocate blank sectors 200 ≡ some (true, filled, fewer)
unfolding allocate allocate_loop store_sector div_round_up find find_loop test mark num_clear
    num_clear_loop
sectors-allocate = refl

allocate-Allocation_example :
    (r : Bool × FileHeader × BitMap) × (allocate blank sectors 200 ≡ some r)
    × Allocation blank sectors 200 r
allocate-Allocation_example =
    allocate-Allocation blank sectors 200 sectors-IsValid refl (omega arith)

deallocate-allocate_example :
    (b'' : BitMap) × (deallocate filled fewer ≡ some b'')
    × IsValid b''
    × ((j : ℕ) → test b'' (pos j) ≡ test sectors (pos j))
deallocate-allocate_example =
    deallocate-allocate blank filled sectors fewer 200 sectors-IsValid refl (omega arith)
      sectors-allocate

abbrev stats : Stats
stats = record { total_ticks = 1234; num_disk_reads = 0; num_disk_writes = 0 }

-- A disk that is idle, with the head on the second track.
abbrev idle_disk : Disk
idle_disk = record { active = false; last_sector = 40; buffer_init = 500; contents = λ _. [] }

compute_latency-position_example :
    let finish = 1234 + compute_latency idle_disk stats 100 true in
    (finish % rotation_time ≡ 0)
    × (finish / rotation_time % sectors_per_track ≡ (100 + 1) % sectors_per_track)
unfolding compute_latency
compute_latency-position_example = compute_latency-position idle_disk stats 100 (omega arith)

-- One file, in the second of three entries.
abbrev one_file : Directory
one_file = record {
  table_size = 3;
  table =
      record { in_use = false; sector = pos 9; name = [] }
      ∷ record { in_use = true; sector = pos 5; name = 102 ∷ 111 ∷ [] }
      ∷ record { in_use = false; sector = pos 9; name = [] }
      ∷ [];
}

only_second : (name : List ℕ) (i : ℕ) → matches_at one_file.table name i ≡ true → i ≡ 1
unfolding test_entry
only_second name zero h = absurd cc
only_second name (suc zero) h = refl
only_second name (suc (suc zero)) h = absurd cc
only_second name (suc (suc (suc i))) h = absurd cc

one_file-IsValid : Directory.Names.IsValid one_file
one_file-IsValid = record {
  sized = refl;
  unique = λ name i j hi hj. only_second name i hi ∙ sym (only_second name j hj);
}

add-Addition_example :
    (r : Bool × Directory) × (add one_file (97 ∷ []) (pos 6) ≡ some r)
    × Addition one_file (97 ∷ []) (pos 6) r
add-Addition_example = add-Addition one_file (97 ∷ []) (pos 6) one_file-IsValid

remove-Removal_example :
    (r : Bool × Directory) × (remove one_file (102 ∷ 111 ∷ []) ≡ some r)
    × Removal one_file (102 ∷ 111 ∷ []) r
remove-Removal_example = remove-Removal one_file (102 ∷ 111 ∷ []) one_file-IsValid
