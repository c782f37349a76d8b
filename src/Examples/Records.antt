-- ===== src/Examples/Records.antt =====
-- Structures in the bytes of a file.
use jalepenos.Base.{ℕ, zero, suc, ◌≡◌, refl, arith, true, false, List, [], ◌∷◌, some}
use jalepenos.Base.Int.{ℤ, pos}
use jalepenos.BitMap.{BitMap}
use jalepenos.Directory.{DirectoryEntry, Directory}
use jalepenos.OpenFile.Bytes.{Gives}
use jalepenos.FileSystem.Layout.{fetch_map, write_map, fetch_directory, write_directory}
use jalepenos.FileSystem.Words.{to_int-Fits, AllFit}
use jalepenos.FileSystem.Stored.{fetch_map-write_map, fetch_directory-write_directory}
use jalepenos.Examples.Queues.{two_sectors, sector_of, two_sectors-IsMapped, blank}

abbrev some_map : BitMap
some_map = record { num_bits = 64; num_words = 2; map = 7 ∷ 4294967295 ∷ [] }

fetch_map-write_map_example :
    Gives
      (λ d1. fetch_map (record some_map { map = 5 ∷ [] }) two_sectors d1 (λ _. 99) ≡ some some_map)
      (write_map some_map two_sectors blank (λ _. 99))
fetch_map-write_map_example =
    fetch_map-write_map two_sectors sector_of two_sectors-IsMapped some_map (5 ∷ []) blank (λ _. 99)
      refl (omega arith) (omega arith) (omega arith, (omega arith, tt))

abbrev named : DirectoryEntry
named = record { in_use = true; sector = pos 12; name = 97 ∷ 98 ∷ [] }

abbrev unnamed : DirectoryEntry
unnamed = record { in_use = false; sector = pos 0; name = [] }

abbrev names : Directory
names = record { table_size = 2; table = named ∷ unnamed ∷ [] }

fetch_directory-write_directory_example :
    Gives
      (λ d1. fetch_directory (record names { table = [] }) two_sectors d1 (λ _. 99) ≡ some names)
      (write_directory names two_sectors blank (λ _. 99))
fetch_directory-write_directory_example =
    fetch_directory-write_directory two_sectors sector_of two_sectors-IsMapped names [] blank
      (λ _. 99) refl (omega arith) (omega arith)
      (
        record {
          sector = to_int-Fits 12 (omega arith);
          short = omega arith;
          no_nul = (omega arith, (omega arith, tt));
        },
        (record { sector = to_int-Fits 0 (omega arith); short = omega arith; no_nul = tt }, tt),
      )

abbrev pub unused : ℕ → List ℤ
unused zero = []
unused (suc n) = pos 0 ∷ unused n

pub unused-AllFit : (n : ℕ) → AllFit (unused n)
unused-AllFit zero = tt
unused-AllFit (suc n) = (to_int-Fits 0 (omega arith), unused-AllFit n)
