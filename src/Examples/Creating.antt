-- ===== src/Examples/Creating.antt =====
-- A disk with an empty directory.
use jalepenos.Base.{
  ℕ, zero, suc, ◌+◌, ◌-◌, ◌*◌, ◌/◌, ◌%◌, ◌<◌, ◌≡◌, refl, sym, ◌∙◌, ap, arith, Bool, true, false,
  List, [], ◌∷◌, some, ◌==◌, if◌then◌else◌, get_elem?,
}
use mathlib.Core.Option.{some-injective}
use jalepenos.Base.Int.{pos, negsuc}
use jalepenos.BitMap.{BitMap, test, div_round_up}
use jalepenos.BitMap.Bit.{is_set, test-is_set}
use jalepenos.Directory
use jalepenos.Directory.{
  DirectoryEntry, Directory, file_name_max_len, same_name, find_index, find_index_loop, sector_at,
}
use jalepenos.Directory.Search.{test_entry, matches_at}
use jalepenos.OpenFile.{Sectors}
use jalepenos.FileSystem
use jalepenos.FileSystem.{Garbage, FileSystem, is_known, create}
use jalepenos.FileSystem.Undone.{remove-create}
use jalepenos.FileSystem.Layout.{words_bytes, table_bytes}
use jalepenos.FileSystem.Words.{AreInts, to_int-Fits}
use jalepenos.FileSystem.Entries.{AreStorable}
use jalepenos.FileSystem.Mounted.{IsMounted}
use jalepenos.FileSystem.Creation.{
  Creation, exists, no_sector, listed, no_entry, no_space, made, create-Creation,
}
use jalepenos.Examples.Records.{unused, unused-AllFit}

abbrev unnamed : DirectoryEntry
unnamed = record { in_use = false; sector = pos 0; name = [] }

abbrev empties : ℕ → List DirectoryEntry
empties zero = []
empties (suc n) = unnamed ∷ empties n

empties-AreStorable : (n : ℕ) → AreStorable (empties n)
empties-AreStorable zero = tt
empties-AreStorable (suc n) = (
  record { sector = to_int-Fits 0 (omega arith); short = omega arith; no_nul = tt },
  empties-AreStorable n,
)

empties_match : (n i : ℕ) (name : List ℕ) → matches_at (empties n) name i ≡ false
unfolding test_entry
empties_match zero i name = refl
empties_match (suc n) zero name = refl
empties_match (suc n) (suc i) name = empties_match n i name

abbrev empty : Directory
empty = record { table_size = 10; table = empties 10 }

abbrev zero_words : ℕ → List ℕ
zero_words zero = []
zero_words (suc n) = 0 ∷ zero_words n

zero_words-AreInts : (n : ℕ) → AreInts (zero_words n)
zero_words-AreInts zero = tt
zero_words-AreInts (suc n) = (omega arith, zero_words-AreInts n)

-- The sectors 0 to 4 are marked.
abbrev first_map : BitMap
first_map = record { num_bits = 1024; num_words = 32; map = 31 ∷ zero_words 31 }

marked_at : (j : ℕ) → j < 1024 → test first_map (pos j) ≡ some true → is_set first_map j ≡ true
marked_at j lt e = some-injective _ _ (sym (test-is_set first_map j lt) ∙ e)

abbrev system : FileSystem
system = record {
  free_map_file = record {
    hdr = record { num_bytes = 128; num_sectors = 1; data_sectors = pos 2 ∷ [] };
    seek_position = 0;
  };
  directory_file = record {
    hdr = record { num_bytes = 200; num_sectors = 2; data_sectors = pos 3 ∷ pos 4 ∷ [] };
    seek_position = 0;
  };
}

abbrev map_at : ℕ → ℕ
map_at i = i + 2

abbrev dir_at : ℕ → ℕ
dir_at i = i + 3

abbrev formatted : Sectors
formatted s o =
    if s == 2 then words_bytes first_map.map o else table_bytes empty.table ((s - 3) * 128 + o)

map_stored :
    (i : ℕ)
    → i * 128 < 128
    → get_elem? system.free_map_file.hdr.data_sectors i ≡ some (pos (map_at i))
map_stored zero lt = refl
map_stored (suc i) lt = absurd (omega arith)

dir_stored :
    (i : ℕ)
    → i * 128 < 200
    → get_elem? system.directory_file.hdr.data_sectors i ≡ some (pos (dir_at i))
dir_stored zero lt = refl
dir_stored (suc zero) lt = refl
dir_stored (suc (suc i)) lt = absurd (omega arith)

files_apart :
    (i j : ℕ)
    → i * 128 < 200
    → j * 128 < 128
    → get_elem? system.free_map_file.hdr.data_sectors j ≡ some (pos (dir_at i))
    → ⊥
files_apart i j lt short e =
    let same : some (pos (map_at j)) ≡ some (pos (dir_at i)) = sym (map_stored j short) ∙ e in
    let at : map_at j ≡ dir_at i = cc in omega (arith, at, short)

map_marked : (i : ℕ) → i * 128 < 128 → is_set first_map (map_at i) ≡ true
unfolding test
map_marked zero lt = marked_at 2 (omega arith) refl
map_marked (suc i) lt = absurd (omega arith)

dir_marked : (i : ℕ) → i * 128 < 200 → is_set first_map (dir_at i) ≡ true
unfolding test
dir_marked zero lt = marked_at 3 (omega arith) refl
dir_marked (suc zero) lt = marked_at 4 (omega arith) refl
dir_marked (suc (suc i)) lt = absurd (omega arith)

formatted-IsMounted : IsMounted system map_at dir_at empty first_map formatted
formatted-IsMounted = record {
  files = record {
    map_file = record {
      stored = map_stored;
      on_disk = λ i lt. omega arith;
      apart = λ i j hi hj same. omega arith;
    };
    dir_file = record {
      stored = dir_stored;
      on_disk = λ i lt. omega arith;
      apart = λ i j hi hj same. omega arith;
    };
    map_room = omega arith;
    dir_room = omega arith;
    apart = λ i lt j short e. files_apart i j lt short e;
  };
  table = record { entries = refl; sized = refl; storable = empties-AreStorable 10 };
  map = record {
    bits = refl;
    words = refl;
    whole = refl;
    ints = (omega arith, zero_words-AreInts 31);
  };
  names = record {
    sized = refl;
    unique = λ name i j hi hj. ground (arith, empties_match 10 i name);
  };
  holds = record {
    names = λ p lt.
        let other : (p / 128 + 3 == 2) ≡ false = ground arith in
        let place : (p / 128 + 3 - 3) * 128 + p % 128 ≡ p = omega arith in rw (other, place) refl;
    bits = λ p lt.
        let first : p / 128 ≡ 0 = omega arith in
        let same : p % 128 ≡ p = omega arith in rw (first, same) refl;
  };
  map_taken = map_marked;
  dir_taken = dir_marked;
}

abbrev garbage : Garbage
garbage = record {
  table = empties 10;
  words = [];
  header = record { num_bytes = 7; num_sectors = 7; data_sectors = unused 30 };
  buffer = λ _. 99;
}

abbrev name : List ℕ
name = 102 ∷ 103 ∷ []

not_there : Directory.find empty name ≡ some (negsuc 0)
unfolding Directory.find find_index find_index_loop sector_at
not_there = refl

no_index : find_index empty name ≡ some (negsuc 0)
unfolding find_index find_index_loop
no_index = refl

clear_left : test first_map (pos 5) ≡ some false
unfolding test
clear_left = refl

succeeds :
    {r : Bool × Sectors}
    → Creation garbage system map_at dir_at empty first_map formatted name 0 r
    → r.0 ≡ true
unfolding test_entry is_known div_round_up
succeeds (exists z there old) =
    let same : negsuc 0 ≡ z = some-injective _ _ (sym not_there ∙ there) in
    let unknown : is_known z ≡ false = ap is_known (sym same) in absurd cc
succeeds (no_sector all) =
    let used : is_set first_map 5 ≡ true = all 5 (omega arith) in
    let free : is_set first_map 5 ≡ false =
      some-injective _ _ (sym (test-is_set first_map 5 (omega arith)) ∙ clear_left) in
    absurd cc
succeeds (listed i e) = let none_there = no_index in absurd cc
succeeds (no_entry all) = sym (all 0 (omega arith))
succeeds (no_space s free short) = absurd (omega (arith, short))
succeeds (made _ _ _ _ _ _ _ _ _ _ _ _ _ _ _ _ _) = refl

created : (d1 : Sectors) × (create garbage system name 0 formatted ≡ some (true, d1))
created =
    let (r, ran, c) =
      create-Creation garbage system map_at dir_at empty first_map formatted name 0
        formatted-IsMounted (omega arith) (record { slots = refl; fit = unused-AllFit 30 })
        (omega arith) (omega arith, (omega arith, tt)) in
    let is_true = succeeds c in (r.1, ran ∙ ap (λ (b : Bool). some (b, r.1)) is_true)

remove-create_example :
    (d2 : Sectors) × (dir2 : Directory) × (m2 : BitMap) × (FileSystem.remove garbage system name
        created.0
      ≡ some (true, d2))
    × IsMounted system map_at dir_at dir2 m2 d2
    × ((j : ℕ) → is_set m2 j ≡ is_set first_map j)
    × ((other : List ℕ)
        → Directory.find dir2 other ≡ (
            if same_name file_name_max_len name other
            then some (negsuc 0)
            else Directory.find empty other))
remove-create_example =
    remove-create garbage system map_at dir_at empty first_map formatted name 0 formatted-IsMounted
      (omega arith) created.0 (record { slots = refl; fit = unused-AllFit 30 }) (omega arith)
      (omega arith, (omega arith, tt)) created.1
