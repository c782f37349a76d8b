-- ===== src/FileSystem/Creation.antt =====
-- What Create returns, and the disk that it leaves.
use jalepenos.Base.{
  ℕ, ◌≤◌, ◌<◌, ◌≡◌, refl, ◌∙◌, subst, Bool, true, false, List, Option, some, if◌then◌else◌, arith,
  inl, inr, Bool-cases, length,
}
use jalepenos.Base.Int.{ℤ, pos}
use jalepenos.BitMap.{BitMap, div_round_up}
use jalepenos.BitMap.Bit.{is_set, marked, marked-IsValid, is_set-marked}
use jalepenos.BitMap.Search.{Found, hit, full, find-Found, free_bits}
use jalepenos.FileHeader.{FileHeader, sector_size, max_file_size, allocate}
use jalepenos.FileHeader.Sectors.{Stores, Takes}
use jalepenos.FileHeader.Allocation.{
  Allocation, refused, granted, allocate-Allocation, sectors_bound,
}
use jalepenos.Directory
use jalepenos.Directory.{Directory, file_name_max_len, same_name, find_index, sector_at}
use jalepenos.Directory.Search.{free_at}
use jalepenos.Directory.Names
use jalepenos.Directory.Names.{Addition, known, no_room, entered, add-Addition, found, find-at}
use jalepenos.OpenFile.{Sectors, open_file}
use jalepenos.OpenFile.Elsewhere.{Whenever}
use jalepenos.FileSystem.{
  Garbage, FileSystem, is_known, flush_new, create_data, create_entry, create, open_name, open_at,
}
use jalepenos.FileSystem.Layout.{fetch_header}
use jalepenos.FileSystem.Words.{IsWhole, to_int-Fits}
use jalepenos.FileSystem.Entries.{HasNoNul}
use jalepenos.FileSystem.Flush.{Holds, flush_new-Flushed}
use jalepenos.FileSystem.Fetch.{current_directory-Holds, current_map-Holds}
use jalepenos.FileSystem.Kept.{
  IsDiskMap, IsDiskTable, HasInts, marked-IsDiskMap, allocate-kept, add-kept,
}
use jalepenos.FileSystem.Mounted.{
  IsMounted, from_gives, clear-IsApart, DiskMap-IsValid, same_name_refl, find-some,
}

-- Why Create returns FALSE, and then the disk is as it was; or that it returns TRUE: then the disk is that
-- of a file system again, in which the sectors of the new file, its header's and `xs`, are marked, and
-- which opens the new file by its name and finds the others where they were.
pub data Creation (g : Garbage) (fs : FileSystem) (at_map at_dir : ℕ → ℕ) (dir : Directory)
    (m : BitMap) (d : Sectors) (name : List ℕ) (size : ℕ) : Bool × Sectors → Type 0 where
  exists :
      (z : ℤ)
      → Directory.find dir name ≡ some z
      → is_known z ≡ true
      → Creation g fs at_map at_dir dir m d name size (false, d)
  no_sector :
      ((j : ℕ) → j < 1024 → is_set m j ≡ true)
      → Creation g fs at_map at_dir dir m d name size (false, d)
  listed :
      (i : ℕ)
      → find_index dir name ≡ some (pos i)
      → Creation g fs at_map at_dir dir m d name size (false, d)
  no_entry :
      ((j : ℕ) → j < 10 → free_at dir.table j ≡ false)
      → Creation g fs at_map at_dir dir m d name size (false, d)
  no_space :
      (s : ℕ)
      → is_set m s ≡ false
      → free_bits (marked m s) < div_round_up size sector_size
      → Creation g fs at_map at_dir dir m d name size (false, d)
  made :
      (dir1 : Directory) (m1 : BitMap) (hdr : FileHeader) (s : ℕ) (xs : List ℕ) (d1 : Sectors)
      → IsMounted fs at_map at_dir dir1 m1 d1
      → s < 1024
      → is_set m s ≡ false
      → Takes (marked m s) xs m1
      → Stores hdr.data_sectors 0 xs
      → length xs ≡ div_round_up size sector_size
      → hdr.num_bytes ≡ size
      → hdr.num_sectors ≡ length xs
      → ((other : List ℕ)
          → Directory.find dir1 other ≡ (
              if same_name file_name_max_len name other
              then some (pos s)
              else Directory.find dir other))
      → fetch_header (pos s) d1 ≡ some hdr
      → open_name g fs name d1 ≡ some (some (open_file hdr))
      → Creation g fs at_map at_dir dir m d name size (true, d1)

module _ (g : Garbage) (fs : FileSystem) (at_map at_dir : ℕ → ℕ) (dir : Directory) (m : BitMap)
    (d : Sectors) (name : List ℕ) (size : ℕ) (mounted : IsMounted fs at_map at_dir dir m d)
    (entries : 10 ≤ length g.table) (slots : HasInts g.header) (small : size ≤ max_file_size)
    (no_nul : HasNoNul name) where
  -- The code gives a result, which is as described.
  abbrev Ends : Option (Bool × Sectors) → Type 0
  Ends o = (r : Bool × Sectors) × (o ≡ some r) × Creation g fs at_map at_dir dir m d name size r

  opened :
      (dir1 : Directory) (m1 : BitMap) (hdr : FileHeader) (s : ℕ) (d1 : Sectors)
      → IsMounted fs at_map at_dir dir1 m1 d1
      → Directory.find dir1 name ≡ some (pos s)
      → fetch_header (pos s) d1 ≡ some hdr
      → open_name g fs name d1 ≡ some (some (open_file hdr))
  unfolding open_name open_at
  opened dir1 m1 hdr s d1 mo there header =
      rw
        (
          current_directory-Holds g fs at_map at_dir mo.files dir1 m1 mo.table mo.map d1 mo.holds
              entries,
          there,
          header,
        )
        refl

  -- The disk that the flush leaves.
  module _ (dir1 : Directory) (m1 : BitMap) (hdr : FileHeader) (s : ℕ) (xs : List ℕ)
      (on_disk : s < 1024) (free : is_set m s ≡ false) (takes : Takes (marked m s) xs m1)
      (table1 : IsDiskTable dir1) (map1 : IsDiskMap m1) (names1 : Names.IsValid dir1) where
    still_set : (j : ℕ) → is_set m j ≡ true → is_set m1 j ≡ true
    still_set j used = ground (
      arith,
      takes.are_set j,
      is_set-marked m s (DiskMap-IsValid m mounted.map) j
          (omega (arith, on_disk, mounted.map.bits)),
    )

    IsMounted-again :
        (d1 : Sectors) → Holds fs at_map at_dir dir1 m1 d1 → IsMounted fs at_map at_dir dir1 m1 d1
    IsMounted-again d1 holds = record {
      files = mounted.files;
      table = table1;
      map = map1;
      names = names1;
      holds = holds;
      map_taken = λ i lt. still_set (at_map i) (mounted.map_taken i lt);
      dir_taken = λ i lt. still_set (at_dir i) (mounted.dir_taken i lt);
    }

    flushed :
        IsWhole hdr
        → (d1 : Sectors) × (flush_new g fs hdr (pos s) dir1 m1 d ≡ some d1)
          × (Holds fs at_map at_dir dir1 m1 d1 × (fetch_header (pos s) d1 ≡ some hdr))
    flushed whole = from_gives _ (flush_new g fs hdr (pos s) dir1 m1 d) (
        flush_new-Flushed g fs at_map at_dir mounted.files dir1 m1 table1.entries map1.words hdr s d
          on_disk whole
          (clear-IsApart fs.free_map_file.hdr at_map m s mounted.files.map_file mounted.map_taken
            free)
          (clear-IsApart fs.directory_file.hdr at_dir m s mounted.files.dir_file mounted.dir_taken
            free))

  module _ (dir1 : Directory) (s : ℕ) (on_disk : s < 1024) (free : is_set m s ≡ false)
      (table1 : IsDiskTable dir1) (names1 : Names.IsValid dir1)
      (finds : (other : List ℕ)
        → Directory.find dir1 other ≡ (
            if same_name file_name_max_len name other
            then some (pos s)
            else Directory.find dir other)) where
    granted_data :
        (r : Bool × FileHeader × BitMap)
        → allocate g.header (marked m s) size ≡ some r
        → HasInts r.1 × IsDiskMap r.2
        → Allocation g.header (marked m s) size r
        → Ends (create_data g fs size (pos s) dir1 (marked m s) d)
    unfolding create_data
    granted_data (false, hdr, m1) ran kept (refused _ short) =
        ((false, d), rw ran refl, no_space s free short)
    granted_data (true, hdr, m1) ran (ints, map1)
          (granted xs _ _ enough count bytes sectors stored t) =
        let some_sectors = sectors_bound size small in
        let whole : IsWhole hdr = record {
          bytes = omega (arith, bytes, small);
          sectors = omega (arith, sectors, count, some_sectors);
          slots = ints.slots;
          fit = ints.fit;
        } in
        let (d1, wrote, (holds, header)) =
          flushed dir1 m1 hdr s xs on_disk free t table1 map1 names1 whole in
        let again = IsMounted-again dir1 m1 hdr s xs on_disk free t table1 map1 names1 d1 holds in
        let there : Directory.find dir1 name ≡ some (pos s) =
          finds name ∙ rw (same_name_refl file_name_max_len name) refl in
        (
          (true, d1),
          rw (ran, wrote) refl,
          made dir1 m1 hdr s xs d1 again on_disk free t stored count bytes sectors finds header
              (opened dir1 m1 hdr s d1 again there header),
        )

    data-Ends : Ends (create_data g fs size (pos s) dir1 (marked m s) d)
    data-Ends =
        let ok = DiskMap-IsValid m mounted.map in
        let (r, ran, a) =
          allocate-Allocation g.header (marked m s) size (marked-IsValid m s ok) slots.slots
            small in
        let kept =
          allocate-kept g.header (marked m s) size slots (marked-IsDiskMap m s mounted.map) in
        granted_data r ran (subst (Whenever (λ (b, h1, m1). HasInts h1 × IsDiskMap m1)) ran kept) a

  added-Ends :
      (s : ℕ) (r : Bool × Directory)
      → s < 1024
      → is_set m s ≡ false
      → Directory.add dir name (pos s) ≡ some r
      → IsDiskTable r.1
      → Addition dir name (pos s) r
      → Ends (create_entry g fs name size dir d (pos s, marked m s))
  unfolding create_entry
  added-Ends s (false, dir1) on_disk free ran kept (known i e) =
      ((false, d), rw ran refl, listed i e)
  added-Ends s (false, dir1) on_disk free ran kept (no_room e all) = (
    (false, d),
    rw ran refl,
    no_entry λ j lt. all j (omega arith) (omega (arith, lt, mounted.table.entries)),
  )
  added-Ends s (true, dir1) on_disk free ran kept (entered _ e valid finds) =
      rw ran (data-Ends dir1 s on_disk free kept valid finds)

  entry-Ends : {r : ℤ × BitMap} → Found m 0 r → Ends (create_entry g fs name size dir d r)
  unfolding create_entry
  entry-Ends (full all) = (
    (false, d),
    refl,
    no_sector λ j lt. all j (omega arith) (omega (arith, lt, mounted.map.bits)),
  )
  entry-Ends (hit s lo hi free below) =
      let on_disk : s < 1024 = omega (arith, hi, mounted.map.bits) in
      let (r, ran, a) = add-Addition dir name (pos s) mounted.names in
      let kept = add-kept dir name (pos s) no_nul (to_int-Fits s (omega arith)) mounted.table in
      added-Ends s r on_disk free ran (subst (Whenever (λ (b, d1). IsDiskTable d1)) ran kept) a

  pub create-Creation :
      (r : Bool × Sectors) × (create g fs name size d ≡ some r)
      × Creation g fs at_map at_dir dir m d name size r
  unfolding create
  create-Creation =
      let fetched =
        current_directory-Holds g fs at_map at_dir mounted.files dir m mounted.table mounted.map d
          mounted.holds entries in
      let bits =
        current_map-Holds g fs at_map at_dir mounted.files dir m mounted.table mounted.map d
          mounted.holds in
      let (z, there) = find-some dir name mounted.names.sized in
      elim (Bool-cases (is_known z)) [
        | inl old ↦ ((false, d), rw (fetched, there, old) refl, exists z there old)
        | inr new ↦
            let (r, ran, f) = find-Found m in
            let (result, goes, c) = entry-Ends f in
            (result, rw (fetched, there, new, bits, ran) goes, c)
      ]
