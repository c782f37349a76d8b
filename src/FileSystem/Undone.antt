-- ===== src/FileSystem/Undone.antt =====
-- Remove after Create.
use jalepenos.Base.{
  ℕ, ◌≤◌, ◌<◌, ◌≡◌, refl, sym, ◌∙◌, ap, subst, Bool, true, false, not, ◌&&◌, List, ◌∷◌, Option,
  some, ◌==◌, if◌then◌else◌, arith, inl, inr, Bool-cases, length,
}
use mathlib.Core.Option.{some-injective}
use jalepenos.Base.Int.{ℤ, pos, negsuc}
use jalepenos.BitMap.{BitMap}
use jalepenos.BitMap.Bit.{is_set, is_set-marked, marked}
use jalepenos.FileHeader.{max_file_size}
use jalepenos.FileHeader.Sectors.{mem, Takes}
use jalepenos.Directory
use jalepenos.Directory.{Directory, file_name_max_len, same_name, find_index, sector_at}
use jalepenos.OpenFile.{Sectors}
use jalepenos.FileSystem
use jalepenos.FileSystem.{Garbage, FileSystem, is_missing, create}
use jalepenos.FileSystem.Entries.{HasNoNul}
use jalepenos.FileSystem.Kept.{HasInts}
use jalepenos.FileSystem.Mounted.{IsMounted, DiskMap-IsValid, same_name_refl}
use jalepenos.FileSystem.Creation.{Creation, made, create-Creation}
use jalepenos.FileSystem.Removed.{IsFile, remove-IsRemoved}

module _ (g : Garbage) (fs : FileSystem) (at_map at_dir : ℕ → ℕ) (dir : Directory) (m : BitMap)
    (d : Sectors) (name : List ℕ) (size : ℕ) (mounted : IsMounted fs at_map at_dir dir m d)
    (entries : 10 ≤ length g.table) where
  module _ (m1 : BitMap) (s : ℕ) (xs : List ℕ) (on_disk : s < 1024) (free : is_set m s ≡ false)
      (takes : Takes (marked m s) xs m1) where
    marked_bit : (j : ℕ) → is_set (marked m s) j ≡ (if j == s then true else is_set m j)
    marked_bit j =
        is_set-marked m s (DiskMap-IsValid m mounted.map) j
          (omega (arith, on_disk, mounted.map.bits))

    not_new : (j : ℕ) → is_set m j ≡ true → mem j (s ∷ xs) ≡ false
    not_new j used = elim (Bool-cases (j == s)) [
      | inl same ↦
          let e : j ≡ s = ground arith in let u : is_set m s ≡ true = rw e at used in absurd cc
      | inr other ↦ ground (arith, takes.were_clear j, marked_bit j)
    ]

    as_before : (b : Bool) (j : ℕ) → b ≡ (not (mem j (s ∷ xs)) && is_set m1 j) → b ≡ is_set m j
    as_before b j e = elim (Bool-cases (j == s)) [
      | inl same ↦
          let at : j ≡ s = ground arith in
          let clear_here : is_set m j ≡ false = ap (is_set m) at ∙ free in
          ground (arith, takes.were_clear j, takes.are_set j, marked_bit j)
      | inr other ↦ ground (arith, takes.were_clear j, takes.are_set j, marked_bit j)
    ]

  -- Everything is as it was before the file was made.
  abbrev Undone : Sectors → Type 0
  Undone d1 =
      (d2 : Sectors) × (dir2 : Directory) × (m2 : BitMap) × (FileSystem.remove g fs name d1
        ≡ some (true, d2))
      × IsMounted fs at_map at_dir dir2 m2 d2
      × ((j : ℕ) → is_set m2 j ≡ is_set m j)
      × ((other : List ℕ)
          → Directory.find dir2 other ≡ (
              if same_name file_name_max_len name other
              then some (negsuc 0)
              else Directory.find dir other))

  undone : {d1 : Sectors} → Creation g fs at_map at_dir dir m d name size (true, d1) → Undone d1
  undone
        (made dir1 m1 hdr s xs d1 after on_disk free takes stored total bytes count finds header
          opens) =
      let there : Directory.find dir1 name ≡ some (pos s) =
        finds name ∙ rw (same_name_refl file_name_max_len name) refl in
      let file : IsFile fs at_map at_dir dir1 m1 d1 name hdr s xs = record {
        there = there;
        header = header;
        count = count;
        stored = stored;
        distinct = takes.distinct;
        on_disk = on_disk;
        inside = λ j in_file. omega (arith, takes.inside j in_file, mounted.map.bits);
        are_set = λ j in_file. ground (arith, takes.are_set j);
        not_map = λ i lt. not_new m1 s xs on_disk free takes (at_map i) (mounted.map_taken i lt);
        not_dir = λ i lt. not_new m1 s xs on_disk free takes (at_dir i) (mounted.dir_taken i lt);
      } in
      let (d2, dir2, m2, ran, gone) =
        remove-IsRemoved g fs at_map at_dir dir1 m1 d1 name after entries hdr s xs file in
      (
        d2,
        dir2,
        m2,
        ran,
        gone.mounted,
        λ j. as_before m1 s xs on_disk free takes (is_set m2 j) j (gone.bits j),
        λ other.
            gone.finds other
            ∙ twice name other (Directory.find dir1 other) (some (pos s)) (Directory.find dir other)
                (finds other),
      )
    where
      twice :
          (name other : List ℕ) (o p q : Option ℤ)
          → o ≡ (if same_name file_name_max_len name other then p else q)
          → (if same_name file_name_max_len name other then some (negsuc 0) else o)
            ≡ (if same_name file_name_max_len name other then some (negsuc 0) else q)
      twice name other o p q e = elim (Bool-cases (same_name file_name_max_len name other)) [
        | inl same ↦ rw same refl
        | inr differs ↦ rw differs (e ∙ rw differs refl)
      ]

  -- When Create returns TRUE on the disk of a file system, with thirty slots of ints in the new
  -- header, a size up to MaxFileSize and a name without NUL characters, Remove of the same name
  -- on the disk it leaves goes through and returns TRUE; the disk is that of a file system
  -- again, in which the same sectors are marked as before Create, and Find gives -1 for every
  -- name that agrees with the removed one in its first nine characters, and what it gave before
  -- for every other name.
  pub remove-create :
      (d1 : Sectors)
      → HasInts g.header
      → size ≤ max_file_size
      → HasNoNul name
      → create g fs name size d ≡ some (true, d1)
      → (d2 : Sectors) × (dir2 : Directory) × (m2 : BitMap) × (FileSystem.remove g fs name d1
          ≡ some (true, d2))
        × IsMounted fs at_map at_dir dir2 m2 d2
        × ((j : ℕ) → is_set m2 j ≡ is_set m j)
        × ((other : List ℕ)
            → Directory.find dir2 other ≡ (
                if same_name file_name_max_len name other
                then some (negsuc 0)
                else Directory.find dir other))
  remove-create d1 slots small no_nul created =
      let (r, ran, c) =
        create-Creation g fs at_map at_dir dir m d name size mounted entries slots small no_nul in
      undone (
        subst (Creation g fs at_map at_dir dir m d name size)
          (some-injective _ _ (sym ran ∙ created)) c)
