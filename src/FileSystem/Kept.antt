-- ===== src/FileSystem/Kept.antt =====
-- What Find, Allocate and Add leave can be stored.
use jalepenos.Base.{
  ℕ, zero, suc, ◌/◌, ◌%◌, ◌^◌, ◌≤◌, ◌<◌, ◌≡◌, refl, ◌∙◌, Bool, true, not, List, [], ◌∷◌, some, ltb,
  ◌>>=◌, arith, inl, inr, Bool-cases, length, set, length-set, get_or, get_elem?, bit_or,
}
use jalepenos.Base.Bits.{bit_or-lt, pow_strict}
use jalepenos.Base.Int.{ℤ, pos, negsuc}
use jalepenos.BitMap
use jalepenos.BitMap.{BitMap, word_at, num_clear, div_round_up}
use jalepenos.BitMap.Bit.{marked}
use jalepenos.BitMap.Search.{Found, hit, full, find-Found}
use jalepenos.FileHeader.{FileHeader, sector_size, store_sector, allocate_loop, allocate}
use jalepenos.Directory.{
  DirectoryEntry, Directory, copy_name, put_entry, find_index, add_loop, add_at, add,
}
use jalepenos.Directory.Search.{new_entry}
use jalepenos.Machine.Translate.{to_unsigned}
use jalepenos.OpenFile.Elsewhere.{Whenever, bind-Whenever, any-Whenever}
use jalepenos.FileSystem.Words.{AreInts, Fits, AllFit, to_int-Fits}
use jalepenos.FileSystem.Entries.{AreStorable, IsStorable, HasNoNul}

pub set-AreInts : (ws : List ℕ) (i w : ℕ) → w < 2 ^ 32 → AreInts ws → AreInts (set ws i w)
set-AreInts [] i w small a = tt
set-AreInts (x ∷ ws) zero w small (here, a) = (small, a)
set-AreInts (x ∷ ws) (suc i) w small (here, a) = (here, set-AreInts ws i w small a)

pub get_or-AreInts : (ws : List ℕ) (i : ℕ) → AreInts ws → get_or ws i 0 < 2 ^ 32
get_or-AreInts [] i a = omega arith
get_or-AreInts (x ∷ ws) zero (here, a) = here
get_or-AreInts (x ∷ ws) (suc i) (here, a) = get_or-AreInts ws i a

pow_small : (k : ℕ) → k < 32 → 2 ^ k < 2 ^ 32
pow_small k lt = pow_strict k 32 lt

set-AllFit : (zs : List ℤ) (i : ℕ) (z : ℤ) → Fits z → AllFit zs → AllFit (set zs i z)
set-AllFit [] i z f a = tt
set-AllFit (x ∷ zs) zero z f (here, a) = (f, a)
set-AllFit (x ∷ zs) (suc i) z f (here, a) = (here, set-AllFit zs i z f a)

-- The bitmap of the sectors, with words that are ints.
pub record IsDiskMap (m : BitMap) : Type 0 where
  pub bits : m.num_bits ≡ 1024
  pub words : m.num_words ≡ 32
  pub whole : length m.map ≡ 32
  pub ints : AreInts m.map

pub marked-IsDiskMap : (m : BitMap) (k : ℕ) → IsDiskMap m → IsDiskMap (marked m k)
marked-IsDiskMap m k o = record {
  bits = o.bits;
  words = o.words;
  whole = length-set m.map (k / 32) _ ∙ o.whole;
  ints =
      set-AreInts m.map (k / 32) (bit_or (word_at m k) (2 ^ (k % 32)))
        (bit_or-lt 32 (word_at m k) (2 ^ (k % 32)) (get_or-AreInts m.map (k / 32) o.ints)
          (pow_small (k % 32) (omega arith)))
        o.ints;
}

Found-kept : (m : BitMap) {r : ℤ × BitMap} → Found m 0 r → IsDiskMap m → Fits r.0 × IsDiskMap r.1
unfolding to_unsigned
Found-kept m (hit i lo hi free below) o =
    (to_int-Fits i (omega (arith, hi, o.bits)), marked-IsDiskMap m i o)
Found-kept m (full all) o = (refl, o)

-- Find gives an int and such a bitmap.
pub find-kept :
    (m : BitMap) → IsDiskMap m → Whenever (λ (z, m1). Fits z × IsDiskMap m1) (BitMap.find m)
find-kept m o = let (r, ran, f) = find-Found m in rw ran (Found-kept m f o)

-- Thirty slots that hold ints.
pub record HasInts (h : FileHeader) : Type 0 where
  pub slots : length h.data_sectors ≡ 30
  pub fit : AllFit h.data_sectors

store_sector-kept :
    (h : FileHeader) (i : ℕ) (z : ℤ) → HasInts h → Fits z → Whenever HasInts (store_sector h i z)
unfolding store_sector
store_sector-kept h i z ints fits = elim (Bool-cases (ltb i (length h.data_sectors))) [
  | inl inside ↦ rw inside record {
    slots = length-set h.data_sectors i z ∙ ints.slots;
    fit = set-AllFit h.data_sectors i z fits ints.fit;
  }
  | inr outside ↦ rw outside tt
]

allocate_loop-kept :
    (n i : ℕ) (h : FileHeader) (m : BitMap)
    → HasInts h
    → IsDiskMap m
    → Whenever (λ (h1, m1). HasInts h1 × IsDiskMap m1) (allocate_loop n i h m)
unfolding allocate_loop
allocate_loop-kept zero i h m ints o = (ints, o)
allocate_loop-kept (suc n) i h m ints o =
    let P : FileHeader × BitMap → Type 0 = λ (h1, m1). HasInts h1 × IsDiskMap m1 in
    bind-Whenever (λ (z, m1). Fits z × IsDiskMap m1) P (BitMap.find m)
      (λ (z, m1). store_sector h i z >>= λ h1. allocate_loop n (suc i) h1 m1) (find-kept m o)
      (λ (z, m1) (fits, o1).
        bind-Whenever HasInts P (store_sector h i z) (λ h1. allocate_loop n (suc i) h1 m1)
          (store_sector-kept h i z ints fits)
          (λ h1 ints1. allocate_loop-kept n (suc i) h1 m1 ints1 o1))

-- Allocate leaves ints in the header and in the bitmap.
pub allocate-kept :
    (h : FileHeader) (m : BitMap) (size : ℕ)
    → HasInts h
    → IsDiskMap m
    → Whenever (λ (granted, h1, m1). HasInts h1 × IsDiskMap m1) (allocate h m size)
unfolding allocate
allocate-kept h m size ints o =
    let n = div_round_up size sector_size in
    let sized : FileHeader = record h { num_bytes = size; num_sectors = n } in
    let all : HasInts sized = record { slots = ints.slots; fit = ints.fit } in
    let P : Bool × FileHeader × BitMap → Type 0 = λ (granted, h1, m1). HasInts h1 × IsDiskMap m1 in
    any-Whenever P (num_clear m) _ (λ clear. elim (Bool-cases (ltb clear n)) [
      | inl short ↦ rw short (all, o)
      | inr enough ↦ rw enough (
          bind-Whenever (λ (h1, m1). HasInts h1 × IsDiskMap m1) P (allocate_loop n 0 sized m)
            (λ (h1, m1). some (true, h1, m1)) (allocate_loop-kept n 0 sized m all o)
            (λ r kept. kept))
    ])

pub set-AreStorable :
    (t : List DirectoryEntry) (i : ℕ) (e : DirectoryEntry)
    → IsStorable e
    → AreStorable t
    → AreStorable (set t i e)
set-AreStorable [] i e v a = tt
set-AreStorable (x ∷ t) zero e v (here, a) = (v, a)
set-AreStorable (x ∷ t) (suc i) e v (here, a) = (here, set-AreStorable t i e v a)

copy_name-short : (n : ℕ) (name : List ℕ) → length (copy_name n name) ≤ n
unfolding copy_name
copy_name-short zero name = omega arith
copy_name-short (suc n) [] = omega arith
copy_name-short (suc n) (c ∷ name) = omega (arith, copy_name-short n name)

copy_name-HasNoNul : (n : ℕ) (name : List ℕ) → HasNoNul name → HasNoNul (copy_name n name)
unfolding copy_name
copy_name-HasNoNul zero name h = tt
copy_name-HasNoNul (suc n) [] h = tt
copy_name-HasNoNul (suc n) (c ∷ name) (some_char, h) = (some_char, copy_name-HasNoNul n name h)

-- A table of ten entries that can be stored.
pub record IsDiskTable (d : Directory) : Type 0 where
  pub entries : d.table_size ≡ 10
  pub sized : length d.table ≡ 10
  pub storable : AreStorable d.table

module _ (d : Directory) (name : List ℕ) (z : ℤ) (no_nul : HasNoNul name) (fits : Fits z)
    (o : IsDiskTable d) where
  put-kept : (i : ℕ) → IsDiskTable (put_entry d i (new_entry name z))
  put-kept i = record {
    entries = o.entries;
    sized = length-set d.table i (new_entry name z) ∙ o.sized;
    storable =
        set-AreStorable d.table i (new_entry name z)
          (record {
            sector = fits;
            short = copy_name-short 9 name;
            no_nul = copy_name-HasNoNul 9 name no_nul;
          })
          o.storable;
  }

  add_loop-kept : (n i : ℕ) → Whenever (λ (b, d1). IsDiskTable d1) (add_loop n i d name z)
  unfolding add_loop
  add_loop-kept zero i = o
  add_loop-kept (suc n) i =
      any-Whenever (λ (b, d1). IsDiskTable d1) (get_elem? d.table i) _
        (λ e. elim (Bool-cases (not e.in_use)) [
          | inl free ↦ rw free (put-kept i)
          | inr taken ↦ rw taken (add_loop-kept n (suc i))
        ])

  add_at-kept : (i : ℤ) → Whenever (λ (b, d1). IsDiskTable d1) (add_at d name z i)
  unfolding add_at
  add_at-kept (pos i) = o
  add_at-kept (negsuc zero) = add_loop-kept d.table_size 0
  add_at-kept (negsuc (suc i)) = o

  -- Add leaves a table that can be stored.
  pub add-kept : Whenever (λ (b, d1). IsDiskTable d1) (add d name z)
  unfolding add
  add-kept =
      any-Whenever (λ (b, d1). IsDiskTable d1) (find_index d name) (add_at d name z) add_at-kept
