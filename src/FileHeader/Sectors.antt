-- ===== src/FileHeader/Sectors.antt =====
-- The loops of Allocate and Deallocate: which sectors they take and give back.
use jalepenos.Base.{
  ℕ, zero, suc, ◌+◌, ◌≤◌, ◌<◌, ◌≡◌, refl, ap, ◌∙◌, inl, inr, Bool, true, false, not, ◌&&◌, ◌||◌,
  List, [], ◌∷◌, some, ltb, ◌==◌, arith, Bool-cases, length, set, get_elem?, get_elem?-set_self,
  get_elem?-set_ne, length-set,
}
use jalepenos.Base.Int.{ℤ, pos}
use jalepenos.BitMap.{BitMap}
use jalepenos.BitMap.Bit.{
  is_set, IsValid, test-is_set, marked, marked-IsValid, is_set-marked, cleared, clear-cleared,
  cleared-IsValid, is_set-cleared,
}
use jalepenos.BitMap.Search.{
  Found, hit, full, find-Found, free_bits, marked-free_bits, full-free_bits,
}
use jalepenos.FileHeader.{FileHeader, store_sector, allocate_loop, deallocate_loop}

abbrev pub mem : ℕ → List ℕ → Bool
mem a [] = false
mem a (x ∷ xs) = (a == x) || mem a xs

abbrev pub Distinct : List ℕ → Type 0
Distinct [] = Unit {0}
Distinct (x ∷ xs) = (mem x xs ≡ false) × Distinct xs

-- From index `i` on the array holds the sectors `xs`.
abbrev pub Stores : List ℤ → ℕ → List ℕ → Type 0
Stores d i [] = Unit {0}
Stores d i (x ∷ xs) = (get_elem? d i ≡ some (pos x)) × Stores d (suc i) xs

-- `b'` is `b` with the sectors `xs`, which were clear and are distinct, marked.
pub record Takes (b : BitMap) (xs : List ℕ) (b' : BitMap) : Type 0 where
  pub ok : IsValid b'
  pub same_size : b'.num_bits ≡ b.num_bits
  pub distinct : Distinct xs
  pub inside : (j : ℕ) → mem j xs ≡ true → j < b.num_bits
  pub were_clear : (j : ℕ) → mem j xs ≡ true → is_set b j ≡ false
  pub are_set : (j : ℕ) → is_set b' j ≡ (mem j xs || is_set b j)

Takes-suc :
    (b b' : BitMap) (k : ℕ) (xs : List ℕ)
    → IsValid b
    → k < b.num_bits
    → is_set b k ≡ false
    → Takes (marked b k) xs b'
    → Takes b (k ∷ xs) b'
Takes-suc b b' k xs v hi free t =
    let bits = λ (j : ℕ). is_set-marked b k v j hi in
    record {
      ok = t.ok;
      same_size = t.same_size;
      distinct = (
        elim (Bool-cases (mem k xs)) [
          | inl again ↦ ground (arith, bits k, t.were_clear k again)
          | inr new ↦ new
        ],
        t.distinct,
      );
      inside = λ j i. ground (arith, t.inside j);
      were_clear = λ j i. ground (arith, t.were_clear j, bits j);
      are_set = λ j. ground (arith, t.are_set j, bits j);
    }

-- What `n` rounds of the loop of Allocate from `i` on leave in the header.
pub record Fills (h : FileHeader) (i n : ℕ) (xs : List ℕ) (h' : FileHeader) : Type 0 where
  pub count : length xs ≡ n
  pub stored : Stores h'.data_sectors i xs
  pub below : (k : ℕ) → k < i → get_elem? h'.data_sectors k ≡ get_elem? h.data_sectors k
  pub bytes_kept : h'.num_bytes ≡ h.num_bytes
  pub sectors_kept : h'.num_sectors ≡ h.num_sectors
  pub size_kept : length h'.data_sectors ≡ length h.data_sectors

Fills-suc :
    (h h' : FileHeader) (i n k : ℕ) (xs : List ℕ)
    → i < length h.data_sectors
    → Fills (record h { data_sectors = set h.data_sectors i (pos k) }) (suc i) n xs h'
    → Fills h i (suc n) (k ∷ xs) h'
Fills-suc h h' i n k xs room f = record {
  count = ap suc f.count;
  stored = (f.below i (omega arith) ∙ get_elem?-set_self h.data_sectors i (pos k) room, f.stored);
  below =
      λ j lt. f.below j (omega arith) ∙ get_elem?-set_ne h.data_sectors i j (pos k) (omega arith);
  bytes_kept = f.bytes_kept;
  sectors_kept = f.sectors_kept;
  size_kept = f.size_kept ∙ length-set h.data_sectors i (pos k);
}

-- With a clear bit left, Find marks a clear bit.
Found-clear :
    (b : BitMap) {r : ℤ × BitMap}
    → IsValid b
    → Found b 0 r
    → 0 < free_bits b
    → (k : ℕ) × (r ≡ (pos k, marked b k))
      × (k < b.num_bits)
      × (is_set b k ≡ false)
      × (suc (free_bits (marked b k)) ≡ free_bits b)
Found-clear b v (hit k lo hi free below) some_left =
    (k, refl, hi, free, marked-free_bits b k v hi free)
Found-clear b v (full all) some_left = absurd (omega (arith, full-free_bits b all))

pub allocate_loop_lem :
    (n i : ℕ) (h : FileHeader) (b : BitMap)
    → IsValid b
    → i + n ≤ length h.data_sectors
    → n ≤ free_bits b
    → (xs : List ℕ) × (h' : FileHeader) × (b' : BitMap) × (allocate_loop n i h b ≡ some (h', b'))
      × Takes b xs b'
      × Fills h i n xs h'
unfolding allocate_loop store_sector
allocate_loop_lem zero i h b v room enough = (
  [],
  h,
  b,
  refl,
  record {
    ok = v;
    same_size = refl;
    distinct = tt;
    inside = λ j x. ground arith;
    were_clear = λ j x. ground arith;
    are_set = λ j. refl;
  },
  record {
    count = refl;
    stored = tt;
    below = λ k lt. refl;
    bytes_kept = refl;
    sectors_kept = refl;
    size_kept = refl;
  },
)
allocate_loop_lem (suc n) i h b v room enough =
    let (r, ran, found) = find-Found b in
    let (k, e, hi, free, less) = Found-clear b v found (omega arith) in
    let room' : ltb i (length h.data_sectors) ≡ true = ground arith in
    let h1 = record h { data_sectors = set h.data_sectors i (pos k) } in
    let (xs, h', b', run, t, f) =
      allocate_loop_lem n (suc i) h1 (marked b k) (marked-IsValid b k v)
        (omega (arith, length-set h.data_sectors i (pos k))) (omega arith) in
    (
      k ∷ xs,
      h',
      b',
      rw (ran, e, room', run) refl,
      Takes-suc b b' k xs v hi free t,
      Fills-suc h h' i n k xs (omega arith) f,
    )

pub deallocate_loop_lem :
    (xs : List ℕ) (i : ℕ) (h : FileHeader) (b : BitMap)
    → IsValid b
    → Stores h.data_sectors i xs
    → Distinct xs
    → ((j : ℕ) → mem j xs ≡ true → j < b.num_bits)
    → ((j : ℕ) → mem j xs ≡ true → is_set b j ≡ true)
    → (b' : BitMap) × (deallocate_loop (length xs) i h b ≡ some b')
      × IsValid b'
      × (b'.num_bits ≡ b.num_bits)
      × ((j : ℕ) → is_set b' j ≡ (not (mem j xs) && is_set b j))
unfolding deallocate_loop
deallocate_loop_lem [] i h b v stored apart inside used = (b, refl, v, refl, λ j. refl)
deallocate_loop_lem (x ∷ xs) i h b v (at, stored) (out, apart) inside used =
    let self : mem x (x ∷ xs) ≡ true = ground arith in
    let hi = inside x self in
    let bits = λ (j : ℕ). is_set-cleared b x v j hi in
    let (b', run, v', same, after) =
      deallocate_loop_lem xs (suc i) h (cleared b x) (cleared-IsValid b x v) stored apart
        (λ j m. inside j (ground arith)) (λ j m. ground (arith, bits j, used j)) in
    (
      b',
      rw (at, test-is_set b x hi, used x self, clear-cleared b x hi, run) refl,
      v',
      same,
      λ j. ground (arith, after j, bits j),
    )
