-- ===== src/FileHeader/Allocation.antt =====
-- Allocate and Deallocate of a file's sectors, and the sector of a byte.
use jalepenos.Base.{
  ℕ, zero, suc, ◌+◌, ◌/◌, ◌≤◌, ◌<◌, ◌≡◌, refl, ap, sym, subst, ◌∙◌, inl, inr, Bool, true, false,
  List, [], ◌∷◌, some, ltb, arith, Bool-cases, length, get_elem?,
}
use mathlib.Core.Option.{some-injective}
use jalepenos.Base.Int.{ℤ, pos}
use jalepenos.BitMap.{BitMap, div_round_up, test}
use jalepenos.BitMap.Bit.{is_set, IsValid, test-is_set, test-outside}
use jalepenos.BitMap.Search.{free_bits, num_clear_lem}
use jalepenos.FileHeader.{
  FileHeader, num_direct, max_file_size, sector_size, allocate, deallocate, byte_to_sector,
  deallocate_loop,
}
use jalepenos.FileHeader.Sectors.{mem, Stores, Takes, allocate_loop_lem, deallocate_loop_lem}

-- What Allocate of `size` bytes returns: FALSE, with the bitmap as it was, when fewer sectors are
-- clear than the file needs; else TRUE, and the header holds that many distinct sectors, which were
-- clear and are the only ones that were marked.
pub data Allocation (h : FileHeader) (b : BitMap) (size : ℕ)
    : Bool × FileHeader × BitMap → Type 0 where
  refused :
      (h' : FileHeader)
      → free_bits b < div_round_up size sector_size
      → Allocation h b size (false, h', b)
  granted :
      (xs : List ℕ) (h' : FileHeader) (b' : BitMap)
      → div_round_up size sector_size ≤ free_bits b
      → length xs ≡ div_round_up size sector_size
      → h'.num_bytes ≡ size
      → h'.num_sectors ≡ length xs
      → Stores h'.data_sectors 0 xs
      → Takes b xs b'
      → Allocation h b size (true, h', b')

pub sectors_bound : (size : ℕ) → size ≤ max_file_size → div_round_up size sector_size ≤ num_direct
unfolding div_round_up
sectors_bound size h = ground arith

covered : (size offset : ℕ) → offset < size → offset / sector_size < div_round_up size sector_size
unfolding div_round_up
covered size offset h = ground arith

-- For a well formed bitmap, a header with NumDirect slots and a size up to MaxFileSize, Allocate
-- neither writes outside dataSectors nor fails an ASSERT; it returns FALSE and leaves the bitmap
-- alone when fewer sectors are clear than the size needs, and else returns TRUE, records the
-- size and as many distinct sectors, which were clear and are now marked, and changes no other
-- bit.
pub allocate-Allocation :
    (h : FileHeader) (b : BitMap) (size : ℕ)
    → IsValid b
    → length h.data_sectors ≡ num_direct
    → size ≤ max_file_size
    → (r : Bool × FileHeader × BitMap) × (allocate h b size ≡ some r) × Allocation h b size r
unfolding allocate
allocate-Allocation h b size v room small =
    let n = div_round_up size sector_size in
    let sized : FileHeader = record h { num_bytes = size; num_sectors = n } in
    elim (Bool-cases (ltb (free_bits b) n)) [
      | inl short ↦
          ((false, sized, b), rw (num_clear_lem b, short) refl, refused sized (ground arith))
      | inr enough ↦
          let (xs, h', b', run, t, f) =
            allocate_loop_lem n 0 sized b v (omega (arith, sectors_bound size small))
              (ground arith) in
          (
            (true, h', b'),
            rw (num_clear_lem b, enough, run) refl,
            granted xs h' b' (ground arith) f.count f.bytes_kept (f.sectors_kept ∙ sym f.count)
                f.stored t,
          )
    ]

test-same :
    (b b' : BitMap) (j : ℕ)
    → b'.num_bits ≡ b.num_bits
    → is_set b' j ≡ is_set b j
    → test b' (pos j) ≡ test b (pos j)
test-same b b' j same bit = elim (Bool-cases (ltb j b.num_bits)) [
  | inl inside ↦ ground (arith, test-is_set b j, test-is_set b' j)
  | inr outside ↦ ground (arith, test-outside b j, test-outside b' j)
]

give_back :
    (h : FileHeader) (b : BitMap) (size : ℕ) {h' : FileHeader} {b' : BitMap}
    → Allocation h b size (true, h', b')
    → (b'' : BitMap) × (deallocate h' b' ≡ some b'')
      × IsValid b''
      × ((j : ℕ) → test b'' (pos j) ≡ test b (pos j))
unfolding deallocate
give_back h b size (granted xs h' b' enough count bytes sectors stored t) =
    let (b'', run, v, same, after) =
      deallocate_loop_lem xs 0 h' b' t.ok stored t.distinct
        (λ j m. omega (arith, t.inside j m, t.same_size)) (λ j m. ground (arith, t.are_set j)) in
    (
      b'',
      ap (λ n. deallocate_loop n 0 h' b') sectors ∙ run,
      v,
      λ j.
          test-same b b'' j (same ∙ t.same_size)
            (ground (arith, after j, t.are_set j, t.were_clear j)),
    )

-- For a well formed bitmap, a header with NumDirect slots and a size up to MaxFileSize,
-- Deallocate of the header that a successful Allocate has filled fails no ASSERT, and afterwards
-- Test gives for every sector what it gave before the two calls.
pub deallocate-allocate :
    (h h' : FileHeader) (b b' : BitMap) (size : ℕ)
    → IsValid b
    → length h.data_sectors ≡ num_direct
    → size ≤ max_file_size
    → allocate h b size ≡ some (true, h', b')
    → (b'' : BitMap) × (deallocate h' b' ≡ some b'')
      × IsValid b''
      × ((j : ℕ) → test b'' (pos j) ≡ test b (pos j))
deallocate-allocate h h' b b' size v room small e =
    let (r, ran, a) = allocate-Allocation h b size v room small in
    give_back h b size (subst (Allocation h b size) (some-injective _ _ (sym ran ∙ e)) a)

stored_at :
    (d : List ℤ) (i k : ℕ) (xs : List ℕ)
    → Stores d i xs
    → k < length xs
    → (x : ℕ) × (get_elem? d (i + k) ≡ some (pos x)) × (mem x xs ≡ true)
stored_at d i k [] s h = absurd (omega arith)
stored_at d i zero (x ∷ xs) (at, s) h = (x, ap (get_elem? d) (omega arith) ∙ at, ground arith)
stored_at d i (suc k) (x ∷ xs) (at, s) h =
    let (y, e, m) = stored_at d (suc i) k xs s (omega arith) in
    (y, ap (get_elem? d) (omega arith) ∙ e, ground arith)

owned :
    (h : FileHeader) (b : BitMap) (size offset : ℕ) {h' : FileHeader} {b' : BitMap}
    → offset < size
    → Allocation h b size (true, h', b')
    → (x : ℕ) × (byte_to_sector h' offset ≡ some (pos x))
      × (test b (pos x) ≡ some false)
      × (test b' (pos x) ≡ some true)
unfolding byte_to_sector
owned h b size offset inside (granted xs h' b' enough count bytes sectors stored t) =
    let (x, e, m) =
      stored_at h'.data_sectors 0 (offset / sector_size) xs stored
        (rw count (covered size offset inside)) in
    (
      x,
      ap (get_elem? h'.data_sectors) (omega arith) ∙ e,
      ground (arith, test-is_set b x, t.were_clear x, t.inside x),
      ground (arith, test-is_set b' x, t.are_set x, t.inside x, t.same_size),
    )

-- For a well formed bitmap, a header with NumDirect slots and a size up to MaxFileSize, after a
-- successful Allocate ByteToSector of every byte of the file gives a sector that was clear
-- before and is marked now.
pub byte_to_sector-allocate :
    (h h' : FileHeader) (b b' : BitMap) (size offset : ℕ)
    → IsValid b
    → length h.data_sectors ≡ num_direct
    → size ≤ max_file_size
    → allocate h b size ≡ some (true, h', b')
    → offset < size
    → (x : ℕ) × (byte_to_sector h' offset ≡ some (pos x))
      × (test b (pos x) ≡ some false)
      × (test b' (pos x) ≡ some true)
byte_to_sector-allocate h h' b b' size offset v room small e inside =
    let (r, ran, a) = allocate-Allocation h b size v room small in
    owned h b size offset inside (subst (Allocation h b size) (some-injective _ _ (sym ran ∙ e)) a)
