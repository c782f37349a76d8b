-- ===== src/Examples/Bits.antt =====
-- The bitmap and the page manager on concrete inputs.
use jalepenos.Base.{◌≡◌, refl, [], ◌∷◌, some, arith}
use jalepenos.Base.Int.{ℤ, pos}
use jalepenos.BitMap.{BitMap, mark, test}
use jalepenos.BitMap.Bit.{IsValid}
use jalepenos.MemManage.{MemoryManager, alloc_loop, alloc_page}
use jalepenos.MemManage.Pages.{IsManager, Allocated, alloc_page-Allocated}

-- Forty bits, of which bits 0, 2 and 32 are set.
abbrev some_bits : BitMap
some_bits = record { num_bits = 40; num_words = 2; map = 5 ∷ 1 ∷ [] }

some_bits-IsValid : IsValid some_bits
some_bits-IsValid = record { sized = refl; covers = omega arith }

abbrev some_pages : MemoryManager
some_pages = record { num_pages = 40; bmap = some_bits }

some_pages-IsManager : IsManager some_pages
some_pages-IsManager = record { bits = some_bits-IsValid; pages = refl }

alloc_page-Allocated_example :
    (r : ℤ × MemoryManager) × (alloc_page some_pages ≡ some r) × Allocated some_pages r
alloc_page-Allocated_example = alloc_page-Allocated some_pages some_pages-IsManager

abbrev more_pages : MemoryManager
more_pages = record {
  num_pages = 40;
  bmap = record { num_bits = 40; num_words = 2; map = 7 ∷ 1 ∷ [] };
}

more_pages-alloc_page : alloc_page some_pages ≡ some (pos 1, more_pages)
unfolding alloc_page alloc_loop test mark
more_pages-alloc_page = refl
