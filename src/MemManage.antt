-- ===== src/MemManage.antt =====
-- code/userprog/memmanage.h and memmanage.cc: the physical pages, over a bitmap. The member
-- `next_delete` is never read or written and is left out.
pub mod Pages
use jalepenos.Base.{ℕ, zero, suc, Bool, List, Option, none, some, ◌>>=◌, if◌then◌else◌}
use jalepenos.Base.Int.{ℤ, pos, negsuc}
use jalepenos.BitMap.{BitMap}
use jalepenos.BitMap

pub record MemoryManager : Type 0 where
  pub num_pages : ℕ
  pub bmap : BitMap

unfoldable pub init : List ℕ → ℕ → Option MemoryManager
init garbage n = do b ← BitMap.init garbage n; some (record { num_pages = n; bmap = b })

-- The loop of `AllocPage`, `rounds` rounds from page `i` on.
unfoldable pub alloc_loop : ℕ → ℕ → BitMap → Option (ℤ × BitMap)
alloc_loop zero i b = some (negsuc 0, b)
alloc_loop (suc n) i b =
    let rest = alloc_loop n (suc i) b in
    do
      t ← BitMap.test b (pos i)
      if t then rest else (do b' ← BitMap.mark b (pos i); some (pos i, b'))

unfoldable pub alloc_page : MemoryManager → Option (ℤ × MemoryManager)
alloc_page m = do r ← alloc_loop m.num_pages 0 m.bmap; some (r.0, record m { bmap = r.1 })

unfoldable pub free_page : MemoryManager → ℤ → Option MemoryManager
free_page m p = do b ← BitMap.clear m.bmap p; some (record m { bmap = b })

unfoldable pub page_is_allocated : MemoryManager → ℤ → Option Bool
page_is_allocated m p = BitMap.test m.bmap p

unfoldable pub num_free_pages : MemoryManager → Option ℕ
num_free_pages m = BitMap.num_clear m.bmap
