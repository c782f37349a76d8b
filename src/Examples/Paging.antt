-- ===== src/Examples/Paging.antt =====
-- The clock and the backing store on concrete inputs.
use jalepenos.Base.{◌*◌, ◌≡◌, refl, true, false, [], ◌∷◌, some, arith}
use jalepenos.Base.Int.{pos, negsuc}
use jalepenos.BitMap.{clear}
use jalepenos.Machine.{TranslationEntry}
use jalepenos.MemManage.{MemoryManager, free_page}
use jalepenos.AddrSpace.{AddrSpace, clock_loop}
use jalepenos.AddrSpace.Clock.{IsReady, Candidate, Stopped, clock_loop-Stopped}

abbrev absent_page : TranslationEntry
absent_page = record {
  virtual_page = pos 0;
  physical_page = negsuc 0;
  valid = false;
  read_only = false;
  used = false;
  dirty = false;
}

abbrev used_page : TranslationEntry
used_page = record {
  virtual_page = pos 1;
  physical_page = pos 2;
  valid = true;
  read_only = false;
  used = true;
  dirty = true;
}

abbrev two_pages : AddrSpace
two_pages = record { clock_hand = 1; page_table = absent_page ∷ used_page ∷ []; num_pages = 2 }

two_pages-IsReady : IsReady two_pages
two_pages-IsReady = record { sized = refl; hand = omega arith }

two_pages-Candidate : Candidate two_pages 1
two_pages-Candidate = record { entry = used_page; at = refl; valid = refl; resident = refl }

clock_loop-Stopped_example :
    (r : TranslationEntry × AddrSpace) × (clock_loop (2 * 2) false two_pages ≡ some r)
    × Stopped false r
clock_loop-Stopped_example =
    clock_loop-Stopped false two_pages 1 two_pages-IsReady two_pages-Candidate

abbrev four_frames : MemoryManager
four_frames = record { num_pages = 4; bmap = record { num_bits = 4; num_words = 1; map = 15 ∷ [] } }

abbrev three_frames : MemoryManager
three_frames = record {
  num_pages = 4;
  bmap = record { num_bits = 4; num_words = 1; map = 11 ∷ [] };
}

four_frames-free_page : free_page four_frames (pos 2) ≡ some three_frames
unfolding free_page clear
four_frames-free_page = refl
