-- ===== src/AddrSpace/Demand.antt =====
-- `AddrSpace::Initialize`, `demandpage` and `ClearState` of
-- code/userprog/addrspace.cc. The clock of ClearPage runs on fuel. The members that paging uses stand
-- together with the machine's memory and the page manager; the table of a running program is the
-- machine's own, which RestoreState shares with it (Threads/UserState.antt). The counters of the statistics are left out.
use jalepenos.Base.{
  ℕ, zero, suc, ◌+◌, ◌*◌, ◌%◌, ◌^◌, Bool, true, false, List, [], ◌∷◌, Option, none, some,
  if◌then◌else◌, ◌>>=◌, get_elem?, set,
}
use jalepenos.Base.Int.{ℤ, pos, negsuc}
use jalepenos.BitMap.{div_round_up}
use jalepenos.Machine.{TranslationEntry}
use jalepenos.MemManage.{MemoryManager, alloc_page, free_page}
use jalepenos.OpenFile.{OpenFile, Sectors}
use jalepenos.AddrSpace.{AddrSpace, BackingStore, is_resident, clear_page, page_in}
use jalepenos.AddrSpace.Program.{NoffHeader, read_header, fill_page}

abbrev pub user_stack_size : ℕ
user_stack_size = 1024

pub record Paging : Type 0 where
  pub space : AddrSpace
  pub backing : BackingStore
  pub memory : ℕ → ℕ
  pub manager : MemoryManager

abbrev pub new_entry : ℕ → TranslationEntry
new_entry i = record {
  virtual_page = pos i;
  physical_page = negsuc 0;
  valid = false;
  used = false;
  dirty = false;
  read_only = false;
}

-- The loop over the new page table: `n` entries from page `i` on.
unfoldable pub new_entries : ℕ → ℕ → List TranslationEntry
new_entries zero i = []
new_entries (suc n) i = new_entry i ∷ new_entries n (suc i)

-- The size of the address space, an unsigned int, in bytes of its segments and in pages.
abbrev pub image_size : NoffHeader → ℕ
image_size h = (h.code.size + h.init_data.size + h.uninit_data.size + user_stack_size) % 2 ^ 32

abbrev pub image_pages : NoffHeader → ℕ
image_pages h = div_round_up (image_size h) 128

-- AddrSpace::Initialize, without the creation of the backing file: `hand` is what the new `clock_hand`
-- holds.
unfoldable pub initialize : OpenFile → Sectors → (ℕ → ℕ) → (ℕ → ℕ) → ℕ → Option AddrSpace
initialize executable d garbage stack hand = read_header executable d garbage stack >>= λ h.
    some (record {
      clock_hand = hand;
      page_table = new_entries (image_pages h) 0;
      num_pages = image_pages h;
    })

-- Write an entry of the page table.
abbrev pub put_page : Paging → ℕ → TranslationEntry → Paging
put_page s i e = record s { space = record s.space { page_table = set s.space.page_table i e } }

abbrev pub page_of : Paging → ℕ → Option TranslationEntry
page_of s i = get_elem? s.space.page_table i

-- pageTable[page_num].physicalPage = memmanage->AllocPage();
unfoldable pub take_page : ℕ → Paging → Option (ℤ × Paging)
take_page i s = alloc_page s.manager >>= λ (p, m). page_of s i >>= λ e.
    some (p, put_page (record s { manager = m }) i (record e { physical_page = p }))

-- ClearPage();
unfoldable pub make_room : ℕ → Bool → Paging → Option Paging
make_room fuel use_fifo s =
    clear_page fuel use_fifo s.space s.backing s.memory s.manager >>= λ (a, b, m).
    some (record s { space = a; backing = b; manager = m })

-- The third, the second and the first try to get a frame for a page that has been in memory before.
abbrev pub if_taken : ℤ × Paging → Option Paging → Option Paging
if_taken (pos p, s) other = some s
if_taken (negsuc n, s) other = other

unfoldable pub third_try : ℕ → Paging → Option Paging
third_try i s = take_page i s >>= λ r. if_taken r none

unfoldable pub second_try : ℕ → Bool → ℕ → Paging → Option Paging
second_try fuel use_fifo i s =
    take_page i s >>= λ r. if_taken r (make_room fuel use_fifo r.1 >>= third_try i)

unfoldable pub first_try : ℕ → Bool → ℕ → Paging → Option Paging
first_try fuel use_fifo i s =
    take_page i s >>= λ r. if_taken r (make_room fuel use_fifo r.1 >>= second_try fuel use_fifo i)

-- backing->PageIn(&pageTable[page_num]);
unfoldable pub bring_in : ℕ → Paging → Option Paging
bring_in i s = page_of s i >>= λ e.
    page_in s.backing s.memory e e.virtual_page e.physical_page >>= λ (mem, e').
    some (put_page (record s { memory = mem }) i e')

-- The branch for a page that has been in memory before.
unfoldable pub reload : ℕ → Bool → ℕ → Paging → TranslationEntry → Option (Bool × Paging)
reload fuel use_fifo i s e =
    first_try fuel use_fifo i (put_page s i (record e { valid = false })) >>= bring_in i >>= λ s1.
    some (true, s1)

-- The two tries of the other branch, which gives up if the second fails.
abbrev pub unless_taken : ℤ × Paging → Option (ℤ × Paging) → Option (ℤ × Paging)
unless_taken (pos p, s) other = some (pos p, s)
unless_taken (negsuc n, s) other = other

unfoldable pub two_tries : ℕ → Bool → ℕ → Paging → Option (ℤ × Paging)
two_tries fuel use_fifo i s =
    take_page i s >>= λ r. unless_taken r (make_room fuel use_fifo r.1 >>= take_page i)

-- Fill the frame that the page has got, and mark the entry dirty and valid.
unfoldable pub load_page :
    OpenFile → Sectors → (ℕ → ℕ) → NoffHeader → ℕ → ℤ × Paging → Option (Bool × Paging)
load_page f d garbage h i (negsuc n, s) = some (false, s)
load_page f d garbage h i (pos p, s) =
    fill_page f d garbage h s.memory (p * 128) (i * 128) >>= λ mem. page_of s i >>= λ e.
    some (true, put_page (record s { memory = mem }) i (record e { dirty = true; valid = true }))

-- The branch for a page that has never been in memory.
unfoldable pub first_load :
    OpenFile → Sectors → (ℕ → ℕ) → (ℕ → ℕ) → ℕ → Bool → ℕ → Paging → Option (Bool × Paging)
first_load f d garbage stack fuel use_fifo i s =
    read_header f d garbage stack >>= λ h. two_tries fuel use_fifo i s >>= load_page f d garbage h i

-- AddrSpace::demandpage
unfoldable pub demandpage :
    OpenFile → Sectors → (ℕ → ℕ) → (ℕ → ℕ) → ℕ → Bool → ℕ → Paging → Option (Bool × Paging)
demandpage f d garbage stack fuel use_fifo i s = page_of s i >>= λ e.
    if is_resident e.physical_page
    then reload fuel use_fifo i s e
    else first_load f d garbage stack fuel use_fifo i s

-- if (pageTable[page].valid && pageTable[page].physicalPage >= 0) memmanage->FreePage(...);
abbrev pub free_if : Bool → ℤ → MemoryManager → Option MemoryManager
free_if true (pos p) m = free_page m (pos p)
free_if true (negsuc n) m = some m
free_if false p m = some m

-- The loop of ClearState, `n` rounds from page `i` on.
unfoldable pub clear_pages : ℕ → ℕ → List TranslationEntry → MemoryManager → Option MemoryManager
clear_pages zero i table m = some m
clear_pages (suc n) i table m =
    get_elem? table i >>= λ e. free_if e.valid e.physical_page m >>= clear_pages n (suc i) table

-- AddrSpace::ClearState
unfoldable pub clear_state : AddrSpace → MemoryManager → Option MemoryManager
clear_state a m = clear_pages a.num_pages 0 a.page_table m
