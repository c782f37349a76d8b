-- ===== src/AddrSpace.antt =====
-- The clock of code/userprog/addrspace.cc, `AddrSpace::ClearPage`, and the paging of
-- code/userprog/backingstore.cc. The backing file is the bytes that it holds, as long as the address
-- space; the counters of the statistics are left out. An index outside a table, a failed ASSERT and
-- the overflow of an int are `none`.
pub mod Clock
pub mod Paging
pub mod Program
pub mod Demand
pub mod Frames
pub mod Contents
pub mod Room
pub mod Takes
pub mod Tries
pub mod Image
pub mod Resident
pub mod Fault
pub mod Spin
pub mod Release
pub mod Fresh
pub mod Resume
use jalepenos.Base.{
  ℕ, zero, suc, ◌+◌, ◌-◌, ◌*◌, ◌%◌, ◌^◌, Bool, true, false, not, ◌&&◌, ◌||◌, List, Option, none,
  some, ltb, leb, if◌then◌else◌, ◌>>=◌, get_elem?, set,
}
use jalepenos.Base.Int.{ℤ, pos, negsuc}
use jalepenos.Machine.{TranslationEntry}
use jalepenos.MemManage.{MemoryManager, free_page}

pub record AddrSpace : Type 0 where
  pub clock_hand : ℕ
  pub page_table : List TranslationEntry
  pub num_pages : ℕ

abbrev pub is_resident : ℤ → Bool
is_resident (pos p) = true
is_resident (negsuc p) = false

-- The condition under which the clock takes an entry.
unfoldable pub is_victim : Bool → TranslationEntry → Bool
is_victim use_fifo e = (e.valid && (not e.used || use_fifo)) && is_resident e.physical_page

-- `pageTable[clock_hand].use = 0`, and the step of the hand.
abbrev pub pass_over : AddrSpace → TranslationEntry → AddrSpace
pass_over a e = record a {
  page_table = set a.page_table a.clock_hand (record e { used = false });
  clock_hand = suc a.clock_hand % a.num_pages;
}

-- The loop of ClearPage up to the call of PageOut, on fuel: the entry to page out, with the table
-- and the hand at that point.
unfoldable pub clock_loop : ℕ → Bool → AddrSpace → Option (TranslationEntry × AddrSpace)
clock_loop zero use_fifo a = none
clock_loop (suc fuel) use_fifo a = get_elem? a.page_table a.clock_hand >>= λ e.
    let rest = clock_loop fuel use_fifo (pass_over a e) in
    if is_victim use_fifo e then some (e, a) else rest

pub record BackingStore : Type 0 where
  pub file : ℕ → ℕ

-- The copy of one page of bytes to `to` from `from`.
abbrev pub copy_page : (ℕ → ℕ) → ℕ → (ℕ → ℕ) → ℕ → ℕ → ℕ
copy_page target to source from q =
    if leb to q && ltb q (to + 128) then source (from + (q - to)) else target q

-- `virtualPage * PageSize` is an int.
abbrev pub is_place : ℕ → Bool
is_place virtual = ltb (virtual * 128) (2 ^ 31)

-- PageOut without the call of FreePage.
unfoldable pub write_page : BackingStore → (ℕ → ℕ) → TranslationEntry → ℕ → ℕ → BackingStore
write_page b memory e virtual physical =
    if e.dirty
    then record { file = copy_page b.file (virtual * 128) memory (physical * 128) }
    else b

unfoldable pub page_out :
    BackingStore
    → (ℕ → ℕ)
    → MemoryManager
    → TranslationEntry
    → ℤ
    → ℤ
    → Option (BackingStore × MemoryManager × TranslationEntry)
unfolding write_page
page_out b memory m e (pos virtual) (pos physical) = free_page m (pos physical) >>= λ m'.
    if e.dirty && not (is_place virtual)
    then none
    else some (write_page b memory e virtual physical, m', record e { valid = false })
page_out b memory m e (pos virtual) (negsuc physical) = none
page_out b memory m e (negsuc virtual) physical = none

unfoldable pub page_in :
    BackingStore → (ℕ → ℕ) → TranslationEntry → ℤ → ℤ → Option ((ℕ → ℕ) × TranslationEntry)
page_in b memory e (pos virtual) (pos physical) =
    if is_place virtual
    then some (
      copy_page memory (physical * 128) b.file (virtual * 128),
      record e { valid = true; dirty = false },
    )
    else none
page_in b memory e (pos virtual) (negsuc physical) = none
page_in b memory e (negsuc virtual) physical = none

-- ClearPage: the clock, PageOut of the entry that it found, and the entry's change in the table.
unfoldable pub clear_page :
    ℕ
    → Bool
    → AddrSpace
    → BackingStore
    → (ℕ → ℕ)
    → MemoryManager
    → Option (AddrSpace × BackingStore × MemoryManager)
unfolding page_out
clear_page fuel use_fifo a b memory m = clock_loop fuel use_fifo a >>= λ (e, a1).
    page_out b memory m e e.virtual_page e.physical_page >>= λ (b', m', e').
    some (record a1 { page_table = set a1.page_table a1.clock_hand e' }, b', m')
