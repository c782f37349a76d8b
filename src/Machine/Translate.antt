-- ===== src/Machine/Translate.antt =====
-- code/machine/translate.h and translate.cc: address translation, and memory as the CPU sees it.
-- The host is little endian, so the byte-order routines change nothing; `char` is signed there.
pub mod Frames
pub mod Memory
pub mod Registers
use jalepenos.Base.{
  ℕ, zero, suc, ◌+◌, ◌-◌, ◌*◌, ◌/◌, ◌%◌, ◌^◌, Bool, true, false, not, ◌&&◌, ◌||◌, List, [], ◌∷◌,
  Option, none, some, ltb, leb, ◌==◌, if◌then◌else◌, update, ◌>>=◌, get_elem?, set, bit_and,
}
use jalepenos.Base.Int.{ℤ, pos, negsuc}
use jalepenos.Machine.{
  Machine, TranslationEntry, ExceptionType, page_fault_exception, read_only_exception,
  bus_error_exception, address_error_exception, word_size, page_size, num_phys_pages, memory_size,
  raise_exception,
}

-- `(unsigned int) i`
unfoldable pub to_unsigned : ℤ → ℕ
to_unsigned (pos n) = n % word_size
to_unsigned (negsuc n) = word_size - 1 - n % word_size

-- ((size == 4) && (virtAddr & 0x3)) || ((size == 2) && (virtAddr & 0x1))
unfoldable pub misaligned : ℕ → ℕ → Bool
misaligned virt_addr size =
    ((size == 4) && not (bit_and virt_addr 3 == 0))
    || ((size == 2) && not (bit_and virt_addr 1 == 0))

-- An entry of the table in use, with its index, or the exception that its lack raises.
pub data Lookup : Type 0 where
  missing : ExceptionType → Lookup
  entry_at : ℕ → TranslationEntry → Lookup

-- The loop over the TLB, from index `i` on.
pub tlb_search : List TranslationEntry → ℕ → ℕ → Lookup
tlb_search [] i vpn = missing page_fault_exception
tlb_search (e ∷ es) i vpn =
    if e.valid && (to_unsigned e.virtual_page == vpn)
    then entry_at i e
    else tlb_search es (suc i) vpn

pub page_entry : Option TranslationEntry → ℕ → Option Lookup
page_entry none vpn = none
page_entry (some e) vpn =
    some (if not e.valid then missing page_fault_exception else entry_at vpn e)

-- The choice between the TLB and the page table, with the two ASSERTs on them.
pub find_entry :
    Option (List TranslationEntry) → Option (List TranslationEntry) → ℕ → ℕ → Option Lookup
find_entry none none size vpn = none
find_entry (some tlb) (some table) size vpn = none
find_entry none (some table) size vpn =
    if leb size vpn
    then some (missing address_error_exception)
    else page_entry (get_elem? table vpn) vpn
find_entry (some tlb) none size vpn = some (tlb_search tlb 0 vpn)

pub write_table :
    ℕ → TranslationEntry → Option (List TranslationEntry) → Option (List TranslationEntry)
write_table i e none = none
write_table i e (some es) = some (set es i e)

-- The entry is written where it was found: the other table is NULL.
unfoldable pub write_entry : Machine → ℕ → TranslationEntry → Machine
unfolding write_table
write_entry m i e = record m {
  tlb = write_table i e m.tlb;
  page_table = write_table i e m.page_table;
}

pub data Translation : Type 0 where
  fault : ExceptionType → Translation
  translated : ℕ → Machine → Translation

-- The checks on an entry that was found, and its use and dirty bits.
unfoldable pub use_entry : Machine → ℕ → TranslationEntry → ℕ → ℕ → Bool → Option Translation
unfolding to_unsigned
use_entry m i e offset size writing =
    let page_frame = to_unsigned e.physical_page in
    let phys_addr = page_frame * page_size + offset in
    if e.read_only && writing
    then some (fault read_only_exception)
    else if leb num_phys_pages page_frame
    then some (fault bus_error_exception)
    else if leb (phys_addr + size) memory_size
    then some (
        translated phys_addr
          (write_entry m i (record e { used = true; dirty = e.dirty || writing })))
    else none

pub use_lookup : Machine → Option Lookup → ℕ → ℕ → Bool → Option Translation
use_lookup m none offset size writing = none
use_lookup m (some (missing e)) offset size writing = some (fault e)
use_lookup m (some (entry_at i e)) offset size writing = use_entry m i e offset size writing

unfoldable pub translate : Machine → ℕ → ℕ → Bool → Option Translation
translate m virt_addr size writing =
    if misaligned virt_addr size
    then some (fault address_error_exception)
    else use_lookup m (find_entry m.tlb m.page_table m.page_table_size (virt_addr / page_size))
        (virt_addr % page_size) size writing

-- A memory access either raised an exception, whose handler starts in the given state, or went
-- through.
pub data Access (A : Type 0) : Type 0 where
  raised : ExceptionType → Machine → Access A
  done : A → Machine → Access A

-- The conversion of a byte of `mainMemory`, a signed `char`, to `int`.
unfoldable pub char_to_int : ℕ → ℕ
char_to_int b = if ltb b 128 then b else b + (word_size - 256)

-- What the bytes at an address hold; `none` is ASSERT(FALSE).
unfoldable pub load_bytes : (ℕ → ℕ) → ℕ → ℕ → Option ℕ
unfolding char_to_int
load_bytes mem p size =
    if size == 1
    then some (char_to_int (mem p))
    else if size == 2
    then some (mem p + 256 * mem (p + 1))
    else if size == 4
    then some (mem p + 256 * mem (p + 1) + 65536 * mem (p + 2) + 16777216 * mem (p + 3))
    else none

unfoldable pub store_bytes : (ℕ → ℕ) → ℕ → ℕ → ℕ → Option (ℕ → ℕ)
store_bytes mem p size value =
    if size == 1
    then some (update mem p (value % 256))
    else if size == 2
    then some (update (update mem p (value % 256)) (p + 1) (value / 256 % 256))
    else if size == 4
    then some (
        update
          (update (update (update mem p (value % 256)) (p + 1) (value / 256 % 256)) (p + 2)
            (value / 65536 % 256))
          (p + 3) (value / 16777216 % 256))
    else none

-- What follows a translation: the kernel is entered on a fault.
pub access :
    {A : Type 0}
    → Machine
    → ℕ
    → Option Translation
    → (ℕ → Machine → Option (Access A))
    → Option (Access A)
access m addr none next = none
access m addr (some (fault e)) next = some (raised e (raise_exception m addr))
access m addr (some (translated p m')) next = next p m'

unfoldable pub read_mem : Machine → ℕ → ℕ → Option (Access ℕ)
unfolding access
read_mem m addr size =
    access m addr (translate m addr size false)
      λ p m'. do v ← load_bytes m'.main_memory p size; some (done v m')

unfoldable pub write_mem : Machine → ℕ → ℕ → ℕ → Option (Access (Unit {0}))
unfolding access
write_mem m addr size value = access m addr (translate m addr size true) λ p m'. do
  mem ← store_bytes m'.main_memory p size value
  some (done tt (record m' { main_memory = mem }))
