-- ===== src/Machine.antt =====
-- code/machine/machine.h and machine.cc: the user-visible state of the simulated MIPS machine.
-- A register is the bit pattern of an `int`, a number below 2 ^ 32; memory is an array of bytes.
-- A failed ASSERT, and an access outside an array, is `none`.
pub mod Translate
pub mod Words
pub mod Mult
pub mod Instruction
pub mod Execute
use jalepenos.Base.{
  ℕ, ◌+◌, ◌-◌, ◌*◌, ◌/◌, ◌%◌, ◌^◌, Bool, true, false, List, Option, none, some, ltb, ◌==◌,
  if◌then◌else◌, update,
}
use jalepenos.Base.Int.{ℤ, pos, negsuc}

abbrev pub word_size : ℕ
word_size = 2 ^ 32

abbrev pub page_size : ℕ
page_size = 128

abbrev pub num_phys_pages : ℕ
num_phys_pages = 4

abbrev pub memory_size : ℕ
memory_size = 512

abbrev pub tlb_size : ℕ
tlb_size = 4

pub data ExceptionType : Type 0 where
  syscall_exception page_fault_exception read_only_exception bus_error_exception : ExceptionType
  address_error_exception overflow_exception illegal_instr_exception : ExceptionType

-- `used` is the bit `use`.
pub record TranslationEntry : Type 0 where
  pub virtual_page : ℤ
  pub physical_page : ℤ
  pub valid : Bool
  pub read_only : Bool
  pub used : Bool
  pub dirty : Bool

abbrev pub stack_reg : ℕ
stack_reg = 29

abbrev pub r31 : ℕ
r31 = 31

abbrev pub hi_reg : ℕ
hi_reg = 32

abbrev pub lo_reg : ℕ
lo_reg = 33

abbrev pub pc_reg : ℕ
pc_reg = 34

abbrev pub next_pc_reg : ℕ
next_pc_reg = 35

abbrev pub prev_pc_reg : ℕ
prev_pc_reg = 36

abbrev pub load_reg : ℕ
load_reg = 37

abbrev pub load_value_reg : ℕ
load_value_reg = 38

abbrev pub bad_vaddr_reg : ℕ
bad_vaddr_reg = 39

abbrev pub num_total_regs : ℕ
num_total_regs = 40

-- `none` is a NULL table.
pub record Machine : Type 0 where
  pub registers : ℕ → ℕ
  pub main_memory : ℕ → ℕ
  pub tlb : Option (List TranslationEntry)
  pub page_table : Option (List TranslationEntry)
  pub page_table_size : ℕ

-- The constructor, with a linear page table; the member `pageTableSize` is not set there.
unfoldable pub init : ℕ → Machine
init size = record {
  registers = λ _. 0;
  main_memory = λ _. 0;
  tlb = none;
  page_table = none;
  page_table_size = size;
}

abbrev pub reg : Machine → ℕ → ℕ
reg m r = m.registers r

abbrev pub put : Machine → ℕ → ℕ → Machine
put m r v = record m { registers = update m.registers r v }

unfoldable pub read_register : Machine → ℕ → Option ℕ
read_register m num = if ltb num num_total_regs then some (reg m num) else none

unfoldable pub write_register : Machine → ℕ → ℕ → Option Machine
write_register m num value = if ltb num num_total_regs then some (put m num value) else none

-- The load that the previous instruction left pending takes effect, and the next one is recorded.
unfoldable pub delayed_load : Machine → ℕ → ℕ → Machine
delayed_load m next_reg next_value =
    let loaded = put m (reg m load_reg) (reg m load_value_reg) in
    put (put (put loaded load_reg next_reg) load_value_reg next_value) 0 0

-- The state in which `RaiseException` enters the kernel's handler.
unfoldable pub raise_exception : Machine → ℕ → Machine
unfolding delayed_load
raise_exception m bad_vaddr = delayed_load (put m bad_vaddr_reg bad_vaddr) 0 0
