-- ===== src/Machine/Execute.antt =====
-- `Machine::OneInstruction` of code/machine/mipssim.cc, one clause for each case of its switch.
-- The debugging output and the printing of the instruction are left out.
pub mod Switch
pub mod Keeps
pub mod Advance
use jalepenos.Base.{
  ℕ, zero, suc, ◌+◌, ◌-◌, ◌*◌, ◌/◌, ◌%◌, ◌^◌, Bool, true, false, not, ◌&&◌, ◌||◌, Option, none,
  some, ltb, ◌==◌, if◌then◌else◌, bit_and, bit_or, bit_xor,
}
use jalepenos.Machine.{
  Machine, ExceptionType, syscall_exception, address_error_exception, overflow_exception,
  illegal_instr_exception, reg, put, r31, hi_reg, lo_reg, pc_reg, next_pc_reg, prev_pc_reg,
  load_reg, load_value_reg, delayed_load, raise_exception,
}
use jalepenos.Machine.Translate.{Access, raised, done, read_mem, write_mem}
use jalepenos.Machine.Words.{
  add, sub, shl, sar, complement, has_sign, signed_lt, add_overflows, sub_overflows, signed_div,
}
use jalepenos.Machine.Mult.{Double, mult}
use jalepenos.Machine.Instruction.{Instruction}

-- What the switch comes to: the end of the routine, with the delayed load to record and the next
-- program counter; a call of `RaiseException` and a return, with the state in which the kernel's
-- handler starts; or a failed ASSERT or a trap of the host.
pub data Effect : Type 0 where
  complete : Machine → ℕ → ℕ → ℕ → Effect
  trap : ExceptionType → Machine → Effect
  abort : Effect

-- An instruction with no delayed load and no jump.
unfoldable pub advance : Machine → Effect
advance m = complete m 0 0 (add (reg m next_pc_reg) 4)

abbrev pub jump : Machine → ℕ → Effect
jump m target = complete m 0 0 target

unfoldable pub raise : Machine → ExceptionType → ℕ → Effect
raise m e bad_vaddr = trap e (raise_exception m bad_vaddr)

-- IndexToAddr
abbrev pub index_to_addr : ℕ → ℕ
index_to_addr x = shl x 2

-- The target of a branch that is taken or not.
unfoldable pub branch : Machine → Instruction → Bool → Effect
branch m i taken =
    jump m
      (if taken then add (reg m next_pc_reg) (index_to_addr i.extra) else add (reg m next_pc_reg) 4)

-- registers[R31] = registers[NextPCReg] + 4;
abbrev pub link : Machine → Machine
link m = put m r31 (add (reg m next_pc_reg) 4)

-- A result that overflow suppresses.
unfoldable pub checked : Machine → ℕ → Bool → ℕ → Effect
unfolding raise advance
checked m target overflows value =
    if overflows then raise m overflow_exception 0 else advance (put m target value)

abbrev pub of_bool : Bool → ℕ
of_bool b = if b then 1 else 0

-- What follows a read or write of memory by the instruction.
unfoldable pub after_access : {A : Type 0} → Option (Access A) → (A → Machine → Effect) → Effect
after_access none next = abort
after_access (some (raised e m)) next = trap e m
after_access (some (done a m)) next = next a m

-- The end of a load into `rt`.
abbrev pub record_load : Instruction → ℕ → Machine → Effect
record_load i value m = complete m i.rt value (add (reg m next_pc_reg) 4)

-- The extension of the byte or half word that was read.
unfoldable pub extend_byte : Bool → ℕ → ℕ
extend_byte signed value =
    if not (bit_and value 0x80 == 0) && signed then bit_or value 0xffff_ff00 else bit_and value 0xff

unfoldable pub extend_half : Bool → ℕ → ℕ
extend_half signed value =
    if not (bit_and value 0x8000 == 0) && signed
    then bit_or value 0xffff_0000
    else bit_and value 0xffff

abbrev pub address : Machine → Instruction → ℕ
address m i = add (reg m i.rs) i.extra

unfoldable pub load_byte : Machine → Instruction → Bool → Effect
unfolding after_access extend_byte
load_byte m i signed =
    after_access (read_mem m (address m i) 1) λ v m'. record_load i (extend_byte signed v) m'

unfoldable pub load_half : Machine → Instruction → Bool → Effect
unfolding after_access extend_half raise
load_half m i signed =
    if not (bit_and (address m i) 1 == 0)
    then raise m address_error_exception (address m i)
    else after_access (read_mem m (address m i) 2) λ v m'. record_load i (extend_half signed v) m'

unfoldable pub load_word : Machine → Instruction → Effect
unfolding after_access raise
load_word m i =
    if not (bit_and (address m i) 3 == 0)
    then raise m address_error_exception (address m i)
    else after_access (read_mem m (address m i) 4) λ v m'. record_load i v m'

-- The value of `rt` that LWL and LWR merge with: the pending load's, if it is for `rt`.
abbrev pub pending_value : Machine → Instruction → ℕ
pending_value m i = if reg m load_reg == i.rt then reg m load_value_reg else reg m i.rt

-- The switch on `tmp & 0x3` of LWL, LWR, SWL and SWR; `value` is an `int`.
unfoldable pub merge_lwl : ℕ → ℕ → ℕ → ℕ
merge_lwl low old value =
    if low == 0
    then value
    else if low == 1
    then bit_or (bit_and old 0xff) (shl value 8)
    else if low == 2
    then bit_or (bit_and old 0xffff) (shl value 16)
    else bit_or (bit_and old 0xff_ffff) (shl value 24)

unfoldable pub merge_lwr : ℕ → ℕ → ℕ → ℕ
merge_lwr low old value =
    if low == 0
    then bit_or (bit_and old 0xffff_ff00) (bit_and (sar value 24) 0xff)
    else if low == 1
    then bit_or (bit_and old 0xffff_0000) (bit_and (sar value 16) 0xffff)
    else if low == 2
    then bit_or (bit_and old 0xff00_0000) (bit_and (sar value 8) 0xff_ffff)
    else value

unfoldable pub merge_swl : ℕ → ℕ → ℕ → ℕ
merge_swl low value source =
    if low == 0
    then source
    else if low == 1
    then bit_or (bit_and value 0xff00_0000) (bit_and (sar source 8) 0xff_ffff)
    else if low == 2
    then bit_or (bit_and value 0xffff_0000) (bit_and (sar source 16) 0xffff)
    else bit_or (bit_and value 0xffff_ff00) (bit_and (sar source 24) 0xff)

unfoldable pub merge_swr : ℕ → ℕ → ℕ → ℕ
merge_swr low value source =
    if low == 0
    then bit_or (bit_and value 0xff_ffff) (shl source 24)
    else if low == 1
    then bit_or (bit_and value 0xffff) (shl source 16)
    else if low == 2
    then bit_or (bit_and value 0xff) (shl source 8)
    else source

unfoldable pub load_partial : Machine → Instruction → (ℕ → ℕ → ℕ → ℕ) → Effect
unfolding after_access
load_partial m i merge =
    let low = bit_and (address m i) 3 in
    if not (low == 0)
    then abort
    else after_access (read_mem m (address m i) 4)
        λ v m'. record_load i (merge low (pending_value m' i) v) m'

unfoldable pub store : Machine → Instruction → ℕ → Effect
unfolding after_access advance
store m i size = after_access (write_mem m (address m i) size (reg m i.rt)) λ _ m'. advance m'

unfoldable pub store_partial : Machine → Instruction → (ℕ → ℕ → ℕ → ℕ) → Effect
unfolding after_access advance
store_partial m i merge =
    let low = bit_and (address m i) 3 in
    let aligned = bit_and (address m i) 0xffff_fffc in
    if not (low == 0)
    then abort
    else after_access (read_mem m aligned 4) λ v m'.
      after_access (write_mem m' aligned 4 (merge low v (reg m' i.rt))) λ _ m''. advance m''

-- registers[LoReg] and registers[HiReg].
abbrev pub put_hi_lo : Machine → ℕ → ℕ → Machine
put_hi_lo m hi lo = put (put m lo_reg lo) hi_reg hi

unfoldable pub divide : Machine → Option (ℕ × ℕ) → Effect
unfolding advance
divide m none = abort
divide m (some (quotient, remainder)) = advance (put_hi_lo m remainder quotient)

unfoldable pub multiply : Machine → Double → Effect
unfolding advance
multiply m d = advance (put (put m hi_reg d.hi) lo_reg d.lo)
