-- ===== src/Machine/Execute/Switch.antt =====
-- The switch of `Machine::OneInstruction`, and the fetch before and the bookkeeping after it.
use jalepenos.Base.{
  ℕ, ◌/◌, ◌%◌, true, false, not, ◌&&◌, Option, none, some, ltb, ◌==◌, if◌then◌else◌, bit_and,
  bit_or, bit_xor,
}
use jalepenos.Machine.{
  Machine, ExceptionType, syscall_exception, illegal_instr_exception, reg, put, hi_reg, lo_reg,
  pc_reg, next_pc_reg, prev_pc_reg, delayed_load,
}
use jalepenos.Machine.Translate.{Access, raised, done, read_mem}
use jalepenos.Machine.Words.{
  add, sub, shl, sar, complement, has_sign, signed_lt, add_overflows, sub_overflows, signed_div,
}
use jalepenos.Machine.Mult.{mult}
use jalepenos.Machine.Execute.{
  Effect, complete, trap, abort, advance, jump, raise, index_to_addr, branch, link, checked,
  of_bool, load_byte, load_half, load_word, merge_lwl, merge_lwr, merge_swl, merge_swr,
  load_partial, store, store_partial, divide, multiply,
}
use jalepenos.Machine.Instruction.{
  Instruction, OpCode, op_add, op_addi, op_addiu, op_addu, op_and, op_andi, op_beq, op_bgez,
  op_bgezal, op_bgtz, op_blez, op_bltz, op_bltzal, op_bne, op_div, op_divu, op_j, op_jal, op_jalr,
  op_jr, op_lb, op_lbu, op_lh, op_lhu, op_lui, op_lw, op_lwl, op_lwr, op_mfhi, op_mflo, op_mthi,
  op_mtlo, op_mult, op_multu, op_nor, op_or, op_ori, op_rfe, op_sb, op_sh, op_sll, op_sllv, op_slt,
  op_slti, op_sltiu, op_sltu, op_sra, op_srav, op_srl, op_srlv, op_sub, op_subu, op_sw, op_swl,
  op_swr, op_xor, op_xori, op_syscall, op_unimp, op_res, special, bcond, decode,
}

-- registers[rd] = value; and registers[rt] = value;
abbrev set_rd : Machine → Instruction → ℕ → Effect
set_rd m i value = advance (put m i.rd value)

abbrev set_rt : Machine → Instruction → ℕ → Effect
set_rt m i value = advance (put m i.rt value)

-- `registers[instr->rs]` and `registers[instr->rt]`.
abbrev rs_of : Machine → Instruction → ℕ
rs_of m i = reg m i.rs

abbrev rt_of : Machine → Instruction → ℕ
rt_of m i = reg m i.rt

-- (pcAfter & 0xf0000000) | IndexToAddr(instr->extra)
abbrev jump_target : Machine → Instruction → ℕ
jump_target m i = bit_or (bit_and (add (reg m next_pc_reg) 4) 0xf000_0000) (index_to_addr i.extra)

-- The second half of JALR, after it has written `rd`.
abbrev jump_rs : Instruction → Machine → Effect
jump_rs i m = jump m (rs_of m i)

unfoldable pub execute : OpCode → Machine → Instruction → Effect
unfolding advance raise branch checked add_overflows sub_overflows
execute op_add m i =
    let sum = add (rs_of m i) (rt_of m i) in
    checked m i.rd (add_overflows (rs_of m i) (rt_of m i) sum) sum
execute op_addi m i =
    let sum = add (rs_of m i) i.extra in
    checked m i.rt (not (has_sign (bit_xor (rs_of m i) i.extra)) && has_sign (bit_xor i.extra sum))
      sum
execute op_addiu m i = set_rt m i (add (rs_of m i) i.extra)
execute op_addu m i = set_rd m i (add (rs_of m i) (rt_of m i))
execute op_and m i = set_rd m i (bit_and (rs_of m i) (rt_of m i))
execute op_andi m i = set_rt m i (bit_and (rs_of m i) (bit_and i.extra 0xffff))
execute op_beq m i = branch m i (rs_of m i == rt_of m i)
execute op_bgezal m i = branch (link m) i (not (has_sign (rs_of (link m) i)))
execute op_bgez m i = branch m i (not (has_sign (rs_of m i)))
execute op_bgtz m i = branch m i (signed_lt 0 (rs_of m i))
execute op_blez m i = branch m i (not (signed_lt 0 (rs_of m i)))
execute op_bltzal m i = branch (link m) i (has_sign (rs_of (link m) i))
execute op_bltz m i = branch m i (has_sign (rs_of m i))
execute op_bne m i = branch m i (not (rs_of m i == rt_of m i))
execute op_div m i =
    if rt_of m i == 0 then divide m (some (0, 0)) else divide m (signed_div (rs_of m i) (rt_of m i))
execute op_divu m i =
    if rt_of m i == 0
    then divide m (some (0, 0))
    else divide m (some (rs_of m i / rt_of m i, rs_of m i % rt_of m i))
execute op_jal m i = jump (link m) (jump_target m i)
execute op_j m i = jump m (jump_target m i)
execute op_jalr m i = jump_rs i (put m i.rd (add (reg m next_pc_reg) 4))
execute op_jr m i = jump_rs i m
execute op_lb m i = load_byte m i true
execute op_lbu m i = load_byte m i false
execute op_lh m i = load_half m i true
execute op_lhu m i = load_half m i false
execute op_lui m i = set_rt m i (shl i.extra 16)
execute op_lw m i = load_word m i
execute op_lwl m i = load_partial m i merge_lwl
execute op_lwr m i = load_partial m i merge_lwr
execute op_mfhi m i = set_rd m i (reg m hi_reg)
execute op_mflo m i = set_rd m i (reg m lo_reg)
execute op_mthi m i = advance (put m hi_reg (rs_of m i))
execute op_mtlo m i = advance (put m lo_reg (rs_of m i))
execute op_mult m i = multiply m (mult (rs_of m i) (rt_of m i) true)
execute op_multu m i = multiply m (mult (rs_of m i) (rt_of m i) false)
execute op_nor m i = set_rd m i (complement (bit_or (rs_of m i) (rt_of m i)))
execute op_or m i = set_rd m i (bit_or (rs_of m i) (rs_of m i))
execute op_ori m i = set_rt m i (bit_or (rs_of m i) (bit_and i.extra 0xffff))
execute op_sb m i = store m i 1
execute op_sh m i = store m i 2
execute op_sll m i = set_rd m i (shl (rt_of m i) i.extra)
execute op_sllv m i = set_rd m i (shl (rt_of m i) (bit_and (rs_of m i) 0x1f))
execute op_slt m i = set_rd m i (of_bool (signed_lt (rs_of m i) (rt_of m i)))
execute op_slti m i = set_rt m i (of_bool (signed_lt (rs_of m i) i.extra))
execute op_sltiu m i = set_rt m i (of_bool (ltb (rs_of m i) i.extra))
execute op_sltu m i = set_rd m i (of_bool (ltb (rs_of m i) (rt_of m i)))
execute op_sra m i = set_rd m i (sar (rt_of m i) i.extra)
execute op_srav m i = set_rd m i (sar (rt_of m i) (bit_and (rs_of m i) 0x1f))
execute op_srl m i = set_rd m i (sar (rt_of m i) i.extra)
execute op_srlv m i = set_rd m i (sar (rt_of m i) (bit_and (rs_of m i) 0x1f))
execute op_sub m i =
    let diff = sub (rs_of m i) (rt_of m i) in
    checked m i.rd (sub_overflows (rs_of m i) (rt_of m i) diff) diff
execute op_subu m i = set_rd m i (sub (rs_of m i) (rt_of m i))
execute op_sw m i = store m i 4
execute op_swl m i = store_partial m i merge_swl
execute op_swr m i = store_partial m i merge_swr
execute op_syscall m i = raise m syscall_exception 0
execute op_xor m i = set_rd m i (bit_xor (rs_of m i) (rt_of m i))
execute op_xori m i = set_rt m i (bit_xor (rs_of m i) (bit_and i.extra 0xffff))
execute op_res m i = raise m illegal_instr_exception 0
execute op_unimp m i = raise m illegal_instr_exception 0
execute op_rfe m i = abort
execute special m i = abort
execute bcond m i = abort

-- How `OneInstruction` ends: it completes, it has called the kernel's handler, or it is stopped by
-- an ASSERT or the host.
pub data Outcome : Type 0 where
  completed : Machine → Outcome
  trapped : ExceptionType → Machine → Outcome
  aborted : Outcome

-- The delayed load, and the program counters.
unfoldable pub finish : Effect → Outcome
finish (complete m next_load_reg next_load_value pc_after) =
    let m1 = delayed_load m next_load_reg next_load_value in
    let m2 = put m1 prev_pc_reg (reg m1 pc_reg) in
    let m3 = put m2 pc_reg (reg m2 next_pc_reg) in completed (put m3 next_pc_reg pc_after)
finish (trap e m) = trapped e m
finish abort = aborted

unfoldable pub run_fetched : Option (Access ℕ) → Outcome
unfolding finish
run_fetched none = aborted
run_fetched (some (raised e m)) = trapped e m
run_fetched (some (done raw m)) = let i = decode raw in finish (execute i.op_code m i)

unfoldable pub one_instruction : Machine → Outcome
unfolding run_fetched
one_instruction m = run_fetched (read_mem m (reg m pc_reg) 4)
