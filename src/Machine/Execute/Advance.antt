-- ===== src/Machine/Execute/Advance.antt =====
-- What every instruction does to the registers that the simulator itself uses.
use jalepenos.Base.{
  ℕ, ◌/◌, ◌^◌, ◌<◌, ◌≡◌, refl, sym, subst, true, false, Option, none, some, ◌==◌, arith, bit_and,
}
use jalepenos.Base.Bits.{bit_and_mask}
use jalepenos.Machine.{Machine, reg, load_reg, pc_reg, next_pc_reg, prev_pc_reg, delayed_load}
use jalepenos.Machine.Translate.{Access, raised, done}
use jalepenos.Machine.Translate.Registers.{
  IsTrapState, raise_exception-IsTrapState, AccessKeeps, read_mem-AccessKeeps,
}
use jalepenos.Machine.Execute.{Effect, complete, trap, abort}
use jalepenos.Machine.Execute.Switch.{
  execute, finish, run_fetched, one_instruction, Outcome, completed, trapped, aborted,
}
use jalepenos.Machine.Instruction.{
  Instruction, OpCode, op_add, op_addi, op_addiu, op_addu, op_and, op_andi, op_beq, op_bgez,
  op_bgezal, op_bgtz, op_blez, op_bltz, op_bltzal, op_bne, op_div, op_divu, op_j, op_jal, op_jalr,
  op_jr, op_lb, op_lbu, op_lh, op_lhu, op_lui, op_lw, op_lwl, op_lwr, op_mfhi, op_mflo, op_mthi,
  op_mtlo, op_mult, op_multu, op_nor, op_or, op_ori, op_rfe, op_sb, op_sh, op_sll, op_sllv, op_slt,
  op_slti, op_sltiu, op_sltu, op_sra, op_srav, op_srl, op_srlv, op_sub, op_subu, op_sw, op_swl,
  op_swr, op_xor, op_xori, op_syscall, op_unimp, op_res, special, bcond, decode,
}
use jalepenos.Machine.Execute.Keeps.{
  Keeps, if-Keeps, complete-Keeps, put-Keeps, advance-Keeps, checked-Keeps, branch-Keeps,
  branch-link-Keeps, divide-Keeps, multiply-Keeps, load_byte-Keeps, load_half-Keeps,
  load_word-Keeps, load_partial-Keeps, store-Keeps, store_partial-Keeps,
}

-- Every case of the switch.
execute-Keeps :
    (op : OpCode) (m : Machine) (i : Instruction)
    → i.rs < 32
    → i.rt < 32
    → i.rd < 32
    → Keeps m.registers (execute op m i)
unfolding execute
execute-Keeps op_add m i hs ht hd = checked-Keeps m i.rd _ _ (omega arith)
execute-Keeps op_addi m i hs ht hd = checked-Keeps m i.rt _ _ (omega arith)
execute-Keeps op_addiu m i hs ht hd = advance-Keeps m i.rt _ (omega arith)
execute-Keeps op_addu m i hs ht hd = advance-Keeps m i.rd _ (omega arith)
execute-Keeps op_and m i hs ht hd = advance-Keeps m i.rd _ (omega arith)
execute-Keeps op_andi m i hs ht hd = advance-Keeps m i.rt _ (omega arith)
execute-Keeps op_beq m i hs ht hd = branch-Keeps m i false
execute-Keeps op_bgez m i hs ht hd = branch-Keeps m i false
execute-Keeps op_bgezal m i hs ht hd = branch-link-Keeps m i false
execute-Keeps op_bgtz m i hs ht hd = branch-Keeps m i false
execute-Keeps op_blez m i hs ht hd = branch-Keeps m i false
execute-Keeps op_bltz m i hs ht hd = branch-Keeps m i false
execute-Keeps op_bltzal m i hs ht hd = branch-link-Keeps m i false
execute-Keeps op_bne m i hs ht hd = branch-Keeps m i false
execute-Keeps op_div m i hs ht hd =
    if-Keeps m.registers (reg m i.rt == 0) _ _ (divide-Keeps m (some (0, 0))) (divide-Keeps m _)
execute-Keeps op_divu m i hs ht hd =
    if-Keeps m.registers (reg m i.rt == 0) _ _ (divide-Keeps m (some (0, 0)))
      (divide-Keeps m (some _))
execute-Keeps op_j m i hs ht hd = complete-Keeps m m 0 0 0 (omega arith) refl
execute-Keeps op_jal m i hs ht hd = put-Keeps m 31 0 0 0 (omega arith)
execute-Keeps op_jalr m i hs ht hd = put-Keeps m i.rd _ 0 0 (omega arith)
execute-Keeps op_jr m i hs ht hd = complete-Keeps m m 0 0 0 (omega arith) refl
execute-Keeps op_lb m i hs ht hd = load_byte-Keeps m i hs ht hd true
execute-Keeps op_lbu m i hs ht hd = load_byte-Keeps m i hs ht hd false
execute-Keeps op_lh m i hs ht hd = load_half-Keeps m i hs ht hd true
execute-Keeps op_lhu m i hs ht hd = load_half-Keeps m i hs ht hd false
execute-Keeps op_lui m i hs ht hd = advance-Keeps m i.rt _ (omega arith)
execute-Keeps op_lw m i hs ht hd = load_word-Keeps m i hs ht hd
execute-Keeps op_lwl m i hs ht hd = load_partial-Keeps m i hs ht hd _
execute-Keeps op_lwr m i hs ht hd = load_partial-Keeps m i hs ht hd _
execute-Keeps op_mfhi m i hs ht hd = advance-Keeps m i.rd _ (omega arith)
execute-Keeps op_mflo m i hs ht hd = advance-Keeps m i.rd _ (omega arith)
execute-Keeps op_mthi m i hs ht hd = advance-Keeps m 32 0 (omega arith)
execute-Keeps op_mtlo m i hs ht hd = advance-Keeps m 33 0 (omega arith)
execute-Keeps op_mult m i hs ht hd = multiply-Keeps m _
execute-Keeps op_multu m i hs ht hd = multiply-Keeps m _
execute-Keeps op_nor m i hs ht hd = advance-Keeps m i.rd _ (omega arith)
execute-Keeps op_or m i hs ht hd = advance-Keeps m i.rd _ (omega arith)
execute-Keeps op_ori m i hs ht hd = advance-Keeps m i.rt _ (omega arith)
execute-Keeps op_rfe m i hs ht hd = tt
execute-Keeps op_sb m i hs ht hd = store-Keeps m i hs ht hd 1
execute-Keeps op_sh m i hs ht hd = store-Keeps m i hs ht hd 2
execute-Keeps op_sll m i hs ht hd = advance-Keeps m i.rd _ (omega arith)
execute-Keeps op_sllv m i hs ht hd = advance-Keeps m i.rd _ (omega arith)
execute-Keeps op_slt m i hs ht hd = advance-Keeps m i.rd _ (omega arith)
execute-Keeps op_slti m i hs ht hd = advance-Keeps m i.rt _ (omega arith)
execute-Keeps op_sltiu m i hs ht hd = advance-Keeps m i.rt _ (omega arith)
execute-Keeps op_sltu m i hs ht hd = advance-Keeps m i.rd _ (omega arith)
execute-Keeps op_sra m i hs ht hd = advance-Keeps m i.rd _ (omega arith)
execute-Keeps op_srav m i hs ht hd = advance-Keeps m i.rd _ (omega arith)
execute-Keeps op_srl m i hs ht hd = advance-Keeps m i.rd _ (omega arith)
execute-Keeps op_srlv m i hs ht hd = advance-Keeps m i.rd _ (omega arith)
execute-Keeps op_sub m i hs ht hd = checked-Keeps m i.rd _ _ (omega arith)
execute-Keeps op_subu m i hs ht hd = advance-Keeps m i.rd _ (omega arith)
execute-Keeps op_sw m i hs ht hd = store-Keeps m i hs ht hd 4
execute-Keeps op_swl m i hs ht hd = store_partial-Keeps m i hs ht hd _
execute-Keeps op_swr m i hs ht hd = store_partial-Keeps m i hs ht hd _
execute-Keeps op_xor m i hs ht hd = advance-Keeps m i.rd _ (omega arith)
execute-Keeps op_xori m i hs ht hd = advance-Keeps m i.rt _ (omega arith)
execute-Keeps op_syscall m i hs ht hd = raise_exception-IsTrapState m 0
execute-Keeps op_unimp m i hs ht hd = raise_exception-IsTrapState m 0
execute-Keeps op_res m i hs ht hd = raise_exception-IsTrapState m 0
execute-Keeps special m i hs ht hd = tt
execute-Keeps bcond m i hs ht hd = tt

field_lt : (v : ℕ) → bit_and v 31 < 32
field_lt v = subst (λ x. x < 32) (sym (bit_and_mask 5 v)) (omega arith)

-- The fields of a decoded instruction are five bits each.
fields_lt : (raw : ℕ) → ((decode raw).rs < 32) × ((decode raw).rt < 32) × ((decode raw).rd < 32)
unfolding decode
fields_lt raw = (field_lt (raw / 2 ^ 21), field_lt (raw / 2 ^ 16), field_lt (raw / 2 ^ 11))

-- What an outcome has to do with the registers before.
abbrev pub Advances : Machine → Outcome → Type 0
Advances m (completed m') =
    (reg m' 0 ≡ 0)
    × (reg m' prev_pc_reg ≡ reg m pc_reg)
    × (reg m' pc_reg ≡ reg m next_pc_reg)
    × (reg m' load_reg < 32)
Advances m (trapped e m') = IsTrapState m'
Advances m aborted = Unit

finish-Advances :
    (m : Machine) (x : Effect) → reg m load_reg < 32 → Keeps m.registers x → Advances m (finish x)
unfolding finish delayed_load
finish-Advances m (complete m' lr lv pc) h (kl, kp, kn, hl) = ground arith
finish-Advances m (trap e m') h k = k
finish-Advances m abort h k = tt

fetched-Advances :
    (m : Machine) (a : Option (Access ℕ))
    → reg m load_reg < 32
    → AccessKeeps m a
    → Advances m (run_fetched a)
unfolding run_fetched
fetched-Advances m none h k = tt
fetched-Advances m (some (raised e m')) h k = k
fetched-Advances m (some (done raw m')) h same =
    let i = decode raw in
    let (s, t, d) = fields_lt raw in
    finish-Advances m (execute i.op_code m' i) h
      (subst (λ r. Keeps r (execute i.op_code m' i)) same (execute-Keeps i.op_code m' i s t d))

-- For a machine whose pending load is for a general register, an instruction that completes
-- leaves register 0 zero, moves NextPC to PC and PC to PrevPC, and leaves a pending load for a
-- general register; one that traps enters the kernel with register 0 zero and no load pending
-- (nothing is said of one that a failed ASSERT or the host stops).
pub one_instruction-Advances : (m : Machine) → reg m load_reg < 32 → Advances m (one_instruction m)
unfolding one_instruction
one_instruction-Advances m h = fetched-Advances m _ h (read_mem-AccessKeeps m _ 4)
