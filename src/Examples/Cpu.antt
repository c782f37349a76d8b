-- ===== src/Examples/Cpu.antt =====
-- The simulated processor on concrete inputs.
use jalepenos.Base.{
  ℕ, ◌+◌, ◌≡◌, ◌≢◌, refl, inr, true, false, not, ◌&&◌, [], ◌∷◌, none, some, ltb, leb, if◌then◌else◌,
  arith, update,
}
use jalepenos.Base.Int.{pos}
use jalepenos.Machine.{Machine, TranslationEntry, pc_reg, next_pc_reg}
use jalepenos.Machine.Words.{add, sub, has_sign, add_overflows, sub_overflows}
use jalepenos.Machine.Words.Signs.{to_int, sum_fits, add_overflows-sum_fits}
use jalepenos.Machine.Mult.{mult}
use jalepenos.Machine.Mult.Product.{halves, signed_product, mult-signed}
use jalepenos.Machine.Translate.{to_unsigned, Translation, done, translate, read_mem, write_mem}
use jalepenos.Machine.Translate.Frames.{HasTable, Maps, Lands, translate-Lands}
use jalepenos.Machine.Translate.Memory.{Writable, touched, phys_addr, truncated, read_mem-write_mem}
use jalepenos.Machine.Instruction.{ifmt, op_addiu, special, bcond, op_table}
use jalepenos.Machine.Instruction.Decode.{op_info}
use jalepenos.Machine.Execute.Switch.{one_instruction}
use jalepenos.Machine.Execute.Advance.{Advances, one_instruction-Advances}

mult-signed_example : mult 4294967293 5 true ≡ halves (signed_product 4294967293 5)
mult-signed_example = mult-signed 4294967293 5 (omega arith) (omega arith)

add_overflows-sum_fits_example :
    add_overflows 2147483647 5 (add 2147483647 5) ≡ not (sum_fits (to_int 2147483647) (to_int 5))
add_overflows-sum_fits_example = add_overflows-sum_fits 2147483647 5 (omega arith) (omega arith)

sum_in_range : add_overflows 4294967293 5 (add 4294967293 5) ≡ false
unfolding add_overflows add has_sign
sum_in_range = refl

difference_in_range : sub_overflows 4294967293 5 (sub 4294967293 5) ≡ false
unfolding sub_overflows sub has_sign
difference_in_range = refl

-- Two pages: the second is in frame 3 and may be written.
abbrev first_entry : TranslationEntry
first_entry = record {
  virtual_page = pos 0;
  physical_page = pos 0;
  valid = false;
  read_only = true;
  used = false;
  dirty = false;
}

abbrev second_entry : TranslationEntry
second_entry = record {
  virtual_page = pos 1;
  physical_page = pos 3;
  valid = true;
  read_only = false;
  used = false;
  dirty = false;
}

abbrev two_pages : Machine
two_pages = record {
  registers = λ _. 0;
  main_memory = λ _. 7;
  tlb = none;
  page_table = some (first_entry ∷ second_entry ∷ []);
  page_table_size = 2;
}

two_pages-HasTable : HasTable two_pages
two_pages-HasTable = record {
  table = first_entry ∷ second_entry ∷ [];
  no_tlb = refl;
  in_use = refl;
  complete = omega arith;
}

translate-Lands_example :
    (r : Translation) × (translate two_pages 140 4 true ≡ some r) × Lands two_pages 140 4 r
translate-Lands_example = translate-Lands two_pages 140 4 true two_pages-HasTable (inr (inr refl))

two_pages-Writable : Writable two_pages 140 4
unfolding to_unsigned
two_pages-Writable = record {
  entry = second_entry;
  maps = record {
    table = first_entry ∷ second_entry ∷ [];
    no_tlb = refl;
    in_use = refl;
    in_size = omega arith;
    entry = refl;
  };
  valid = refl;
  writable = refl;
  frame = omega arith;
  is_size = inr (inr refl);
  aligned = refl;
}

read_mem-write_mem_example :
    let p = phys_addr two_pages-Writable.entry 140 in
    (m' : Machine) × (write_mem two_pages 140 4 305419896 ≡ some (done tt m'))
    × (read_mem m' 140 4 ≡ some (done (truncated 4 305419896) m'))
    × ((q : ℕ)
        → (if leb p q && ltb q (p + 4) then 0 else m'.main_memory q)
          ≡ (if leb p q && ltb q (p + 4) then 0 else two_pages.main_memory q))
    × (m'.registers ≡ two_pages.registers)
    × Maps m' 1 (touched two_pages-Writable.entry)
read_mem-write_mem_example = read_mem-write_mem two_pages 140 4 two_pages-Writable 305419896

addiu_info : op_info 9 ≡ record { op_code = op_addiu; format = ifmt }
unfolding op_table
addiu_info = refl

addiu_special : op_addiu ≢ special
addiu_special h = cc

addiu_bcond : op_addiu ≢ bcond
addiu_bcond h = cc

-- About to run `addiu` from the second page.
abbrev ready : Machine
ready = record two_pages {
  registers = update (update (λ _. 0) pc_reg 128) next_pc_reg 132;
  main_memory = λ _. 0x24;
}

one_instruction-Advances_example : Advances ready (one_instruction ready)
one_instruction-Advances_example = one_instruction-Advances ready (omega arith)
