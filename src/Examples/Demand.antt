-- ===== src/Examples/Demand.antt =====
-- Demand paging on a concrete program: one page in memory, and every other frame another program's.
use jalepenos.Base.{
  ℕ, zero, suc, ◌+◌, ◌*◌, ◌/◌, ◌%◌, ◌<◌, ◌≡◌, refl, sym, ◌∙◌, ap, Bool, true, false, ◌||◌, [], ◌∷◌,
  none, some, inl, ◌==◌, ltb, if◌then◌else◌, arith, get_elem?,
}
use jalepenos.Base.Int.{pos, negsuc}
use jalepenos.BitMap.{test, div_round_up}
use jalepenos.Machine.{Machine, TranslationEntry, page_fault_exception, pc_reg}
use jalepenos.Machine.Translate.{translate, fault}
use jalepenos.MemManage.{page_is_allocated}
use jalepenos.MemManage.Pages.{IsManager}
use jalepenos.FileHeader.{FileHeader, byte_to_sector, file_length}
use jalepenos.OpenFile.{OpenFile, Sectors, read_at, read_loop, read_sector, copy_bytes}
use jalepenos.OpenFile.Bytes.{IsMapped, Gives}
use jalepenos.AddrSpace.Frames.{frame_at, Owned}
use jalepenos.AddrSpace.Room.{Sound, Roomy, make_room-Roomy}
use jalepenos.AddrSpace.Image.{IsSane}
use jalepenos.AddrSpace.Program.{NoffHeader, read_header}
use jalepenos.AddrSpace.Demand.{Paging, demandpage, make_room, clear_state, initialize}
use jalepenos.AddrSpace.Fault.{Brought, wanted, demandpage-Brought}
use jalepenos.AddrSpace.Contents.{Clean}
use jalepenos.AddrSpace.Resume.{Resumes, demandpage-Resumes}
use jalepenos.AddrSpace.Spin.{demandpage-spins}
use jalepenos.AddrSpace.Release.{Cleared, clear_state-Cleared}
use jalepenos.AddrSpace.Fresh.{Fresh, initialize-Fresh, init_registers-faults}
use jalepenos.Threads.UserState.{init_registers, restore_state}
use mathlib.Core.Option.{some-injective}

abbrev program_header : FileHeader
program_header = record { num_bytes = 200; num_sectors = 2; data_sectors = pos 5 ∷ pos 6 ∷ [] }

abbrev program : OpenFile
program = record { hdr = program_header; seek_position = 0 }

abbrev sector_of : ℕ → ℕ
sector_of i = 5 + i

-- The magic number, and 64 bytes of code at byte 40 of the file.
abbrev first_sector : ℕ → ℕ
first_sector o =
    if o == 0
    then 0xad
    else if o == 1
    then 0xdf
    else if o == 2
    then 0xba
    else if o == 8
    then 40
    else if o == 12
    then 64
    else if ltb 39 o
    then o
    else 0

abbrev disk : Sectors
disk s o = if s == 5 then first_sector o else 0

abbrev blank : ℕ → ℕ
blank o = 0

abbrev noff : NoffHeader
noff = record {
  noff_magic = 0xbadfad;
  code = record { virtual_addr = 0; in_file_addr = 40; size = 64 };
  init_data = record { virtual_addr = 0; in_file_addr = 0; size = 0 };
  uninit_data = record { virtual_addr = 0; in_file_addr = 0; size = 0 };
}

read_noff : read_header program disk blank blank ≡ some noff
unfolding read_header read_at read_loop byte_to_sector read_sector copy_bytes file_length
read_noff = refl

stored_at :
    (i : ℕ) → i * 128 < 200 → get_elem? program_header.data_sectors i ≡ some (pos (sector_of i))
stored_at zero lt = refl
stored_at (suc zero) lt = refl
stored_at (suc (suc i)) lt = absurd (omega arith)

program-IsMapped : IsMapped program_header sector_of
program-IsMapped = record {
  stored = stored_at;
  on_disk = λ i lt. ground arith;
  apart = λ i j hi hj same. ground arith;
}

code-IsSane : IsSane noff.code
code-IsSane = record { addresses = omega arith; places = omega arith }

init_data-IsSane : IsSane noff.init_data
init_data-IsSane = record { addresses = omega arith; places = omega arith }

abbrev never_loaded : TranslationEntry
never_loaded = record {
  virtual_page = pos 0;
  physical_page = negsuc 0;
  valid = false;
  read_only = false;
  used = false;
  dirty = false;
}

abbrev in_memory : TranslationEntry
in_memory = record {
  virtual_page = pos 1;
  physical_page = pos 2;
  valid = true;
  read_only = false;
  used = true;
  dirty = true;
}

-- Page 1 is in frame 2.
abbrev one_in : Paging
one_in = record {
  space = record { clock_hand = 1; page_table = never_loaded ∷ in_memory ∷ []; num_pages = 2 };
  backing = record { file = blank };
  memory = λ q. q % 256;
  manager = record { num_pages = 4; bmap = record { num_bits = 4; num_words = 1; map = 15 ∷ [] } };
}

abbrev others_of : ℕ → Bool
others_of q = q == 0 || q == 1 || q == 3

only_frame : (i q : ℕ) → frame_at one_in.space.page_table i ≡ some q → (i ≡ 1) × (q ≡ 2)
only_frame zero q h = absurd cc
only_frame (suc zero) q h = (refl, cc)
only_frame (suc (suc i)) q h = absurd cc

all_taken : (q : ℕ) → q < 4 → page_is_allocated one_in.manager (pos q) ≡ some true
unfolding page_is_allocated test
all_taken zero lt = refl
all_taken (suc zero) lt = refl
all_taken (suc (suc zero)) lt = refl
all_taken (suc (suc (suc zero))) lt = refl
all_taken (suc (suc (suc (suc q)))) lt = absurd (omega (arith, lt))

one_in-IsManager : IsManager one_in.manager
one_in-IsManager = record { bits = record { sized = refl; covers = omega arith }; pages = refl }

one_in-Owned : Owned others_of one_in.space.page_table one_in.manager
one_in-Owned = record {
  manager = one_in-IsManager;
  phys = refl;
  mine = λ i q h. let (x, y) = only_frame i q h in all_taken q (omega (arith, y));
  not_others = λ i q h. let (x, y) = only_frame i q h in rw y refl;
  apart =
      λ i j q h k. let (x, y) = only_frame i q h in let (x', y') = only_frame j q k in x ∙ sym x';
  others = λ q yours. all_taken q (ground arith);
}

one_in-numbered :
    (j : ℕ) (e : TranslationEntry)
    → get_elem? one_in.space.page_table j ≡ some e
    → e.virtual_page ≡ pos j
one_in-numbered zero e h =
    ap (λ (x : TranslationEntry). x.virtual_page) (some-injective _ _ (sym h))
one_in-numbered (suc zero) e h =
    ap (λ (x : TranslationEntry). x.virtual_page) (some-injective _ _ (sym h))
one_in-numbered (suc (suc j)) e h = absurd cc

one_in-Clean : Clean one_in
one_in-Clean zero q e h valid physical spotless o lt =
    absurd (cc (valid, ap (λ (x : TranslationEntry). x.valid) (some-injective never_loaded e h)))
one_in-Clean (suc zero) q e h valid physical spotless o lt =
    absurd (cc (spotless, ap (λ (x : TranslationEntry). x.dirty) (some-injective in_memory e h)))
one_in-Clean (suc (suc j)) q e h valid physical spotless o lt = absurd cc

one_in-Sound : Sound others_of one_in
one_in-Sound = record {
  ready = record { sized = refl; hand = omega arith };
  owned = one_in-Owned;
  numbered = one_in-numbered;
  clean = one_in-Clean;
  small = omega arith;
}

abbrev at_rest : Machine
at_rest = record {
  registers = blank;
  main_memory = blank;
  tlb = none;
  page_table = none;
  page_table_size = 0;
}

abbrev first_page : ℕ → ℕ → ℕ
first_page =
    wanted others_of 0 one_in program sector_of program-IsMapped disk blank blank noff code-IsSane
      init_data-IsSane never_loaded

demandpage-Brought_example :
    Gives
      (Brought others_of 0 first_page one_in)
      (demandpage program disk blank blank (2 * 2) false 0 one_in)
demandpage-Brought_example =
    demandpage-Brought others_of 0 one_in program sector_of program-IsMapped disk blank blank noff
      code-IsSane init_data-IsSane false never_loaded one_in-Sound refl refl (inl (1, 2, refl))
      read_noff

demandpage-Resumes_example :
    Gives
      (Resumes others_of one_in program sector_of program-IsMapped disk blank blank noff code-IsSane
        init_data-IsSane at_rest refl 20 never_loaded)
      (demandpage program disk blank blank (2 * 2) false (20 / 128) one_in)
demandpage-Resumes_example =
    demandpage-Resumes others_of one_in program sector_of program-IsMapped disk blank blank noff
      code-IsSane init_data-IsSane at_rest refl 20 false never_loaded one_in-Sound refl refl
      (inl (1, 2, refl)) read_noff

make_room-Roomy_example : Gives (Roomy others_of one_in) (make_room (2 * 2) false one_in)
make_room-Roomy_example =
    make_room-Roomy others_of false one_in 1 one_in-Sound
      record { entry = in_memory; at = refl; valid = refl; resident = refl }

clear_state-Cleared_example :
    Gives (Cleared one_in.space.page_table one_in.manager) (clear_state one_in.space one_in.manager)
clear_state-Cleared_example =
    clear_state-Cleared others_of one_in.space one_in.manager refl one_in-Owned

-- A program with no page in memory, while other programs have every frame.
abbrev starved : Paging
starved = record one_in {
  space = record { clock_hand = 0; page_table = never_loaded ∷ []; num_pages = 1 };
}

starved-Empty : (j : ℕ) → frame_at starved.space.page_table j ≡ none
starved-Empty zero = refl
starved-Empty (suc j) = refl

demandpage-spins_example : demandpage program disk blank blank 1000 false 0 starved ≡ none
demandpage-spins_example =
    demandpage-spins program disk blank blank 1000 false 0 starved never_loaded one_in-IsManager
      all_taken refl refl starved-Empty

initialize-Fresh_example :
    Gives
      (Fresh others_of one_in.backing blank one_in.manager (64 + 0 + 0 + 1024))
      (initialize program disk blank blank 3)
initialize-Fresh_example =
    initialize-Fresh program disk blank blank 3 noff others_of one_in.backing blank one_in.manager
      read_noff (omega arith) (unfold div_round_up in omega arith) one_in-IsManager refl
      (λ q yours. all_taken q (ground arith))

init_registers-faults_example :
    (m1 : Machine) × (init_registers 1 (restore_state starved.space.page_table 1 at_rest) ≡ some m1)
    × (m1.registers pc_reg ≡ 0)
    × (translate m1 (m1.registers pc_reg) 4 false ≡ some (fault page_fault_exception))
init_registers-faults_example =
    init_registers-faults starved.space at_rest never_loaded refl (omega arith) (omega arith) refl
      refl
