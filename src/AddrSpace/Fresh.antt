-- ===== src/AddrSpace/Fresh.antt =====
-- A new address space, and the registers with which its program starts.
use jalepenos.Base.{
  ℕ, zero, suc, ◌+◌, ◌*◌, ◌^◌, ◌<◌, ◌≤◌, ◌≡◌, refl, sym, ◌∙◌, ap, Bool, true, false, none, some,
  arith, get_elem?, inl, inr, Option-cases, length, get_elem?-some,
}
use mathlib.Core.Option.{some-injective}
use jalepenos.Base.Int.{pos}
use jalepenos.BitMap.{div_round_up}
use jalepenos.Machine.{Machine, TranslationEntry, page_fault_exception, pc_reg}
use jalepenos.Machine.Translate.{translate, fault}
use jalepenos.Machine.Translate.Frames.{translate-absent, misaligned_lem}
use jalepenos.MemManage.{MemoryManager, page_is_allocated}
use jalepenos.MemManage.Pages.{IsManager}
use jalepenos.OpenFile.{OpenFile, Sectors}
use jalepenos.OpenFile.Bytes.{Gives}
use jalepenos.Threads.UserState.{init_registers, restore_state, init_registers-lem}
use jalepenos.AddrSpace.{AddrSpace, BackingStore}
use jalepenos.AddrSpace.Contents.{content}
use jalepenos.AddrSpace.Frames.{frame_at}
use jalepenos.AddrSpace.Room.{Sound}
use jalepenos.AddrSpace.Takes.{Absent}
use jalepenos.AddrSpace.Program.{NoffHeader, read_header}
use jalepenos.AddrSpace.Demand.{Paging, new_entry, new_entries, image_size, image_pages, initialize}

length-new_entries : (n i : ℕ) → length (new_entries n i) ≡ n
unfolding new_entries
length-new_entries zero i = refl
length-new_entries (suc n) i = ap suc (length-new_entries n (suc i))

new_entries-entry :
    (n i j : ℕ) (e : TranslationEntry)
    → get_elem? (new_entries n i) j ≡ some e
    → e ≡ new_entry (i + j)
unfolding new_entries
new_entries-entry zero i j e h = absurd cc
new_entries-entry (suc n) i zero e h =
    let same : i ≡ i + 0 = omega arith in sym (some-injective _ e h) ∙ ap new_entry same
new_entries-entry (suc n) i (suc j) e h =
    let next : suc i + j ≡ i + suc j = omega arith in
    new_entries-entry n (suc i) j e h ∙ ap new_entry next

abbrev pub paging : BackingStore → (ℕ → ℕ) → MemoryManager → AddrSpace → Paging
paging b memory m a = record { space = a; backing = b; memory = memory; manager = m }

-- The state is sound, no page has been loaded, and the pages are as many as the image needs.
pub record Fresh (other : ℕ → Bool) (b : BackingStore) (memory : ℕ → ℕ) (m : MemoryManager)
    (size : ℕ) (a : AddrSpace) : Type 0 where
  pub sound : Sound other (paging b memory m a)
  pub absent : (j : ℕ) → j < a.num_pages → Absent (paging b memory m a) j
  pub unloaded : (j o : ℕ) → content (paging b memory m a) j o ≡ none
  pub enough : size ≤ a.num_pages * 128
  pub tight : a.num_pages * 128 < size + 128

div_round_up-pages : (n : ℕ) → (n ≤ div_round_up n 128 * 128) × (div_round_up n 128 * 128 < n + 128)
unfolding div_round_up
div_round_up-pages n = (ground arith, ground arith)

module _ (hand : ℕ) (h : NoffHeader) where
  abbrev space : AddrSpace
  space = record {
    clock_hand = hand;
    page_table = new_entries (image_pages h) 0;
    num_pages = image_pages h;
  }

  no_frame : (j : ℕ) → frame_at space.page_table j ≡ none
  no_frame j = elim (Option-cases (get_elem? (new_entries (image_pages h) 0) j)) [
    | inl out ↦ rw out refl
    | inr (e, at) ↦ rw (at, new_entries-entry (image_pages h) 0 j e at) refl
  ]

  -- What the segments and the stack need.
  abbrev pub needed : ℕ
  needed = h.code.size + h.init_data.size + h.uninit_data.size + 1024

  space-Fresh :
      (other : ℕ → Bool) (b : BackingStore) (memory : ℕ → ℕ) (m : MemoryManager)
      → needed < 2 ^ 31
      → hand < image_pages h
      → IsManager m
      → m.num_pages ≡ 4
      → ((q : ℕ) → other q ≡ true → page_is_allocated m (pos q) ≡ some true)
      → Fresh other b memory m needed space
  space-Fresh other b memory m int hand_in v four others = record {
    sound = record {
      ready = record { sized = length-new_entries (image_pages h) 0; hand = hand_in };
      owned = record {
        manager = v;
        phys = four;
        mine = λ i q f. absurd (cc (no_frame i, f));
        not_others = λ i q f. absurd (cc (no_frame i, f));
        apart = λ i j q f g. absurd (cc (no_frame i, f));
        others = others;
      };
      numbered = λ j e at.
          let is = new_entries-entry (image_pages h) 0 j e at in
          let same : 0 + j ≡ j = omega arith in
          ap (λ (y : TranslationEntry). y.virtual_page) is ∙ ap pos same;
      clean = λ j q e at valid.
          let is = new_entries-entry (image_pages h) 0 j e at in
          absurd (cc (valid, ap (λ (y : TranslationEntry). y.valid) is));
      small = omega (
        arith,
        int,
        (div_round_up-pages (image_size h)).0,
        (div_round_up-pages (image_size h)).1,
      );
    };
    absent = λ j lt.
        let (e, at) =
          get_elem?-some (new_entries (image_pages h) 0) j
            (omega (arith, lt, length-new_entries (image_pages h) 0)) in
        (
          e,
          at,
          ap (λ (y : TranslationEntry). y.valid) (new_entries-entry (image_pages h) 0 j e at),
        );
    unloaded = λ j o. elim (Option-cases (get_elem? (new_entries (image_pages h) 0) j)) [
      | inl out ↦ rw out refl
      | inr (e, at) ↦ rw (at, new_entries-entry (image_pages h) 0 j e at) refl
    ];
    enough = omega (arith, int, (div_round_up-pages (image_size h)).0);
    tight = omega (arith, int, (div_round_up-pages (image_size h)).1);
  }

-- For a program file with the magic number, whose segments and a stack of 1024 bytes together
-- are smaller than 2 ^ 31 bytes, a clock hand that happens to point into the new table, and a
-- well formed manager of the four frames in which the frames of other programs are allocated,
-- Initialize gives an address space that is sound, in which no page is valid and none has been
-- loaded, with as many pages as the segments and the stack need and no more.
pub initialize-Fresh :
    (f : OpenFile) (d : Sectors) (garbage stack : ℕ → ℕ) (hand : ℕ) (h : NoffHeader)
    (other : ℕ → Bool) (b : BackingStore) (memory : ℕ → ℕ) (m : MemoryManager)
    → read_header f d garbage stack ≡ some h
    → h.code.size + h.init_data.size + h.uninit_data.size + 1024 < 2 ^ 31
    → hand < image_pages h
    → IsManager m
    → m.num_pages ≡ 4
    → ((q : ℕ) → other q ≡ true → page_is_allocated m (pos q) ≡ some true)
    → Gives (Fresh other b memory m (needed hand h)) (initialize f d garbage stack hand)
unfolding initialize
initialize-Fresh f d garbage stack hand h other b memory m header int hand_in v four others =
    rw header (space-Fresh hand h other b memory m int hand_in v four others)

fetch-faults :
    (a : AddrSpace) (m : Machine) (va : ℕ) (e : TranslationEntry)
    → va ≡ 0
    → m.tlb ≡ none
    → m.page_table ≡ some a.page_table
    → m.page_table_size ≡ a.num_pages
    → 0 < a.num_pages
    → get_elem? a.page_table 0 ≡ some e
    → e.valid ≡ false
    → translate m va 4 false ≡ some (fault page_fault_exception)
fetch-faults a m va e zero_va no_tlb table size some_page at invalid = rw zero_va (
    translate-absent m 0 4 false
      record {
        table = a.page_table;
        no_tlb = no_tlb;
        in_use = table;
        in_size = rw size some_page;
        entry = at;
      }
      invalid (misaligned_lem 0 4 (inr (inr refl))))

-- For an address space of at least one page, smaller than 2 ^ 32 bytes, whose first page is not
-- valid, on a machine with no TLB, InitRegisters after RestoreState goes through, leaves the PC
-- at 0, and the first fetch raises a page fault.
pub init_registers-faults :
    (a : AddrSpace) (m : Machine) (e : TranslationEntry)
    → m.tlb ≡ none
    → 0 < a.num_pages
    → a.num_pages * 128 < 2 ^ 32
    → get_elem? a.page_table 0 ≡ some e
    → e.valid ≡ false
    → (m1 : Machine) × (init_registers a.num_pages (restore_state a.page_table a.num_pages m)
        ≡ some m1)
      × (m1.registers pc_reg ≡ 0)
      × (translate m1 (m1.registers pc_reg) 4 false ≡ some (fault page_fault_exception))
unfolding restore_state
init_registers-faults a m e no_tlb some_page small at invalid =
    let m0 = restore_state a.page_table a.num_pages m in
    let (m1, goes, pc, memory, tlb, table, size) =
      init_registers-lem a.num_pages m0 pc_reg (omega arith) some_page small in
    (
      m1,
      goes,
      pc,
      fetch-faults a m1 (m1.registers pc_reg) e pc (tlb ∙ no_tlb) table size some_page at invalid,
    )
