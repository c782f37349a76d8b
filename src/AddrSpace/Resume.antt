-- ===== src/AddrSpace/Resume.antt =====
-- The access that faulted, made again after `demandpage`.
use jalepenos.Base.{
  ℕ, ◌+◌, ◌*◌, ◌/◌, ◌%◌, ◌≡◌, refl, ◌∙◌, Bool, true, false, none, some, arith, get_elem?-lt,
}
use mathlib.Core.Option.{some-injective}
use jalepenos.Machine.{Machine, TranslationEntry}
use jalepenos.Machine.Translate.{done, char_to_int, read_mem}
use jalepenos.Machine.Translate.Frames.{read_byte-frame}
use jalepenos.OpenFile.{OpenFile, Sectors}
use jalepenos.OpenFile.Bytes.{IsMapped, Gives}
use jalepenos.OpenFile.Writes.{map-Gives}
use jalepenos.AddrSpace.Contents.{content}
use jalepenos.AddrSpace.Frames.{frame-entry, in_range}
use jalepenos.AddrSpace.Room.{Sound}
use jalepenos.AddrSpace.Tries.{HasRoom}
use jalepenos.AddrSpace.Image.{IsSane}
use jalepenos.AddrSpace.Program.{NoffHeader, read_header}
use jalepenos.AddrSpace.Resident.{Resident}
use jalepenos.AddrSpace.Fault.{Brought, wanted, demandpage-Brought}
use jalepenos.AddrSpace.Demand.{Paging, page_of, demandpage}

-- The machine with the memory and the table of a paging state.
abbrev pub running : Machine → Paging → Machine
running m s = record m {
  page_table = some s.space.page_table;
  page_table_size = s.space.num_pages;
  main_memory = s.memory;
}

-- A load of the byte at an address goes through and gives `byte`, sign extended.
abbrev pub Reads : Machine → ℕ → ℕ → Type 0
Reads m va byte = (m' : Machine) × (read_mem m va 1 ≡ some (done (char_to_int byte) m'))

Resident-Reads :
    (other : ℕ → Bool) (va : ℕ) (byte : ℕ → ℕ → ℕ) (s s' : Paging) (m : Machine)
    → m.tlb ≡ none
    → (r : Resident other (va / 128) byte s s')
    → Reads (running m s') va (byte (va % 128) (s.memory (r.frame * 128 + va % 128)))
Resident-Reads other va byte s s' m no_tlb r =
    let i = va / 128 in
    let t = s'.space.page_table in
    let (e, at, valid, physical) = frame-entry t i r.frame r.held in
    let here : some (s'.memory (r.frame * 128 + va % 128)) ≡ content s' i (va % 128) =
      rw (at, valid, physical) refl in
    let same = some-injective _ _ (here ∙ r.bytes (va % 128) (omega arith)) in
    let low = in_range s'.manager r.frame (r.sound.owned.mine i r.frame r.held) in
    rw (← same) (
      _,
      read_byte-frame (running m s') va r.frame
          record {
            table = t;
            no_tlb = no_tlb;
            in_use = refl;
            in_size = omega (arith, get_elem?-lt t i at, r.sound.ready.sized);
            entry = at;
          }
          valid physical (omega (arith, low, r.sound.owned.manager.pages, r.sound.owned.phys)),
    )

module _ (other : ℕ → Bool) (s : Paging) (f : OpenFile) (at : ℕ → ℕ) (mapped : IsMapped f.hdr at)
    (d : Sectors) (garbage stack : ℕ → ℕ) (h : NoffHeader) (code : IsSane h.code)
    (init_data : IsSane h.init_data) (m : Machine) (no_tlb : m.tlb ≡ none) (va : ℕ) where
  -- demandpage has returned true, and the load goes through with the byte that the page should hold.
  abbrev pub Resumes : TranslationEntry → Bool × Paging → Type 0
  Resumes e (b, s') =
      (b ≡ true)
      × (old : ℕ) × Reads (running m s') va
          (wanted other (va / 128) s f at mapped d garbage stack h code init_data e (va % 128) old)

  -- Under the conditions on demandpage, and on a machine with no TLB, the load of a byte that
  -- faulted goes through after demandpage, on the page table and the memory that it leaves, and
  -- gives the byte that the page is to hold, sign extended.
  pub demandpage-Resumes :
      (use_fifo : Bool) (e : TranslationEntry)
      → Sound other s
      → page_of s (va / 128) ≡ some e
      → e.valid ≡ false
      → HasRoom s
      → read_header f d garbage stack ≡ some h
      → Gives
          (Resumes e)
          (demandpage f d garbage stack (2 * s.space.num_pages) use_fifo (va / 128) s)
  demandpage-Resumes use_fifo e sound there v room header =
      let byte = wanted other (va / 128) s f at mapped d garbage stack h code init_data e in
      map-Gives (Brought other (va / 128) byte s) (Resumes e) _
        (demandpage-Brought other (va / 128) s f at mapped d garbage stack h code init_data use_fifo
          e sound there v room header)
        (λ (b, s') (came, r).
          (came, s.memory (r.frame * 128 + va % 128), Resident-Reads other va byte s s' m no_tlb r))
