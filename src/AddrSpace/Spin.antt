-- ===== src/AddrSpace/Spin.antt =====
-- `demandpage` when every frame is another program's.
use jalepenos.Base.{
  ℕ, ◌<◌, ◌≡◌, refl, sym, ◌∙◌, ap, Bool, true, false, none, some, set, inl, inr, Bool-cases,
  Option-cases,
}
use jalepenos.Base.Int.{ℤ, pos, negsuc}
use jalepenos.Machine.{TranslationEntry}
use jalepenos.MemManage.{MemoryManager, page_is_allocated}
use jalepenos.MemManage.Pages.{IsManager, Allocated, page, no_page, alloc_page-Allocated}
use jalepenos.OpenFile.{OpenFile, Sectors}
use jalepenos.AddrSpace.{is_resident, clear_page}
use jalepenos.AddrSpace.Frames.{frame_at, Fewer-set}
use jalepenos.AddrSpace.Room.{clock_spins}
use jalepenos.AddrSpace.Fault.{set_same}
use jalepenos.AddrSpace.Program.{read_header}
use jalepenos.AddrSpace.Demand.{
  Paging, page_of, put_page, take_page, make_room, first_try, two_tries, reload, first_load,
  demandpage,
}

-- No page of the program is in memory.
abbrev pub Empty : Paging → Type 0
Empty s = (j : ℕ) → frame_at s.space.page_table j ≡ none

abbrev pub IsFull : MemoryManager → Type 0
IsFull m = (q : ℕ) → q < m.num_pages → page_is_allocated m (pos q) ≡ some true

make_room-spins :
    (fuel : ℕ) (use_fifo : Bool) (s : Paging) → Empty s → make_room fuel use_fifo s ≡ none
unfolding make_room clear_page
make_room-spins fuel use_fifo s empty = rw (clock_spins fuel use_fifo s.space empty) refl

refused :
    (m : MemoryManager) (r : ℤ × MemoryManager)
    → IsFull m
    → Allocated m r
    → (n : ℕ) × (r.0 ≡ negsuc n)
refused m r full (page p m' v below same free low bits) = absurd (cc (free, full p below))
refused m r full (no_page all) = (0, refl)

-- AllocPage has returned -1 for a page of a program with none in memory.
take_page-Empty :
    (i : ℕ) (s : Paging) (e : TranslationEntry)
    → IsManager s.manager
    → IsFull s.manager
    → page_of s i ≡ some e
    → e.valid ≡ false
    → Empty s
    → (n : ℕ) × (s1 : Paging) × (take_page i s ≡ some (negsuc n, s1)) × Empty s1
unfolding take_page
take_page-Empty i s e v full at invalid empty =
    let (r, got, a) = alloc_page-Allocated s.manager v in
    let (n, is) = refused s.manager r full a in
    let x = record e { physical_page = negsuc n } in
    (
      n,
      put_page (record s { manager = r.1 }) i x,
      rw (got, at, is) refl,
      λ j. elim (Option-cases (frame_at (set s.space.page_table i x) j)) [
        | inl gone ↦ gone
        | inr (q, there) ↦ absurd (cc (empty j, Fewer-set s.space.page_table i x invalid j q there))
      ],
    )

first_try-spins :
    (fuel : ℕ) (use_fifo : Bool) (i n : ℕ) (s s1 : Paging)
    → take_page i s ≡ some (negsuc n, s1)
    → Empty s1
    → first_try fuel use_fifo i s ≡ none
unfolding first_try
first_try-spins fuel use_fifo i n s s1 took empty =
    rw (took, make_room-spins fuel use_fifo s1 empty) refl

two_tries-spins :
    (fuel : ℕ) (use_fifo : Bool) (i n : ℕ) (s s1 : Paging)
    → take_page i s ≡ some (negsuc n, s1)
    → Empty s1
    → two_tries fuel use_fifo i s ≡ none
unfolding two_tries
two_tries-spins fuel use_fifo i n s s1 took empty =
    rw (took, make_room-spins fuel use_fifo s1 empty) refl

first_load-none :
    (f : OpenFile) (d : Sectors) (garbage stack : ℕ → ℕ) (fuel : ℕ) (use_fifo : Bool) (i : ℕ)
    (s : Paging)
    → two_tries fuel use_fifo i s ≡ none
    → first_load f d garbage stack fuel use_fifo i s ≡ none
unfolding first_load
first_load-none f d garbage stack fuel use_fifo i s spins =
    elim (Option-cases (read_header f d garbage stack)) [
      | inl bad ↦ rw bad refl
      | inr (h, good) ↦ rw (good, spins) refl
    ]

reload-none :
    (fuel : ℕ) (use_fifo : Bool) (i : ℕ) (s : Paging) (e : TranslationEntry)
    → page_of s i ≡ some e
    → e.valid ≡ false
    → first_try fuel use_fifo i s ≡ none
    → reload fuel use_fifo i s e ≡ none
unfolding reload
reload-none fuel use_fifo i s e at v spins =
    let same : record e { valid = false } ≡ e = ap (λ (b : Bool). record e { valid = b }) (sym v) in
    let table : set s.space.page_table i (record e { valid = false }) ≡ s.space.page_table =
      ap (set s.space.page_table i) same ∙ set_same s.space.page_table i e at in
    rw (table, spins) refl

-- When every frame is allocated and none to the program itself, demandpage of a page that is not
-- valid does not return, however many rounds the clock of ClearPage runs.
pub demandpage-spins :
    (f : OpenFile) (d : Sectors) (garbage stack : ℕ → ℕ) (fuel : ℕ) (use_fifo : Bool) (i : ℕ)
    (s : Paging) (e : TranslationEntry)
    → IsManager s.manager
    → IsFull s.manager
    → page_of s i ≡ some e
    → e.valid ≡ false
    → Empty s
    → demandpage f d garbage stack fuel use_fifo i s ≡ none
unfolding demandpage
demandpage-spins f d garbage stack fuel use_fifo i s e v full at invalid empty =
    let (n, s1, took, still) = take_page-Empty i s e v full at invalid empty in
    elim (Bool-cases (is_resident e.physical_page)) [
      | inl before ↦
          rw (at, before)
            (reload-none fuel use_fifo i s e at invalid
              (first_try-spins fuel use_fifo i n s s1 took still))
      | inr never ↦
          rw (at, never)
            (first_load-none f d garbage stack fuel use_fifo i s
              (two_tries-spins fuel use_fifo i n s s1 took still))
    ]
