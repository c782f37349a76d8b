-- ===== src/AddrSpace/Fault.antt =====
-- `demandpage` on a page fault: it brings the page in while there is room, and never returns when
-- every frame is another program's.
use jalepenos.Base.{
  ℕ, suc, ◌+◌, ◌-◌, ◌*◌, ◌^◌, ◌<◌, ◌≡◌, refl, sym, ◌∙◌, ap, Bool, true, false, ◌&&◌, List, [], ◌∷◌,
  Option, none, some, ltb, leb, if◌then◌else◌, arith, get_elem?, get_elem?-lt, set, inl, inr,
  Bool-cases, zero,
}
use mathlib.Core.Option.{some-injective}
use jalepenos.Base.Int.{ℤ, pos, negsuc}
use jalepenos.Machine.{TranslationEntry}
use jalepenos.OpenFile.{OpenFile, Sectors}
use jalepenos.OpenFile.Bytes.{IsMapped, Gives}
use jalepenos.OpenFile.Writes.{bind-Gives}
use jalepenos.AddrSpace.{BackingStore, is_resident, is_place, copy_page, page_in}
use jalepenos.AddrSpace.Room.{Sound}
use jalepenos.AddrSpace.Takes.{Absent, Reserved}
use jalepenos.AddrSpace.Tries.{HasRoom, Given, Ready, two_tries-Given, first_try-Ready}
use jalepenos.AddrSpace.Image.{Filled, IsSane, image_byte, fill_page-Filled}
use jalepenos.AddrSpace.Program.{NoffHeader, read_header}
use jalepenos.AddrSpace.Resident.{Resident, filled-Resident}
use jalepenos.AddrSpace.Demand.{
  Paging, page_of, put_page, bring_in, reload, load_page, first_load, demandpage,
}

-- demandpage has returned true, and the page is there.
abbrev pub Brought : (ℕ → Bool) → ℕ → (ℕ → ℕ → ℕ) → Paging → Bool × Paging → Type 0
Brought other i byte s (b, s') = (b ≡ true) × Resident other i byte s s'

pub set_same {ℓ} :
    {A : Type ℓ} (t : List A) (i : ℕ) (e : A) → get_elem? t i ≡ some e → set t i e ≡ t
set_same [] i e h = refl
set_same (x ∷ t) zero e h = ap (λ y. y ∷ t) (some-injective e x (sym h))
set_same (x ∷ t) (suc i) e h = ap (◌∷◌ x) (set_same t i e h)

-- The page of the backing file in its frame.
copied-Filled :
    (memory file : ℕ → ℕ) (p i : ℕ)
    → Filled
        (λ o old. file (i * 128 + o))
        memory
        (p * 128)
        (copy_page memory (p * 128) file (i * 128))
copied-Filled memory file p i = record {
  bytes = λ o lt.
      let inside : (leb (p * 128) (p * 128 + o) && ltb (p * 128 + o) (p * 128 + 128)) ≡ true =
        ground arith in
      let place : i * 128 + (p * 128 + o - p * 128) ≡ i * 128 + o = omega arith in
      rw (inside, place) refl;
  rest = λ q out. rw out refl;
}

page_in-goes :
    (b : BackingStore) (memory : ℕ → ℕ) (e : TranslationEntry) (v p : ℕ)
    → e.virtual_page ≡ pos v
    → e.physical_page ≡ pos p
    → v * 128 < 2 ^ 31
    → page_in b memory e e.virtual_page e.physical_page
      ≡ some (copy_page memory (p * 128) b.file (v * 128), record e { valid = true; dirty = false })
unfolding page_in
page_in-goes b memory e v p virtual physical int =
    let inside : is_place v ≡ true = ground arith in rw (virtual, physical, inside) refl

bring_in-goes :
    (i : ℕ) (s : Paging) (e e' : TranslationEntry) (mem : ℕ → ℕ)
    → page_of s i ≡ some e
    → page_in s.backing s.memory e e.virtual_page e.physical_page ≡ some (mem, e')
    → bring_in i s ≡ some (put_page (record s { memory = mem }) i e')
unfolding bring_in
bring_in-goes i s e e' mem at went = rw (at, went) refl

module _ (other : ℕ → Bool) (i : ℕ) (s : Paging) where
  -- What the backing file has of the page.
  abbrev pub saved : ℕ → ℕ → ℕ
  saved o old = s.backing.file (i * 128 + o)

  bring_in-Resident :
      (p : ℕ) (s1 : Paging)
      → Reserved other i s p s1
      → Gives (Resident other i saved s) (bring_in i s1)
  bring_in-Resident p s1 r =
      let e = r.entry in
      let virtual = r.calm.sound.numbered i e r.at in
      let mem = copy_page s1.memory (p * 128) s1.backing.file (i * 128) in
      let there = copied-Filled s1.memory s1.backing.file p i in
      rw
        (bring_in-goes i s1 e _ mem r.at (
          page_in-goes s1.backing s1.memory e i p virtual r.physical (
            omega (
              arith,
              get_elem?-lt s1.space.page_table i r.at,
              r.calm.sound.ready.sized,
              r.calm.sound.small,
            ))))
        (filled-Resident other i p saved s s1 r mem
          record { bytes = λ o lt. there.bytes o lt ∙ r.calm.backed o lt; rest = there.rest }
          (record e { valid = true; dirty = false }) refl r.physical refl
          (λ spotless o lt. there.bytes o lt))

  reload-Brought :
      (use_fifo : Bool) (e : TranslationEntry)
      → Sound other s
      → page_of s i ≡ some e
      → e.valid ≡ false
      → i < s.space.num_pages
      → HasRoom s
      → Gives (Brought other i saved s) (reload (2 * s.space.num_pages) use_fifo i s e)
  unfolding reload
  reload-Brought use_fifo e sound at v lt room =
      let same : record e { valid = false } ≡ e =
        ap (λ (b : Bool). record e { valid = b }) (sym v) in
      let table : set s.space.page_table i (record e { valid = false }) ≡ s.space.page_table =
        ap (set s.space.page_table i) same ∙ set_same s.space.page_table i e at in
      rw table (
        bind-Gives (Resident other i saved s) (Brought other i saved s) _ (λ s1. some (true, s1))
          (bind-Gives (Ready other i s) (Resident other i saved s) _ (bring_in i)
            (first_try-Ready other use_fifo i s sound (e, at, v) lt room)
            (λ s1 (p, r). bring_in-Resident p s1 r))
          (λ s2 done. (refl, done)))

  as_wanted :
      (byte want : ℕ → ℕ → ℕ) (o : Option (Bool × Paging))
      → ((x old : ℕ) → want x old ≡ byte x old)
      → Gives (Brought other i byte s) o
      → Gives (Brought other i want s) o
  as_wanted byte want none same g = g
  as_wanted byte want (some (b, s')) same (yes_it_did, r) = (
    yes_it_did,
    record {
      sound = r.sound;
      num_pages = r.num_pages;
      frame = r.frame;
      held = r.held;
      bytes = λ o lt. r.bytes o lt ∙ ap some (sym (same o (s.memory (r.frame * 128 + o))));
      steady = r.steady;
      isolated = r.isolated;
    },
  )

  module _ (f : OpenFile) (at : ℕ → ℕ) (mapped : IsMapped f.hdr at) (d : Sectors)
      (garbage stack : ℕ → ℕ) (h : NoffHeader) (code : IsSane h.code)
      (init_data : IsSane h.init_data) where
    abbrev pub image : ℕ → ℕ → ℕ
    image o old = image_byte at d f.hdr.num_bytes h (i * 128) o old

    load_page-Brought :
        (r : ℤ × Paging)
        → Given other i s r
        → Gives (Brought other i image s) (load_page f d garbage h i r)
    unfolding load_page
    load_page-Brought (negsuc n, s1) (p, is, r) = absurd cc
    load_page-Brought (pos q, s1) (p, is, r) =
        let same : q ≡ p = cc in
        rw same (
          bind-Gives (Filled image s1.memory (p * 128)) (Brought other i image s) _ _
            (fill_page-Filled f at mapped d garbage s1.memory h (p * 128) (i * 128) code init_data)
            (λ mem filled. rw r.at (
              refl,
              filled-Resident other i p image s s1 r mem filled
                  (record (r.entry) { dirty = true; valid = true }) refl r.physical refl
                  (λ spotless o lt. absurd cc),
            )))

    first_load-Brought :
        (use_fifo : Bool)
        → Sound other s
        → Absent s i
        → i < s.space.num_pages
        → HasRoom s
        → read_header f d garbage stack ≡ some h
        → Gives
            (Brought other i image s)
            (first_load f d garbage stack (2 * s.space.num_pages) use_fifo i s)
    unfolding first_load
    first_load-Brought use_fifo sound absent lt room header = rw header (
        bind-Gives (Given other i s) (Brought other i image s) _ (load_page f d garbage h i)
          (two_tries-Given other use_fifo i s sound absent lt room) load_page-Brought)

    -- What a page that comes in holds: the saved page, or the program's image.
    abbrev pub wanted : TranslationEntry → ℕ → ℕ → ℕ
    wanted e o old = if is_resident e.physical_page then saved o old else image o old

    -- For a sound paging state of at most 2 ^ 31 bytes, a page whose entry is not valid, a
    -- program file whose header has the magic number and segments with ends that are ints, and
    -- some page of the program in memory or some frame free, with two turns of the clock as
    -- fuel: demandpage returns true and the page is in a frame; it holds what the backing file
    -- has of it if it has been in memory before, and else the bytes of the code or of the
    -- initialised data that the header names (or what stood there where the file ends), or
    -- zeros; every other page of the program holds what it held, no frame of another program
    -- changes, and the state is sound again.
    pub demandpage-Brought :
        (use_fifo : Bool) (e : TranslationEntry)
        → Sound other s
        → page_of s i ≡ some e
        → e.valid ≡ false
        → HasRoom s
        → read_header f d garbage stack ≡ some h
        → Gives
            (Brought other i (wanted e) s)
            (demandpage f d garbage stack (2 * s.space.num_pages) use_fifo i s)
    unfolding demandpage
    demandpage-Brought use_fifo e sound there v room header =
        let lt : i < s.space.num_pages =
          omega (arith, get_elem?-lt s.space.page_table i there, sound.ready.sized) in
        elim (Bool-cases (is_resident e.physical_page)) [
          | inl before ↦
              rw (there, before)
                (as_wanted saved (wanted e) _ (λ o old. rw before refl)
                  (reload-Brought use_fifo e sound there v lt room))
          | inr never ↦
              rw (there, never)
                (as_wanted image (wanted e) _ (λ o old. rw never refl)
                  (first_load-Brought use_fifo sound (e, there, v) lt room header))
        ]
