-- ===== src/AddrSpace/Room.antt =====
-- What ClearPage does to the frames of an address space.
use jalepenos.Base.{
  get_elem?-set_ne, ℕ, zero, suc, ◌+◌, ◌*◌, ◌^◌, ◌≤◌, ◌<◌, ◌≡◌, ◌≢◌, refl, sym, ◌∙◌, ap, subst,
  Bool, true, false, not, ◌&&◌, List, Option, none, some, ◌==◌, ==_iff, ◌>>=◌, arith, get_elem?,
  set, inl, inr, Bool-cases, Option-cases, length-set, get_elem?-lt, get_elem?-set_self,
}
use mathlib.Core.Option.{some-injective}
use jalepenos.Base.Int.{ℤ, pos, negsuc}
use jalepenos.Machine.{TranslationEntry}
use jalepenos.MemManage.{MemoryManager, free_page, page_is_allocated}
use jalepenos.OpenFile.Bytes.{Gives}
use jalepenos.AddrSpace.{
  AddrSpace, BackingStore, is_place, is_victim, pass_over, clock_loop, write_page, page_out,
  clear_page,
}
use jalepenos.AddrSpace.Clock.{IsReady, Candidate, clock_loop-Stopped}
use jalepenos.AddrSpace.Frames.{
  frame_at, frame_of, entry-frame, Within, Within-trans, Within-set, Within-frame, Owned,
  Owned-free, free_page-Freed, set-cases,
}
use jalepenos.AddrSpace.Contents.{
  content, content_if, Clean, Same, Same-pass_over, Same-bind, Same-entry, Same-Within,
  write_page-other, write_page-saves, content-file,
}
use jalepenos.AddrSpace.Demand.{Paging, page_of, make_room}

-- The table is complete, the size in bytes is at most 2 ^ 31, the entries are numbered, and the frames are as they should be.
pub record Sound (other : ℕ → Bool) (s : Paging) : Type 0 where
  pub ready : IsReady s.space
  pub owned : Owned other s.space.page_table s.manager
  pub numbered : (j : ℕ) (e : TranslationEntry) → page_of s j ≡ some e → e.virtual_page ≡ pos j
  pub clean : Clean s
  pub small : s.space.num_pages * 128 ≤ 2 ^ 31

clock_stops :
    (fuel : ℕ) (use_fifo : Bool) (a : AddrSpace) (e : TranslationEntry)
    → get_elem? a.page_table a.clock_hand ≡ some e
    → is_victim use_fifo e ≡ true
    → clock_loop (suc fuel) use_fifo a ≡ some (e, a)
unfolding clock_loop
clock_stops fuel use_fifo a e at stop = rw (at, stop) refl

clock_passes :
    (fuel : ℕ) (use_fifo : Bool) (a : AddrSpace) (e : TranslationEntry)
    → get_elem? a.page_table a.clock_hand ≡ some e
    → is_victim use_fifo e ≡ false
    → clock_loop (suc fuel) use_fifo a ≡ clock_loop fuel use_fifo (pass_over a e)
unfolding clock_loop
clock_passes fuel use_fifo a e at on = rw (at, on) refl

clock_outside :
    (fuel : ℕ) (use_fifo : Bool) (a : AddrSpace)
    → get_elem? a.page_table a.clock_hand ≡ none
    → clock_loop (suc fuel) use_fifo a ≡ none
unfolding clock_loop
clock_outside fuel use_fifo a at = rw at refl

-- What the clock leaves of an address space when it stops.
abbrev Kept : AddrSpace → AddrSpace → Type 0
Kept a a1 = Same a.page_table a1.page_table × (a1.num_pages ≡ a.num_pages)

clock_loop-Kept :
    (fuel : ℕ) (use_fifo : Bool) (a a1 : AddrSpace) (e1 : TranslationEntry)
    → clock_loop fuel use_fifo a ≡ some (e1, a1)
    → Kept a a1
clock_loop-Kept zero use_fifo a a1 e1 h = absurd (unfold clock_loop in cc)
clock_loop-Kept (suc fuel) use_fifo a a1 e1 h =
    elim (Option-cases (get_elem? a.page_table a.clock_hand)) [
      | inl out ↦ absurd (cc (clock_outside fuel use_fifo a out, h))
      | inr (e, at) ↦ elim (Bool-cases (is_victim use_fifo e)) [
        | inl stop ↦
            let same : a ≡ a1 =
              ap (λ (r : TranslationEntry × AddrSpace). r.1)
                (some-injective _ _ (sym (clock_stops fuel use_fifo a e at stop) ∙ h)) in
            subst (Kept a) same (λ j. refl, refl)
        | inr on ↦
            let (w, n) =
              clock_loop-Kept fuel use_fifo (pass_over a e) a1 e1
                (sym (clock_passes fuel use_fifo a e at on) ∙ h) in
            (λ j. w j ∙ Same-pass_over a e at j, n)
      ]
    ]

-- A victim is valid, and in a frame.
victim_frame :
    (use_fifo : Bool) (e : TranslationEntry)
    → is_victim use_fifo e ≡ true
    → (p : ℕ) × (e.physical_page ≡ pos p) × (e.valid ≡ true)
unfolding is_victim
victim_frame use_fifo e h = resident e.physical_page refl
  where
    resident :
        (z : ℤ) → e.physical_page ≡ z → (p : ℕ) × (e.physical_page ≡ pos p) × (e.valid ≡ true)
    resident (pos p) is = (p, is, ground (arith, is))
    resident (negsuc n) is = absurd (ground (arith, is))

-- A page has been cleared: the program's memory is as it was, and a frame is free.
pub record Roomy (other : ℕ → Bool) (s s' : Paging) : Type 0 where
  pub sound : Sound other s'
  pub within : Within s.space.page_table s'.space.page_table
  pub memory : s'.memory ≡ s.memory
  pub num_pages : s'.space.num_pages ≡ s.space.num_pages
  pub steady : (j o : ℕ) → o < 128 → content s' j o ≡ content s j o
  pub backed :
      (j o : ℕ)
      → frame_at s.space.page_table j ≡ none
      → o < 128
      → s'.backing.file (j * 128 + o) ≡ s.backing.file (j * 128 + o)
  pub frame : ℕ
  pub free : page_is_allocated s'.manager (pos frame) ≡ some false

page_out-goes :
    (b : BackingStore) (memory : ℕ → ℕ) (m m' : MemoryManager) (e : TranslationEntry) (v p : ℕ)
    → e.virtual_page ≡ pos v
    → e.physical_page ≡ pos p
    → free_page m (pos p) ≡ some m'
    → v * 128 < 2 ^ 31
    → page_out b memory m e e.virtual_page e.physical_page
      ≡ some (write_page b memory e v p, m', record e { valid = false })
unfolding page_out
page_out-goes b memory m m' e v p virtual physical freed int =
    let inside : (e.dirty && not (is_place v)) ≡ false = ground arith in
    rw (virtual, physical, freed, inside) refl

make_room-goes :
    (fuel : ℕ) (use_fifo : Bool) (s : Paging) (a1 : AddrSpace) (e : TranslationEntry)
    (b' : BackingStore) (m' : MemoryManager) (e' : TranslationEntry)
    → clock_loop fuel use_fifo s.space ≡ some (e, a1)
    → page_out s.backing s.memory s.manager e e.virtual_page e.physical_page ≡ some (b', m', e')
    → make_room fuel use_fifo s
      ≡ some (record s {
        space = record a1 { page_table = set a1.page_table a1.clock_hand e' };
        backing = b';
        manager = m';
      })
unfolding make_room clear_page
make_room-goes fuel use_fifo s a1 e b' m' e' found out = rw (found, out) refl

-- What the page of the victim, entry `e` of table `t`, leaves behind.
module _ (s : Paging) (t : List TranslationEntry) (same : Same s.space.page_table t) (h p : ℕ)
    (e : TranslationEntry) (at : get_elem? t h ≡ some e) (valid : e.valid ≡ true)
    (physical : e.physical_page ≡ pos p) (clean : Clean s) where
  gone : TranslationEntry
  gone = record e { valid = false }

  after : AddrSpace → MemoryManager → Paging
  after a m = record s {
    space = record a { page_table = set t h gone };
    backing = write_page s.backing s.memory e h p;
    manager = m;
  }

  victim_clean :
      e.dirty ≡ false → (o : ℕ) → o < 128 → s.memory (p * 128 + o) ≡ s.backing.file (h * 128 + o)
  victim_clean spotless o lt =
      let (e0, at0, eq) = Same-entry s.space.page_table t h e same at in
      clean h p e0 at0 (ap (λ (y : TranslationEntry). y.valid) eq ∙ valid)
        (ap (λ (y : TranslationEntry). y.physical_page) eq ∙ physical)
        (ap (λ (y : TranslationEntry). y.dirty) eq ∙ spotless) o lt

  at_victim : get_elem? (set t h gone) h ≡ some gone
  at_victim = get_elem?-set_self t h gone (get_elem?-lt t h at)

  after-steady :
      (a : AddrSpace) (m : MemoryManager) (j o : ℕ)
      → o < 128
      → content (after a m) j o ≡ content s j o
  unfolding after gone write_page
  after-steady a m j o lt = elim (Bool-cases (h == j)) [
    | inl here ↦
        let is : h ≡ j = (==_iff h j).0 here in
        let saved : content (after a m) h o ≡ some (s.memory (p * 128 + o)) =
          rw (at_victim, physical)
            (ap some (
              write_page-saves s.backing s.memory e h p o (λ spotless. victim_clean spotless o lt)
                lt)) in
        let held : (get_elem? t h >>= λ x.
        content_if x.valid x.physical_page s.memory s.backing.file h o)
            ≡ some (s.memory (p * 128 + o)) =
          rw (at, valid, physical) refl in
        let was : (get_elem? t h >>= λ x.
        content_if x.valid x.physical_page s.memory s.backing.file h o)
            ≡ content s h o =
          Same-bind s.space.page_table t h _ (λ x. refl) same in
        rw (← is) (saved ∙ sym held ∙ was)
    | inr other ↦
        let ne : h ≢ j = λ eq. absurd (cc (other, (==_iff h j).1 eq)) in
        ap
          (λ (x : Option TranslationEntry). x >>= λ y.
            content_if y.valid y.physical_page s.memory (write_page s.backing s.memory e h p).file j
              o)
          (get_elem?-set_ne t h j gone ne)
        ∙ content-file t s.memory s.backing.file (write_page s.backing s.memory e h p).file j o
            (write_page-other s.backing s.memory e h p j o (λ eq. ne (sym eq)) lt)
        ∙ Same-bind s.space.page_table t j _ (λ x. refl) same
  ]

  after-Clean : (a : AddrSpace) (m : MemoryManager) → Clean (after a m)
  unfolding after gone
  after-Clean a m j q x there v f spotless o lt = elim (set-cases t h j gone x there) [
    | inl (here, is) ↦ absurd (cc (v, ap (λ (y : TranslationEntry). y.valid) is))
    | inr (ne, old) ↦
        let (y, before, eq) = Same-entry s.space.page_table t j x same old in
        clean j q y before (ap (λ (z : TranslationEntry). z.valid) eq ∙ v)
          (ap (λ (z : TranslationEntry). z.physical_page) eq ∙ f)
          (ap (λ (z : TranslationEntry). z.dirty) eq ∙ spotless) o lt
        ∙ sym (write_page-other s.backing s.memory e h p j o ne lt)
  ]

-- For a sound paging state of at most 2 ^ 31 bytes and some page of the program that is valid
-- and in memory, two turns of the clock of ClearPage are enough: afterwards a frame is free,
-- every page of the program holds what it held, in its frame or in the backing file, memory is
-- unchanged, and the state is sound again.
pub make_room-Roomy :
    (other : ℕ → Bool) (use_fifo : Bool) (s : Paging) (v : ℕ)
    → Sound other s
    → Candidate s.space v
    → Gives (Roomy other s) (make_room (2 * s.space.num_pages) use_fifo s)
unfolding after gone
make_room-Roomy other use_fifo s v sound c =
    let ((e, a1), found, stop) = clock_loop-Stopped use_fifo s.space v sound.ready c in
    let (same, n) = clock_loop-Kept (2 * s.space.num_pages) use_fifo s.space a1 e found in
    let (p, physical, valid) = victim_frame use_fifo e stop.victim in
    let h = a1.clock_hand in
    let w = Same-Within s.space.page_table a1.page_table same in
    let (e0, at0, v0, p0, k0) = w h e stop.at_hand in
    let virtual : e.virtual_page ≡ pos h = v0 ∙ sound.numbered h e0 at0 in
    let was : frame_at s.space.page_table h ≡ some p =
      entry-frame s.space.page_table h p e0 at0 (k0 valid) (sym p0 ∙ physical) in
    let (m', freed, manager, count, bits) =
      free_page-Freed s.manager p sound.owned.manager (sound.owned.mine h p was) in
    let x = record e { valid = false } in
    let table = set a1.page_table h x in
    let w' : Within s.space.page_table table =
      Within-trans s.space.page_table a1.page_table table w
        (Within-set a1.page_table h e x stop.at_hand refl refl (λ f. absurd cc)) in
    rw
      (make_room-goes (2 * s.space.num_pages) use_fifo s a1 e _ m' x found (
        page_out-goes s.backing s.memory s.manager m' e h p virtual physical freed
          (omega (arith, stop.ready.hand, n, sound.small))))
      record {
        sound = record {
          ready = record {
            sized = length-set a1.page_table h x ∙ stop.ready.sized;
            hand = stop.ready.hand;
          };
          owned =
              Owned-free other s.space.page_table table s.manager m' h p sound.owned w' was
                (ap (λ (o : Option TranslationEntry). o >>= frame_of)
                  (get_elem?-set_self a1.page_table h x
                    (get_elem?-lt a1.page_table h stop.at_hand)))
                manager count bits;
          numbered =
              λ j y at. let (y0, there, yv, yp, yk) = w' j y at in yv ∙ sound.numbered j y0 there;
          clean =
              after-Clean s a1.page_table same h p e stop.at_hand valid physical sound.clean a1 m';
          small = omega (arith, n, sound.small);
        };
        within = w';
        memory = refl;
        num_pages = n;
        steady =
            after-steady s a1.page_table same h p e stop.at_hand valid physical sound.clean a1 m';
        backed = λ j o empty lt.
            write_page-other s.backing s.memory e h p j o
              (λ eq. absurd (cc (empty, was, ap (frame_at s.space.page_table) eq))) lt;
        frame = p;
        free = let eq : (p == p) ≡ true = ground arith in bits p ∙ rw eq refl;
      }

still_empty :
    (a : AddrSpace) (e : TranslationEntry)
    → get_elem? a.page_table a.clock_hand ≡ some e
    → ((j : ℕ) → frame_at a.page_table j ≡ none)
    → (j : ℕ) → frame_at (pass_over a e).page_table j ≡ none
still_empty a e at empty j = elim (Option-cases (frame_at (pass_over a e).page_table j)) [
  | inl gone ↦ gone
  | inr (q, there) ↦ absurd (
      cc (
        empty j,
        Within-frame a.page_table (pass_over a e).page_table j q
            (Same-Within a.page_table (pass_over a e).page_table (Same-pass_over a e at)) there,
      ))
]

-- With no page in memory, the clock never stops, however long it runs.
pub clock_spins :
    (fuel : ℕ) (use_fifo : Bool) (a : AddrSpace)
    → ((j : ℕ) → frame_at a.page_table j ≡ none)
    → clock_loop fuel use_fifo a ≡ none
clock_spins zero use_fifo a empty = unfold clock_loop in refl
clock_spins (suc fuel) use_fifo a empty =
    elim (Option-cases (get_elem? a.page_table a.clock_hand)) [
      | inl out ↦ clock_outside fuel use_fifo a out
      | inr (e, at) ↦ elim (Bool-cases (is_victim use_fifo e)) [
        | inl stop ↦
            let (p, physical, valid) = victim_frame use_fifo e stop in
            absurd
              (cc (empty a.clock_hand, entry-frame a.page_table a.clock_hand p e at valid physical))
        | inr on ↦
            clock_passes fuel use_fifo a e at on
            ∙ clock_spins fuel use_fifo (pass_over a e) (still_empty a e at empty)
      ]
    ]
