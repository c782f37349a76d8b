-- ===== src/AddrSpace/Takes.antt =====
-- How demandpage gets a frame: the tries of AllocPage with ClearPage in between.
use jalepenos.Base.{
  ℕ, ◌+◌, ◌*◌, ◌<◌, ◌≡◌, ◌≢◌, refl, sym, ◌∙◌, ap, Bool, true, false, Option, some, ◌==◌, ==_iff,
  ◌>>=◌, arith, set, inl, inr, Bool-cases, length-set, get_elem?-set_self, get_elem?-set_ne,
}
use mathlib.Core.Option.{some-injective}
use jalepenos.Base.Int.{ℤ, pos, negsuc}
use jalepenos.Machine.{TranslationEntry}
use jalepenos.MemManage.{MemoryManager, alloc_page, page_is_allocated}
use jalepenos.MemManage.Pages.{Allocated, page, no_page, alloc_page-Allocated}
use jalepenos.OpenFile.Bytes.{Gives}
use jalepenos.AddrSpace.Frames.{
  frame_at, frame_of, frame-entry, Fewer, Fewer-set, Owned, Owned-Fewer, Owned-alloc, in_range,
  set-cases,
}
use jalepenos.AddrSpace.Room.{Sound}
use jalepenos.AddrSpace.Contents.{content, content_if}
use jalepenos.AddrSpace.Demand.{Paging, page_of, put_page, take_page}

-- Page `i` has an entry, which is not valid.
abbrev pub Absent : Paging → ℕ → Type 0
Absent s i = (e : TranslationEntry) × (page_of s i ≡ some e) × (e.valid ≡ false)

-- What no try for page `i` changes: the soundness of the state, memory, the frames of pages that keep
-- theirs, what the other pages hold, and what the backing file has of page `i`.
pub record Calm (other : ℕ → Bool) (i : ℕ) (s s' : Paging) : Type 0 where
  pub sound : Sound other s'
  pub fewer : Fewer s.space.page_table s'.space.page_table
  pub memory : s'.memory ≡ s.memory
  pub num_pages : s'.space.num_pages ≡ s.space.num_pages
  pub steady : (j o : ℕ) → j ≢ i → o < 128 → content s' j o ≡ content s j o
  pub backed : (o : ℕ) → o < 128 → s'.backing.file (i * 128 + o) ≡ s.backing.file (i * 128 + o)

-- Frame `p` has been given to page `i`, which is not valid yet.
pub record Reserved (other : ℕ → Bool) (i : ℕ) (s : Paging) (p : ℕ) (s' : Paging) : Type 0 where
  pub calm : Calm other i s s'
  pub entry : TranslationEntry
  pub at : page_of s' i ≡ some entry
  pub invalid : entry.valid ≡ false
  pub physical : entry.physical_page ≡ pos p
  pub allocated : page_is_allocated s'.manager (pos p) ≡ some true
  pub not_other : other p ≡ false
  pub fresh : (j : ℕ) → frame_at s'.space.page_table j ≢ some p

-- Every frame was taken, and AllocPage has returned -1.
pub record Refused (other : ℕ → Bool) (i : ℕ) (s s' : Paging) : Type 0 where
  pub calm : Calm other i s s'
  pub absent : Absent s' i
  pub kept :
      (j q : ℕ) → frame_at s.space.page_table j ≡ some q → frame_at s'.space.page_table j ≡ some q
  pub full : (q : ℕ) → page_is_allocated s.manager (pos q) ≢ some false

abbrev pub Taken : (ℕ → Bool) → ℕ → Paging → ℤ × Paging → Type 0
Taken other i s (pos p, s') = Reserved other i s p s'
Taken other i s (negsuc n, s') = Refused other i s s'

take_page-goes :
    (i : ℕ) (s : Paging) (e : TranslationEntry) (p : ℤ) (m : MemoryManager)
    → page_of s i ≡ some e
    → alloc_page s.manager ≡ some (p, m)
    → take_page i s
      ≡ some (p, put_page (record s { manager = m }) i (record e { physical_page = p }))
unfolding take_page
take_page-goes i s e p m at got = rw (got, at) refl

pub Absent-frame : (s : Paging) (i q : ℕ) → Absent s i → frame_at s.space.page_table i ≢ some q
Absent-frame s i q (e, at, v) h =
    let (x, there, vx, px) = frame-entry s.space.page_table i q h in
    let same : e ≡ x = some-injective e x (sym at ∙ there) in
    absurd (cc (v, vx, ap (λ (y : TranslationEntry). y.valid) same))

module _ (other : ℕ → Bool) (i : ℕ) (s : Paging) (sound : Sound other s) (absent : Absent s i)
    (lt : i < s.space.num_pages) where
  -- The entry of page `i` after AllocPage, whatever it returned.
  after_take : ℤ → MemoryManager → Paging
  after_take p m = put_page (record s { manager = m }) i (record (absent.0) { physical_page = p })

  after-Calm :
      (p : ℤ) (m : MemoryManager)
      → Owned other s.space.page_table m
      → Calm other i s (after_take p m)
  unfolding after_take
  after-Calm p m o =
      let (e, at, v) = absent in
      let e' = record e { physical_page = p } in
      let t = s.space.page_table in
      let fewer : Fewer t (set t i e') = Fewer-set t i e' v in
      record {
        sound = record {
          ready = record { sized = length-set t i e' ∙ sound.ready.sized; hand = sound.ready.hand };
          owned = Owned-Fewer other t (set t i e') m fewer o;
          numbered = λ j x there. elim (set-cases t i j e' x there) [
            | inl (same, eq) ↦
                ap (λ (y : TranslationEntry). y.virtual_page) (sym eq)
                ∙ sound.numbered i e at
                ∙ ap pos (sym same)
            | inr (ne, old) ↦ sound.numbered j x old
          ];
          clean = λ j q x there vx fx spotless o lt. elim (set-cases t i j e' x there) [
            | inl (same, eq) ↦ absurd (cc (v, vx, ap (λ (y : TranslationEntry). y.valid) eq))
            | inr (ne, old) ↦ sound.clean j q x old vx fx spotless o lt
          ];
          small = sound.small;
        };
        fewer = fewer;
        memory = refl;
        num_pages = refl;
        steady = λ j o ne lt.
            ap
              (λ (x : Option TranslationEntry).
                x >>= λ y. content_if y.valid y.physical_page s.memory s.backing.file j o)
              (get_elem?-set_ne t i j e' (λ eq. ne (sym eq)));
        backed = λ o lt. refl;
      }

  after-entry :
      (p : ℤ) (m : MemoryManager)
      → page_of (after_take p m) i ≡ some (record (absent.0) { physical_page = p })
  unfolding after_take
  after-entry p m =
      get_elem?-set_self s.space.page_table i (record (absent.0) { physical_page = p })
        (omega (arith, lt, sound.ready.sized))

  after_kept :
      (p : ℤ) (m : MemoryManager) (j q : ℕ)
      → frame_at s.space.page_table j ≡ some q
      → frame_at (after_take p m).space.page_table j ≡ some q
  unfolding after_take
  after_kept p m j q h = elim (Bool-cases (i == j)) [
    | inl same ↦
        absurd
          (Absent-frame s i q absent (ap (frame_at s.space.page_table) ((==_iff i j).0 same) ∙ h))
    | inr ne ↦
        ap (λ (o : Option TranslationEntry). o >>= frame_of)
          (get_elem?-set_ne s.space.page_table i j (record (absent.0) { physical_page = p })
            (λ eq. absurd (cc (ne, (==_iff i j).1 eq))))
        ∙ h
  ]

  Allocated-Taken :
      (r : ℤ × MemoryManager) → Allocated s.manager r → Taken other i s (r.0, after_take r.0 r.1)
  unfolding after_take
  Allocated-Taken r (page p m' v below same free low bits) = record {
    calm =
        after-Calm (pos p) m'
          (Owned-alloc other s.space.page_table s.manager m' p sound.owned v same bits);
    entry = record (absent.0) { physical_page = pos p };
    at = after-entry (pos p) m';
    invalid = absent.2;
    physical = refl;
    allocated = let eq : (p == p) ≡ true = ground arith in bits p ∙ rw eq refl;
    not_other = elim (Bool-cases (other p)) [
      | inl yours ↦ absurd (cc (free, sound.owned.others p yours))
      | inr mine ↦ mine
    ];
    fresh = λ j h. absurd (
        cc (
          free,
          sound.owned.mine j p (
              Fewer-set s.space.page_table i (record (absent.0) { physical_page = pos p })
                (absent.2) j p h),
        ));
  }
  Allocated-Taken r (no_page full) = record {
    calm = after-Calm (negsuc 0) s.manager sound.owned;
    absent = (
      record (absent.0) { physical_page = negsuc 0 },
      after-entry (negsuc 0) s.manager,
      absent.2,
    );
    kept = after_kept (negsuc 0) s.manager;
    full = λ q h.
        absurd (cc (h, full q (omega (arith, in_range s.manager q h, sound.owned.manager.pages))));
  }

  pub take_page-Taken : Gives (Taken other i s) (take_page i s)
  unfolding after_take
  take_page-Taken =
      let (r, got, a) = alloc_page-Allocated s.manager sound.owned.manager in
      rw (take_page-goes i s (absent.0) r.0 r.1 (absent.1) got) (Allocated-Taken r a)
