-- ===== src/AddrSpace/Resident.antt =====
-- `demandpage` as a whole: the page comes in, and nothing else that a program sees changes.
use jalepenos.Base.{
  ℕ, ◌+◌, ◌*◌, ◌<◌, ◌≡◌, ◌≢◌, refl, sym, ◌∙◌, ap, Bool, true, false, ◌&&◌, Option, some, ◌==◌,
  ==_iff, ltb, leb, ◌>>=◌, arith, get_elem?, set, inl, inr, Bool-cases, Option-cases, length-set,
  get_elem?-lt, get_elem?-set_self, get_elem?-set_ne,
}
use jalepenos.Base.Int.{ℤ, pos, negsuc}
use jalepenos.Machine.{TranslationEntry}
use jalepenos.AddrSpace.Frames.{frame_at, entry-frame, Owned-take, set-cases}
use jalepenos.AddrSpace.Contents.{content, content_if}
use jalepenos.AddrSpace.Room.{Sound}
use jalepenos.AddrSpace.Takes.{Reserved}
use jalepenos.AddrSpace.Image.{Filled}
use jalepenos.AddrSpace.Demand.{Paging, page_of, put_page}

-- Page `i` is in memory and holds `byte`, of the bytes that were in its frame; no other page of the
-- program has changed, nor a frame of another program.
pub record Resident (other : ℕ → Bool) (i : ℕ) (byte : ℕ → ℕ → ℕ) (s s' : Paging) : Type 0 where
  pub sound : Sound other s'
  pub num_pages : s'.space.num_pages ≡ s.space.num_pages
  pub frame : ℕ
  pub held : frame_at s'.space.page_table i ≡ some frame
  pub bytes : (o : ℕ) → o < 128 → content s' i o ≡ some (byte o (s.memory (frame * 128 + o)))
  pub steady : (j o : ℕ) → j ≢ i → o < 128 → content s' j o ≡ content s j o
  pub isolated :
      (q o : ℕ) → other q ≡ true → o < 128 → s'.memory (q * 128 + o) ≡ s.memory (q * 128 + o)

outside_frame :
    (q p o : ℕ)
    → q ≢ p
    → o < 128
    → (leb (p * 128) (q * 128 + o) && ltb (q * 128 + o) (p * 128 + 128)) ≡ false
outside_frame q p o ne lt = elim (Bool-cases (q == p)) [
  | inl eq ↦ absurd (ne ((==_iff q p).0 eq))
  | inr apart ↦ ground arith
]

-- Memory outside one frame is read by pages in other frames only.
content_if-memory :
    (v : Bool) (z : ℤ) (memory memory' file : ℕ → ℕ) (j o : ℕ)
    → ((q : ℕ) → v ≡ true → z ≡ pos q → memory' (q * 128 + o) ≡ memory (q * 128 + o))
    → content_if v z memory' file j o ≡ content_if v z memory file j o
content_if-memory true (pos q) memory memory' file j o h = ap some (h q refl refl)
content_if-memory true (negsuc n) memory memory' file j o h = refl
content_if-memory false (pos q) memory memory' file j o h = refl
content_if-memory false (negsuc n) memory memory' file j o h = refl

-- The frame of page `i` has been filled, and its entry made valid.
module _ (other : ℕ → Bool) (i p : ℕ) (byte : ℕ → ℕ → ℕ) (s s1 : Paging)
    (r : Reserved other i s p s1) (mem : ℕ → ℕ) (filled : Filled byte s1.memory (p * 128) mem)
    (e' : TranslationEntry) (valid : e'.valid ≡ true) (physical : e'.physical_page ≡ pos p)
    (virtual : e'.virtual_page ≡ r.entry.virtual_page)
    (spotless : e'.dirty ≡ false
      → (o : ℕ) → o < 128
      → mem (p * 128 + o) ≡ s1.backing.file (i * 128 + o)) where
  end : Paging
  end = put_page (record s1 { memory = mem }) i e'

  kept : (q o : ℕ) → q ≢ p → o < 128 → mem (q * 128 + o) ≡ s1.memory (q * 128 + o)
  kept q o ne lt = filled.rest (q * 128 + o) (outside_frame q p o ne lt)

  own : get_elem? (set s1.space.page_table i e') i ≡ some e'
  own = get_elem?-set_self s1.space.page_table i e' (get_elem?-lt s1.space.page_table i r.at)

  end-Sound : Sound other end
  unfolding end
  end-Sound = record {
    ready = record {
      sized = length-set s1.space.page_table i e' ∙ r.calm.sound.ready.sized;
      hand = r.calm.sound.ready.hand;
    };
    owned =
        Owned-take other s1.space.page_table s1.manager i p e' r.calm.sound.owned valid physical
          r.fresh r.allocated r.not_other;
    numbered = λ j x there. elim (set-cases s1.space.page_table i j e' x there) [
      | inl (same, eq) ↦
          ap (λ (y : TranslationEntry). y.virtual_page) (sym eq)
          ∙ virtual
          ∙ r.calm.sound.numbered i r.entry r.at
          ∙ ap pos (sym same)
      | inr (ne, old) ↦ r.calm.sound.numbered j x old
    ];
    clean = λ j q x there vx fx sx o lt. elim (set-cases s1.space.page_table i j e' x there) [
      | inl (same, eq) ↦
          let is : p ≡ q = cc (physical, fx, ap (λ (y : TranslationEntry). y.physical_page) eq) in
          ap (λ (t : ℕ). mem (t * 128 + o)) (sym is)
          ∙ spotless (ap (λ (y : TranslationEntry). y.dirty) eq ∙ sx) o lt
          ∙ ap (λ (t : ℕ). s1.backing.file (t * 128 + o)) (sym same)
      | inr (ne, old) ↦
          kept q o (λ eq. r.fresh j (entry-frame s1.space.page_table j q x old vx fx ∙ ap some eq))
            lt
          ∙ r.calm.sound.clean j q x old vx fx sx o lt
    ];
    small = r.calm.sound.small;
  }

  end-steady : (j o : ℕ) → j ≢ i → o < 128 → content end j o ≡ content s j o
  unfolding end
  end-steady j o ne lt =
      ap
        (λ (x : Option TranslationEntry).
          x >>= λ y. content_if y.valid y.physical_page mem s1.backing.file j o)
        (get_elem?-set_ne s1.space.page_table i j e' (λ eq. ne (sym eq)))
      ∙ elim (Option-cases (page_of s1 j)) [
        | inl gone ↦ rw gone refl
        | inr (y, at) ↦ rw at (
            content_if-memory y.valid y.physical_page s1.memory mem s1.backing.file j o (λ q vy fy.
              kept q o
                (λ eq. r.fresh j (entry-frame s1.space.page_table j q y at vy fy ∙ ap some eq)) lt))
      ]
      ∙ r.calm.steady j o ne lt

  pub filled-Resident : Resident other i byte s (put_page (record s1 { memory = mem }) i e')
  unfolding end
  filled-Resident = record {
    sound = end-Sound;
    num_pages = r.calm.num_pages;
    frame = p;
    held = entry-frame (set s1.space.page_table i e') i p e' own valid physical;
    bytes = λ o lt.
        rw (own, valid, physical)
          (ap some
            (filled.bytes o lt ∙ ap (λ (m : ℕ → ℕ). byte o (m (p * 128 + o))) r.calm.memory));
    steady = end-steady;
    isolated = λ q o yours lt.
        kept q o (λ eq. absurd (cc (yours, r.not_other, ap other eq))) lt
        ∙ ap (λ (m : ℕ → ℕ). m (q * 128 + o)) r.calm.memory;
  }
