-- ===== src/AddrSpace/Contents.antt =====
-- The memory of an address space as its program sees it: each page in its frame or in the backing file.
use jalepenos.Base.{
  ℕ, ◌+◌, ◌-◌, ◌*◌, ◌<◌, ◌≡◌, ◌≢◌, refl, sym, ◌∙◌, ap, Bool, true, false, ◌&&◌, List, Option, none,
  some, ◌==◌, ==_iff, ltb, leb, ◌>>=◌, arith, get_elem?, set, inl, inr, Bool-cases, get_elem?-lt,
  get_elem?-set_self, get_elem?-set_ne,
}
use mathlib.Core.Option.{some-injective}
use jalepenos.Base.Int.{ℤ, pos, negsuc}
use jalepenos.Machine.{TranslationEntry}
use jalepenos.AddrSpace.{AddrSpace, BackingStore, pass_over, write_page}
use jalepenos.AddrSpace.Demand.{Paging, page_of}
use jalepenos.AddrSpace.Frames.{Within, bound}

abbrev pub content_if : Bool → ℤ → (ℕ → ℕ) → (ℕ → ℕ) → ℕ → ℕ → Option ℕ
content_if true (pos q) memory file j o = some (memory (q * 128 + o))
content_if false (pos q) memory file j o = some (file (j * 128 + o))
content_if v (negsuc n) memory file j o = none

-- Byte `o` of page `j`, none for a page that has never been loaded.
abbrev pub content : Paging → ℕ → ℕ → Option ℕ
content s j o = page_of s j >>= λ e. content_if e.valid e.physical_page s.memory s.backing.file j o

-- A page in memory that is not dirty is in the backing file too.
abbrev pub Clean : Paging → Type 0
Clean s =
    (j q : ℕ) (e : TranslationEntry)
    → page_of s j ≡ some e
    → e.valid ≡ true
    → e.physical_page ≡ pos q
    → e.dirty ≡ false
    → (o : ℕ) → o < 128
    → s.memory (q * 128 + o) ≡ s.backing.file (j * 128 + o)

-- An entry without its use bit.
abbrev pub core : TranslationEntry → TranslationEntry
core e = record e { used = false }

abbrev pub core_at : List TranslationEntry → ℕ → Option TranslationEntry
core_at t j = get_elem? t j >>= λ e. some (core e)

-- Two tables that differ in use bits only.
abbrev pub Same : List TranslationEntry → List TranslationEntry → Type 0
Same t t' = (j : ℕ) → core_at t' j ≡ core_at t j

pub Same-pass_over :
    (a : AddrSpace) (e : TranslationEntry)
    → get_elem? a.page_table a.clock_hand ≡ some e
    → Same a.page_table (pass_over a e).page_table
Same-pass_over a e at j = elim (Bool-cases (a.clock_hand == j)) [
  | inl here ↦
      let same : a.clock_hand ≡ j = (==_iff a.clock_hand j).0 here in
      let x = record e { used = false } in
      let after : core_at (set a.page_table a.clock_hand x) a.clock_hand ≡ some (core e) =
        ap (λ (o : Option TranslationEntry). o >>= λ y. some (core y))
          (get_elem?-set_self a.page_table a.clock_hand x
            (get_elem?-lt a.page_table a.clock_hand at)) in
      let before : core_at a.page_table a.clock_hand ≡ some (core e) =
        ap (λ (o : Option TranslationEntry). o >>= λ y. some (core y)) at in
      rw (← same) (after ∙ sym before)
  | inr other ↦
      ap (λ (o : Option TranslationEntry). o >>= λ y. some (core y))
        (get_elem?-set_ne a.page_table a.clock_hand j (record e { used = false })
          (λ eq. absurd (cc (other, (==_iff a.clock_hand j).1 eq))))
]

core_bind {ℓ} :
    {B : Type ℓ} (f : TranslationEntry → Option B) (o : Option TranslationEntry)
    → ((e : TranslationEntry) → f (core e) ≡ f e)
    → (o >>= f) ≡ ((o >>= λ e. some (core e)) >>= f)
core_bind f none h = refl
core_bind f (some e) h = sym (h e)

-- What reads an entry without its use bit reads the same in both tables.
pub Same-bind {ℓ} :
    {B : Type ℓ} (t t' : List TranslationEntry) (j : ℕ) (f : TranslationEntry → Option B)
    → ((e : TranslationEntry) → f (core e) ≡ f e)
    → Same t t'
    → (get_elem? t' j >>= f) ≡ (get_elem? t j >>= f)
Same-bind t t' j f h same =
    core_bind f (get_elem? t' j) h
    ∙ ap (λ (o : Option TranslationEntry). o >>= f) (same j)
    ∙ sym (core_bind f (get_elem? t j) h)

-- The entry of the other table.
pub Same-entry :
    (t t' : List TranslationEntry) (j : ℕ) (e' : TranslationEntry)
    → Same t t'
    → get_elem? t' j ≡ some e'
    → (e : TranslationEntry) × (get_elem? t j ≡ some e) × (core e ≡ core e')
Same-entry t t' j e' same at =
    let there : core_at t j ≡ some (core e') =
      sym (same j) ∙ ap (λ (o : Option TranslationEntry). o >>= λ y. some (core y)) at in
    let (e, before, eq) = bound (get_elem? t j) (λ y. some (core y)) (core e') there in
    (e, before, some-injective (core e) (core e') eq)

pub Same-Within : (t t' : List TranslationEntry) → Same t t' → Within t t'
Same-Within t t' same j e' at =
    let (e, before, eq) = Same-entry t t' j e' same at in
    (
      e,
      before,
      ap (λ (y : TranslationEntry). y.virtual_page) (sym eq),
      ap (λ (y : TranslationEntry). y.physical_page) (sym eq),
      λ v. ap (λ (y : TranslationEntry). y.valid) eq ∙ v,
    )

-- Writing one page out leaves the bytes of every other page in the file.
pub write_page-other :
    (b : BackingStore) (memory : ℕ → ℕ) (e : TranslationEntry) (h p j o : ℕ)
    → j ≢ h
    → o < 128
    → (write_page b memory e h p).file (j * 128 + o) ≡ b.file (j * 128 + o)
unfolding write_page
write_page-other b memory e h p j o ne lt = elim (Bool-cases e.dirty) [
  | inl dirty ↦
      let outside : (leb (h * 128) (j * 128 + o) && ltb (j * 128 + o) (h * 128 + 128)) ≡ false =
        elim (Bool-cases (j == h)) [
          | inl eq ↦ absurd (ne ((==_iff j h).0 eq))
          | inr apart ↦ ground arith
        ] in
      rw (dirty, outside) refl
  | inr clean ↦ rw clean refl
]

-- Afterwards the file has the bytes of the page that is given up, written out or clean.
pub write_page-saves :
    (b : BackingStore) (memory : ℕ → ℕ) (e : TranslationEntry) (h p o : ℕ)
    → (e.dirty ≡ false → memory (p * 128 + o) ≡ b.file (h * 128 + o))
    → o < 128
    → (write_page b memory e h p).file (h * 128 + o) ≡ memory (p * 128 + o)
unfolding write_page
write_page-saves b memory e h p o clean lt = elim (Bool-cases e.dirty) [
  | inl dirty ↦
      let inside : (leb (h * 128) (h * 128 + o) && ltb (h * 128 + o) (h * 128 + 128)) ≡ true =
        ground arith in
      let place : p * 128 + (h * 128 + o - h * 128) ≡ p * 128 + o = omega arith in
      rw (dirty, inside, place) refl
  | inr spotless ↦ rw spotless (sym (clean spotless))
]

content_if-file :
    (v : Bool) (z : ℤ) (memory file file' : ℕ → ℕ) (j o : ℕ)
    → file' (j * 128 + o) ≡ file (j * 128 + o)
    → content_if v z memory file' j o ≡ content_if v z memory file j o
content_if-file true (pos q) memory file file' j o h = refl
content_if-file true (negsuc n) memory file file' j o h = refl
content_if-file false (pos q) memory file file' j o h = ap some h
content_if-file false (negsuc n) memory file file' j o h = refl

pub bind_ext {ℓ κ} :
    {A : Type ℓ} {B : Type κ} (o : Option A) (f g : A → Option B)
    → ((a : A) → f a ≡ g a)
    → (o >>= f) ≡ (o >>= g)
bind_ext none f g h = refl
bind_ext (some a) f g h = h a

-- Of an entry, with another backing file that agrees on the byte.
pub content-file :
    (t : List TranslationEntry) (memory file file' : ℕ → ℕ) (j o : ℕ)
    → file' (j * 128 + o) ≡ file (j * 128 + o)
    → (get_elem? t j >>= λ e. content_if e.valid e.physical_page memory file' j o)
      ≡ (get_elem? t j >>= λ e. content_if e.valid e.physical_page memory file j o)
content-file t memory file file' j o h =
    bind_ext (get_elem? t j) _ _
      (λ e. content_if-file e.valid e.physical_page memory file file' j o h)
