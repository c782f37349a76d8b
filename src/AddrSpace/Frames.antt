-- ===== src/AddrSpace/Frames.antt =====
-- Whose the physical pages are: the frames of the valid pages of one address space, those of other
-- programs, and the page manager's view of both.
use jalepenos.Base.{
  ℕ, ◌≡◌, ◌≢◌, refl, sym, ◌∙◌, ap, subst, Bool, true, false, List, Option, none, some, ◌==◌, ==_iff,
  ltb, if◌then◌else◌, ◌>>=◌, arith, get_elem?, set, inl, inr, ◌⊎◌, Bool-cases, ◌<◌, length,
  get_elem?-lt, get_elem?-set_self, get_elem?-set_ne, length-set,
}
use mathlib.Core.Option.{some-injective}
use jalepenos.Base.Int.{ℤ, pos, negsuc}
use jalepenos.BitMap.Bit.{cleared, clear-cleared, cleared-IsValid, test-cleared, test-outside}
use jalepenos.Machine.{TranslationEntry}
use jalepenos.MemManage.{MemoryManager, free_page, page_is_allocated}
use jalepenos.MemManage.Pages.{IsManager}

abbrev pub frame_if : Bool → ℤ → Option ℕ
frame_if true (pos p) = some p
frame_if true (negsuc n) = none
frame_if false p = none

abbrev pub frame_of : TranslationEntry → Option ℕ
frame_of e = frame_if e.valid e.physical_page

-- The frame of a page that is valid.
abbrev pub frame_at : List TranslationEntry → ℕ → Option ℕ
frame_at t i = get_elem? t i >>= frame_of

inside {ℓ} :
    {A : Type ℓ} (t : List A) (i j : ℕ) (v : A) {x : A}
    → get_elem? (set t i v) j ≡ some x
    → j < length t
inside t i j v h = subst (λ n. j < n) (length-set t i v) (get_elem?-lt (set t i v) j h)

pub set-cases {ℓ} :
    {A : Type ℓ} (t : List A) (i j : ℕ) (v x : A)
    → get_elem? (set t i v) j ≡ some x
    → ((j ≡ i) × (v ≡ x)) ⊎ ((j ≢ i) × (get_elem? t j ≡ some x))
set-cases t i j v x h = elim (Bool-cases (j == i)) [
  | inl same ↦
      let e : j ≡ i = (==_iff j i).0 same in
      let lt : i < length t = subst (λ k. k < length t) e (inside t i j v h) in
      inl (
        e,
        some-injective v x
            (sym (get_elem?-set_self t i v lt) ∙ ap (get_elem? (set t i v)) (sym e) ∙ h),
      )
  | inr other ↦
      let ne : j ≢ i = λ e. absurd (cc (other, (==_iff j i).1 e)) in
      inr (ne, sym (get_elem?-set_ne t i j v (λ e. ne (sym e))) ∙ h)
]

frame_if-some : (v : Bool) (p : ℤ) (q : ℕ) → frame_if v p ≡ some q → (v ≡ true) × (p ≡ pos q)
frame_if-some true (pos p) q h = (refl, cc)
frame_if-some true (negsuc n) q h = absurd cc
frame_if-some false p q h = absurd cc

pub bound {ℓ κ} :
    {A : Type ℓ} {B : Type κ} (o : Option A) (f : A → Option B) (b : B)
    → (o >>= f) ≡ some b
    → (a : A) × (o ≡ some a) × (f a ≡ some b)
bound none f b h = absurd cc
bound (some a) f b h = (a, refl, h)

-- A page with a frame has a valid entry that names it.
pub frame-entry :
    (t : List TranslationEntry) (i q : ℕ)
    → frame_at t i ≡ some q
    → (e : TranslationEntry) × (get_elem? t i ≡ some e)
      × (e.valid ≡ true)
      × (e.physical_page ≡ pos q)
frame-entry t i q h =
    let (e, at, f) = bound (get_elem? t i) frame_of q h in
    let (v, p) = frame_if-some e.valid e.physical_page q f in (e, at, v, p)

pub entry-frame :
    (t : List TranslationEntry) (i q : ℕ) (e : TranslationEntry)
    → get_elem? t i ≡ some e
    → e.valid ≡ true
    → e.physical_page ≡ pos q
    → frame_at t i ≡ some q
entry-frame t i q e at v p = rw (at, v, p) refl

-- The entries of a table are those of another, with other use and dirty bits, and some no longer valid.
abbrev pub Within : List TranslationEntry → List TranslationEntry → Type 0
Within t t' =
    (j : ℕ) (e' : TranslationEntry)
    → get_elem? t' j ≡ some e'
    → (e : TranslationEntry) × (get_elem? t j ≡ some e)
      × (e'.virtual_page ≡ e.virtual_page)
      × (e'.physical_page ≡ e.physical_page)
      × (e'.valid ≡ true → e.valid ≡ true)

pub Within-refl : (t : List TranslationEntry) → Within t t
Within-refl t = λ j e' at. (e', at, refl, refl, λ v. v)

pub Within-trans : (t u w : List TranslationEntry) → Within t u → Within u w → Within t w
Within-trans t u w f g = λ j e' at.
    let (e1, at1, v1, p1, k1) = g j e' at in
    let (e, at0, v0, p0, k0) = f j e1 at1 in (e, at0, v1 ∙ v0, p1 ∙ p0, λ k. k0 (k1 k))

pub Within-set :
    (t : List TranslationEntry) (i : ℕ) (e e' : TranslationEntry)
    → get_elem? t i ≡ some e
    → e'.virtual_page ≡ e.virtual_page
    → e'.physical_page ≡ e.physical_page
    → (e'.valid ≡ true → e.valid ≡ true)
    → Within t (set t i e')
Within-set t i e e' at v p k = λ j x there. elim (set-cases t i j e' x there) [
  | inl (same, is) ↦ (
    e,
    ap (get_elem? t) same ∙ at,
    ap (λ (y : TranslationEntry). y.virtual_page) (sym is) ∙ v,
    ap (λ (y : TranslationEntry). y.physical_page) (sym is) ∙ p,
    λ h. k (ap (λ (y : TranslationEntry). y.valid) is ∙ h),
  )
  | inr (apart, old) ↦ (x, old, refl, refl, λ h. h)
]

pub Within-frame :
    (t t' : List TranslationEntry) (j q : ℕ)
    → Within t t'
    → frame_at t' j ≡ some q
    → frame_at t j ≡ some q
Within-frame t t' j q w h =
    let (e', at', v', p') = frame-entry t' j q h in
    let (e, at, v, p, k) = w j e' at' in entry-frame t j q e at (k v') (sym p ∙ p')

-- The frames of an address space are allocated, each to one page, and none is another program's;
-- those of other programs are allocated too.
pub record Owned (other : ℕ → Bool) (t : List TranslationEntry) (m : MemoryManager) : Type 0 where
  pub manager : IsManager m
  pub phys : m.num_pages ≡ 4
  pub mine : (i q : ℕ) → frame_at t i ≡ some q → page_is_allocated m (pos q) ≡ some true
  pub not_others : (i q : ℕ) → frame_at t i ≡ some q → other q ≡ false
  pub apart : (i j q : ℕ) → frame_at t i ≡ some q → frame_at t j ≡ some q → i ≡ j
  pub others : (q : ℕ) → other q ≡ true → page_is_allocated m (pos q) ≡ some true

-- The pages of a table that have a frame have the same one in another.
abbrev pub Fewer : List TranslationEntry → List TranslationEntry → Type 0
Fewer t t' = (j q : ℕ) → frame_at t' j ≡ some q → frame_at t j ≡ some q

pub Fewer-set :
    (t : List TranslationEntry) (i : ℕ) (e : TranslationEntry)
    → e.valid ≡ false
    → Fewer t (set t i e)
Fewer-set t i e v = λ j q f.
    let (x, at, vx, px) = frame-entry (set t i e) j q f in
    elim (set-cases t i j e x at) [
      | inl (same, eq) ↦ absurd (cc (v, vx, ap (λ (y : TranslationEntry). y.valid) eq))
      | inr (ne, old) ↦ entry-frame t j q x old vx px
    ]

pub Owned-Fewer :
    (other : ℕ → Bool) (t t' : List TranslationEntry) (m : MemoryManager)
    → Fewer t t'
    → Owned other t m
    → Owned other t' m
Owned-Fewer other t t' m w o = record {
  manager = o.manager;
  phys = o.phys;
  mine = λ i q h. o.mine i q (w i q h);
  not_others = λ i q h. o.not_others i q (w i q h);
  apart = λ i j q h k. o.apart i j q (w i q h) (w j q k);
  others = o.others;
}

-- The manager hands out one more page.
pub Owned-alloc :
    (other : ℕ → Bool) (t : List TranslationEntry) (m m' : MemoryManager) (p : ℕ)
    → Owned other t m
    → IsManager m'
    → m'.num_pages ≡ m.num_pages
    → ((q : ℕ)
        → page_is_allocated m' (pos q)
          ≡ (if q == p then some true else page_is_allocated m (pos q)))
    → Owned other t m'
Owned-alloc other t m m' p o v count bits = record {
  manager = v;
  phys = count ∙ o.phys;
  mine = λ i q f. still q (o.mine i q f);
  not_others = o.not_others;
  apart = o.apart;
  others = λ q k. still q (o.others q k);
}
  where
    still :
        (q : ℕ) → page_is_allocated m (pos q) ≡ some true → page_is_allocated m' (pos q) ≡ some true
    still q a = ground (arith, bits q, a)

pub in_range :
    (m : MemoryManager) (p : ℕ) {b : Bool}
    → page_is_allocated m (pos p) ≡ some b
    → p < m.bmap.num_bits
unfolding page_is_allocated
in_range m p h = elim (Bool-cases (ltb p m.bmap.num_bits)) [
  | inl lt ↦ ground arith
  | inr ge ↦ absurd (cc (h, test-outside m.bmap p (ground arith)))
]

pub free_page-Freed :
    (m : MemoryManager) (p : ℕ)
    → IsManager m
    → page_is_allocated m (pos p) ≡ some true
    → (m' : MemoryManager) × (free_page m (pos p) ≡ some m')
      × IsManager m'
      × (m'.num_pages ≡ m.num_pages)
      × ((q : ℕ)
          → page_is_allocated m' (pos q)
            ≡ (if q == p then some false else page_is_allocated m (pos q)))
unfolding free_page page_is_allocated
free_page-Freed m p v h =
    let lt = in_range m p h in
    (
      record m { bmap = cleared m.bmap p },
      rw (clear-cleared m.bmap p lt) refl,
      record { bits = cleared-IsValid m.bmap p v.bits; pages = v.pages },
      refl,
      test-cleared m.bmap p v.bits lt,
    )

-- A page whose entry is made invalid gives its frame back.
pub Owned-free :
    (other : ℕ → Bool) (t t' : List TranslationEntry) (m m' : MemoryManager) (h p : ℕ)
    → Owned other t m
    → Within t t'
    → frame_at t h ≡ some p
    → frame_at t' h ≡ none
    → IsManager m'
    → m'.num_pages ≡ m.num_pages
    → ((q : ℕ)
        → page_is_allocated m' (pos q)
          ≡ (if q == p then some false else page_is_allocated m (pos q)))
    → Owned other t' m'
Owned-free other t t' m m' h p o w was gone v count bits = record {
  manager = v;
  phys = count ∙ o.phys;
  mine = λ i q f.
      let old = Within-frame t t' i q w f in
      stays q (λ e. cc (f, gone, ap (frame_at t') (o.apart i h q old (was ∙ ap some (sym e)))))
        (o.mine i q old);
  not_others = λ i q f. o.not_others i q (Within-frame t t' i q w f);
  apart = λ i j q f g. o.apart i j q (Within-frame t t' i q w f) (Within-frame t t' j q w g);
  others = λ q k. stays q (λ e. cc (k, o.not_others h p was, ap other e)) (o.others q k);
}
  where
    stays :
        (q : ℕ)
        → q ≢ p
        → page_is_allocated m (pos q) ≡ some true
        → page_is_allocated m' (pos q) ≡ some true
    stays q ne a = elim (Bool-cases (q == p)) [
      | inl e ↦ absurd (ne ((==_iff q p).0 e))
      | inr other_page ↦ bits q ∙ rw other_page a
    ]

-- A free frame that goes to a page.
pub Owned-take :
    (other : ℕ → Bool) (t : List TranslationEntry) (m : MemoryManager) (i p : ℕ)
    (e : TranslationEntry)
    → Owned other t m
    → e.valid ≡ true
    → e.physical_page ≡ pos p
    → ((j : ℕ) → frame_at t j ≢ some p)
    → page_is_allocated m (pos p) ≡ some true
    → other p ≡ false
    → Owned other (set t i e) m
Owned-take other t m i p e o v is free a mine = record {
  manager = o.manager;
  phys = o.phys;
  mine = λ j q f. elim (splits j q f) [ inl (x, y) ↦ rw (← y) a | inr (x, y) ↦ o.mine j q y ];
  not_others =
      λ j q f. elim (splits j q f) [ inl (x, y) ↦ rw (← y) mine | inr (x, y) ↦ o.not_others j q y ];
  apart = λ j k q f g. elim (splits j q f) [
    | inl (x, y) ↦ elim (splits k q g) [
      | inl (x', y') ↦ x ∙ sym x'
      | inr (x', y') ↦ absurd (free k (y' ∙ ap some (sym y)))
    ]
    | inr (x, y) ↦ elim (splits k q g) [
      | inl (x', y') ↦ absurd (free j (y ∙ ap some (sym y')))
      | inr (x', y') ↦ o.apart j k q y y'
    ]
  ];
  others = o.others;
}
  where
    splits :
        (j q : ℕ)
        → frame_at (set t i e) j ≡ some q
        → ((j ≡ i) × (p ≡ q)) ⊎ ((j ≢ i) × (frame_at t j ≡ some q))
    splits j q f =
        let (x, at, vx, px) = frame-entry (set t i e) j q f in
        elim (set-cases t i j e x at) [
          | inl (same, eq) ↦
              inl (same, cc (is, px, ap (λ (y : TranslationEntry). y.physical_page) eq))
          | inr (ne, old) ↦ inr (ne, entry-frame t j q x old vx px)
        ]
