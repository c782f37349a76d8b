-- ===== src/AddrSpace/Tries.antt =====
-- The tries together: a page gets a frame when one is free or another page can give its own up.
use jalepenos.Base.{
  ℕ, ◌*◌, ◌<◌, ◌≡◌, refl, ◌∙◌, subst, Bool, true, false, Option, none, some, ◌>>=◌, arith, inl, inr,
  ◌⊎◌, Option-cases, get_elem?-some,
}
use jalepenos.Base.Int.{ℤ, pos, negsuc}
use jalepenos.MemManage.{page_is_allocated}
use jalepenos.OpenFile.Bytes.{Gives}
use jalepenos.OpenFile.Writes.{bind-Gives, map-Gives}
use jalepenos.AddrSpace.Clock.{Candidate}
use jalepenos.AddrSpace.Frames.{frame_at, frame-entry, Within, Within-frame}
use jalepenos.AddrSpace.Room.{Sound, Roomy, make_room-Roomy}
use jalepenos.AddrSpace.Takes.{
  Absent, Calm, Reserved, Refused, Taken, take_page-Taken, Absent-frame,
}
use jalepenos.AddrSpace.Demand.{
  Paging, take_page, make_room, if_taken, unless_taken, second_try, first_try, two_tries,
}

-- A page of the space is in memory, or some frame is free.
abbrev pub HasRoom : Paging → Type 0
HasRoom s =
    ((v : ℕ) × (q : ℕ) × (frame_at s.space.page_table v ≡ some q))
    ⊎ ((q : ℕ) × (page_is_allocated s.manager (pos q) ≡ some false))

pub frame-Candidate :
    (s : Paging) (v q : ℕ) → frame_at s.space.page_table v ≡ some q → Candidate s.space v
frame-Candidate s v q h =
    let (e, at, valid, physical) = frame-entry s.space.page_table v q h in
    record { entry = e; at = at; valid = valid; resident = rw physical refl }

Calm-trans :
    (other : ℕ → Bool) (i : ℕ) (s s1 s2 : Paging)
    → Calm other i s s1
    → Calm other i s1 s2
    → Calm other i s s2
Calm-trans other i s s1 s2 c d = record {
  sound = d.sound;
  fewer = λ j q h. c.fewer j q (d.fewer j q h);
  memory = d.memory ∙ c.memory;
  num_pages = d.num_pages ∙ c.num_pages;
  steady = λ j o ne lt. d.steady j o ne lt ∙ c.steady j o ne lt;
  backed = λ o lt. d.backed o lt ∙ c.backed o lt;
}

Absent-none : (s : Paging) (i : ℕ) → Absent s i → frame_at s.space.page_table i ≡ none
Absent-none s i absent = elim (Option-cases (frame_at s.space.page_table i)) [
  | inl gone ↦ gone
  | inr (q, there) ↦ absurd (Absent-frame s i q absent there)
]

Roomy-Calm :
    (other : ℕ → Bool) (i : ℕ) (s s' : Paging) → Absent s i → Roomy other s s' → Calm other i s s'
Roomy-Calm other i s s' absent r = record {
  sound = r.sound;
  fewer = λ j q h. Within-frame s.space.page_table s'.space.page_table j q r.within h;
  memory = r.memory;
  num_pages = r.num_pages;
  steady = λ j o ne lt. r.steady j o lt;
  backed = λ o lt. r.backed i o (Absent-none s i absent) lt;
}

-- ClearPage has run after a refusal.
record Cleared (other : ℕ → Bool) (i : ℕ) (s s' : Paging) : Type 0 where
  calm : Calm other i s s'
  absent : Absent s' i
  frame : ℕ
  free : page_is_allocated s'.manager (pos frame) ≡ some false

Reserved-Calm :
    (other : ℕ → Bool) (i p : ℕ) (s s1 s2 : Paging)
    → Calm other i s s1
    → Reserved other i s1 p s2
    → Reserved other i s p s2
Reserved-Calm other i p s s1 s2 c r = record {
  calm = Calm-trans other i s s1 s2 c r.calm;
  entry = r.entry;
  at = r.at;
  invalid = r.invalid;
  physical = r.physical;
  allocated = r.allocated;
  not_other = r.not_other;
  fresh = r.fresh;
}

-- A frame for page `i`, whatever the number that says which.
abbrev pub Given : (ℕ → Bool) → ℕ → Paging → ℤ × Paging → Type 0
Given other i s (z, s') = (p : ℕ) × (z ≡ pos p) × Reserved other i s p s'

abbrev pub Ready : (ℕ → Bool) → ℕ → Paging → Paging → Type 0
Ready other i s s' = (p : ℕ) × Reserved other i s p s'

Absent-within :
    (s s' : Paging) (other : ℕ → Bool) (i : ℕ)
    → i < s'.space.num_pages
    → Sound other s'
    → Within s.space.page_table s'.space.page_table
    → Absent s i
    → Absent s' i
Absent-within s s' other i lt sound w (e, at, v) =
    let (x, there) = get_elem?-some s'.space.page_table i (omega (arith, sound.ready.sized, lt)) in
    let (y, before, yv, yp, keep) = w i x there in
    (x, there, not_valid x.valid refl (λ t. cc (keep t, v, at, before)))
  where
    not_valid : {c : Bool} (b : Bool) → c ≡ b → (c ≡ true → true ≡ false) → c ≡ false
    not_valid true h no_way = h ∙ no_way h
    not_valid false h no_way = h

module _ (other : ℕ → Bool) (use_fifo : Bool) (i : ℕ) where
  clear-Cleared :
      (s s1 : Paging)
      → i < s.space.num_pages
      → HasRoom s
      → Refused other i s s1
      → Gives (Cleared other i s) (make_room (2 * s.space.num_pages) use_fifo s1)
  clear-Cleared s s1 lt (inr (q, free)) r = absurd (r.full q free)
  clear-Cleared s s1 lt (inl (v, q, h)) r =
      let made =
        make_room-Roomy other use_fifo s1 v r.calm.sound (frame-Candidate s1 v q (r.kept v q h)) in
      map-Gives (Roomy other s1) (Cleared other i s) _
        (subst (λ n. Gives (Roomy other s1) (make_room (2 * n) use_fifo s1)) r.calm.num_pages made)
        (λ s2 m. record {
          calm = Calm-trans other i s s1 s2 r.calm (Roomy-Calm other i s1 s2 r.absent m);
          absent =
              Absent-within s1 s2 other i (omega (arith, lt, m.num_pages, r.calm.num_pages)) m.sound
                m.within r.absent;
          frame = m.frame;
          free = m.free;
        })

  given :
      (s : Paging) (q : ℕ)
      → page_is_allocated s.manager (pos q) ≡ some false
      → (r : ℤ × Paging) → Taken other i s r
      → Given other i s r
  given s q free (pos p, s') t = (p, refl, t)
  given s q free (negsuc n, s') t = absurd (t.full q free)

  take-Given :
      (s s2 : Paging)
      → i < s.space.num_pages
      → Cleared other i s s2
      → Gives (Given other i s) (take_page i s2)
  take-Given s s2 lt c =
      map-Gives (Taken other i s2) (Given other i s) (take_page i s2)
        (take_page-Taken other i s2 c.calm.sound c.absent (omega (arith, lt, c.calm.num_pages)))
        (λ r t.
          let (p, is, res) = given s2 c.frame c.free r t in
          (p, is, Reserved-Calm other i p s s2 r.1 c.calm res))

  module _ (s : Paging) (sound : Sound other s) (absent : Absent s i) (lt : i < s.space.num_pages)
      (room : HasRoom s) where
    second :
        (r : ℤ × Paging)
        → Taken other i s r
        → Gives
            (Given other i s)
            (unless_taken r (make_room (2 * s.space.num_pages) use_fifo r.1 >>= take_page i))
    second (pos p, s1) t = (p, refl, t)
    second (negsuc n, s1) t =
        bind-Gives (Cleared other i s) (Given other i s) _ (take_page i)
          (clear-Cleared s s1 lt room t) (λ s2 c. take-Given s s2 lt c)

    pub two_tries-Given : Gives (Given other i s) (two_tries (2 * s.space.num_pages) use_fifo i s)
    unfolding two_tries
    two_tries-Given =
        bind-Gives (Taken other i s) (Given other i s) (take_page i s) _
          (take_page-Taken other i s sound absent lt) second

    ready :
        (r : ℤ × Paging) (o : Option Paging)
        → Given other i s r
        → Gives (Ready other i s) (if_taken r o)
    ready (pos q, s') o (p, is, res) = let same : p ≡ q = cc in (p, res)
    ready (negsuc n, s') o (p, is, res) = absurd cc

    next_try :
        (fuel : ℕ) (s2 : Paging)
        → Cleared other i s s2
        → Gives (Ready other i s) (second_try fuel use_fifo i s2)
    unfolding second_try
    next_try fuel s2 c =
        bind-Gives (Given other i s) (Ready other i s) (take_page i s2) _ (take-Given s s2 lt c)
          (λ r g. ready r _ g)

    retry :
        (r : ℤ × Paging)
        → Taken other i s r
        → Gives (Ready other i s) (
            if_taken r (
              make_room (2 * s.space.num_pages) use_fifo r.1
              >>= second_try (2 * s.space.num_pages) use_fifo i))
    retry (pos p, s1) t = (p, t)
    retry (negsuc n, s1) t =
        bind-Gives (Cleared other i s) (Ready other i s) _ _ (clear-Cleared s s1 lt room t)
          (next_try (2 * s.space.num_pages))

    pub first_try-Ready : Gives (Ready other i s) (first_try (2 * s.space.num_pages) use_fifo i s)
    unfolding first_try
    first_try-Ready =
        bind-Gives (Taken other i s) (Ready other i s) (take_page i s) _
          (take_page-Taken other i s sound absent lt) retry
