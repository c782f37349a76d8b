-- ===== src/Table/Slots.antt =====
-- Which element Alloc takes, and what it does when there is none from `last_element` on.
use jalepenos.Base.{
  ℕ, zero, suc, ◌+◌, ◌-◌, ◌<◌, ◌≤◌, ◌≡◌, ◌≢◌, refl, true, false, List, [], ◌∷◌, Option, none, some,
  get_elem?, length, arith, get_elem?-lt, get_elem?-some, get_elem?-set_self, get_elem?-set_ne,
}
use jalepenos.Base.Int.{ℤ, pos}
use jalepenos.Threads.{Kernel}
use jalepenos.Synch.{release, is_held_by_current_thread}
use jalepenos.Synch.Holding.{Succeeds, bind-Succeeds, Free, release-Free}
use jalepenos.Table.{Table, alloc_loop, alloc_at, alloc_entered, get}

-- No element from `i` up to before `j` is NULL.
abbrev pub NoneNull : List (Option ℕ) → ℕ → ℕ → Type 0
NoneNull b i j = (h : ℕ) → i ≤ h → h < j → get_elem? b h ≢ some none

pub taken_goes_on :
    (n i : ℕ) (b : List (Option ℕ)) (y : ℕ)
    → get_elem? b i ≡ some (some y)
    → alloc_loop (suc n) i b ≡ alloc_loop n (suc i) b
unfolding alloc_loop
taken_goes_on n i b y e = rw e refl

null_is_taken :
    (n i j : ℕ) (b : List (Option ℕ))
    → i ≡ j
    → get_elem? b j ≡ some none
    → alloc_loop (suc n) i b ≡ some (some j)
unfolding alloc_loop
null_is_taken n i j b here e = rw (here, e) refl

outside_fails :
    (n i : ℕ) (b : List (Option ℕ)) → get_elem? b i ≡ none → alloc_loop (suc n) i b ≡ none
unfolding alloc_loop
outside_fails n i b e = rw e refl

pub taken_slot :
    (b : List (Option ℕ)) (i j : ℕ)
    → i < j
    → i < length b
    → NoneNull b i j
    → (y : ℕ) × (get_elem? b i ≡ some (some y))
taken_slot b i j lt inside full = let (x, e) = get_elem?-some b i inside in is_taken x e
  where
    is_taken : (x : Option ℕ) → get_elem? b i ≡ some x → (y : ℕ) × (get_elem? b i ≡ some (some y))
    is_taken none e = absurd (full i (omega arith) lt e)
    is_taken (some y) e = (y, e)

-- The loop reaches the first NULL element, `d` elements on.
pub alloc_loop-reaches :
    (d n i j : ℕ) (b : List (Option ℕ))
    → i + d ≡ j
    → get_elem? b j ≡ some none
    → NoneNull b i j
    → d < n
    → alloc_loop n i b ≡ some (some j)
alloc_loop-reaches d zero i j b at e full lt = absurd (omega (arith, lt))
alloc_loop-reaches zero (suc n) i j b at e full lt = null_is_taken n i j b (omega (arith, at)) e
alloc_loop-reaches (suc d) (suc n) i j b at e full lt =
    let (y, taken) =
      taken_slot b i j (omega (arith, at)) (omega (arith, at, get_elem?-lt b j e)) full in
    rw (taken_goes_on n i b y taken) (
      alloc_loop-reaches d n (suc i) j b (omega (arith, at)) e
        (λ h lo hi. full h (omega (arith, lo)) hi) (omega (arith, lt)))

beyond_is_none : (b : List (Option ℕ)) (i : ℕ) → length b ≤ i → get_elem? b i ≡ none
beyond_is_none [] i h = refl
beyond_is_none (x ∷ b) zero h = absurd (omega (arith, h))
beyond_is_none (x ∷ b) (suc i) h = beyond_is_none b i (omega (arith, h))

-- With no NULL element among the `d` that are left, more rounds than that read past the end.
pub alloc_loop-overruns :
    (d n i : ℕ) (b : List (Option ℕ))
    → i + d ≡ length b
    → NoneNull b i (length b)
    → d < n
    → alloc_loop n i b ≡ none
alloc_loop-overruns d zero i b e full lt = absurd (omega (arith, lt))
alloc_loop-overruns zero (suc n) i b e full lt =
    outside_fails n i b (beyond_is_none b i (omega (arith, e)))
alloc_loop-overruns (suc d) (suc n) i b e full lt =
    let (y, at) = taken_slot b i (length b) (omega (arith, e)) (omega (arith, e)) full in
    rw (taken_goes_on n i b y at) (
      alloc_loop-overruns d n (suc i) b (omega (arith, e))
        (λ h lo hi. full h (omega (arith, lo)) hi) (omega (arith, lt)))

-- The object stands in element `j` and under the number returned; the others are as before; the
-- lock is free and the next search starts behind `j`.
abbrev pub Placed : ℕ → ℕ → Table → ℤ × Kernel × Table → Type 0
Placed j object t (r, k1, t1) =
    (r ≡ pos (suc j))
    × (get t1 r ≡ some (some object))
    × ((i : ℕ) → j ≢ i → get_elem? t1.backing i ≡ get_elem? t.backing i)
    × (t1.last_element ≡ suc j)
    × (t1.access_lock.is_locked ≡ false)

module _ (k : Kernel) (t : Table) (held : is_held_by_current_thread k t.access_lock ≡ true) where
  alloc_at-Placed :
      (j object : ℕ)
      → j < length t.backing
      → Succeeds (Placed j object t) (alloc_at object k t (some j))
  unfolding alloc_at get
  alloc_at-Placed j object inside =
      bind-Succeeds Free (Placed j object t) (release k t.access_lock) _
        (release-Free k t.access_lock held)
        (λ (k1, l) free. (
          refl,
          get_elem?-set_self t.backing j (some object) inside,
          (λ i ne. get_elem?-set_ne t.backing j i (some object) ne),
          refl,
          free,
        ))

  -- When the current thread holds the table's lock, element j is NULL, is the first such element
  -- from last_element on, and is within max_elements of it, Alloc takes j: it returns j + 1, Get
  -- of that number gives the object, every other element is as before, the next search starts
  -- behind j and the lock is free.
  pub alloc_entered-Placed :
      (j object : ℕ)
      → t.last_element ≤ j
      → j < t.last_element + t.max_elements
      → get_elem? t.backing j ≡ some none
      → NoneNull t.backing t.last_element j
      → Succeeds (Placed j object t) (alloc_entered object k t)
  unfolding alloc_entered
  alloc_entered-Placed j object lo hi e full =
      rw
        (alloc_loop-reaches (j - t.last_element) t.max_elements t.last_element j t.backing
          (omega (arith, lo)) e full (omega (arith, lo, hi)))
        (alloc_at-Placed j object (get_elem?-lt t.backing j e))

-- When a table has max_elements elements, and the search starts behind element 0, at the end of
-- the table at the latest, with no NULL element from there on, Alloc reads past the end of the
-- table, whatever elements before that are NULL.
pub alloc_entered-overruns :
    (k : Kernel) (t : Table) (object : ℕ)
    → length t.backing ≡ t.max_elements
    → 0 < t.last_element
    → t.last_element ≤ t.max_elements
    → NoneNull t.backing t.last_element t.max_elements
    → alloc_entered object k t ≡ none
unfolding alloc_entered
alloc_entered-overruns k t object size begun below full =
    rw
      (alloc_loop-overruns (t.max_elements - t.last_element) t.max_elements t.last_element t.backing
        (omega (arith, size, below)) (λ h lo hi. full h lo (omega (arith, hi, size)))
        (omega (arith, begun, below)))
      refl
