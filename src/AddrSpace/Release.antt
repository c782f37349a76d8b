-- ===== src/AddrSpace/Release.antt =====
-- What ClearState gives back.
use jalepenos.Base.{
  ℕ, zero, suc, ◌+◌, ◌<◌, ◌≤◌, ◌≡◌, ◌≢◌, refl, sym, ◌∙◌, ap, Bool, true, false, List, Option, none,
  some, ◌==◌, ==_iff, if◌then◌else◌, ◌>>=◌, arith, get_elem?, inl, inr, Bool-cases, Option-cases,
  length, get_elem?-some, get_elem?-lt,
}
use jalepenos.Base.Int.{ℤ, pos, negsuc}
use jalepenos.Machine.{TranslationEntry}
use jalepenos.MemManage.{MemoryManager, free_page, page_is_allocated}
use jalepenos.MemManage.Pages.{IsManager}
use jalepenos.OpenFile.Bytes.{Gives}
use jalepenos.OpenFile.Writes.{map-Gives}
use jalepenos.AddrSpace.{AddrSpace}
use jalepenos.AddrSpace.Frames.{frame_if, frame_of, frame_at, Owned, free_page-Freed}
use jalepenos.AddrSpace.Demand.{free_if, clear_pages, clear_state}

abbrev free_frame : Option ℕ → MemoryManager → Option MemoryManager
free_frame none m = some m
free_frame (some p) m = free_page m (pos p)

free_if-free_frame :
    (v : Bool) (z : ℤ) (m : MemoryManager) → free_if v z m ≡ free_frame (frame_if v z) m
free_if-free_frame true (pos p) m = refl
free_if-free_frame true (negsuc n) m = refl
free_if-free_frame false z m = refl

keeps :
    (p q : ℕ) (m m1 : MemoryManager)
    → ((x : ℕ)
        → page_is_allocated m1 (pos x)
          ≡ (if x == p then some false else page_is_allocated m (pos x)))
    → q ≢ p
    → page_is_allocated m1 (pos q) ≡ page_is_allocated m (pos q)
keeps p q m m1 bits ne = elim (Bool-cases (q == p)) [
  | inl same ↦ absurd (ne ((==_iff q p).0 same))
  | inr other ↦ bits q ∙ rw other refl
]

freed_now :
    (p : ℕ) (m m1 : MemoryManager)
    → ((x : ℕ)
        → page_is_allocated m1 (pos x)
          ≡ (if x == p then some false else page_is_allocated m (pos x)))
    → page_is_allocated m1 (pos p) ≡ some false
freed_now p m m1 bits = let same : (p == p) ≡ true = ground arith in bits p ∙ rw same refl

-- Every frame of a valid page is free, and every other is allocated or free as it was.
abbrev pub Cleared : List TranslationEntry → MemoryManager → MemoryManager → Type 0
Cleared t m m' =
    IsManager m'
    × ((j q : ℕ) → frame_at t j ≡ some q → page_is_allocated m' (pos q) ≡ some false)
    × ((q : ℕ)
        → ((j : ℕ) → frame_at t j ≢ some q)
        → page_is_allocated m' (pos q) ≡ page_is_allocated m (pos q))

module _ (t : List TranslationEntry)
    (apart : (i j q : ℕ) → frame_at t i ≡ some q → frame_at t j ≡ some q → i ≡ j) where
  -- The frames of pages `i` up to before `i + n` are free, and the others are as they were.
  record Freed (i n : ℕ) (m m' : MemoryManager) : Type 0 where
    manager : IsManager m'
    freed :
        (j q : ℕ)
        → i ≤ j
        → j < i + n
        → frame_at t j ≡ some q
        → page_is_allocated m' (pos q) ≡ some false
    rest :
        (q : ℕ)
        → ((j : ℕ) → i ≤ j → j < i + n → frame_at t j ≢ some q)
        → page_is_allocated m' (pos q) ≡ page_is_allocated m (pos q)

  clear_pages-goes :
      (n i : ℕ) (m : MemoryManager) (e : TranslationEntry)
      → get_elem? t i ≡ some e
      → clear_pages (suc n) i t m ≡ (free_frame (frame_at t i) m >>= clear_pages n (suc i) t)
  unfolding clear_pages
  clear_pages-goes n i m e at = rw at (rw (free_if-free_frame e.valid e.physical_page m) refl)

  clear_pages-Freed :
      (n i : ℕ) (m : MemoryManager)
      → IsManager m
      → i + n ≤ length t
      → ((j q : ℕ) → i ≤ j → frame_at t j ≡ some q → page_is_allocated m (pos q) ≡ some true)
      → Gives (Freed i n m) (clear_pages n i t m)
  unfolding clear_pages
  clear_pages-Freed zero i m v fits held = record {
    manager = v;
    freed = λ j q lo hi h. absurd (omega (arith, lo, hi));
    rest = λ q none_of. refl;
  }
  clear_pages-Freed (suc n) i m v fits held =
      let (e, at) = get_elem?-some t i (omega (arith, fits)) in
      elim (Option-cases (frame_at t i)) [
        | inl empty ↦
            rw (clear_pages-goes n i m e at, empty)
              (map-Gives (Freed (suc i) n m) (Freed i (suc n) m) _
                (clear_pages-Freed n (suc i) m v (omega (arith, fits))
                  (λ j q lo h. held j q (omega (arith, lo)) h))
                (λ m' r. record {
                  manager = r.manager;
                  freed = λ j q lo hi h. elim (Bool-cases (i == j)) [
                    | inl here ↦ absurd (cc (empty, h, ap (frame_at t) ((==_iff i j).0 here)))
                    | inr later ↦ r.freed j q (ground arith) (omega (arith, hi)) h
                  ];
                  rest = λ q none_of.
                      r.rest q (λ j lo hi. none_of j (omega (arith, lo)) (omega (arith, hi)));
                }))
        | inr (p, mine) ↦
            let (m1, goes, v1, count, bits) = free_page-Freed m p v (held i p (omega arith) mine) in
            rw (clear_pages-goes n i m e at, mine, goes)
              (map-Gives (Freed (suc i) n m1) (Freed i (suc n) m) _
                (clear_pages-Freed n (suc i) m1 v1 (omega (arith, fits)) (λ j q lo h.
                  keeps p q m m1 bits
                    (λ same. absurd (omega (arith, lo, apart i j q (mine ∙ ap some (sym same)) h)))
                  ∙ held j q (omega (arith, lo)) h))
                (λ m' r. record {
                  manager = r.manager;
                  freed = λ j q lo hi h. elim (Bool-cases (i == j)) [
                    | inl here ↦
                        let q_is : p ≡ q = cc (mine, h, ap (frame_at t) ((==_iff i j).0 here)) in
                        rw (← q_is) (
                          r.rest p (λ k lo' hi' g. absurd (omega (arith, lo', apart i k p mine g)))
                          ∙ freed_now p m m1 bits)
                    | inr later ↦ r.freed j q (ground arith) (omega (arith, hi)) h
                  ];
                  rest = λ q none_of.
                      r.rest q (λ j lo hi. none_of j (omega (arith, lo)) (omega (arith, hi)))
                      ∙ keeps p q m m1 bits (λ same.
                        none_of i (omega arith) (omega arith) (mine ∙ ap some (sym same)));
                }))
      ]

  below : (j q : ℕ) → frame_at t j ≡ some q → j < length t
  below j q h = elim (Option-cases (get_elem? t j)) [
    | inl out ↦ absurd (none_there out)
    | inr (e, at) ↦ get_elem?-lt t j at
  ]
    where
      none_there : get_elem? t j ≡ none → ⊥
      none_there out = cc (h, ap (λ (o : Option TranslationEntry). o >>= frame_of) out)

  clear-Cleared :
      (m : MemoryManager)
      → IsManager m
      → ((j q : ℕ) → frame_at t j ≡ some q → page_is_allocated m (pos q) ≡ some true)
      → Gives (Cleared t m) (clear_pages (length t) 0 t m)
  clear-Cleared m v held =
      map-Gives (Freed 0 (length t) m) (Cleared t m) _
        (clear_pages-Freed (length t) 0 m v (omega arith) (λ j q lo h. held j q h))
        (λ m' r. (
          r.manager,
          (λ j q h. r.freed j q (omega arith) (omega (arith, below j q h)) h),
          (λ q none_of. r.rest q (λ j lo hi. none_of j)),
        ))

-- When a program's page table has as many entries as it has pages and the frames of a program's
-- valid pages are allocated, each to one page, ClearState goes through, the page manager stays
-- well formed, every frame of a valid page is free afterwards, and every other frame is
-- allocated or free as it was.
pub clear_state-Cleared :
    (other : ℕ → Bool) (a : AddrSpace) (m : MemoryManager)
    → length a.page_table ≡ a.num_pages
    → Owned other a.page_table m
    → Gives (Cleared a.page_table m) (clear_state a m)
unfolding clear_state
clear_state-Cleared other a m sized o =
    rw (← sized) (clear-Cleared a.page_table o.apart m o.manager o.mine)
