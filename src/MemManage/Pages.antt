-- ===== src/MemManage/Pages.antt =====
-- Allocation and release of physical pages.
use jalepenos.Base.{
  ℕ, zero, suc, ◌<◌, ◌≡◌, refl, sym, subst, ap, ◌∙◌, inl, inr, true, false, List, some, arith, ◌==◌,
  if◌then◌else◌, length, Bool-cases, ltb, none,
}
use mathlib.Core.Option.{some-injective}
use jalepenos.Base.Int.{ℤ, pos, negsuc}
use jalepenos.BitMap.{BitMap, find_loop, div_round_up}
use jalepenos.BitMap.Bit.{
  IsValid, test-is_set, marked-IsValid, test-marked, cleared, clear-cleared, cleared-IsValid,
  test-cleared,
}
use jalepenos.BitMap.Search.{Found, hit, full, find_loop-Found, init-test}
use jalepenos.MemManage.{MemoryManager, init, alloc_loop, alloc_page, free_page, page_is_allocated}

pub record IsManager (m : MemoryManager) : Type 0 where
  pub bits : IsValid m.bmap
  pub pages : m.num_pages ≡ m.bmap.num_bits

-- The loop of `AllocPage` is that of `BitMap::Find`.
alloc_loop-find_loop : (n i : ℕ) (b : BitMap) → alloc_loop n i b ≡ find_loop n i b
unfolding alloc_loop find_loop
alloc_loop-find_loop zero i b = refl
alloc_loop-find_loop (suc n) i b = rw (alloc_loop-find_loop n (suc i) b)

-- What `AllocPage` may return: the lowest free page, now allocated, or -1 when no page is free.
pub data Allocated (m : MemoryManager) : ℤ × MemoryManager → Type 0 where
  page :
      (p : ℕ) (m' : MemoryManager)
      → IsManager m'
      → p < m.num_pages
      → m'.num_pages ≡ m.num_pages
      → page_is_allocated m (pos p) ≡ some false
      → ((q : ℕ) → q < p → page_is_allocated m (pos q) ≡ some true)
      → ((q : ℕ)
          → page_is_allocated m' (pos q)
            ≡ (if q == p then some true else page_is_allocated m (pos q)))
      → Allocated m (pos p, m')
  no_page :
      ((q : ℕ) → q < m.num_pages → page_is_allocated m (pos q) ≡ some true)
      → Allocated m (negsuc 0, m)

Found-Allocated :
    (m : MemoryManager) {r : ℤ × BitMap}
    → IsManager m
    → Found m.bmap 0 r
    → Allocated m (r.0, record m { bmap = r.1 })
unfolding page_is_allocated
Found-Allocated m v (hit i lo hi free below) =
    page i _ (record { bits = marked-IsValid m.bmap i v.bits; pages = v.pages })
      (omega (arith, v.pages)) refl (test-is_set m.bmap i hi ∙ ap some free)
      (λ q h. test-is_set m.bmap q (omega arith) ∙ ap some (below q (omega arith) h))
      (test-marked m.bmap i v.bits hi)
Found-Allocated m v (full all) = no_page λ q h.
    test-is_set m.bmap q (omega (arith, v.pages))
    ∙ ap some (all q (omega arith) (omega (arith, v.pages)))

-- For a well formed page manager, AllocPage fails no ASSERT: it returns the lowest page that is
-- not allocated and allocates that page alone, or returns -1 and changes nothing when every page
-- is allocated.
pub alloc_page-Allocated :
    (m : MemoryManager)
    → IsManager m
    → (r : ℤ × MemoryManager) × (alloc_page m ≡ some r) × Allocated m r
unfolding alloc_page
alloc_page-Allocated m v =
    let (r, ran, found) = find_loop-Found m.num_pages 0 m.bmap (omega (arith, v.pages)) in
    (
      (r.0, record m { bmap = r.1 }),
      rw (alloc_loop-find_loop m.num_pages 0 m.bmap, ran),
      Found-Allocated m v found,
    )

free_page-Allocated :
    (m : MemoryManager) {p : ℕ} {m' : MemoryManager}
    → IsManager m
    → Allocated m (pos p, m')
    → (m'' : MemoryManager) × (free_page m' (pos p) ≡ some m'')
      × IsManager m''
      × ((q : ℕ) → page_is_allocated m'' (pos q) ≡ page_is_allocated m (pos q))
unfolding free_page page_is_allocated
free_page-Allocated m v (page p m' v' below same free low others) =
    let h : p < m'.bmap.num_bits = omega (arith, v.pages, v'.pages) in
    (
      record m' { bmap = cleared m'.bmap p },
      rw (clear-cleared m'.bmap p h),
      record { bits = cleared-IsValid m'.bmap p v'.bits; pages = v'.pages },
      λ q. elim (Bool-cases (q == p)) [
        | inl e ↦
            let e' : q ≡ p = ground arith in
            rw e' (ground (arith, test-cleared m'.bmap p v'.bits h p, free))
        | inr ne ↦ ground (arith, test-cleared m'.bmap p v'.bits h q, others q)
      ],
    )

-- For a well formed page manager, FreePage of the page that AllocPage has returned fails no
-- ASSERT and leaves a well formed manager in which every page is allocated or free as it was
-- before the two calls.
pub free_page-alloc_page :
    (m m' : MemoryManager) (p : ℕ)
    → IsManager m
    → alloc_page m ≡ some (pos p, m')
    → (m'' : MemoryManager) × (free_page m' (pos p) ≡ some m'')
      × IsManager m''
      × ((q : ℕ) → page_is_allocated m'' (pos q) ≡ page_is_allocated m (pos q))
free_page-alloc_page m m' p v e =
    let (r, ran, a) = alloc_page-Allocated m v in
    free_page-Allocated m v (subst (Allocated m) (some-injective _ _ (sym ran ∙ e)) a)

-- Whatever the words of its bitmap held, as many as divRoundUp asks for, a new page manager is
-- well formed, has every page below its number free, and PageIsAllocated of any other page fails
-- its ASSERT.
pub init-page_is_allocated :
    (garbage : List ℕ) (n : ℕ)
    → length garbage ≡ div_round_up n 32
    → (m : MemoryManager) × (init garbage n ≡ some m)
      × IsManager m
      × (m.num_pages ≡ n)
      × ((p : ℕ) → page_is_allocated m (pos p) ≡ (if ltb p n then some false else none))
unfolding init page_is_allocated
init-page_is_allocated garbage n sized =
    let (b, ran, ok, same, tests) = init-test garbage n sized in
    (
      record { num_pages = n; bmap = b },
      rw ran,
      record { bits = ok; pages = sym same },
      refl,
      tests,
    )
