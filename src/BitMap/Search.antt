-- ===== src/BitMap/Search.antt =====
-- The loops over a bitmap: the constructor, `Find` and `NumClear`.
use jalepenos.Base.{
  ℕ, zero, suc, ◌+◌, ◌-◌, ◌*◌, ◌≤◌, ◌<◌, ◌≡◌, refl, ◌⊎◌, inl, inr, Bool, true, false, List, none,
  some, ltb, ap, ◌∙◌, ◌≢◌, arith, ◌==◌, if◌then◌else◌, length, Bool-cases,
}
use jalepenos.Base.Int.{ℤ, pos, negsuc}
use jalepenos.BitMap.{
  BitMap, test, clear_loop, init, find_loop, find, num_clear_loop, num_clear, div_round_up,
}
use jalepenos.BitMap.Bit.{
  is_set, IsValid, marked, cleared, test-is_set, test-outside, mark-marked, clear-cleared,
  cleared-IsValid, is_set-marked, is_set-cleared,
}

div_round_up-covers : (n : ℕ) → n ≤ 32 * div_round_up n 32
unfolding div_round_up
div_round_up-covers n = ground arith

-- The number of clear bits among the `n` bits from `i` on.
pub free_from : (ℕ → Bool) → ℕ → ℕ → ℕ
free_from f zero i = 0
free_from f (suc n) i = (if f i then 0 else 1) + free_from f n (suc i)

pub free_bits : BitMap → ℕ
free_bits b = free_from (is_set b) b.num_bits 0

-- What a search that reports the first clear bit of `b` may return.
pub data Found (b : BitMap) (start : ℕ) : ℤ × BitMap → Type 0 where
  hit :
      (i : ℕ)
      → start ≤ i
      → i < b.num_bits
      → is_set b i ≡ false
      → ((j : ℕ) → start ≤ j → j < i → is_set b j ≡ true)
      → Found b start (pos i, marked b i)
  full : ((j : ℕ) → start ≤ j → j < b.num_bits → is_set b j ≡ true) → Found b start (negsuc 0, b)

Found-suc :
    (b : BitMap) (i : ℕ) {r : ℤ × BitMap} → is_set b i ≡ true → Found b (suc i) r → Found b i r
Found-suc b i used (hit k lo hi free below) = hit k (omega arith) hi free λ j p q.
    elim (Bool-cases (j == i)) [
      | inl e ↦ let e' : j ≡ i = ground arith in rw e' used
      | inr ne ↦ below j (ground arith) q
    ]
Found-suc b i used (full all) = full λ j p q. elim (Bool-cases (j == i)) [
  | inl e ↦ let e' : j ≡ i = ground arith in rw e' used
  | inr ne ↦ all j (ground arith) q
]

pub find_loop-Found :
    (n i : ℕ) (b : BitMap)
    → i + n ≡ b.num_bits
    → (r : ℤ × BitMap) × (find_loop n i b ≡ some r) × Found b i r
unfolding find_loop
find_loop-Found zero i b e = ((negsuc 0, b), refl, full λ j p q. absurd (omega arith))
find_loop-Found (suc n) i b e =
    let h : i < b.num_bits = omega arith in
    let (r, ran, found) = find_loop-Found n (suc i) b (omega arith) in
    elim (Bool-cases (is_set b i)) [
      | inl used ↦ (r, rw (test-is_set b i h, used) ran, Found-suc b i used found)
      | inr free ↦ (
        (pos i, marked b i),
        rw (test-is_set b i h, free, mark-marked b i h),
        hit i (omega arith) h free λ j p q. absurd (omega arith),
      )
    ]

-- Find fails no ASSERT: it returns the lowest clear bit and marks it, or returns -1 and changes
-- nothing when every bit is set.
pub find-Found : (b : BitMap) → (r : ℤ × BitMap) × (find b ≡ some r) × Found b 0 r
unfolding find
find-Found b = find_loop-Found b.num_bits 0 b (omega arith)

num_clear_loop_lem :
    (n i : ℕ) (b : BitMap) (count : ℕ)
    → i + n ≡ b.num_bits
    → num_clear_loop n i b count ≡ some (count + free_from (is_set b) n i)
unfolding num_clear_loop free_from
num_clear_loop_lem zero i b count e = ground arith
num_clear_loop_lem (suc n) i b count e =
    let next = λ (c : ℕ). num_clear_loop_lem n (suc i) b c (omega arith) in
    ground (arith, test-is_set b i, next count, next (suc count))

pub num_clear_lem : (b : BitMap) → num_clear b ≡ some (free_bits b)
unfolding num_clear free_bits
num_clear_lem b = ground (arith, num_clear_loop_lem b.num_bits 0 b 0 (omega arith))

-- Setting a clear bit leaves one clear bit less.
free_from-ext :
    (f g : ℕ → Bool) (n i : ℕ) → ((j : ℕ) → i ≤ j → g j ≡ f j) → free_from g n i ≡ free_from f n i
unfolding free_from
free_from-ext f g zero i h = refl
free_from-ext f g (suc n) i h =
    ground (arith, h i, free_from-ext f g n (suc i) (λ j p. h j (omega arith)))

free_from-set :
    (f g : ℕ → Bool) (k n i : ℕ)
    → i ≤ k
    → k < i + n
    → f k ≡ false
    → ((j : ℕ) → g j ≡ (if j == k then true else f j))
    → suc (free_from g n i) ≡ free_from f n i
unfolding free_from
free_from-set f g k zero i lo hi free h = absurd (omega arith)
free_from-set f g k (suc n) i lo hi free h = elim (Bool-cases (i == k)) [
  | inl e ↦
      let e' : k ≡ i = ground arith in
      let rest = free_from-ext f g n (suc i) (λ j p. ground (arith, h j)) in
      ground (arith, h i, ap f e', rest)
  | inr ne ↦ ground (arith, h i, free_from-set f g k n (suc i) (ground arith) (omega arith) free h)
]

free_from-full :
    (f : ℕ → Bool) (n i : ℕ) → ((j : ℕ) → i ≤ j → j < i + n → f j ≡ true) → free_from f n i ≡ 0
unfolding free_from
free_from-full f zero i h = refl
free_from-full f (suc n) i h =
    ground (arith, h i, free_from-full f n (suc i) (λ j p q. h j (omega arith) (omega arith)))

-- Marking a clear bit leaves one clear bit less.
pub marked-free_bits :
    (b : BitMap) (i : ℕ)
    → IsValid b
    → i < b.num_bits
    → is_set b i ≡ false
    → suc (free_bits (marked b i)) ≡ free_bits b
unfolding free_bits
marked-free_bits b i v hi free =
    free_from-set (is_set b) (is_set (marked b i)) i b.num_bits 0 (omega arith) (omega arith) free
      (λ j. is_set-marked b i v j hi)

pub full-free_bits :
    (b : BitMap) → ((j : ℕ) → 0 ≤ j → j < b.num_bits → is_set b j ≡ true) → free_bits b ≡ 0
unfolding free_bits
full-free_bits b all = free_from-full (is_set b) b.num_bits 0 (λ j p q. all j p (omega arith))

Found-free :
    (b : BitMap) {r : ℤ × BitMap}
    → IsValid b
    → Found b 0 r
    → ((r.0 ≡ negsuc 0) × (free_bits b ≡ 0) × (r.1 ≡ b))
      ⊎ ((i : ℕ) × (r.0 ≡ pos i) × (suc (free_bits r.1) ≡ free_bits b))
Found-free b v (hit i lo hi free below) = inr (i, refl, marked-free_bits b i v hi free)
Found-free b v (full all) = inl (refl, full-free_bits b all, refl)

-- For a well formed bitmap NumClear and Find fail no ASSERT, and they agree: Find returns -1 and
-- changes nothing when NumClear is 0, and else returns a bit and lowers NumClear by one.
pub num_clear-find :
    (b : BitMap)
    → IsValid b
    → (n : ℕ) × (r : ℤ × BitMap) × (num_clear b ≡ some n)
      × (find b ≡ some r)
      × (((r.0 ≡ negsuc 0) × (n ≡ 0) × (r.1 ≡ b))
          ⊎ ((i : ℕ) × (r.0 ≡ pos i) × (n ≢ 0) × (num_clear r.1 ≡ some (n - 1))))
num_clear-find b v =
    let (r, ran, found) = find-Found b in
    (
      free_bits b,
      r,
      num_clear_lem b,
      ran,
      elim (Found-free b v found) [
        | inl none_left ↦ inl none_left
        | inr (i, e, less) ↦ inr (i, e, omega arith, num_clear_lem r.1 ∙ ap some (omega arith))
      ],
    )

clear_loop-clear :
    (n i : ℕ) (b : BitMap)
    → IsValid b
    → i + n ≡ b.num_bits
    → ((j : ℕ) → j < i → is_set b j ≡ false)
    → (b' : BitMap) × (clear_loop n i b ≡ some b')
      × IsValid b'
      × (b'.num_bits ≡ b.num_bits)
      × ((j : ℕ) → j < b.num_bits → is_set b' j ≡ false)
unfolding clear_loop
clear_loop-clear zero i b v e low = (b, refl, v, refl, λ j h. low j (omega arith))
clear_loop-clear (suc n) i b v e low =
    let h : i < b.num_bits = omega arith in
    let (b', ran, v', same, all) =
      clear_loop-clear n (suc i) (cleared b i) (cleared-IsValid b i v) (omega arith)
        (λ j p. ground (arith, is_set-cleared b i v j h, low j)) in
    (b', rw (clear-cleared b i h) ran, v', same, all)

init_tests :
    (b : BitMap) (n : ℕ)
    → b.num_bits ≡ n
    → ((j : ℕ) → j < n → is_set b j ≡ false)
    → (i : ℕ) → test b (pos i) ≡ (if ltb i n then some false else none)
init_tests b n same all i = elim (Bool-cases (ltb i n)) [
  | inl inside ↦ rw (inside, test-is_set b i (ground arith), all i (ground arith))
  | inr outside ↦ rw outside (test-outside b i (ground arith))
]

-- Whatever the words of a new bitmap of n bits held, as many as divRoundUp asks for, the
-- constructor leaves a well formed bitmap of n bits, all of them clear, and Test of any other
-- index fails its ASSERT.
pub init-test :
    (garbage : List ℕ) (n : ℕ)
    → length garbage ≡ div_round_up n 32
    → (b : BitMap) × (init garbage n ≡ some b)
      × IsValid b
      × (b.num_bits ≡ n)
      × ((i : ℕ) → test b (pos i) ≡ (if ltb i n then some false else none))
unfolding init
init-test garbage n sized =
    let fresh : BitMap = record { num_bits = n; num_words = div_round_up n 32; map = garbage } in
    let (b, ran, v, same, all) =
      clear_loop-clear n 0 fresh (record { sized = sized; covers = div_round_up-covers n })
        (omega arith) (λ j p. absurd (omega arith)) in
    (b, ran, v, same, λ i. init_tests b n same all i)
