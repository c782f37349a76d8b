-- ===== src/BitMap/Bit.antt =====
-- Single bits of a bitmap: `Mark`, `Clear` and `Test` over the word array.
use jalepenos.Base.{
  ℕ, ◌-◌, ◌*◌, ◌/◌, ◌%◌, ◌^◌, ◌≤◌, ◌<◌, ◌≡◌, refl, ◌≢◌, inl, inr, Bool, true, false, not, none,
  some, arith, ◌==◌, if◌then◌else◌, bit_or, bit_and, length, set, length-set, get_or-set_self,
  get_or-set_ne, Bool-cases,
}
use jalepenos.Base.Int.{pos}
use jalepenos.Base.Bits.{
  bit, bit_bound, bit-bit_or, bit-bit_and, bit-pow, bit-complement, bit_and-pow, pow_pos,
}
use jalepenos.BitMap.{BitMap, mark, clear, test, word_at, not_one_bit}

-- Bit `i` of the array.
pub is_set : BitMap → ℕ → Bool
is_set b i = bit (word_at b i) (i % 32) == 1

-- The array has a word for every bit.
pub record IsValid (b : BitMap) : Type 0 where
  pub sized : length b.map ≡ b.num_words
  pub covers : b.num_bits ≤ 32 * b.num_words

-- What `Mark` and `Clear` do to the word of bit `i`.
write_word : BitMap → ℕ → ℕ → BitMap
write_word b i w = record b { map = set b.map (i / 32) w }

write_word-IsValid : (b : BitMap) (i w : ℕ) → IsValid b → IsValid (write_word b i w)
unfolding write_word
write_word-IsValid b i w v = record {
  sized = omega (arith, length-set b.map (i / 32) w, v.sized);
  covers = v.covers;
}

-- A word whose digits are those of the old word but for digit `i % 32`.
is_set-write_word :
    (b : BitMap) (i j w v : ℕ)
    → IsValid b
    → i < b.num_bits
    → ((k : ℕ) → k < 32 → bit w k ≡ (if k == i % 32 then v else bit (word_at b i) k))
    → is_set (write_word b i w) j ≡ (if j == i then v == 1 else is_set b j)
unfolding is_set write_word
is_set-write_word b i j w v ok h digit = elim (Bool-cases (j / 32 == i / 32)) [
  | inl same ↦
      let e : j / 32 ≡ i / 32 = ground arith in
      rw (e, get_or-set_self b.map (i / 32) w 0 (omega (arith, ok.sized, ok.covers)))
        (ground (arith, digit (j % 32)))
  | inr apart ↦
      let ne : i / 32 ≢ j / 32 = ground arith in
      rw (get_or-set_ne b.map (i / 32) (j / 32) w 0 ne) (ground arith)
]

mark-digit :
    (b : BitMap) (i k : ℕ)
    → bit (bit_or (word_at b i) (2 ^ (i % 32))) k ≡ (if k == i % 32 then 1 else bit (word_at b i) k)
mark-digit b i k = ground (
  arith,
  bit-bit_or (word_at b i) (2 ^ (i % 32)) k,
  bit-pow (i % 32) k,
  bit_bound (word_at b i) k,
)

clear-digit :
    (b : BitMap) (i k : ℕ)
    → k < 32
    → bit (bit_and (word_at b i) (not_one_bit (i % 32))) k
      ≡ (if k == i % 32 then 0 else bit (word_at b i) k)
clear-digit b i k h = ground (
  arith,
  bit-bit_and (word_at b i) (2 ^ 32 - 1 - 2 ^ (i % 32)) k,
  bit-complement 32 (i % 32) k (omega arith) h,
  bit_bound (word_at b i) k,
)

test-digit : (b : BitMap) (i : ℕ) → (bit_and (word_at b i) (2 ^ (i % 32)) == 0) ≡ not (is_set b i)
unfolding is_set
test-digit b i =
    rw (bit_and-pow (i % 32) (word_at b i))
      (grind (arith, bit_bound (word_at b i) (i % 32), pow_pos (i % 32)))

-- `Test` on an index in range reads the bit, and fails its ASSERT elsewhere.
pub test-is_set : (b : BitMap) (i : ℕ) → i < b.num_bits → test b (pos i) ≡ some (is_set b i)
unfolding test
test-is_set b i h = ground (arith, test-digit b i)

pub test-outside : (b : BitMap) (i : ℕ) → b.num_bits ≤ i → test b (pos i) ≡ none
unfolding test
test-outside b i h = ground arith

abbrev pub marked : BitMap → ℕ → BitMap
marked b i = record b { map = set b.map (i / 32) (bit_or (word_at b i) (2 ^ (i % 32))) }

abbrev pub cleared : BitMap → ℕ → BitMap
cleared b i = record b {
  map = set b.map (i / 32) (bit_and (word_at b i) (2 ^ 32 - 1 - 2 ^ (i % 32)));
}

module _ (b : BitMap) (i : ℕ) (h : i < b.num_bits) where
  pub mark-marked : mark b (pos i) ≡ some (marked b i)
  unfolding mark
  mark-marked = ground arith

  pub clear-cleared : clear b (pos i) ≡ some (cleared b i)
  unfolding clear
  clear-cleared = ground arith

module _ (b : BitMap) (i : ℕ) (v : IsValid b) where
  pub marked-IsValid : IsValid (marked b i)
  unfolding write_word
  marked-IsValid = write_word-IsValid b i _ v

  pub cleared-IsValid : IsValid (cleared b i)
  unfolding write_word
  cleared-IsValid = write_word-IsValid b i _ v

  pub is_set-marked :
      (j : ℕ) → i < b.num_bits → is_set (marked b i) j ≡ (if j == i then true else is_set b j)
  unfolding write_word
  is_set-marked j h = is_set-write_word b i j _ 1 v h (λ k _. mark-digit b i k)

  pub is_set-cleared :
      (j : ℕ) → i < b.num_bits → is_set (cleared b i) j ≡ (if j == i then false else is_set b j)
  unfolding write_word
  is_set-cleared j h = is_set-write_word b i j _ 0 v h (clear-digit b i)

-- The bit that `Test` reads: the index of the other bits, or a failed ASSERT.
test-update :
    (b b' : BitMap) (i : ℕ) (v : Bool)
    → i < b.num_bits
    → b'.num_bits ≡ b.num_bits
    → ((j : ℕ) → is_set b' j ≡ (if j == i then v else is_set b j))
    → (j : ℕ) → test b' (pos j) ≡ (if j == i then some v else test b (pos j))
unfolding test
test-update b b' i v h same bits j = ground (arith, test-digit b j, test-digit b' j, bits j)

pub test-marked :
    (b : BitMap) (i : ℕ)
    → IsValid b
    → i < b.num_bits
    → (j : ℕ) → test (marked b i) (pos j) ≡ (if j == i then some true else test b (pos j))
test-marked b i v h = test-update b (marked b i) i true h refl (λ j. is_set-marked b i v j h)

pub test-cleared :
    (b : BitMap) (i : ℕ)
    → IsValid b
    → i < b.num_bits
    → (j : ℕ) → test (cleared b i) (pos j) ≡ (if j == i then some false else test b (pos j))
test-cleared b i v h = test-update b (cleared b i) i false h refl (λ j. is_set-cleared b i v j h)

-- For a well formed bitmap and an index in range, Mark passes its ASSERT and keeps the bitmap
-- well formed; afterwards Test is true at that index and what it was at every other, a failed
-- ASSERT included.
pub test-mark :
    (b : BitMap) (i : ℕ)
    → IsValid b
    → i < b.num_bits
    → (b' : BitMap) × (mark b (pos i) ≡ some b')
      × IsValid b'
      × ((j : ℕ) → test b' (pos j) ≡ (if j == i then some true else test b (pos j)))
test-mark b i v h = (marked b i, mark-marked b i h, marked-IsValid b i v, test-marked b i v h)

-- For a well formed bitmap and an index in range, Clear passes its ASSERT and keeps the bitmap
-- well formed; afterwards Test is false at that index and what it was at every other, a failed
-- ASSERT included.
pub test-clear :
    (b : BitMap) (i : ℕ)
    → IsValid b
    → i < b.num_bits
    → (b' : BitMap) × (clear b (pos i) ≡ some b')
      × IsValid b'
      × ((j : ℕ) → test b' (pos j) ≡ (if j == i then some false else test b (pos j)))
test-clear b i v h = (cleared b i, clear-cleared b i h, cleared-IsValid b i v, test-cleared b i v h)
