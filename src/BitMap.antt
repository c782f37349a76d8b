-- ===== src/BitMap.antt =====
-- code/userprog/bitmap.h and bitmap.cc. A failed ASSERT is `none`.
-- The constructor's `new unsigned int[numWords]` is not cleared: what it holds is an argument.
-- `FetchFrom` and `WriteBack` are in FileSystem/Layout.
pub mod Bit
pub mod Search
use jalepenos.Base.{
  ℕ, zero, suc, ◌+◌, ◌-◌, ◌/◌, ◌%◌, ◌^◌, ◌<◌, ◌≡◌, Bool, true, false, not, List, Option, none, some,
  ◌>>=◌, ltb, ◌==◌, if◌then◌else◌, bit_or, bit_and, length, set, get_or,
}
use jalepenos.Base.Int.{ℤ, pos, negsuc}

abbrev pub bits_in_word : ℕ
bits_in_word = 32

pub record BitMap : Type 0 where
  pub num_bits : ℕ
  pub num_words : ℕ
  pub map : List ℕ

-- `divRoundUp(n, s)`
unfoldable pub div_round_up : ℕ → ℕ → ℕ
div_round_up n s = n / s + (if ltb 0 (n % s) then 1 else 0)

-- `1 << k`, and its complement in a word.
abbrev pub one_bit : ℕ → ℕ
one_bit k = 2 ^ k

abbrev pub not_one_bit : ℕ → ℕ
not_one_bit k = 2 ^ 32 - 1 - 2 ^ k

abbrev pub word_at : BitMap → ℕ → ℕ
word_at b i = get_or b.map (i / 32) 0

unfoldable pub mark : BitMap → ℤ → Option BitMap
mark b (negsuc n) = none
mark b (pos i) =
    if ltb i b.num_bits
    then some (record b { map = set b.map (i / 32) (bit_or (word_at b i) (one_bit (i % 32))) })
    else none

unfoldable pub clear : BitMap → ℤ → Option BitMap
clear b (negsuc n) = none
clear b (pos i) =
    if ltb i b.num_bits
    then some (record b { map = set b.map (i / 32) (bit_and (word_at b i) (not_one_bit (i % 32))) })
    else none

unfoldable pub test : BitMap → ℤ → Option Bool
test b (negsuc n) = none
test b (pos i) =
    if ltb i b.num_bits then some (not (bit_and (word_at b i) (one_bit (i % 32)) == 0)) else none

-- for (i = start; i < start + rounds; i++) Clear(i);
unfoldable pub clear_loop : ℕ → ℕ → BitMap → Option BitMap
clear_loop zero i b = some b
clear_loop (suc n) i b = do b' ← clear b (pos i); clear_loop n (suc i) b'

-- `garbage` is what the new array holds.
unfoldable pub init : List ℕ → ℕ → Option BitMap
init garbage n =
    clear_loop n 0 (record { num_bits = n; num_words = div_round_up n 32; map = garbage })

unfoldable pub find_loop : ℕ → ℕ → BitMap → Option (ℤ × BitMap)
find_loop zero i b = some (negsuc 0, b)
find_loop (suc n) i b =
    let rest = find_loop n (suc i) b in
    do t ← test b (pos i); if t then rest else (do b' ← mark b (pos i); some (pos i, b'))

unfoldable pub find : BitMap → Option (ℤ × BitMap)
find b = find_loop b.num_bits 0 b

unfoldable pub num_clear_loop : ℕ → ℕ → BitMap → ℕ → Option ℕ
num_clear_loop zero i b count = some count
num_clear_loop (suc n) i b count = do
  t ← test b (pos i)
  num_clear_loop n (suc i) b (if t then count else suc count)

unfoldable pub num_clear : BitMap → Option ℕ
num_clear b = num_clear_loop b.num_bits 0 b 0
