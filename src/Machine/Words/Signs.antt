-- ===== src/Machine/Words/Signs.antt =====
-- What the sign tests of the simulated ALU mean for the numbers that the patterns stand for.
use jalepenos.Base.{
  ℕ, ◌+◌, ◌-◌, ◌^◌, ◌<◌, ◌≡◌, Bool, false, not, ◌&&◌, ltb, leb, ◌==◌, if◌then◌else◌, bit_xor, arith,
}
use jalepenos.Base.Int.{ℤ, pos, negsuc, pos_part, neg_part, ltb_ℤ}
use jalepenos.Base.Bits.{bit, bit_bound, bit-div, bit_and-pow, bit-bit_xor}
use jalepenos.Machine.Words.{add, sub, has_sign, signed_lt, add_overflows, sub_overflows}

-- The `int` of a pattern below 2 ^ 32.
abbrev pub to_int : ℕ → ℤ
to_int w = if ltb w 0x8000_0000 then pos w else negsuc (2 ^ 32 - w - 1)

has_sign-ltb : (a : ℕ) → a < 2 ^ 32 → has_sign a ≡ not (ltb a 0x8000_0000)
unfolding has_sign
has_sign-ltb a h = ground (arith, bit_and-pow 31 a, bit-div 31 a)

has_sign-bit : (a : ℕ) → has_sign a ≡ (bit a 31 == 1)
unfolding has_sign
has_sign-bit a = ground (arith, bit_and-pow 31 a, bit_bound a 31)

-- For two words the test of SLT compares the signed numbers.
pub signed_lt-ltb_ℤ :
    (a b : ℕ) → a < 2 ^ 32 → b < 2 ^ 32 → signed_lt a b ≡ ltb_ℤ (to_int a) (to_int b)
unfolding signed_lt
signed_lt-ltb_ℤ a b ha hb = ground arith

-- The sum fits an `int`: -2 ^ 31 <= a + b < 2 ^ 31.
abbrev pub sum_fits : ℤ → ℤ → Bool
sum_fits a b =
    leb (neg_part a + neg_part b) (pos_part a + pos_part b + 2 ^ 31)
    && ltb (pos_part a + pos_part b) (neg_part a + neg_part b + 2 ^ 31)

sign-xor :
    (a b : ℕ)
    → a < 2 ^ 32
    → b < 2 ^ 32
    → has_sign (bit_xor a b)
      ≡ (if ltb a 0x8000_0000 then not (ltb b 0x8000_0000) else ltb b 0x8000_0000)
sign-xor a b ha hb = ground (
  arith,
  has_sign-bit (bit_xor a b),
  bit-bit_xor a b 31,
  bit-div 31 a,
  bit-div 31 b,
  bit_bound a 31,
  bit_bound b 31,
)

-- The difference fits an `int`.
abbrev pub difference_fits : ℤ → ℤ → Bool
difference_fits a b =
    leb (neg_part a + pos_part b) (pos_part a + neg_part b + 2 ^ 31)
    && ltb (pos_part a + neg_part b) (neg_part a + pos_part b + 2 ^ 31)

module _ (a b : ℕ) (ha : a < 2 ^ 32) (hb : b < 2 ^ 32) where
  -- For two words, the overflow test of ADD fails exactly when the sum of the two signed numbers
  -- fits an int.
  pub add_overflows-sum_fits : add_overflows a b (add a b) ≡ not (sum_fits (to_int a) (to_int b))
  unfolding add_overflows add
  add_overflows-sum_fits = ground (arith, sign-xor a b ha hb, sign-xor a (add a b) ha (omega arith))

  -- A sum of two words that passes the overflow test of ADD stands for the sum of the two signed
  -- numbers.
  pub add-to_int :
      add_overflows a b (add a b) ≡ false
      → pos_part (to_int (add a b)) + neg_part (to_int a) + neg_part (to_int b)
        ≡ neg_part (to_int (add a b)) + pos_part (to_int a) + pos_part (to_int b)
  unfolding add
  add-to_int h = ground (arith, add_overflows-sum_fits)

  -- For two words, the overflow test of SUB fails exactly when the difference of the two signed
  -- numbers fits an int.
  pub sub_overflows-difference_fits :
      sub_overflows a b (sub a b) ≡ not (difference_fits (to_int a) (to_int b))
  unfolding sub_overflows sub
  sub_overflows-difference_fits =
      ground (arith, sign-xor a b ha hb, sign-xor a (sub a b) ha (omega arith))

  -- A difference of two words that passes the overflow test of SUB stands for the difference of
  -- the two signed numbers.
  pub sub-to_int :
      sub_overflows a b (sub a b) ≡ false
      → pos_part (to_int (sub a b)) + neg_part (to_int a) + pos_part (to_int b)
        ≡ neg_part (to_int (sub a b)) + pos_part (to_int a) + neg_part (to_int b)
  unfolding sub
  sub-to_int h = ground (arith, sub_overflows-difference_fits)
