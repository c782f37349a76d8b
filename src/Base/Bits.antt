-- ===== src/Base/Bits.antt =====
-- The digits of `bit_and`, `bit_or` and `bit_xor`, lowest first, as laws at variables.
use Prim.Native.Nat.{
  ℕ, zero, suc, ◌+◌, ◌-◌, ◌*◌, ◌/◌, ◌%◌, ◌^◌, ◌≤◌, ◌<◌, min, max, bit_and, bit_or, digits, bitwise,
  bit_and-bitwise, bit_or-bitwise, bit_xor, bit_xor-bitwise, differ,
}
use native.Mathlib.Nat.{
  le_refl, zero-add, suc-add, pow-suc, mul_comm, div-div-eq-div-mul, div-add-mod,
}
use mathlib.Core.Path.{◌≡◌, refl, ap, sym, ◌∙◌}
use native.Mathlib.Omega.{arith}
use jalepenos.Base.Tests.{◌==◌, if◌then◌else◌}

-- Fuel beyond the first number changes no digit.
module _ (rest : ℕ → ℕ) (op : ℕ → ℕ → ℕ) where
  one_more : (fuel x y : ℕ) → x ≤ fuel → digits rest op (suc fuel) x y ≡ digits rest op fuel x y
  one_more zero zero y le = refl
  one_more (suc fuel) zero y le = refl
  one_more zero (suc x) y le = absurd (omega arith)
  one_more (suc fuel) (suc x) y le = rw (one_more fuel (suc x / 2) (y / 2) (omega arith))

  surplus : (extra x y : ℕ) → digits rest op (extra + x) x y ≡ bitwise rest op x y
  surplus zero x y = ap (λ (n : ℕ). digits rest op n x y) {x = zero + x} {y = x} (omega arith)
  surplus (suc extra) x y =
      ap (λ (n : ℕ). digits rest op n x y) {x = suc extra + x} {y = suc (extra + x)} (omega arith)
      ∙ one_more (extra + x) x y (omega arith)
      ∙ surplus extra x y

  -- The lowest digit, and the others from the two halves.
  halve :
      (x y : ℕ)
      → bitwise rest op (suc x) y ≡ op (suc x % 2) (y % 2) + 2 * bitwise rest op (suc x / 2) (y / 2)
  halve x y =
      let h = suc x / 2 in
      let split : x ≡ (x - h) + h = omega arith in
      let enough : digits rest op x h (y / 2) ≡ bitwise rest op h (y / 2) =
        ap (λ (n : ℕ). digits rest op n h (y / 2)) split ∙ surplus (x - h) h (y / 2) in
      omega (arith, enough)

no_digits : (fuel x : ℕ) → digits (λ y. 0) min fuel x 0 ≡ 0
no_digits zero x = refl
no_digits (suc fuel) zero = refl
no_digits (suc fuel) (suc x) = omega (arith, no_digits fuel (suc x / 2))

bit_and_zero : (x : ℕ) → bit_and x 0 ≡ 0
bit_and_zero x = simp bit_and-bitwise (no_digits x x)

pub bit_or_step : (x y : ℕ) → bit_or x y ≡ max (x % 2) (y % 2) + 2 * bit_or (x / 2) (y / 2)
bit_or_step zero y = simp bit_or-bitwise (omega arith)
bit_or_step (suc x) y = simp bit_or-bitwise (halve (λ d. d) max x y)

pub bit_and_step : (x y : ℕ) → bit_and x y ≡ min (x % 2) (y % 2) + 2 * bit_and (x / 2) (y / 2)
bit_and_step zero y = simp bit_and-bitwise (omega arith)
bit_and_step (suc x) y = simp bit_and-bitwise (halve (λ d. 0) min x y)

differ_zero : (y : ℕ) → differ 0 y ≡ y
differ_zero y = refl

pub bit_xor_step : (x y : ℕ) → bit_xor x y ≡ differ (x % 2) (y % 2) + 2 * bit_xor (x / 2) (y / 2)
bit_xor_step zero y = simp bit_xor-bitwise (omega (arith, differ_zero (y % 2)))
bit_xor_step (suc x) y = simp bit_xor-bitwise (halve (λ d. d) differ x y)

-- The digit of weight `2 ^ i`.
pub bit : ℕ → ℕ → ℕ
bit a zero = a % 2
bit a (suc i) = bit (a / 2) i

pub bit_bound : (a i : ℕ) → bit a i ≤ 1
unfolding bit
bit_bound a zero = omega arith
bit_bound a (suc i) = bit_bound (a / 2) i

pub zero-bit : (i : ℕ) → bit 0 i ≡ 0
unfolding bit
zero-bit zero = refl
zero-bit (suc i) = zero-bit i

pub bit-bit_or : (a b i : ℕ) → bit (bit_or a b) i ≡ max (bit a i) (bit b i)
unfolding bit
bit-bit_or a b zero = omega (arith, bit_or_step a b)
bit-bit_or a b (suc i) =
    let half : bit_or a b / 2 ≡ bit_or (a / 2) (b / 2) = omega (arith, bit_or_step a b) in
    rw half (bit-bit_or (a / 2) (b / 2) i)

pub bit-bit_and : (a b i : ℕ) → bit (bit_and a b) i ≡ min (bit a i) (bit b i)
unfolding bit
bit-bit_and a b zero = omega (arith, bit_and_step a b)
bit-bit_and a b (suc i) =
    let half : bit_and a b / 2 ≡ bit_and (a / 2) (b / 2) = omega (arith, bit_and_step a b) in
    rw half (bit-bit_and (a / 2) (b / 2) i)

differ-lt : (x y : ℕ) → x < 2 → y < 2 → differ x y ≡ (if x == y then 0 else 1)
differ-lt zero zero h k = refl
differ-lt zero (suc zero) h k = refl
differ-lt zero (suc (suc y)) h k = absurd (omega arith)
differ-lt (suc zero) zero h k = refl
differ-lt (suc zero) (suc zero) h k = refl
differ-lt (suc zero) (suc (suc y)) h k = absurd (omega arith)
differ-lt (suc (suc x)) y h k = absurd (omega arith)

pub bit-bit_xor : (a b i : ℕ) → bit (bit_xor a b) i ≡ (if bit a i == bit b i then 0 else 1)
unfolding bit
bit-bit_xor a b zero =
    let digit = differ-lt (a % 2) (b % 2) (omega arith) (omega arith) in
    ground (arith, bit_xor_step a b, digit)
bit-bit_xor a b (suc i) =
    let digit = differ-lt (a % 2) (b % 2) (omega arith) (omega arith) in
    let half : bit_xor a b / 2 ≡ bit_xor (a / 2) (b / 2) =
      ground (arith, bit_xor_step a b, digit) in
    rw half (bit-bit_xor (a / 2) (b / 2) i)

pub bit-pow : (k i : ℕ) → bit (2 ^ k) i ≡ (if i == k then 1 else 0)
unfolding bit
bit-pow zero zero = refl
bit-pow zero (suc i) = rw (zero-bit i) (ground arith)
bit-pow (suc k) zero = rw (pow-suc 2 k) (ground arith)
bit-pow (suc k) (suc i) =
    let half : 2 ^ suc k / 2 ≡ 2 ^ k = omega (arith, pow-suc 2 k) in
    rw half (ground (arith, bit-pow k i))

pub pow_pos : (k : ℕ) → 0 < 2 ^ k
pow_pos zero = omega arith
pow_pos (suc k) = omega (arith, pow-suc 2 k, pow_pos k)

pub pow-add : (a b : ℕ) → 2 ^ (a + b) ≡ 2 ^ a * 2 ^ b
pow-add zero b = rw (zero-add b) (omega arith)
pow-add (suc a) b = rw (suc-add a b, pow-suc 2 (a + b), pow-suc 2 a, pow-add a b) (omega arith)

-- Halving first, and dividing by `p` afterwards.
pub div_twice : (a p : ℕ) → a / (p * 2) ≡ a / 2 / p
div_twice a p = rw (mul_comm p 2) (sym (div-div-eq-div-mul a 2 p))

pub mod_twice : (a p : ℕ) → a % (p * 2) ≡ a / 2 % p * 2 + a % 2
mod_twice a p =
    omega
      (arith, div-add-mod a (p * 2), div-add-mod (a / 2) p, ap (λ (q : ℕ). p * q) (div_twice a p))

pub pow_strict : (k w : ℕ) → k < w → 2 ^ k < 2 ^ w
pow_strict zero zero h = absurd (omega arith)
pow_strict zero (suc w) h = omega (arith, pow-suc 2 w, pow_pos w)
pow_strict (suc k) zero h = absurd (omega arith)
pow_strict (suc k) (suc w) h = omega (arith, pow-suc 2 w, pow-suc 2 k, pow_strict k w (omega arith))

bit_ones : (w i : ℕ) → i < w → bit (2 ^ w - 1) i ≡ 1
unfolding bit
bit_ones zero i h = absurd (omega arith)
bit_ones (suc w) zero h = omega (arith, pow-suc 2 w, pow_pos w)
bit_ones (suc w) (suc i) h =
    let half : (2 ^ suc w - 1) / 2 ≡ 2 ^ w - 1 = omega (arith, pow-suc 2 w, pow_pos w) in
    rw half (bit_ones w i (omega arith))

-- The complement of a single bit in a word of `w` bits.
pub bit-complement :
    (w k i : ℕ) → k < w → i < w → bit (2 ^ w - 1 - 2 ^ k) i ≡ (if i == k then 0 else 1)
unfolding bit
bit-complement zero k i hk hi = absurd (omega arith)
bit-complement (suc w) zero zero hk hi = omega (arith, pow-suc 2 w, pow_pos w)
bit-complement (suc w) zero (suc i) hk hi =
    let half : (2 ^ suc w - 1 - 1) / 2 ≡ 2 ^ w - 1 = omega (arith, pow-suc 2 w, pow_pos w) in
    rw half (ground (arith, bit_ones w i))
bit-complement (suc w) (suc k) zero hk hi =
    ground (arith, pow-suc 2 w, pow-suc 2 k, pow_strict k w (omega arith))
bit-complement (suc w) (suc k) (suc i) hk hi =
    let half : (2 ^ suc w - 1 - 2 ^ suc k) / 2 ≡ 2 ^ w - 1 - 2 ^ k =
      omega (arith, pow-suc 2 w, pow-suc 2 k, pow_strict k w (omega arith)) in
    rw half (ground (arith, bit-complement w k i))

-- `bit_and` with `2 ^ k` keeps one digit.
pub bit_and-pow : (k a : ℕ) → bit_and a (2 ^ k) ≡ bit a k * 2 ^ k
unfolding bit
bit_and-pow zero a = omega (arith, bit_and_step a 1, bit_and_zero (a / 2))
bit_and-pow (suc k) a =
    let half : 2 ^ suc k / 2 ≡ 2 ^ k = omega (arith, pow-suc 2 k) in
    let even : 2 ^ suc k % 2 ≡ 0 = omega (arith, pow-suc 2 k) in
    rw (bit_and_step a (2 ^ suc k), half, even, bit_and-pow k (a / 2), pow-suc 2 k) (omega arith)

-- A number below `2 ^ w` has the digits below `w` and no others.
pub bit_or-lt : (w a b : ℕ) → a < 2 ^ w → b < 2 ^ w → bit_or a b < 2 ^ w
bit_or-lt zero a b ha hb =
    let ea : a ≡ 0 = omega arith in let eb : b ≡ 0 = omega arith in rw (ea, eb) (omega arith)
bit_or-lt (suc w) a b ha hb = omega (
  arith,
  bit_or_step a b,
  pow-suc 2 w,
  bit_or-lt w (a / 2) (b / 2) (omega (arith, pow-suc 2 w)) (omega (arith, pow-suc 2 w)),
)

pub bit_and-lt : (w a b : ℕ) → a < 2 ^ w → bit_and a b < 2 ^ w
bit_and-lt zero a b ha = let ea : a ≡ 0 = omega arith in rw (ea, bit_and-bitwise 0 b) (omega arith)
bit_and-lt (suc w) a b ha = omega (
  arith,
  bit_and_step a b,
  pow-suc 2 w,
  bit_and-lt w (a / 2) (b / 2) (omega (arith, pow-suc 2 w)),
)

-- The mask of the lowest `k` digits.
pub bit_and_mask : (k a : ℕ) → bit_and a (2 ^ k - 1) ≡ a % 2 ^ k
bit_and_mask zero a = omega (arith, bit_and_zero a)
bit_and_mask (suc k) a =
    let half : (2 ^ suc k - 1) / 2 ≡ 2 ^ k - 1 = omega (arith, pow-suc 2 k, pow_pos k) in
    let odd : (2 ^ suc k - 1) % 2 ≡ 1 = omega (arith, pow-suc 2 k, pow_pos k) in
    rw (bit_and_step a (2 ^ suc k - 1), half, odd, bit_and_mask k (a / 2), pow-suc 2 k)
      (omega (arith, mod_twice a (2 ^ k)))

bit_or-zero_fuel : (n a : ℕ) → a ≤ n → bit_or a 0 ≡ a
bit_or-zero_fuel n zero h = bit_or-bitwise 0 0
bit_or-zero_fuel zero (suc a) h = absurd (omega arith)
bit_or-zero_fuel (suc n) (suc a) h =
    omega (arith, bit_or_step (suc a) 0, bit_or-zero_fuel n (suc a / 2) (omega arith))

-- Fields that do not overlap add up.
pub bit_or_fields : (k q r : ℕ) → r < 2 ^ k → bit_or (q * 2 ^ k) r ≡ q * 2 ^ k + r
bit_or_fields zero q r h =
    let e : r ≡ 0 = omega arith in
    rw e (omega (arith, bit_or-zero_fuel (q * 1) (q * 1) (le_refl _)))
bit_or_fields (suc k) q r h =
    let even : q * 2 ^ suc k ≡ q * 2 ^ k * 2 = rw (pow-suc 2 k) (omega arith) in
    rw even (
      omega (
        arith,
        bit_or_step (q * 2 ^ k * 2) r,
        ap (λ (x : ℕ). bit_or x (r / 2)) {x = q * 2 ^ k * 2 / 2} {y = q * 2 ^ k} (omega arith),
        bit_or_fields k q (r / 2) (omega (arith, pow-suc 2 k)),
      ))

pub bit-div : (k a : ℕ) → bit a k ≡ a / 2 ^ k % 2
unfolding bit
bit-div zero a = omega arith
bit-div (suc k) a = rw (bit-div k (a / 2), pow-suc 2 k, div_twice a (2 ^ k))

bit_or_comm_fuel : (n a b : ℕ) → a ≤ n → b ≤ n → bit_or a b ≡ bit_or b a
bit_or_comm_fuel zero a b ha hb =
    let ea : a ≡ 0 = omega arith in let eb : b ≡ 0 = omega arith in rw (ea, eb)
bit_or_comm_fuel (suc n) a b ha hb = omega (
  arith,
  bit_or_step a b,
  bit_or_step b a,
  bit_or_comm_fuel n (a / 2) (b / 2) (omega arith) (omega arith),
)

pub bit_or_comm : (a b : ℕ) → bit_or a b ≡ bit_or b a
bit_or_comm a b = bit_or_comm_fuel (a + b) a b (omega arith) (omega arith)
