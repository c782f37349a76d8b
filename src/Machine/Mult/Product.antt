-- ===== src/Machine/Mult/Product.antt =====
-- `Mult` computes the product of its operands.
use native.Mathlib.Nat.{pow-suc, add-mul-mod_self_right}
use jalepenos.Base.{
  ℕ, zero, suc, ◌+◌, ◌-◌, ◌*◌, ◌/◌, ◌%◌, ◌^◌, ◌≤◌, ◌<◌, ◌≡◌, refl, sym, ap, ◌∙◌, Bool, true, false,
  ◌||◌, ltb, ◌==◌, if◌then◌else◌, bit_and, bit_or, arith, Bool-cases, inl, inr,
}
use jalepenos.Base.Bits.{
  bit-div, bit_and-pow, bit_and_mask, bit_and_step, bit_or_fields, pow_pos, pow-add, mod_twice,
}
use jalepenos.Machine.Words.{add, sub, shl, sar, complement, magnitude}
use jalepenos.Machine.Mult.{
  Double, add_double, mult_loop, negate_double, mult, xor_bool, is_negative,
}

unfoldable pub value : ℕ → ℕ → ℕ
value hi lo = hi * 2 ^ 32 + lo

-- Adding a double word that fits.
add_double-value :
    (d : Double) (b_hi b_lo : ℕ)
    → d.lo < 2 ^ 32
    → b_lo < 2 ^ 32
    → value d.hi d.lo + value b_hi b_lo < 2 ^ 64
    → (value (add_double d b_hi b_lo).hi (add_double d b_hi b_lo).lo
        ≡ value d.hi d.lo + value b_hi b_lo)
      × ((add_double d b_hi b_lo).lo < 2 ^ 32)
unfolding add_double add value
add_double-value d b_hi b_lo small b_small fits = ground arith

-- `b` shifted up by one place, in two words.
abbrev shift_hi : ℕ → ℕ → ℕ
shift_hi b_hi b_lo =
    let shifted = shl b_hi 1 in if bit_and b_lo 0x8000_0000 == 0 then shifted else bit_or shifted 1

bit_or-one : (x : ℕ) → x % 2 ≡ 0 → bit_or x 1 ≡ x + 1
bit_or-one x even =
    let e : x / 2 * 2 ≡ x = omega arith in rw e at (bit_or_fields 1 (x / 2) 1 (omega arith))

shift-value :
    (b_hi b_lo : ℕ)
    → b_lo < 2 ^ 32
    → value b_hi b_lo * 2 < 2 ^ 64
    → (value (shift_hi b_hi b_lo) (shl b_lo 1) ≡ value b_hi b_lo * 2) × (shl b_lo 1 < 2 ^ 32)
unfolding shl value
shift-value b_hi b_lo small fits =
    ground
      (arith, bit_and-pow 31 b_lo, bit-div 31 b_lo, bit_or-one (b_hi * 2 % 2 ^ 32) (omega arith))

-- The bits of `a` that are still to come.
rest_bits : (n a : ℕ) → n ≤ 31 → a < 2 ^ 32 → sar a 1 % 2 ^ n ≡ a / 2 % 2 ^ n
unfolding sar
rest_bits n a few small = elim (Bool-cases (ltb a 0x8000_0000)) [
  | inl plus ↦ rw plus
  | inr minus ↦
      let back : 31 - n + n ≡ 31 = omega arith in
      let split : 2 ^ (31 - n) * 2 ^ n ≡ 2 ^ 31 =
        sym (pow-add (31 - n) n) ∙ ap (λ (k : ℕ). 2 ^ k) back in
      let up : 4294967295 - (4294967295 - a) / 2 ≡ a / 2 + 2 ^ (31 - n) * 2 ^ n =
        ground (arith, split) in
      rw (minus, up, add-mul-mod_self_right (a / 2) (2 ^ (31 - n)) (2 ^ n))
]

sar-lt : (a : ℕ) → a < 2 ^ 32 → sar a 1 < 2 ^ 32
unfolding sar
sar-lt a h = ground arith

-- The test that ends the loop early: no bit is left but the lowest.
last_bit : (a : ℕ) → a < 2 ^ 32 → bit_and a 0xffff_fffe ≡ a / 2 * 2
last_bit a h = omega (arith, bit_and_step a 0xffff_fffe, bit_and_mask 31 (a / 2))

-- One round multiplies by the lowest bit and leaves the rest.
split_product : (n a b : ℕ) → a % 2 ^ suc n * b ≡ a / 2 % 2 ^ n * (b * 2) + a % 2 * b
split_product n a b = rw (pow-suc 2 n, mod_twice a (2 ^ n)) (omega arith)

times : (b : ℕ) {x y : ℕ} → x ≡ y → x * b ≡ y * b
times b e = ap (λ (t : ℕ). t * b) e

grows : (x p : ℕ) → 0 < p → x ≤ x * p
grows x zero h = absurd (omega arith)
grows x (suc p) h = omega arith

room_now : (n b k : ℕ) → b * 2 ^ suc n < k → (b * 2 < k) × (b * 2 * 2 ^ n < k)
room_now n b k h =
    let whole : b * 2 ^ suc n ≡ b * 2 * 2 ^ n = rw (pow-suc 2 n) (omega arith) in
    (omega (arith, grows (b * 2) (2 ^ n) (pow_pos n)), omega arith)

lowest_bit : (a : ℕ) (even : Bool) → (bit_and a 1 == 0) ≡ even → a % 2 ≡ (if even then 0 else 1)
lowest_bit a even e = ground (arith, bit_and_mask 1 a)

no_bits : (n a : ℕ) → a < 2 ^ 32 → (bit_and a 0xffff_fffe == 0) ≡ true → a / 2 % 2 ^ n ≡ 0
no_bits n a h e =
    let none_left : a / 2 ≡ 0 = ground (arith, last_bit a h) in rw none_left (omega arith)

mult_loop-value :
    (n a b_hi b_lo : ℕ) (d : Double)
    → n ≤ 32
    → a < 2 ^ 32
    → d.lo < 2 ^ 32
    → b_lo < 2 ^ 32
    → value b_hi b_lo * 2 ^ n < 2 ^ 64
    → value d.hi d.lo + a % 2 ^ n * value b_hi b_lo < 2 ^ 64
    → (value (mult_loop n a b_hi b_lo d).hi (mult_loop n a b_hi b_lo d).lo
        ≡ value d.hi d.lo + a % 2 ^ n * value b_hi b_lo)
      × ((mult_loop n a b_hi b_lo d).lo < 2 ^ 32)
unfolding mult_loop
mult_loop-value zero a b_hi b_lo d few ha hd hb room fits =
    (omega (arith, times (value b_hi b_lo) {x = a % 2 ^ 0} {y = 0} (omega arith)), hd)
mult_loop-value (suc n) a b_hi b_lo d few ha hd hb room fits =
    let (fits_now, fits_later) = room_now n (value b_hi b_lo) (2 ^ 64) room in
    let (shifted, small) = shift-value b_hi b_lo hb fits_now in
    let product : sar a 1 % 2 ^ n * value (shift_hi b_hi b_lo) (shl b_lo 1)
        ≡ a / 2 % 2 ^ n * (value b_hi b_lo * 2) =
      rw (rest_bits n a (omega arith) ha, shifted) in
    let next =
      λ (d' : Double) (hd' : d'.lo < 2 ^ 32)
          (fits' : value d'.hi d'.lo + a / 2 % 2 ^ n * (value b_hi b_lo * 2) < 2 ^ 64).
        mult_loop-value n (sar a 1) (shift_hi b_hi b_lo) (shl b_lo 1) d' (omega arith) (sar-lt a ha)
          hd' small (rw shifted fits_later) (rw product fits') in
    let parts = split_product n a (value b_hi b_lo) in
    elim (Bool-cases (bit_and a 1 == 0)) [
      | inl even ↦
          let none_now = times (value b_hi b_lo) (lowest_bit a true even) in
          let (v, l) = next d hd (omega arith) in rw even (omega (arith, v, product), l)
      | inr odd ↦
          let one_now = times (value b_hi b_lo) (lowest_bit a false odd) in
          let (sum, low) = add_double-value d b_hi b_lo hd hb (omega arith) in
          let (v, l) = next (add_double d b_hi b_lo) low (omega arith) in
          rw odd (elim (Bool-cases (bit_and a 0xffff_fffe == 0)) [
            | inl stop ↦
                let nothing_left = times (value b_hi b_lo * 2) (no_bits n a ha stop) in
                rw stop (omega arith, low)
            | inr go_on ↦ rw go_on (omega arith, l)
          ])
    ]

-- A number below 2 ^ 64 in two words.
abbrev pub halves : ℕ → Double
halves p = record { hi = p / 2 ^ 32; lo = p % 2 ^ 32 }

Double-halves : (d : Double) (p : ℕ) → value d.hi d.lo ≡ p → d.lo < 2 ^ 32 → d ≡ halves p
unfolding value
Double-halves d p e h = ground arith

small_product : (a b m n : ℕ) → a < m → b < n → a * b < m * n
small_product a b m n ha hb = grind arith

-- The loop on two words: their product.
loop-halves :
    (a b : ℕ)
    → a < 2 ^ 32
    → b < 2 ^ 32
    → mult_loop 32 a 0 b (record { hi = 0; lo = 0 }) ≡ halves (a * b)
loop-halves a b ha hb =
    let start : value 0 b ≡ b = unfold value in omega arith in
    let zeros : value 0 0 ≡ 0 = unfold value in omega arith in
    let whole : a % 2 ^ 32 ≡ a = omega arith in
    let bounded = small_product a b (2 ^ 32) (2 ^ 32) ha hb in
    let (v, l) =
      mult_loop-value 32 a 0 b (record { hi = 0; lo = 0 }) (omega arith) ha (omega arith) hb
        (rw start (omega arith)) (rw (start, zeros, whole) (omega arith)) in
    Double-halves _ (a * b) (v ∙ rw (start, zeros, whole) (omega arith)) l

negate-halves : (p : ℕ) → 0 < p → p < 2 ^ 64 → negate_double (halves p) ≡ halves (2 ^ 64 - p)
unfolding negate_double add complement
negate-halves p h k = ground arith

zero_product : (a b : ℕ) → ((a == 0) || (b == 0)) ≡ true → a * b ≡ 0
zero_product zero b e = omega arith
zero_product (suc a) zero e = omega arith
zero_product (suc a) (suc b) e = ground arith

zero-halves : (a b : ℕ) → ((a == 0) || (b == 0)) ≡ true → halves (a * b) ≡ halves 0
zero-halves a b e = ap halves (zero_product a b e)

-- For two words, Mult without signedArith leaves in hi and lo the two halves of their product.
pub mult-unsigned : (a b : ℕ) → a < 2 ^ 32 → b < 2 ^ 32 → mult a b false ≡ halves (a * b)
unfolding mult
mult-unsigned a b ha hb = ground (arith, loop-halves a b ha hb, zero-halves a b)

-- The 64-bit two's complement pattern of the product of two signed words.
abbrev pub signed_product : ℕ → ℕ → ℕ
signed_product a b =
    if xor_bool (is_negative a) (is_negative b)
    then (2 ^ 64 - magnitude a * magnitude b) % 2 ^ 64
    else magnitude a * magnitude b

strip_sign : (a : ℕ) → a < 2 ^ 32 → (if is_negative a then sub 0 a else a) ≡ magnitude a
unfolding sub magnitude
strip_sign a h = ground arith

magnitude-lt : (a : ℕ) → a < 2 ^ 32 → magnitude a < 2 ^ 32
unfolding magnitude
magnitude-lt a h = ground arith

magnitude-pos : (a : ℕ) → a < 2 ^ 32 → (a == 0) ≡ false → 0 < magnitude a
unfolding magnitude
magnitude-pos a h ne = ground arith

pos_product : (a b : ℕ) → 0 < a → 0 < b → 0 < a * b
pos_product a b ha hb = grind arith

zero_magnitudes : (a b : ℕ) → ((a == 0) || (b == 0)) ≡ true → magnitude a * magnitude b ≡ 0
unfolding magnitude
zero_magnitudes zero b e = omega arith
zero_magnitudes (suc a) zero e = omega arith
zero_magnitudes (suc a) (suc b) e = ground arith

signed-halves :
    (negative : Bool) (p : ℕ)
    → 0 < p
    → p < 2 ^ 64
    → (if negative then negate_double (halves p) else halves p)
      ≡ halves (if negative then (2 ^ 64 - p) % 2 ^ 64 else p)
signed-halves false p h k = refl
signed-halves true p h k = negate-halves p h k ∙ ap halves (omega arith)

-- For two words, Mult with signedArith leaves in hi and lo the two halves of the 64-bit two's
-- complement pattern of the signed product.
pub mult-signed : (a b : ℕ) → a < 2 ^ 32 → b < 2 ^ 32 → mult a b true ≡ halves (signed_product a b)
unfolding mult
mult-signed a b ha hb = elim (Bool-cases ((a == 0) || (b == 0))) [
  | inl trivial ↦ rw (trivial, zero_magnitudes a b trivial) (ground arith)
  | inr proper ↦
      rw
        (
          proper,
          strip_sign a ha,
          strip_sign b hb,
          loop-halves (magnitude a) (magnitude b) (magnitude-lt a ha) (magnitude-lt b hb),
        )
        (signed-halves (xor_bool (is_negative a) (is_negative b)) (magnitude a * magnitude b)
          (pos_product _ _ (magnitude-pos a ha (ground arith)) (magnitude-pos b hb (ground arith)))
          (small_product _ _ (2 ^ 32) (2 ^ 32) (magnitude-lt a ha) (magnitude-lt b hb)))
]
