-- ===== src/Machine/Words.antt =====
-- 32-bit arithmetic of code/machine/mipssim.cc on bit patterns, where `int` wraps around and `>>`
-- on an `int` copies the sign bit, as on the i386 host.
pub mod Signs
use jalepenos.Base.{
  ℕ, ◌+◌, ◌-◌, ◌*◌, ◌/◌, ◌%◌, ◌^◌, Bool, true, false, not, ◌&&◌, ltb, ◌==◌, if◌then◌else◌, bit_and,
  bit_xor, Option, none, some,
}
use jalepenos.Machine.{word_size}

unfoldable pub add : ℕ → ℕ → ℕ
add a b = (a + b) % word_size

unfoldable pub sub : ℕ → ℕ → ℕ
sub a b = (a + word_size - b) % word_size

-- `a << n` and, on an `int`, `a >> n`.
unfoldable pub shl : ℕ → ℕ → ℕ
shl a n = a * 2 ^ n % word_size

unfoldable pub sar : ℕ → ℕ → ℕ
sar a n = if ltb a 0x8000_0000 then a / 2 ^ n else word_size - 1 - (word_size - 1 - a) / 2 ^ n

unfoldable pub complement : ℕ → ℕ
complement a = word_size - 1 - a

-- `a & SIGN_BIT`, as a test.
unfoldable pub has_sign : ℕ → Bool
has_sign a = not (bit_and a 0x8000_0000 == 0)

-- `a < b` on `int`: the patterns compared with the sign bit turned over.
unfoldable pub signed_lt : ℕ → ℕ → Bool
signed_lt a b = ltb ((a + 0x8000_0000) % word_size) ((b + 0x8000_0000) % word_size)

-- The overflow test of ADD: !((a ^ b) & SIGN_BIT) && ((a ^ sum) & SIGN_BIT)
unfoldable pub add_overflows : ℕ → ℕ → ℕ → Bool
add_overflows a b sum = not (has_sign (bit_xor a b)) && has_sign (bit_xor a sum)

-- The overflow test of SUB: ((a ^ b) & SIGN_BIT) && ((a ^ diff) & SIGN_BIT)
unfoldable pub sub_overflows : ℕ → ℕ → ℕ → Bool
sub_overflows a b diff = has_sign (bit_xor a b) && has_sign (bit_xor a diff)

unfoldable pub magnitude : ℕ → ℕ
magnitude a = if ltb a 0x8000_0000 then a else word_size - a

-- The pattern of the number of this magnitude, with or without a minus sign.
unfoldable pub with_sign : Bool → ℕ → ℕ
with_sign negative n = if negative then (word_size - n) % word_size else n

-- `a / b` and `a % b` on `int` for b ≢ 0, rounded towards 0. The host traps on the quotient 2 ^ 31.
unfoldable pub signed_div : ℕ → ℕ → Option (ℕ × ℕ)
unfolding magnitude with_sign
signed_div a b =
    let quotient = magnitude a / magnitude b in
    let remainder = magnitude a % magnitude b in
    if ltb a 0x8000_0000
    then some (with_sign (not (ltb b 0x8000_0000)) quotient, remainder)
    else if ltb b 0x8000_0000
    then some (with_sign true quotient, with_sign true remainder)
    else if quotient == 0x8000_0000
    then none
    else some (quotient, with_sign true remainder)
