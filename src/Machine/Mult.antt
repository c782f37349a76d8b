-- ===== src/Machine/Mult.antt =====
-- `Mult` of code/machine/mipssim.cc: a 64-bit product in two words, by shifts and additions.
pub mod Product
use jalepenos.Base.{
  ℕ, zero, suc, ◌+◌, ◌-◌, ◌*◌, ◌/◌, ◌%◌, Bool, true, false, not, ◌&&◌, ◌||◌, ltb, ◌==◌,
  if◌then◌else◌, bit_and, bit_or,
}
use jalepenos.Machine.Words.{add, sub, shl, sar, complement}

-- `hi` and `lo`, the two halves of the product.
pub record Double : Type 0 where
  pub hi : ℕ
  pub lo : ℕ

-- lo += bLo; if (lo < bLo) hi += 1; hi += bHi;
unfoldable pub add_double : Double → ℕ → ℕ → Double
unfolding add
add_double d b_hi b_lo =
    let lo = add d.lo b_lo in
    record { hi = add (if ltb lo b_lo then add d.hi 1 else d.hi) b_hi; lo = lo }

-- `rounds` rounds of the loop: the bits of `a` from the lowest, `b` shifted up in two words.
pub mult_loop : ℕ → ℕ → ℕ → ℕ → Double → Double
mult_loop zero a b_hi b_lo d = d
mult_loop (suc n) a b_hi b_lo d =
    let d' = if bit_and a 1 == 0 then d else add_double d b_hi b_lo in
    let shifted = shl b_hi 1 in
    let b_hi' = if bit_and b_lo 0x8000_0000 == 0 then shifted else bit_or shifted 1 in
    let rest = mult_loop n (sar a 1) b_hi' (shl b_lo 1) d' in
    if not (bit_and a 1 == 0) && (bit_and a 0xffff_fffe == 0) then d' else rest

-- hi = ~hi; lo = ~lo; lo++; if (lo == 0) hi++;
unfoldable pub negate_double : Double → Double
unfolding complement add
negate_double d =
    let lo = add (complement d.lo) 1 in
    record { hi = if lo == 0 then add (complement d.hi) 1 else complement d.hi; lo = lo }

-- `a < 0` and `-a` on an `int`.
abbrev pub is_negative : ℕ → Bool
is_negative a = not (ltb a 0x8000_0000)

abbrev pub xor_bool : Bool → Bool → Bool
xor_bool true b = not b
xor_bool false b = b

unfoldable pub mult : ℕ → ℕ → Bool → Double
mult a b signed_arith =
    let negate_a = signed_arith && is_negative a in
    let negate_b = signed_arith && is_negative b in
    let a' = if negate_a then sub 0 a else a in
    let b' = if negate_b then sub 0 b else b in
    let d = mult_loop 32 a' 0 b' (record { hi = 0; lo = 0 }) in
    if (a == 0) || (b == 0)
    then record { hi = 0; lo = 0 }
    else if xor_bool negate_a negate_b
    then negate_double d
    else d
