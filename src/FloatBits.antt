-- ===== src/FloatBits.antt =====
-- 01-bits-and-bytes/exercises/ex2-ieee754/float_bits.c on 32-bit words. The int variables of the
-- source hold values that fit, or the sign bit, which the next `|` takes as the word it came from.
pub mod Words
pub mod Scale
mod Tests
use Prim.Native.Nat.{bit_and, bit_or, bit_xor}
use syseng.Base.{ℕ, ◌+◌, ◌-◌, ◌*◌, ◌/◌, ◌%◌, ◌^◌, Bool, ◌&&◌, not, if◌then◌else◌, ◌==◌}

unfoldable float_negate : ℕ → ℕ
float_negate f =
    let exp = bit_and (f / 2 ^ 23) 0xFF in
    let frac = bit_and f 0x007FFFFF in
    if (exp == 0xFF) && not (frac == 0) then f else bit_xor f 0x80000000

unfoldable float_abs : ℕ → ℕ
float_abs f = bit_and f 0x7FFFFFFF

-- (f & 0x7F800000) >> 23
abbrev pub exponent_of : ℕ → ℕ
exponent_of f = bit_and f 0x7F800000 / 2 ^ 23

-- f & ~0x7F800000 with the exponent put in.
unfoldable with_exponent : ℕ → ℕ → ℕ
with_exponent exponent f = bit_or (bit_and f 0x807FFFFF) (exponent * 2 ^ 23)

unfoldable twice_small : ℕ → ℕ
twice_small f =
    let is_negative = bit_and f 0x80000000 in
    bit_or (bit_and (f * 2 % 2 ^ 32) 0x7FFFFFFF) is_negative

unfoldable float_twice : ℕ → ℕ
float_twice f =
    let exponent = exponent_of f in
    if exponent == 0
    then twice_small f
    else if exponent == 0xFF
    then f
    else with_exponent (exponent + 1) f

unfoldable half_small : ℕ → ℕ
half_small f =
    let is_negative = bit_and f 0x80000000 in
    bit_or (bit_and (bit_and (f / 2) 0x7FFFFFFF) 0xBFFFFFFF) is_negative

unfoldable float_half : ℕ → ℕ
float_half f =
    let exponent = exponent_of f in
    if exponent == 0
    then half_small f
    else if exponent == 0xFF
    then f
    else with_exponent (exponent - 1) f

unfoldable float_is_nan : ℕ → Bool
float_is_nan f =
    let exponent = exponent_of f in
    let mantissa = bit_and f 0x007FFFFF in (exponent == 0xFF) && not (mantissa == 0)
