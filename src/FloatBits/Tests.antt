-- ===== src/FloatBits/Tests.antt =====
-- float_bits.c at concrete words.
use syseng.Base.{ℕ, ◌+◌, ◌*◌, ◌^◌, ◌<◌, ◌≡◌, refl, true, arith}
use syseng.FloatBits.{float_negate, with_exponent, float_twice, float_half, float_is_nan}
use syseng.FloatBits.Words.{word, IsFields}
use syseng.FloatBits.Scale.{magnitude, float_twice_lem, float_half_lem}

-- 1.5 and -3.0
twice_test : float_twice 0x3FC00000 ≡ 0x40400000
unfolding float_twice with_exponent
twice_test = refl

negate_test : float_negate 0x40400000 ≡ 0xC0400000
unfolding float_negate
negate_test = refl

-- The double of a finite number near the largest is taken for a NaN.
twice_nan_test : float_is_nan (float_twice 0x7F400000) ≡ true
unfolding float_is_nan float_twice with_exponent
twice_nan_test = refl

-- Half of the smallest normalized number is taken for 0.
half_zero_test : float_half 0x00800000 ≡ 0
unfolding float_half with_exponent
half_zero_test = refl

abbrev half_one : IsFields 1 126 5
half_one = record { sign = omega arith; exponent = omega arith; fraction = omega arith }

float_twice_lem_example :
    ((e' : ℕ) × (m' : ℕ) × (float_twice (word 1 126 5) ≡ word 1 e' m')
      × (e' < 255)
      × (m' < 2 ^ 23)
      × (magnitude e' m' ≡ 2 * magnitude 126 5))
    × (float_twice (word 1 254 5) ≡ word 1 255 5)
    × (float_is_nan (float_twice (word 1 254 5)) ≡ true)
    × (float_twice (word 1 255 5) ≡ word 1 255 5)
float_twice_lem_example = float_twice_lem 1 126 5 half_one (omega arith)

float_half_lem_example :
    (float_half (word 1 126 5) ≡ word 1 125 5)
    × (2 * magnitude 125 5 ≡ magnitude 126 5)
    × (float_twice (float_half (word 1 126 5)) ≡ word 1 126 5)
    × (float_half (word 1 0 5) ≡ word 1 0 2)
    × (2 * magnitude 0 2 + 2 * 1 ≡ magnitude 0 5)
    × (float_half (word 1 1 5) ≡ word 1 0 5)
    × (2 * magnitude 0 5 < magnitude 1 5)
    × (float_half (word 1 255 5) ≡ word 1 255 5)
float_half_lem_example = float_half_lem 1 126 5 half_one (omega arith) (omega arith)
