-- ===== src/IntBits/Tests.antt =====
-- bits.c at concrete ints.
use syseng.Base.{true, none, ℕ, ◌^◌, ◌≡◌, ◌↔◌, ◌⊎◌, refl, some, none, arith}
use syseng.Base.CInt.{add, sub}
use syseng.Base.Int.{ltb_ℤ, pos, negsuc, ◌+ℤ◌, ◌-ℤ◌}
use syseng.IntBits.Masks.{conditional_lem}
use syseng.IntBits.{
  bit_and, int_or, int_xor, bit_abs, is_power_of_2, is_negative, add_ok, conditional, count_below,
  bit_count,
}
use syseng.IntBits.Signs.{add_ok_lem}
use syseng.IntBits.Count.{bit_count_lem}
use syseng.IntBits.PowerOfTwo.{is_power_of_2_lem}

add_overflow_test : add_ok (pos 2147483647) (pos 1) ≡ none
unfolding add_ok is_negative bit_abs add sub int_xor ◌+ℤ◌ ◌-ℤ◌
add_overflow_test = refl

conditional_overflow_test : conditional (pos 1) (pos 2147483647) (pos 1) ≡ none
unfolding conditional add sub int_or bit_and ◌+ℤ◌ ◌-ℤ◌
conditional_overflow_test = refl

-- Clearing the lowest bit of this negative int leaves the least one, whose negation overflows.
power_overflow_test : is_power_of_2 (negsuc 2147483646) ≡ none
unfolding is_power_of_2 add sub int_or bit_and ◌+ℤ◌ ◌-ℤ◌
power_overflow_test = refl

count_test : bit_count (negsuc 4) ≡ some (pos 31)
unfolding bit_count count_below add bit_and ◌+ℤ◌
count_test = refl

add_ok_lem_example : add_ok (pos 2147483647) (negsuc 0) ≡ some (pos 1)
unfolding ◌+ℤ◌
add_ok_lem_example = add_ok_lem (pos 2147483647) (negsuc 0) refl refl

is_power_of_2_lem_example :
    ((is_power_of_2 (pos 64) ≡ some (pos 1)) ↔ ((k : ℕ) × (pos 64 ≡ pos (2 ^ k))))
    × ((is_power_of_2 (pos 64) ≡ some (pos 1))
        ⊎ (is_power_of_2 (pos 64) ≡ some (pos 0))
        ⊎ ((is_power_of_2 (pos 64) ≡ none) × (ltb_ℤ (pos 64) (pos 0) ≡ true)))
is_power_of_2_lem_example = is_power_of_2_lem (pos 64) refl

-- One bit beside the sign.
negative_test : is_power_of_2 (negsuc 2147483646) ≡ none
unfolding is_power_of_2 add sub int_or bit_and ◌+ℤ◌ ◌-ℤ◌
negative_test = refl

bit_count_lem_example :
    (bit_count (pos 13) ≡ some (pos 3)) × (bit_count (negsuc 13) ≡ some (pos 29))
bit_count_lem_example = bit_count_lem 13 (omega arith)

conditional_lem_example : conditional (pos 2) (pos 7) (negsuc 8) ≡ some (pos 7)
unfolding ◌+ℤ◌ ◌-ℤ◌
conditional_lem_example = conditional_lem (pos 2) (pos 7) (negsuc 8) refl refl refl refl
