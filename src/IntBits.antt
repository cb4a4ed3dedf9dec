-- ===== src/IntBits.antt =====
-- 01-bits-and-bytes/exercises/ex1-bitwise-basics/bits.c on 32-bit ints in two's complement. A sum or
-- difference out of range is undefined behaviour, `none`; `>>` of a negative int keeps the sign.
pub mod Words
pub mod Signs
pub mod Masks
pub mod PowerOfTwo
pub mod Count
mod Tests
use Prim.Native.Nat.{bit_and as word_and, bit_or as word_or, bit_xor as word_xor}
use syseng.Base.{ℕ, zero, suc, ◌+◌, ◌-◌, ◌/◌, ◌^◌, Option, some, ltb, if◌then◌else◌, ◌>>=◌}
use syseng.Base.CInt.{add, sub}
use syseng.Base.Int.{ℤ, pos, negsuc}

-- The bits of an int, and the int with these bits.
abbrev pub to_word : ℤ → ℕ
to_word (pos n) = n
to_word (negsuc n) = 2 ^ 32 - 1 - n

abbrev pub of_word : ℕ → ℤ
of_word w = if ltb w (2 ^ 31) then pos w else negsuc (2 ^ 32 - 1 - w)

-- `&`, `|`, `^`, `~` and `>>` on ints.
unfoldable bit_and : ℤ → ℤ → ℤ
bit_and x y = of_word (word_and (to_word x) (to_word y))

unfoldable int_or : ℤ → ℤ → ℤ
int_or x y = of_word (word_or (to_word x) (to_word y))

unfoldable int_xor : ℤ → ℤ → ℤ
int_xor x y = of_word (word_xor (to_word x) (to_word y))

abbrev pub complement : ℤ → ℤ
complement (pos n) = negsuc n
complement (negsuc n) = pos n

abbrev pub shift_right : ℤ → ℕ → ℤ
shift_right (pos n) k = pos (n / 2 ^ k)
shift_right (negsuc n) k = negsuc (n / 2 ^ k)

unfoldable bit_negate : ℤ → Option ℤ
bit_negate x = add 31 (complement x) (pos 1)

unfoldable bit_abs : ℤ → Option ℤ
bit_abs x = sub 31 (int_xor x (shift_right x 31)) (shift_right x 31)

unfoldable is_power_of_2 : ℤ → Option ℤ
is_power_of_2 x = do
  less ← sub 31 x (pos 1)
  let v = bit_and x less
  minus_x ← add 31 (complement x) (pos 1)
  let not_zero = shift_right (int_or x minus_x) 31
  let not_neg = complement (shift_right x 31)
  minus_v ← add 31 (complement v) (pos 1)
  let v_zero = complement (shift_right (int_or v minus_v) 31)
  some (bit_and (bit_and (bit_and v_zero not_zero) not_neg) (pos 1))

unfoldable is_negative : ℤ → Option ℤ
is_negative x = add 31 (complement (shift_right x 31)) (pos 1)

unfoldable add_ok : ℤ → ℤ → Option ℤ
add_ok x y = do
  x_negative ← is_negative x
  y_negative ← is_negative y
  let inputs_different_sign = int_xor x_negative y_negative
  inputs_same_sign ← bit_abs (complement inputs_different_sign)
  sum ← add 31 x y
  sum_negative ← is_negative sum
  let output_opposite_sign = int_xor sum_negative x_negative
  d ← sub 31 (bit_and inputs_same_sign output_opposite_sign) (pos 1)
  bit_abs d

unfoldable conditional : ℤ → ℤ → ℤ → Option ℤ
conditional x y z = do
  minus_x ← add 31 (complement x) (pos 1)
  let non_zero = shift_right (int_or x minus_x) 31
  a ← add 31 (bit_and non_zero y) (bit_and non_zero z)
  b ← add 31 a (bit_and (complement non_zero) z)
  sub 31 b (bit_and non_zero z)

-- The sum of `(x >> k) & 1` for the first shifts, added from the left.
unfoldable count_below : ℕ → ℤ → Option ℤ
count_below zero x = some (pos 0)
count_below (suc k) x = do sum ← count_below k x; add 31 sum (bit_and (shift_right x k) (pos 1))

unfoldable bit_count : ℤ → Option ℤ
bit_count x = count_below 32 x
