-- ===== src/Base/CInt.antt =====
-- The signed integers of C: k + 1 bits, `int` for k = 31 and `long long` for k = 63. A result out of
-- range is undefined behaviour, `none`.
use Prim.Native.Nat.{ℕ, suc, ◌-◌, ◌%◌, ◌^◌, ◌<◌}
use mathlib.Core.Path.{◌≡◌}
use native.Mathlib.Omega.{arith}
use mathlib.Core.Bool.{Bool}
use mathlib.Core.Option.{Option, none, some}
use syseng.Base.Tests.{ltb, if◌then◌else◌}
use syseng.Base.Int.{ℤ, pos, negsuc, ◌+ℤ◌, ◌-ℤ◌}

-- Whether a value is in the range of k + 1 bits.
abbrev pub in_range : ℕ → ℤ → Bool
in_range k (pos n) = ltb n (2 ^ k)
in_range k (negsuc n) = ltb n (2 ^ k)

abbrev pub exact : ℕ → ℤ → Option ℤ
exact k v = if in_range k v then some v else none

-- The sum in k + 1 bits: `int` for k = 31, `long long` for k = 63.
unfoldable pub add : ℕ → ℤ → ℤ → Option ℤ
add k a b = exact k (a +ℤ b)

unfoldable pub sub : ℕ → ℤ → ℤ → Option ℤ
sub k a b = exact k (a -ℤ b)

-- (int)n of a size_t, which keeps the low 32 bits.
unfoldable pub int_of_size : ℕ → ℤ
int_of_size n = let r = n % 2 ^ 32 in if ltb r (2 ^ 31) then pos r else negsuc (2 ^ 32 - r - 1)

pub int_of_size_lem : (n : ℕ) → n < 2 ^ 31 → int_of_size n ≡ pos n
unfolding int_of_size
int_of_size_lem n h = ground arith

-- The size_t of an int.
unfoldable pub size_of_int : ℤ → ℕ
size_of_int (pos n) = n
size_of_int (negsuc n) = 2 ^ 64 - suc n
