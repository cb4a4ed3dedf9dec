-- ===== src/Primitives/Int64.antt =====
-- The int64_t that Price and Quantity of primitives.hpp wrap: an integer in range. An operation
-- whose exact result is out of range is undefined behaviour, `none`.
use syseng.Base.{◌^◌, ◌≡◌, Bool, true, Option, none, some, if◌then◌else◌, ltb, arith}
use syseng.Base.Int.{ℤ, pos, negsuc, ◌+ℤ◌, ◌-ℤ◌, +ℤ_cancel, -ℤ_cancel}

abbrev pub fits : ℤ → Bool
fits (pos n) = ltb n (2 ^ 63)
fits (negsuc n) = ltb n (2 ^ 63)

abbrev pub exact : ℤ → Option ℤ
exact v = if fits v then some v else none

-- A defined sum is undone by subtraction, which is then defined too.
pub exact-add_sub : (a b c : ℤ) → fits a ≡ true → exact (a +ℤ b) ≡ some c → exact (c -ℤ b) ≡ some a
exact-add_sub a b c range e =
    let sum : a +ℤ b ≡ c = ground arith in rw (← sum, +ℤ_cancel a b, range)

-- A defined difference is undone by addition, which is then defined too.
pub exact-sub_add : (a b c : ℤ) → fits a ≡ true → exact (a -ℤ b) ≡ some c → exact (c +ℤ b) ≡ some a
exact-sub_add a b c range e =
    let difference : a -ℤ b ≡ c = ground arith in rw (← difference, -ℤ_cancel a b, range)
