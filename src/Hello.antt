-- ===== src/Hello.antt =====
-- 00-c-for-programmers/exercises/ex1-hello-c/hello.c: numbers and arrays. The array that a pointer
-- points into is the list of its elements; `none` is undefined behaviour, an access outside the array
-- or an `int` result out of range.
pub mod Numbers
pub mod Reverse
pub mod Search
mod Tests
use syseng.Base.{
  ℕ, zero, suc, ◌+◌, ◌-◌, ◌/◌, ◌%◌, Bool, true, false, Option, none, some, List, [], ◌∷◌, length,
  get_elem?, set, ltb, leb, if◌then◌else◌, ◌>>=◌, ◌==◌, codes,
}
use syseng.Base.CInt.{add}
use syseng.Base.Int.{ℤ, pos, negsuc, pos_part, neg_part, sub_ℕ, eqb_ℤ, ltb_ℤ, leb_ℤ, minus_one}

unfoldable max_of : ℤ → ℤ → ℤ
max_of a b = if ltb_ℤ b a then a else b

unfoldable min_of : ℤ → ℤ → ℤ
min_of a b = if ltb_ℤ b a then b else a

unfoldable clamp : ℤ → ℤ → ℤ → ℤ
clamp val lo hi = if ltb_ℤ val lo then lo else if ltb_ℤ hi val then hi else val

-- A loop has the rounds that are left, and then the values of its variables.
unfoldable sum_loop : ℕ → ℕ → List ℤ → ℤ → Option ℤ
sum_loop zero i arr sum = some sum
sum_loop (suc rounds) i arr sum = do
  v ← get_elem? arr i
  sum' ← add 31 sum v
  sum_loop rounds (suc i) arr sum'

unfoldable array_sum : List ℤ → ℤ → Option ℤ
array_sum arr n = sum_loop (pos_part n) 0 arr (pos 0)

unfoldable max_loop : ℕ → ℕ → List ℤ → ℤ → ℕ → Option ℕ
max_loop zero i arr largest largest_idx = some largest_idx
max_loop (suc rounds) i arr largest largest_idx = do
  v ← get_elem? arr i
  max_loop rounds (suc i) arr (if ltb_ℤ largest v then v else largest)
      (if ltb_ℤ largest v then i else largest_idx)

unfoldable array_max_index : List ℤ → ℤ → Option ℤ
array_max_index arr n =
    if leb_ℤ n (pos 0)
    then some minus_one
    else do largest ← get_elem? arr 0; i ← max_loop (pos_part n - 1) 1 arr largest 0; some (pos i)

-- A store into an element of the array.
unfoldable put : ℕ → ℤ → List ℤ → Option (List ℤ)
put i v arr = if ltb i (length arr) then some (set arr i v) else none

unfoldable reverse_loop : ℕ → ℕ → ℕ → List ℤ → Option (List ℤ)
reverse_loop zero i n arr = some arr
reverse_loop (suc rounds) i n arr = do
  temp ← get_elem? arr i
  v ← get_elem? arr (n - 1 - i)
  arr' ← put i v arr
  arr'' ← put (n - 1 - i) temp arr'
  reverse_loop rounds (suc i) n arr''

unfoldable array_reverse : List ℤ → ℤ → Option (List ℤ)
array_reverse arr n = reverse_loop (pos_part n / 2) 0 (pos_part n) arr

unfoldable contains_loop : ℕ → ℕ → List ℤ → ℤ → Option Bool
contains_loop zero i arr val = some false
contains_loop (suc rounds) i arr val = do
  v ← get_elem? arr i
  let rest = contains_loop rounds (suc i) arr val
  if eqb_ℤ v val then some true else rest

unfoldable array_contains : List ℤ → ℤ → ℤ → Option ℤ
array_contains arr n val =
    if leb_ℤ n (pos 0)
    then some (pos 0)
    else do found ← contains_loop (pos_part n) 0 arr val; some (if found then pos 1 else pos 0)

-- n % k for a positive k: the remainder has the sign of n.
unfoldable rem_int : ℤ → ℕ → ℤ
rem_int n k = sub_ℕ (pos_part n % k) (neg_part n % k)

-- The bytes that sprintf writes before the terminating 0. `%d` is the argument `decimal`.
unfoldable fizzbuzz : (ℤ → List ℕ) → ℤ → List ℕ
fizzbuzz decimal n =
    if eqb_ℤ (rem_int n 15) (pos 0)
    then codes "FizzBuzz"
    else if eqb_ℤ (rem_int n 5) (pos 0)
    then codes "Buzz"
    else if eqb_ℤ (rem_int n 3) (pos 0)
    then codes "Fizz"
    else decimal n
