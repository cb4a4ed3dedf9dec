-- ===== src/Hello/Tests.antt =====
-- hello.c at concrete values.
use syseng.Base.{
  ℕ, ◌<◌, ◌≡◌, ◌⊎◌, ◌↔◌, refl, true, some, none, List, [], ◌∷◌, length, get_elem?, if◌then◌else◌,
  ltb, ◌-◌, codes, arith,
}
use syseng.Base.CInt.{add}
use syseng.Base.Int.{ℤ, pos, negsuc, ◌+ℤ◌, ◌≤ℤ◌, ltb_ℤ, minus_one}
use syseng.Hello.{
  sum_loop, array_sum, array_max_index, put, reverse_loop, array_reverse, array_contains, rem_int,
  fizzbuzz,
}
use syseng.Hello.Reverse.{array_reverse_lem}
use syseng.Hello.Search.{max-contains_lem}

abbrev numbers : List ℤ
numbers = pos 4 ∷ negsuc 2 ∷ pos 9 ∷ pos 9 ∷ pos 1 ∷ []

reverse_test : array_reverse numbers (pos 5) ≡ some (pos 1 ∷ pos 9 ∷ pos 9 ∷ negsuc 2 ∷ pos 4 ∷ [])
unfolding array_reverse reverse_loop put
reverse_test = refl

sum_overflow_test : array_sum (pos 2147483647 ∷ pos 1 ∷ []) (pos 2) ≡ none
unfolding array_sum sum_loop add ◌+ℤ◌
sum_overflow_test = refl

fizzbuzz_test : fizzbuzz (λ n. codes "7") (negsuc 29) ≡ codes "FizzBuzz"
unfolding fizzbuzz rem_int
fizzbuzz_test = refl

array_reverse_lem_example :
    (ys : List ℤ) × (array_reverse numbers (pos 4) ≡ some ys)
    × (length ys ≡ 5)
    × ((j : ℕ)
        → get_elem? ys j ≡ (if ltb j 4 then get_elem? numbers (3 - j) else get_elem? numbers j))
    × (array_reverse ys (pos 4) ≡ some numbers)
    × ((m : ℕ) → array_reverse numbers (negsuc m) ≡ some numbers)
array_reverse_lem_example = array_reverse_lem 4 numbers (omega arith)

max-contains_lem_example :
    (k : ℕ) × (largest : ℤ) × (array_max_index numbers (pos 5) ≡ some (pos k))
    × (get_elem? numbers k ≡ some largest)
    × ((j : ℕ) (w : ℤ) → j < 5 → get_elem? numbers j ≡ some w → w ≤ℤ largest)
    × ((j : ℕ) (w : ℤ) → j < k → get_elem? numbers j ≡ some w → ltb_ℤ w largest ≡ true)
    × (array_contains numbers (pos 5) largest ≡ some (pos 1))
    × ((array_contains numbers (pos 5) (pos 1) ≡ some (pos 1))
        ⊎ (array_contains numbers (pos 5) (pos 1) ≡ some (pos 0)))
    × ((array_contains numbers (pos 5) (pos 1) ≡ some (pos 1))
        ↔ ((j : ℕ) × (j < 5) × (get_elem? numbers j ≡ some (pos 1))))
    × (array_max_index numbers (pos 0) ≡ some minus_one)
    × (array_contains numbers (pos 0) (pos 1) ≡ some (pos 0))
max-contains_lem_example = max-contains_lem 5 numbers (pos 1) (omega arith) (omega arith)
