-- ===== src/CircularBuffer/Tests.antt =====
-- Iterators over a buffer of three elements.
use syseng.Base.{ℕ, ◌^◌, ◌<◌, ◌≡◌, refl, some, [], ◌∷◌, arith}
use syseng.Base.Int.{ℤ, pos, negsuc, ◌+ℤ◌}
use syseng.CircularBuffer.{
  Buffer, Iterator, plus, minus, plus_front, distance, pre_increment, size, begin_, end_,
}
use syseng.CircularBuffer.Positions.{plus-minus}
use syseng.CircularBuffer.Traversal.{traverse, traverse_lem}

abbrev three : Buffer ℕ
three = record { data_ = 5 ∷ 6 ∷ 7 ∷ 0 ∷ []; head_ = 3; count_ = 3 }

abbrev iterator : ℤ → Iterator
iterator p = record { pos_ = p }

forward_test : plus (iterator (pos 1)) (pos 2) ≡ some (iterator (pos 3))
unfolding plus ◌+ℤ◌
forward_test = refl

step_test : pre_increment (iterator (negsuc 0)) ≡ some (iterator (pos 0))
unfolding pre_increment ◌+ℤ◌
step_test = refl

plus-minus_example :
    (minus (iterator (pos 3)) (pos 2) ≡ some (iterator (pos 1)))
    × (distance (iterator (pos 3)) (iterator (pos 1)) ≡ some (pos 2))
    × (plus_front (pos 2) (iterator (pos 1)) ≡ some (iterator (pos 3)))
plus-minus_example = plus-minus (iterator (pos 1)) (pos 2) (iterator (pos 3)) refl refl forward_test

size_small : size three < 2 ^ 63
unfolding size
size_small = omega arith

abbrev it_a : Iterator
it_a = iterator (negsuc 1)

abbrev it_b : Iterator
it_b = iterator (pos 0)

abbrev it_c : Iterator
it_c = iterator (pos 4)

traverse_lem_example : traverse 4 (begin_ three) (end_ three) three ≡ some (5 ∷ 5 ∷ 5 ∷ [])
traverse_lem_example = traverse_lem three 5 refl (omega arith)
