-- ===== src/CircularBuffer/Positions.antt =====
-- The iterators of circular_buffer.hpp as positions between begin() and end().
use syseng.Base.{◌^◌, ◌<◌, ◌≡◌, refl, true, false, not, ◌&&◌, ◌||◌, some, ◌==◌, arith}
use syseng.Base.Int.{ℤ, pos, ◌+ℤ◌, ◌-ℤ◌, ltb_ℤ, +ℤ_cancel, +ℤ_comm, +ℤ_parts}
use syseng.CircularBuffer.{
  Buffer, Iterator, in_ptrdiff, plus, minus, plus_front, distance, eq, ne, gt, ge, lt, le,
  pre_increment, post_increment, pre_decrement, post_decrement, size, begin_, end_, clear,
}

-- Moving by a distance, where the new position is a ptrdiff_t, is undone by moving back; the
-- distance from the old iterator to the new is what was moved; and `n + it` is `it + n`.
pub plus-minus :
    (it : Iterator) (n : ℤ) (moved : Iterator)
    → in_ptrdiff it.pos_ ≡ true
    → in_ptrdiff n ≡ true
    → plus it n ≡ some moved
    → (minus moved n ≡ some it) × (distance moved it ≡ some n) × (plus_front n it ≡ some moved)
unfolding plus minus distance plus_front
plus-minus it n moved valid small e =
    let sum : it.pos_ +ℤ n ≡ moved.pos_ = ground arith in
    let back : moved.pos_ -ℤ it.pos_ ≡ n = rw (← sum, +ℤ_comm it.pos_ n, +ℤ_cancel n it.pos_) in
    (rw (← sum, +ℤ_cancel it.pos_ n, valid), rw (back, small), e)

-- Stepping forward and back again, where the step stays in range, leads to the old iterator.
increment-decrement :
    (it next : Iterator)
    → in_ptrdiff it.pos_ ≡ true
    → pre_increment it ≡ some next
    → (pre_decrement next ≡ some it)
      × (post_increment it ≡ some (it, next))
      × (post_decrement next ≡ some (next, it))
      × (plus it (pos 1) ≡ some next)
      × (lt it next ≡ true)
unfolding pre_increment pre_decrement post_increment post_decrement plus lt
increment-decrement it next valid e =
    let moved : it.pos_ +ℤ pos 1 ≡ next.pos_ = ground arith in
    let back : next.pos_ -ℤ pos 1 ≡ it.pos_ = rw (← moved, +ℤ_cancel it.pos_ (pos 1)) in
    let ahead : ltb_ℤ it.pos_ next.pos_ ≡ true = ground (arith, +ℤ_parts it.pos_ (pos 1), moved) in
    (rw (back, valid), rw e, rw (back, valid), e, ahead)

-- For a buffer of fewer than 2^63 elements end() lies size() behind begin(); the two are equal
-- exactly when the buffer is empty, as it is after clear().
distance-begin_end :
    {T : Type 0} (b : Buffer T)
    → size b < 2 ^ 63
    → (distance (end_ b) (begin_ b) ≡ some (pos (size b)))
      × (eq (begin_ b) (end_ b) ≡ (size b == 0))
      × (le (begin_ b) (end_ b) ≡ true)
      × (eq (begin_ (clear b)) (end_ (clear b)) ≡ true)
unfolding distance begin_ end_ size eq le clear ◌-ℤ◌
distance-begin_end b h = (ground arith, ground arith, ground arith, refl)

-- The six comparisons of iterators are those of one linear order on the positions.
iterator_order :
    (a b c : Iterator)
    → ((lt a b && eq a b) ≡ false)
      × ((eq a b && gt a b) ≡ false)
      × ((lt a b && gt a b) ≡ false)
      × ((lt a b || eq a b || gt a b) ≡ true)
      × (ne a b ≡ not (eq a b))
      × (le a b ≡ (lt a b || eq a b))
      × (ge a b ≡ (gt a b || eq a b))
      × ((not (lt a b && lt b c) || lt a c) ≡ true)
unfolding eq ne lt le gt ge
iterator_order a b c = (
  ground arith,
  ground arith,
  ground arith,
  ground arith,
  refl,
  ground arith,
  ground arith,
  ground arith,
)
