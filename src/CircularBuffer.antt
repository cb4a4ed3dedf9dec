-- ===== src/CircularBuffer.antt =====
-- 03-stl-internals/exercises/ex2-circular-buffer/circular_buffer.hpp: CircularBuffer<T, N> and its
-- iterator. push_back, operator[] and the iterator's dereference are placeholders in the source:
-- the first does nothing, the others give element 0. size_t and ptrdiff_t are 64 bits wide; an
-- iterator position that leaves ptrdiff_t is undefined behaviour, `none`.
pub mod Positions
pub mod Traversal
mod Tests
use syseng.Base.{
  ℕ, ◌-◌, ◌%◌, ◌^◌, Bool, not, Option, none, some, List, get_elem?, ◌==◌, ltb, if◌then◌else◌, ◌>>=◌,
}
use syseng.Base.Int.{ℤ, pos, negsuc, ◌+ℤ◌, ◌-ℤ◌, eqb_ℤ, ltb_ℤ, leb_ℤ}

-- The N elements, and the ring state.
pub record Buffer (T : Type 0) : Type 0 where
  pub data_ : List T
  pub head_ : ℕ
  pub count_ : ℕ

-- buf_ is the buffer that the iterator was made for, and is left out: the operations that compare
-- or subtract do not read it. pos_ is a ptrdiff_t.
pub record Iterator : Type 0 where
  pub pos_ : ℤ

abbrev pub in_ptrdiff : ℤ → Bool
in_ptrdiff (pos n) = ltb n (2 ^ 63)
in_ptrdiff (negsuc n) = ltb n (2 ^ 63)

abbrev pub at_position : ℤ → Option Iterator
at_position p = if in_ptrdiff p then some (record { pos_ = p }) else none

-- operator++, operator--: the iterator moved, which the prefix forms return; the postfix forms
-- return the old one beside it.
unfoldable pre_increment : Iterator → Option Iterator
pre_increment it = at_position (it.pos_ +ℤ pos 1)

unfoldable post_increment : Iterator → Option (Iterator × Iterator)
post_increment it = do t ← at_position (it.pos_ +ℤ pos 1); some (it, t)

unfoldable pre_decrement : Iterator → Option Iterator
pre_decrement it = at_position (it.pos_ -ℤ pos 1)

unfoldable post_decrement : Iterator → Option (Iterator × Iterator)
post_decrement it = do t ← at_position (it.pos_ -ℤ pos 1); some (it, t)

-- operator+= and operator+, operator-= and operator- with a distance.
unfoldable advance : ℤ → Iterator → Option Iterator
advance n it = at_position (it.pos_ +ℤ n)

unfoldable plus : Iterator → ℤ → Option Iterator
plus it n = at_position (it.pos_ +ℤ n)

unfoldable retreat : ℤ → Iterator → Option Iterator
retreat n it = at_position (it.pos_ -ℤ n)

unfoldable minus : Iterator → ℤ → Option Iterator
minus it n = at_position (it.pos_ -ℤ n)

-- operator+(n, it)
unfoldable plus_front : ℤ → Iterator → Option Iterator
plus_front n it = plus it n

unfoldable distance : Iterator → Iterator → Option ℤ
distance it o = do t ← at_position (it.pos_ -ℤ o.pos_); some t.pos_

unfoldable eq : Iterator → Iterator → Bool
eq a b = eqb_ℤ a.pos_ b.pos_

unfoldable ne : Iterator → Iterator → Bool
ne a b = not (eqb_ℤ a.pos_ b.pos_)

unfoldable lt : Iterator → Iterator → Bool
lt a b = ltb_ℤ a.pos_ b.pos_

unfoldable le : Iterator → Iterator → Bool
le a b = leb_ℤ a.pos_ b.pos_

unfoldable gt : Iterator → Iterator → Bool
gt a b = ltb_ℤ b.pos_ a.pos_

unfoldable ge : Iterator → Iterator → Bool
ge a b = leb_ℤ b.pos_ a.pos_

-- static_cast<ptrdiff_t>(count_)
abbrev pub ptrdiff_of_size : ℕ → ℤ
ptrdiff_of_size n = if ltb n (2 ^ 63) then pos n else negsuc (2 ^ 64 - n - 1)

module _ {T : Type 0} where
  -- operator* of an iterator, and the two forms of the buffer's operator[].
  unfoldable deref : Iterator → Buffer T → Option T
  deref it b = get_elem? b.data_ 0

  unfoldable subscript : ℕ → Buffer T → Option T
  subscript i b = get_elem? b.data_ 0

  -- operator[] of an iterator.
  unfoldable at_distance : ℤ → Iterator → Buffer T → Option T
  at_distance n it b = get_elem? b.data_ 0

  unfoldable push_back : T → Buffer T → Buffer T
  push_back val b = b

  unfoldable size : Buffer T → ℕ
  size b = b.count_

  unfoldable full : ℕ → Buffer T → Bool
  full n b = b.count_ == n

  unfoldable capacity : ℕ → Buffer T → ℕ
  capacity n b = n

  unfoldable clear : Buffer T → Buffer T
  clear b = record b { head_ = 0; count_ = 0 }

  unfoldable begin_ : Buffer T → Iterator
  begin_ b = record { pos_ = pos 0 }

  unfoldable end_ : Buffer T → Iterator
  end_ b = record { pos_ = ptrdiff_of_size b.count_ }
