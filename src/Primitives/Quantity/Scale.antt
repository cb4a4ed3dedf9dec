-- ===== src/Primitives/Quantity/Scale.antt =====
-- Scaling a Quantity, beside its sums and differences.
use syseng.Base.{◌≡◌, sym, true, some, arith}
use syseng.Base.Int.{ℤ, ◌+ℤ◌, ◌-ℤ◌, ◌*ℤ◌, +ℤ-mul}
use syseng.Primitives.Int64.{fits, exact, exact-sub_add}
use syseng.Primitives.Quantity.{Quantity, add, sub, mul}

exact-value : (v w : ℤ) → exact v ≡ some w → v ≡ w
exact-value v w e = ground arith

-- Scaling a sum of two quantities is adding the scaled quantities, wherever nothing overflows on
-- the way.
quantity-add-mul :
    (a b s x y z : Quantity) (k : ℤ)
    → add a b ≡ some s
    → mul s k ≡ some z
    → mul a k ≡ some x
    → mul b k ≡ some y
    → add x y ≡ some z
unfolding add mul
quantity-add-mul a b s x y z k sum whole left right =
    let sum' : a.v_ +ℤ b.v_ ≡ s.v_ = ground arith in
    let left' : a.v_ *ℤ k ≡ x.v_ = ground arith in
    let right' : b.v_ *ℤ k ≡ y.v_ = ground arith in
    let same : x.v_ +ℤ y.v_ ≡ s.v_ *ℤ k =
      rw (← sum', ← left', ← right') (sym (+ℤ-mul a.v_ b.v_ k)) in
    rw same whole

-- A difference of quantities that does not overflow is undone by operator+, which does not overflow
-- either.
quantity-sub-add : (a b c : Quantity) → fits a.v_ ≡ true → sub a b ≡ some c → add c b ≡ some a
unfolding add sub
quantity-sub-add a b c range e =
    let difference : exact (a.v_ -ℤ b.v_) ≡ some c.v_ = ground arith in
    rw (exact-sub_add a.v_ b.v_ c.v_ range difference)
