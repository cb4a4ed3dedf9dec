-- ===== src/Primitives/Price/Laws.antt =====
-- The arithmetic and the comparisons of Price in primitives.hpp.
use syseng.Base.{◌≡◌, ◌↔◌, refl, true, false, not, ◌&&◌, ◌||◌, some, arith}
use syseng.Base.Int.{◌+ℤ◌}
use syseng.Primitives.Int64.{fits, exact, exact-add_sub}
use syseng.Primitives.Price.{Price, value, add, sub, eq, ne, lt, gt, le, ge}

exact-add : (a b c : Price) → add a b ≡ some c → exact (a.v_ +ℤ b.v_) ≡ some c.v_
unfolding add
exact-add a b c e = ground arith

-- A sum of prices that does not overflow is undone by operator-, which does not overflow either.
price-add-sub : (a b c : Price) → fits a.v_ ≡ true → add a b ≡ some c → sub c b ≡ some a
unfolding add sub
price-add-sub a b c range e = rw (exact-add_sub a.v_ b.v_ c.v_ range (exact-add a b c e))

-- The six comparisons are those of one linear order: of less, equal and greater exactly one holds,
-- the other three are their negations, equality is that of the values, and less is transitive.
price_order :
    (a b c : Price)
    → ((lt a b && eq a b) ≡ false)
      × ((lt a b && gt a b) ≡ false)
      × ((eq a b && gt a b) ≡ false)
      × ((lt a b || eq a b || gt a b) ≡ true)
      × (ne a b ≡ not (eq a b))
      × (le a b ≡ (lt a b || eq a b))
      × (ge a b ≡ (gt a b || eq a b))
      × ((eq a b ≡ true) ↔ (value a ≡ value b))
      × ((not (lt a b && lt b c) || lt a c) ≡ true)
unfolding eq ne lt gt le ge value
price_order a b c = (
  ground arith,
  ground arith,
  ground arith,
  ground arith,
  refl,
  ground arith,
  ground arith,
  (λ e. ground arith, λ e. ground arith),
  ground arith,
)
