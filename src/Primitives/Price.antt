-- ===== src/Primitives/Price.antt =====
-- struct Price of primitives.hpp.
pub mod Laws
use syseng.Base.{Bool, not, Option, some, ◌>>=◌, ◌||◌}
use syseng.Base.Int.{ℤ, ◌+ℤ◌, ◌-ℤ◌, ltb_ℤ, leb_ℤ, eqb_ℤ}
use syseng.Primitives.Int64.{exact}

pub record Price : Type 0 where
  pub v_ : ℤ

-- Price(int64_t v)
abbrev pub price : ℤ → Price
price v = record { v_ = v }

unfoldable value : Price → ℤ
value p = p.v_

unfoldable pub add : Price → Price → Option Price
add a b = do v ← exact (a.v_ +ℤ b.v_); some (price v)

unfoldable sub : Price → Price → Option Price
sub a b = do v ← exact (a.v_ -ℤ b.v_); some (price v)

unfoldable eq : Price → Price → Bool
eq a b = eqb_ℤ a.v_ b.v_

unfoldable ne : Price → Price → Bool
ne a b = not (eqb_ℤ a.v_ b.v_)

unfoldable lt : Price → Price → Bool
lt a b = ltb_ℤ a.v_ b.v_

unfoldable gt : Price → Price → Bool
gt a b = ltb_ℤ b.v_ a.v_

unfoldable le : Price → Price → Bool
le a b = leb_ℤ a.v_ b.v_

unfoldable ge : Price → Price → Bool
ge a b = leb_ℤ b.v_ a.v_
