-- ===== src/Primitives/Quantity.antt =====
-- struct Quantity of primitives.hpp.
pub mod Scale
use syseng.Base.{Bool, not, Option, some, ◌>>=◌}
use syseng.Base.Int.{ℤ, ◌+ℤ◌, ◌-ℤ◌, ◌*ℤ◌, ltb_ℤ, leb_ℤ, eqb_ℤ}
use syseng.Primitives.Int64.{exact}

pub record Quantity : Type 0 where
  pub v_ : ℤ

-- Quantity(int64_t v)
abbrev pub quantity : ℤ → Quantity
quantity v = record { v_ = v }

unfoldable value : Quantity → ℤ
value q = q.v_

unfoldable add : Quantity → Quantity → Option Quantity
add a b = do v ← exact (a.v_ +ℤ b.v_); some (quantity v)

unfoldable sub : Quantity → Quantity → Option Quantity
sub a b = do v ← exact (a.v_ -ℤ b.v_); some (quantity v)

-- operator*(int64_t scale)
unfoldable mul : Quantity → ℤ → Option Quantity
mul a scale = do v ← exact (a.v_ *ℤ scale); some (quantity v)

unfoldable eq : Quantity → Quantity → Bool
eq a b = eqb_ℤ a.v_ b.v_

unfoldable ne : Quantity → Quantity → Bool
ne a b = not (eqb_ℤ a.v_ b.v_)

unfoldable lt : Quantity → Quantity → Bool
lt a b = ltb_ℤ a.v_ b.v_

unfoldable gt : Quantity → Quantity → Bool
gt a b = ltb_ℤ b.v_ a.v_

unfoldable le : Quantity → Quantity → Bool
le a b = leb_ℤ a.v_ b.v_

unfoldable ge : Quantity → Quantity → Bool
ge a b = leb_ℤ b.v_ a.v_
