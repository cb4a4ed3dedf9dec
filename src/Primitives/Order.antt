-- ===== src/Primitives/Order.antt =====
-- Side, opposite(), side_str() and struct Order of primitives.hpp.
use Prim.Native.String.{String}
use syseng.Base.{ℕ}
use syseng.Primitives.Price.{Price}
use syseng.Primitives.Quantity.{Quantity}

pub data Side : Type 0 where
  buy sell : Side

unfoldable opposite : Side → Side
opposite buy = sell
opposite sell = buy

unfoldable side_str : Side → String
side_str buy = "Buy"
side_str sell = "Sell"

pub record Order : Type 0 where
  pub id : ℕ
  pub price : Price
  pub qty : Quantity
  pub side : Side

-- Order(uint64_t, Price, Quantity, Side)
abbrev pub order : ℕ → Price → Quantity → Side → Order
order i p q s = record { id = i; price = p; qty = q; side = s }
