-- ===== src/Multicast/PriceTable.antt =====
-- multicast.hpp: PriceTable, which has no field yet.
use syseng.Base.{ℕ}
use syseng.Base.Int.{ℤ, pos}
use syseng.Multicast.{QuoteMsg}

record Quote : Type 0 where
  bid : ℤ
  ask : ℤ
  bid_qty : ℤ
  ask_qty : ℤ

data PriceTable : Type 0 where
  price_table : PriceTable

unfoldable update : QuoteMsg → PriceTable → PriceTable
update msg t = t

unfoldable get : ℕ → PriceTable → Quote
get symbol_id t = record { bid = pos 0; ask = pos 0; bid_qty = pos 0; ask_qty = pos 0 }

unfoldable symbol_count : PriceTable → ℕ
symbol_count t = 0
