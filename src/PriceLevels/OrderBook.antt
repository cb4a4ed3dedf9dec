-- ===== src/PriceLevels/OrderBook.antt =====
-- 06-order-book/exercises/ex2-limit-order-book/order_book.hpp: LimitOrderBook, over the price levels.
-- What the source leaves to be written has no effect here either.
use syseng.Base.{ℕ, Bool, false, Option, none, List}
use syseng.Base.Int.{ℤ}
use syseng.PriceLevels.{Side, SortedMap, PriceLevelBook, Line}
use syseng.PriceLevels

pub record Order : Type 0 where
  pub id : ℕ
  pub side : Side
  pub price : ℤ
  pub qty : ℤ

pub record LimitOrderBook (bid_map ask_map : SortedMap) : Type 0 where
  pub book_ : PriceLevelBook bid_map ask_map

module _ {bid_map ask_map : SortedMap} where
  abbrev pub construct : LimitOrderBook bid_map ask_map
  construct = record { book_ = PriceLevels.construct }

  unfoldable add_order :
      Order → LimitOrderBook bid_map ask_map → Bool × LimitOrderBook bid_map ask_map
  add_order order b = (false, b)

  unfoldable cancel_order :
      ℕ → LimitOrderBook bid_map ask_map → Bool × LimitOrderBook bid_map ask_map
  cancel_order id b = (false, b)

  unfoldable modify_order :
      ℕ → ℤ → LimitOrderBook bid_map ask_map → Bool × LimitOrderBook bid_map ask_map
  modify_order id new_qty b = (false, b)

  unfoldable best_bid : LimitOrderBook bid_map ask_map → ℤ
  best_bid b = PriceLevels.best_bid b.book_

  unfoldable best_ask : LimitOrderBook bid_map ask_map → ℤ
  best_ask b = PriceLevels.best_ask b.book_

  unfoldable spread : LimitOrderBook bid_map ask_map → ℤ
  spread b = PriceLevels.spread b.book_

  unfoldable qty_at : Side → ℤ → LimitOrderBook bid_map ask_map → ℤ
  qty_at s p b = PriceLevels.qty_at s p b.book_

  unfoldable print_top : ℤ → LimitOrderBook bid_map ask_map → Option (List Line)
  print_top n b = PriceLevels.print_top n b.book_

  unfoldable order_count : LimitOrderBook bid_map ask_map → ℕ
  order_count b = 0

  -- `nullptr` is `none`.
  unfoldable find_order : ℕ → LimitOrderBook bid_map ask_map → Option Order
  find_order id b = none
