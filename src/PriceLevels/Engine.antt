-- ===== src/PriceLevels/Engine.antt =====
-- 06-order-book/exercises/ex3-matching-engine/matching_engine.hpp: MatchingEngine, over the order
-- book. What the source leaves to be written has no effect here either.
use syseng.Base.{ℕ, List}
use syseng.Base.Int.{ℤ}
use syseng.PriceLevels.{Side, SortedMap}
use syseng.PriceLevels.OrderBook.{LimitOrderBook}
use syseng.PriceLevels.OrderBook

pub data EventType : Type 0 where
  add_order : EventType
  cancel_order : EventType
  modify_order : EventType

-- The number behind an enumerator.
abbrev pub code : EventType → ℕ
code add_order = 1
code cancel_order = 2
code modify_order = 3

pub record OrderEvent : Type 0 where
  pub type : EventType
  pub id : ℕ
  pub side : Side
  pub price : ℤ
  pub qty : ℤ

pub record Fill : Type 0 where
  pub aggressor_id : ℕ
  pub passive_id : ℕ
  pub price : ℤ
  pub qty : ℤ

pub record MatchingEngine (bid_map ask_map : SortedMap) : Type 0 where
  pub book_ : LimitOrderBook bid_map ask_map
  pub orders_processed_ : ℕ
  pub fills_generated_ : ℕ

module _ {bid_map ask_map : SortedMap} where
  abbrev pub construct : MatchingEngine bid_map ask_map
  construct = record { book_ = OrderBook.construct; orders_processed_ = 0; fills_generated_ = 0 }

  unfoldable process_event :
      OrderEvent
      → List Fill
      → MatchingEngine bid_map ask_map
      → List Fill × MatchingEngine bid_map ask_map
  process_event ev fills e = (fills, e)

  unfoldable process_events :
      List OrderEvent
      → List Fill
      → MatchingEngine bid_map ask_map
      → List Fill × MatchingEngine bid_map ask_map
  process_events events fills e = (fills, e)

  unfoldable orders_processed : MatchingEngine bid_map ask_map → ℕ
  orders_processed e = e.orders_processed_

  unfoldable fills_generated : MatchingEngine bid_map ask_map → ℕ
  fills_generated e = e.fills_generated_

  unfoldable book : MatchingEngine bid_map ask_map → LimitOrderBook bid_map ask_map
  book e = e.book_
