-- ===== src/PriceLevels.antt =====
-- 06-order-book/exercises/ex1-price-levels/price_levels.hpp: PriceLevelBook. What the source leaves
-- to be written has no effect here either; print_top() is written, and is the list of lines that it
-- prints. Numbers are `int64_t`, which print_top() prints and does not compute with; its counters
-- are `int`, and an overflow of one is `none`.
pub mod OrderBook
pub mod Engine
pub mod Lines
pub mod Order
mod Tests
use syseng.Base.{
  ℕ, zero, suc, ◌+◌, ◌≡◌, Option, none, some, List, [], ◌∷◌, ◌++◌, length, get_elem?, if◌then◌else◌,
  ◌>>=◌,
}
use syseng.Base.Int.{ℤ, pos, negsuc, minus_one, leb_ℤ}
use syseng.Base.CInt.{int_of_size, add, sub}

pub data Side : Type 0 where
  buy : Side
  sell : Side

pub record Level : Type 0 where
  pub price : ℤ
  pub qty : ℤ

-- std::map, of which the source uses the constructor and the loop over the entries, in order.
pub record SortedMap : Type 1 where
  pub Carrier : Type 0
  pub empty : Carrier
  pub entries : Carrier → List (ℤ × ℤ)

-- The bids are in the order of std::greater, the asks in that of std::less.
pub record PriceLevelBook (bid_map ask_map : SortedMap) : Type 0 where
  pub bids_ : bid_map.Carrier
  pub asks_ : ask_map.Carrier

pub data Line : Type 0 where
  ask : ℤ → ℤ → Line
  spread_line : ℤ → Line
  bid : ℤ → ℤ → Line

-- The loop over the asks, which is left behind the push.
unfoldable collect : ℤ → List (ℤ × ℤ) → List (ℤ × ℤ) → List (ℤ × ℤ)
collect n [] top_asks = top_asks
collect n (l ∷ rest) top_asks =
    let top_asks' = top_asks ++ l ∷ [] in
    let more = collect n rest top_asks' in
    if leb_ℤ n (int_of_size (length top_asks')) then top_asks' else more

-- How often the loop from i down to 0 runs.
abbrev pub rounds : ℤ → ℕ
rounds (pos i) = suc i
rounds (negsuc i) = 0

-- The loop from i = k - 1 down to 0.
unfoldable print_asks : List (ℤ × ℤ) → ℕ → Option (List Line)
print_asks top_asks zero = some []
print_asks top_asks (suc i) = do
  l ← get_elem? top_asks i
  rest ← print_asks top_asks i
  some (ask l.0 l.1 ∷ rest)

unfoldable print_bids : ℤ → ℤ → List (ℤ × ℤ) → Option (List Line)
print_bids n cnt [] = some []
print_bids n cnt (l ∷ rest) =
    let more = do
      cnt' ← add 31 cnt (pos 1)
      lines ← print_bids n cnt' rest
      some (bid l.0 l.1 ∷ lines)
    in if leb_ℤ n cnt then some [] else more

module _ {bid_map ask_map : SortedMap} where
  unfoldable construct : PriceLevelBook bid_map ask_map
  construct = record { bids_ = bid_map.empty; asks_ = ask_map.empty }

  unfoldable update : Side → ℤ → ℤ → PriceLevelBook bid_map ask_map → PriceLevelBook bid_map ask_map
  update side price qty b = b

  unfoldable best_bid : PriceLevelBook bid_map ask_map → ℤ
  best_bid b = minus_one

  unfoldable best_ask : PriceLevelBook bid_map ask_map → ℤ
  best_ask b = minus_one

  unfoldable qty_at : Side → ℤ → PriceLevelBook bid_map ask_map → ℤ
  qty_at side price b = pos 0

  unfoldable bid_levels : PriceLevelBook bid_map ask_map → ℕ
  bid_levels b = 0

  unfoldable ask_levels : PriceLevelBook bid_map ask_map → ℕ
  ask_levels b = 0

  unfoldable spread : PriceLevelBook bid_map ask_map → ℤ
  spread b = minus_one

  unfoldable print_top : ℤ → PriceLevelBook bid_map ask_map → Option (List Line)
  print_top n b = do
    let top_asks = collect n (ask_map.entries b.asks_) []
    last ← sub 31 (int_of_size (length top_asks)) (pos 1)
    upper ← print_asks top_asks (rounds last)
    lower ← print_bids n (pos 0) (bid_map.entries b.bids_)
    some (upper ++ spread_line (spread b) ∷ lower)
