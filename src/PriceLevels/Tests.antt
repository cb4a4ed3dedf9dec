-- ===== src/PriceLevels/Tests.antt =====
-- A book of three asks and two bids.
use syseng.Base.{◌≡◌, refl, some, List, [], ◌∷◌, arith}
use syseng.Base.Int.{ℤ, pos, minus_one, ◌-ℤ◌}
use syseng.PriceLevels.{
  SortedMap, PriceLevelBook, Line, ask, spread_line, bid, spread, print_top, collect, print_asks,
  print_bids,
}
use syseng.Base.CInt.{int_of_size, add, sub}
use syseng.PriceLevels.Lines.{print_top_lem}
use syseng.PriceLevels.Order.{
  IsAscending, IsDescending, IsUncrossed, prices, printed_prices, print_top-IsDescending,
}

abbrev list_map : SortedMap
list_map = record { Carrier = List (ℤ × ℤ); empty = []; entries = λ c. c }

abbrev three_asks : List (ℤ × ℤ)
three_asks = (pos 101, pos 5) ∷ (pos 102, pos 7) ∷ (pos 105, pos 1) ∷ []

abbrev two_bids : List (ℤ × ℤ)
two_bids = (pos 99, pos 4) ∷ (pos 98, pos 6) ∷ []

abbrev levels : PriceLevelBook list_map list_map
levels = record { bids_ = two_bids; asks_ = three_asks }

print_top_lem_example :
    print_top (pos 2) levels
    ≡ some (
        ask (pos 102) (pos 7)
        ∷ ask (pos 101) (pos 5)
        ∷ spread_line (spread levels)
        ∷ bid (pos 99) (pos 4)
        ∷ bid (pos 98) (pos 6)
        ∷ [])
print_top_lem_example = print_top_lem (pos 2) levels (omega arith) (omega arith)

-- No level is asked for: one ask is printed.
print_zero : print_top (pos 0) levels ≡ some (ask (pos 101) (pos 5) ∷ spread_line minus_one ∷ [])
unfolding print_top collect print_asks print_bids spread int_of_size add sub ◌-ℤ◌
print_zero = refl

two_bids-IsDescending : IsDescending (prices two_bids)
unfolding IsDescending
two_bids-IsDescending = ((omega arith, tt), (tt, tt))

three_asks-IsAscending : IsAscending (prices three_asks)
unfolding IsAscending
three_asks-IsAscending = ((omega arith, (omega arith, tt)), ((omega arith, tt), (tt, tt)))

levels-IsUncrossed : IsUncrossed (prices two_bids) (prices three_asks)
unfolding IsUncrossed
levels-IsUncrossed = omega arith

print_top-IsDescending_example :
    (lines : List Line) × (print_top (pos 2) levels ≡ some lines)
    × IsDescending (printed_prices lines)
print_top-IsDescending_example =
    print_top-IsDescending (pos 2) levels (omega arith) (omega arith) two_bids-IsDescending
      three_asks-IsAscending levels-IsUncrossed
