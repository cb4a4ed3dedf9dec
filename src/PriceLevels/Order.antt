-- ===== src/PriceLevels/Order.antt =====
-- The order of the prices that print_top() of a PriceLevelBook prints.
use syseng.Base.{
  ℕ, zero, suc, ◌+◌, ◌^◌, ◌<◌, ◌≡◌, refl, ap, ◌∙◌, some, List, [], ◌∷◌, ◌++◌, length, take, reverse,
  map, All, arith,
}
use mathlib.Core.List.{reverse_aux}
use syseng.Base.Int.{ℤ, pos_part, neg_part}
use syseng.PriceLevels.{SortedMap, PriceLevelBook, Line, ask, bid, spread_line, spread, print_top}
use syseng.PriceLevels.Lines.{ask_line, bid_line, asks_shown, print_top_lem}

abbrev pub IsBelow : ℤ → ℤ → Type 0
IsBelow p q = pos_part p + neg_part q < pos_part q + neg_part p

-- Every price is above those behind it, or below them.
unfoldable pub IsDescending : List ℤ → Type 0
IsDescending [] = Unit
IsDescending (p ∷ ps) = All (λ q. IsBelow q p) ps × IsDescending ps

unfoldable pub IsAscending : List ℤ → Type 0
IsAscending [] = Unit
IsAscending (p ∷ ps) = All (λ q. IsBelow p q) ps × IsAscending ps

-- The prices of the entries of a map, and of the lines printed.
abbrev pub prices : List (ℤ × ℤ) → List ℤ
prices ls = map (λ l. l.0) ls

pub printed_prices : List Line → List ℤ
printed_prices [] = []
printed_prices (ask p q ∷ ls) = p ∷ printed_prices ls
printed_prices (spread_line s ∷ ls) = printed_prices ls
printed_prices (bid p q ∷ ls) = p ∷ printed_prices ls

-- The best bid is below the best ask.
unfoldable pub IsUncrossed : List ℤ → List ℤ → Type 0
IsUncrossed [] asks = Unit
IsUncrossed (b ∷ bids) [] = Unit
IsUncrossed (b ∷ bids) (a ∷ asks) = IsBelow b a

All-take :
    (P : ℤ → Type 0) (k : ℕ) (ls : List (ℤ × ℤ)) → All P (prices ls) → All P (prices (take k ls))
All-take P zero ls h = tt
All-take P (suc k) [] h = tt
All-take P (suc k) (l ∷ ls) h = (h.0, All-take P k ls h.1)

IsDescending-take :
    (k : ℕ) (ls : List (ℤ × ℤ)) → IsDescending (prices ls) → IsDescending (prices (take k ls))
unfolding IsDescending
IsDescending-take zero ls h = tt
IsDescending-take (suc k) [] h = tt
IsDescending-take (suc k) (l ∷ ls) h =
    (All-take (λ q. IsBelow q l.0) k ls h.0, IsDescending-take k ls h.1)

IsAscending-take :
    (k : ℕ) (ls : List (ℤ × ℤ)) → IsAscending (prices ls) → IsAscending (prices (take k ls))
unfolding IsAscending
IsAscending-take zero ls h = tt
IsAscending-take (suc k) [] h = tt
IsAscending-take (suc k) (l ∷ ls) h =
    (All-take (λ q. IsBelow l.0 q) k ls h.0, IsAscending-take k ls h.1)

IsUncrossed-take :
    (j k : ℕ) (bids asks : List (ℤ × ℤ))
    → IsUncrossed (prices bids) (prices asks)
    → IsUncrossed (prices (take j bids)) (prices (take k asks))
unfolding IsUncrossed
IsUncrossed-take zero k bids asks h = tt
IsUncrossed-take (suc j) k [] asks h = tt
IsUncrossed-take (suc j) zero (b ∷ bids) asks h = tt
IsUncrossed-take (suc j) (suc k) (b ∷ bids) [] h = tt
IsUncrossed-take (suc j) (suc k) (b ∷ bids) (a ∷ asks) h = h

-- All of the second list is above all of the first.
abbrev AllBelow : List ℤ → List ℤ → Type 0
AllBelow qs ps = All (λ p. All (λ q. IsBelow q p) qs) ps

All-IsBelow_larger :
    (a b : ℤ) (qs : List ℤ) → IsBelow a b → All (λ q. IsBelow q a) qs → All (λ q. IsBelow q b) qs
All-IsBelow_larger a b [] h k = tt
All-IsBelow_larger a b (q ∷ qs) h k = (omega (arith, h, k.0), All-IsBelow_larger a b qs h k.1)

-- Below the first ask, below all.
AllBelow-rest :
    (b : ℤ) (bids ps : List ℤ)
    → All (λ p. IsBelow b p) ps
    → All (λ q. IsBelow q b) bids
    → AllBelow (b ∷ bids) ps
AllBelow-rest b bids [] h k = tt
AllBelow-rest b bids (p ∷ ps) h k =
    ((h.0, All-IsBelow_larger b p bids h.0 k), AllBelow-rest b bids ps h.1 k)

smaller_than_each :
    (a b : ℤ) (ps : List ℤ) → IsBelow b a → All (λ p. IsBelow a p) ps → All (λ p. IsBelow b p) ps
smaller_than_each a b [] h k = tt
smaller_than_each a b (p ∷ ps) h k = (omega (arith, h, k.0), smaller_than_each a b ps h k.1)

AllBelow-nil : (ps : List ℤ) → AllBelow [] ps
AllBelow-nil [] = tt
AllBelow-nil (p ∷ ps) = (tt, AllBelow-nil ps)

IsUncrossed-AllBelow :
    (bids asks : List ℤ)
    → IsDescending bids
    → IsAscending asks
    → IsUncrossed bids asks
    → AllBelow bids asks
unfolding IsUncrossed IsDescending IsAscending
IsUncrossed-AllBelow [] asks d u h = AllBelow-nil asks
IsUncrossed-AllBelow (b ∷ bids) [] d u h = tt
IsUncrossed-AllBelow (b ∷ bids) (a ∷ asks) d u h =
    AllBelow-rest b bids (a ∷ asks) (h, smaller_than_each a b asks h u.0) d.0

AllBelow-cons :
    (a : ℤ) (qs ps : List ℤ) → All (λ p. IsBelow a p) ps → AllBelow qs ps → AllBelow (a ∷ qs) ps
AllBelow-cons a qs [] h k = tt
AllBelow-cons a qs (p ∷ ps) h k = ((h.0, k.0), AllBelow-cons a qs ps h.1 k.1)

-- An ascending list put in reverse before a descending one below it.
reverse_aux-IsDescending :
    (ps qs : List ℤ)
    → IsAscending ps
    → IsDescending qs
    → AllBelow qs ps
    → IsDescending (reverse_aux ps qs)
unfolding IsAscending IsDescending
reverse_aux-IsDescending [] qs u d h = d
reverse_aux-IsDescending (p ∷ ps) qs u d h =
    reverse_aux-IsDescending ps (p ∷ qs) u.1 (h.0, d) (AllBelow-cons p qs ps u.0 h.1)

printed_prices-bids : (ls : List (ℤ × ℤ)) → printed_prices (map bid_line ls) ≡ prices ls
unfolding printed_prices
printed_prices-bids [] = refl
printed_prices-bids (l ∷ ls) = ap (λ r. l.0 ∷ r) (printed_prices-bids ls)

printed_prices-asks :
    (ls r : List (ℤ × ℤ)) (more : List Line)
    → printed_prices (map ask_line (reverse_aux ls r) ++ more)
      ≡ reverse_aux (prices ls) (prices r ++ printed_prices more)
unfolding printed_prices
printed_prices-asks [] [] more = refl
printed_prices-asks [] (l ∷ r) more = ap (λ ps. l.0 ∷ ps) (printed_prices-asks [] r more)
printed_prices-asks (l ∷ ls) r more = printed_prices-asks ls (l ∷ r) more

-- Where the entries of the maps come in the order of their comparisons, as std::map's do, and the
-- best bid is below the best ask, the prices that print_top() prints descend from the first line to
-- the last.
pub print_top-IsDescending :
    {bid_map ask_map : SortedMap} (n : ℤ) (b : PriceLevelBook bid_map ask_map)
    → pos_part n < 2 ^ 31
    → length (ask_map.entries b.asks_) < 2 ^ 31
    → IsDescending (prices (bid_map.entries b.bids_))
    → IsAscending (prices (ask_map.entries b.asks_))
    → IsUncrossed (prices (bid_map.entries b.bids_)) (prices (ask_map.entries b.asks_))
    → (lines : List Line) × (print_top n b ≡ some lines) × IsDescending (printed_prices lines)
unfolding printed_prices
print_top-IsDescending {bid_map} {ask_map} n b small short down up apart =
    let bids = take (pos_part n) (bid_map.entries b.bids_) in
    let asks = take (asks_shown n) (ask_map.entries b.asks_) in
    let lower = IsDescending-take (pos_part n) (bid_map.entries b.bids_) down in
    let upper = IsAscending-take (asks_shown n) (ask_map.entries b.asks_) up in
    let far =
      IsUncrossed-take (pos_part n) (asks_shown n) (bid_map.entries b.bids_)
        (ask_map.entries b.asks_) apart in
    let below = IsUncrossed-AllBelow (prices bids) (prices asks) lower upper far in
    let column = reverse_aux-IsDescending (prices asks) (prices bids) upper lower below in
    let printed : printed_prices
          (map ask_line (reverse asks) ++ spread_line (spread b) ∷ map bid_line bids)
        ≡ reverse_aux (prices asks) (prices bids) =
      printed_prices-asks asks [] (spread_line (spread b) ∷ map bid_line bids)
      ∙ ap (reverse_aux (prices asks)) (printed_prices-bids bids) in
    (_, print_top_lem n b small short, rw printed column)
