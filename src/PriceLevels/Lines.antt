-- ===== src/PriceLevels/Lines.antt =====
-- The lines that print_top() of a PriceLevelBook prints.
use mathlib.Core.List.{append-nil, append_assoc, reverse-append}
use syseng.Base.{
  ℕ, zero, suc, ◌+◌, ◌-◌, ◌^◌, ◌<◌, ◌≤◌, ◌≡◌, refl, sym, ap, ◌∙◌, some, List, [], ◌∷◌, ◌++◌, length,
  get_elem?, get_elem?-some, take, reverse, map, leb, if◌then◌else◌, arith, length-append,
  Bool-cases, inl, inr,
}
use syseng.Base.Int.{ℤ, pos, negsuc, pos_part, leb_ℤ, ◌-ℤ◌, ◌+ℤ◌}
use syseng.Base.CInt.{int_of_size, int_of_size_lem, add, sub}
use syseng.PriceLevels.{
  SortedMap, PriceLevelBook, Line, ask, bid, spread_line, collect, rounds, print_asks, print_bids,
  spread, print_top,
}

abbrev pub ask_line : ℤ × ℤ → Line
ask_line l = ask l.0 l.1

abbrev pub bid_line : ℤ × ℤ → Line
bid_line l = bid l.0 l.1

-- How many asks are shown for the argument n, and how many bids.
abbrev pub asks_shown : ℤ → ℕ
asks_shown n = if leb (pos_part n) 1 then 1 else pos_part n

take-nil : {A : Type 0} (k : ℕ) → take {A = A} k [] ≡ []
take-nil zero = refl
take-nil (suc k) = refl

collect_lem :
    (n : ℤ) (xs top : List (ℤ × ℤ))
    → length top + length xs < 2 ^ 31
    → length top < asks_shown n
    → collect n xs top ≡ top ++ take (asks_shown n - length top) xs
unfolding collect
collect_lem n [] top h lt =
    sym (rw (take-nil {A = ℤ × ℤ} (asks_shown n - length top)) (append-nil top))
collect_lem n (x ∷ xs) top h lt =
    let grown : length (top ++ x ∷ []) ≡ length top + 1 = length-append top (x ∷ []) in
    let size : int_of_size (length (top ++ x ∷ [])) ≡ pos (length top + 1) =
      rw grown (int_of_size_lem (length top + 1) (omega arith)) in
    elim (Bool-cases (leb_ℤ n (pos (length top + 1)))) [
      | inl reached ↦
          let one : asks_shown n - length top ≡ 1 = ground (arith, reached) in
          rw (size, reached, one) refl
      | inr below ↦
          let more : asks_shown n - length top ≡ suc (asks_shown n - length (top ++ x ∷ [])) =
            ground (arith, below, grown) in
          let rest =
            collect_lem n xs (top ++ x ∷ []) (omega (arith, grown))
              (ground (arith, below, grown)) in
          rw (size, below, more)
            (rest ∙ append_assoc top (x ∷ []) (take (asks_shown n - length (top ++ x ∷ [])) xs))
    ]

take-suc :
    {A : Type 0} (i : ℕ) (xs : List A) {x : A}
    → get_elem? xs i ≡ some x
    → take (suc i) xs ≡ take i xs ++ x ∷ []
take-suc i [] h = absurd (cc)
take-suc zero (y ∷ xs) h = ground (arith, h)
take-suc (suc i) (y ∷ xs) h = ap (λ r. y ∷ r) (take-suc i xs h)

print_asks_lem :
    (xs : List (ℤ × ℤ)) (k : ℕ)
    → k ≤ length xs
    → print_asks xs k ≡ some (map ask_line (reverse (take k xs)))
unfolding print_asks
print_asks_lem xs zero h = refl
print_asks_lem xs (suc i) h =
    let (x, found) = get_elem?-some xs i (omega arith) in
    let last : reverse (take (suc i) xs) ≡ x ∷ reverse (take i xs) =
      ap reverse (take-suc i xs found) ∙ reverse-append (take i xs) (x ∷ []) in
    rw (found, print_asks_lem xs i (omega arith), last) refl

print_bids_lem :
    (n : ℤ) (c : ℕ) (xs : List (ℤ × ℤ))
    → pos_part n < 2 ^ 31
    → print_bids n (pos c) xs ≡ some (map bid_line (take (pos_part n - c) xs))
unfolding print_bids add ◌+ℤ◌
print_bids_lem n c [] h = rw (take-nil {A = ℤ × ℤ} (pos_part n - c)) refl
print_bids_lem n c (x ∷ xs) h = elim (Bool-cases (leb_ℤ n (pos c))) [
  | inl reached ↦
      let no_more : pos_part n - c ≡ 0 = ground (arith, reached) in rw (reached, no_more) refl
  | inr below ↦
      let next : add 31 (pos c) (pos 1) ≡ some (pos (c + 1)) = ground (arith, below) in
      let more : pos_part n - c ≡ suc (pos_part n - (c + 1)) = ground (arith, below) in
      rw (below, next, print_bids_lem n (c + 1) xs h, more) refl
]

take-le : {A : Type 0} (k : ℕ) (xs : List A) → length (take k xs) ≤ length xs
take-le zero xs = omega arith
take-le (suc k) [] = omega arith
take-le (suc k) (x ∷ xs) = omega (arith, take-le k xs)

take_self : {A : Type 0} (xs : List A) → take (length xs) xs ≡ xs
take_self [] = refl
take_self (x ∷ xs) = ap (λ r. x ∷ r) (take_self xs)

minus_zero : (k : ℕ) → k - 0 ≡ k
minus_zero k = omega arith

-- The loop over the asks collected starts at the last one.
last_lem :
    (k : ℕ)
    → k < 2 ^ 31
    → (last : ℤ) × (sub 31 (int_of_size k) (pos 1) ≡ some last) × (rounds last ≡ k)
unfolding sub ◌-ℤ◌
last_lem zero h = (negsuc 0, rw (int_of_size_lem 0 h) refl, refl)
last_lem (suc k) h =
    let fits : sub 31 (pos (suc k)) (pos 1) ≡ some (pos k) = ground arith in
    (pos k, rw (int_of_size_lem (suc k) h) fits, refl)

-- Where n is an `int` and there are fewer than 2^31 asks, print_top(n) prints the first n asks, the
-- worst of them first, then the spread, then the first n bids, the best first. Where n is less than
-- 1 it prints one ask, if there is one, and no bid.
pub print_top_lem :
    {bid_map ask_map : SortedMap} (n : ℤ) (b : PriceLevelBook bid_map ask_map)
    → pos_part n < 2 ^ 31
    → length (ask_map.entries b.asks_) < 2 ^ 31
    → print_top n b
      ≡ some (
          map ask_line (reverse (take (asks_shown n) (ask_map.entries b.asks_)))
          ++ spread_line (spread b) ∷ map bid_line (take (pos_part n) (bid_map.entries b.bids_)))
unfolding print_top
print_top_lem {bid_map} {ask_map} n b small short =
    let asks = ask_map.entries b.asks_ in
    let shown : 0 < asks_shown n = ground arith in
    let top : collect n asks [] ≡ take (asks_shown n) asks =
      collect_lem n asks [] (omega (arith, short)) shown
      ∙ ap (λ k. take k asks) (minus_zero (asks_shown n)) in
    let brief : length (take (asks_shown n) asks) < 2 ^ 31 =
      omega (arith, short, take-le (asks_shown n) asks) in
    let (last, at_end, size) = last_lem (length (take (asks_shown n) asks)) brief in
    let upper =
      print_asks_lem (take (asks_shown n) asks) (length (take (asks_shown n) asks)) (omega arith) in
    let whole : take (length (take (asks_shown n) asks)) (take (asks_shown n) asks)
        ≡ take (asks_shown n) asks =
      take_self (take (asks_shown n) asks) in
    let lower = print_bids_lem n 0 (bid_map.entries b.bids_) small in
    let bids_shown = minus_zero (pos_part n) in
    rw (top, at_end, size, upper, whole, lower, bids_shown) refl
