-- ===== src/Primitives/Tests.antt =====
-- The theorems on prices, quantities and symbols at inputs.
use syseng.Base.{codes, ◌≡◌, ◌↔◌, refl, some, arith, get_elem?}
use syseng.Base.Int.{pos, negsuc, ◌+ℤ◌}
use syseng.Primitives.Price.{price}
use syseng.Primitives.Price
use syseng.Primitives.Symbols.{symbol_table, symbol_id}
use syseng.Primitives.Symbols.Lookup.{symbol_id-eq-pos_iff}

sum_test : Price.add (price (pos 5)) (price (negsuc 7)) ≡ some (price (negsuc 2))
unfolding Price.add ◌+ℤ◌
sum_test = refl

symbol_id-eq-pos_iff_example :
    (symbol_id (codes "TSLA") ≡ pos 6)
    ↔ (get_elem? symbol_table 6 ≡ some (record { name = codes "TSLA"; id = 6 }))
symbol_id-eq-pos_iff_example = symbol_id-eq-pos_iff (codes "TSLA") 6 (omega arith)
