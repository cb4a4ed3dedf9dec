-- ===== src/Primitives/Symbols/Tests.antt =====
-- Lookups in the table.
use syseng.Base.{codes, ◌≡◌, refl}
use syseng.Base.Int.{pos, minus_one}
use syseng.Primitives.Symbols.{same_text, find_symbol, symbol_id}

known_test : symbol_id (codes "NVDA") ≡ pos 5
unfolding symbol_id find_symbol same_text
known_test = refl

prefix_test : symbol_id (codes "JP") ≡ minus_one
unfolding symbol_id find_symbol same_text
prefix_test = refl

longer_test : symbol_id (codes "JPMX") ≡ minus_one
unfolding symbol_id find_symbol same_text
longer_test = refl
