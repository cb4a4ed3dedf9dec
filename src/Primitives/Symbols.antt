-- ===== src/Primitives/Symbols.antt =====
-- Part 4 of primitives.hpp: SYMBOL_TABLE and symbol_id. A C string is the list of its bytes before
-- the terminating 0, so reading `*p` is the first byte, or 0 at the end.
pub mod Lookup
mod Tests
use Prim.Native.String.{String}
use syseng.Base.{codes, ℕ, ◌≡◌, Bool, ◌&&◌, not, List, [], ◌∷◌, if◌then◌else◌, ◌==◌, length, Option}
use syseng.Base.Int.{ℤ, pos, minus_one}

pub record Symbol : Type 0 where
  pub name : List ℕ
  pub id : ℕ

abbrev symbol : String → ℕ → Symbol
symbol s i = record { name = codes s; id = i }

abbrev pub symbol_table : List Symbol
symbol_table =
    symbol "AAPL" 0
    ∷ symbol "MSFT" 1
    ∷ symbol "GOOG" 2
    ∷ symbol "AMZN" 3
    ∷ symbol "META" 4
    ∷ symbol "NVDA" 5
    ∷ symbol "TSLA" 6
    ∷ symbol "JPM" 7
    ∷ []

abbrev pub num_symbols : ℕ
num_symbols = length symbol_table

-- `*p`
abbrev pub deref : List ℕ → ℕ
deref [] = 0
deref (c ∷ s) = c

-- The loop `while (*ticker != 0 && *name != 0 && *ticker == *name) { ++ticker; ++name; }` and the
-- test behind it. A byte 0 cannot stand in a list of a C string's bytes; where it did, the loop
-- would stop there, as here.
unfoldable same_text : List ℕ → List ℕ → Bool
same_text [] name = deref name == 0
same_text (t ∷ ticker) [] = t == 0
same_text (t ∷ ticker) (c ∷ name) =
    let rest = same_text ticker name in
    if not (t == 0) && not (c == 0) && t == c then rest else (t == 0) && (c == 0)

-- The loop over the table, which is symbol_id from an entry on.
unfoldable find_symbol : List Symbol → List ℕ → ℤ
find_symbol [] name = minus_one
find_symbol (s ∷ table) name = if same_text s.name name then pos s.id else find_symbol table name

pub symbol_id : List ℕ → ℤ
symbol_id name = find_symbol symbol_table name
