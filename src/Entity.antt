-- ===== src/Entity.antt =====
-- Part 2 of 00-c-for-programmers/exercises/ex3-structs-and-pointers/structs.c: the entities. An
-- `int` result out of range is undefined behaviour, `none`.
pub mod Health
pub mod Status
mod Tests
use syseng.Base.{
  ℕ, zero, suc, ◌+◌, Bool, true, false, Option, none, some, List, [], ◌∷◌, ◌++◌, if◌then◌else◌,
  ◌>>=◌, ◌==◌, codes,
}
use syseng.Base.CInt.{add, sub, exact}
use syseng.Base.Int.{ℤ, pos, negsuc, eqb_ℤ, ltb_ℤ, leb_ℤ}

-- entity_t; `name` is the 64 bytes of the field.
pub record Entity : Type 0 where
  pub name : List ℕ
  pub x : ℤ
  pub y : ℤ
  pub hp : ℤ
  pub max_hp : ℤ
  pub alive : ℤ

-- strncpy(dst, src, n): the bytes of a C string up to n, filled up with zeros.
unfoldable strncpy : List ℕ → ℕ → List ℕ
strncpy src zero = []
strncpy [] (suc n) = 0 ∷ strncpy [] n
strncpy (c ∷ src) (suc n) = c ∷ strncpy src n

unfoldable entity_init : List ℕ → ℤ → ℤ → ℤ → Entity
entity_init name x y max_hp = record {
  name = strncpy name 63 ++ 0 ∷ [];
  x = x;
  y = y;
  hp = max_hp;
  max_hp = max_hp;
  alive = pos 1;
}

unfoldable entity_take_damage : ℤ → Entity → Option Entity
entity_take_damage amount e = do
  hp ← sub 31 e.hp amount
  some (if leb_ℤ hp (pos 0) then record e { hp = pos 0; alive = pos 0 } else record e { hp = hp })

unfoldable entity_heal : ℤ → Entity → Option Entity
entity_heal amount e = if eqb_ℤ e.alive (pos 0) then some e else do
  hp ← add 31 e.hp amount
  some (record e { hp = if ltb_ℤ e.max_hp hp then e.max_hp else hp })

unfoldable entity_move : ℤ → ℤ → Entity → Option Entity
entity_move dx dy e = do x ← add 31 e.x dx; y ← add 31 e.y dy; some (record e { x = x; y = y })

-- abs of the C library, whose result for the least int is undefined.
unfoldable abs_int : ℤ → Option ℤ
abs_int (pos n) = some (pos n)
abs_int (negsuc n) = exact 31 (pos (suc n))

unfoldable entity_distance : Entity → Entity → Option ℤ
entity_distance a b = do
  dx ← sub 31 a.x b.x
  ax ← abs_int dx
  dy ← sub 31 a.y b.y
  ay ← abs_int dy
  add 31 ax ay

-- `%s`: the bytes before the first 0, as long as the array.
unfoldable text_of : List ℕ → List ℕ
text_of [] = []
text_of (c ∷ cs) = let rest = text_of cs in if c == 0 then [] else c ∷ rest

-- The bytes that sprintf writes before the terminating 0. `%d` is the argument `decimal`.
unfoldable entity_status : (ℤ → List ℕ) → Entity → List ℕ
entity_status decimal e =
    text_of e.name
    ++ (codes " ("
        ++ (decimal e.x
            ++ (codes ","
                ++ (decimal e.y
                    ++ (codes ") HP: "
                        ++ (decimal e.hp
                            ++ (codes "/"
                                ++ (decimal e.max_hp
                                    ++ (if eqb_ℤ e.alive (pos 0)
                                        then codes " [DEAD]"
                                        else codes " [ALIVE]")))))))))
