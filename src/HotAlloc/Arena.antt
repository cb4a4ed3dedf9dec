-- ===== src/HotAlloc/Arena.antt =====
-- hot_alloc.hpp: Arena. emplace() is written.
use syseng.Base.{ℕ, Option, none, some}

-- A pointer is `none` for `nullptr`.
record Arena : Type 0 where
  buf_ : Option ℕ
  offset_ : ℕ
  capacity_ : ℕ

unfoldable construct : ℕ → Arena
construct capacity = record { buf_ = none; offset_ = 0; capacity_ = capacity }

unfoldable allocate : ℕ → ℕ → Arena → Option ℕ × Arena
allocate size align a = (none, a)

-- The constructor of T makes an object at an address of the memory.
module _ {Memory : Type 0} (new_at : ℕ → Memory → Memory) where
  unfoldable placed : Option ℕ → Arena → Memory → Option ℕ × Arena × Memory
  placed none a m = (none, a, m)
  placed (some p) a m = (some p, a, new_at p m)

  unfoldable emplace : ℕ → ℕ → Arena → Memory → Option ℕ × Arena × Memory
  emplace size_of_t align_of_t a m = let (p, a') = allocate size_of_t align_of_t a in placed p a' m

unfoldable reset : Arena → Arena
reset a = a

unfoldable used : Arena → ℕ
used a = a.offset_

unfoldable capacity : Arena → ℕ
capacity a = a.capacity_
