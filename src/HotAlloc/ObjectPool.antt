-- ===== src/HotAlloc/ObjectPool.antt =====
-- hot_alloc.hpp: ObjectPool<T>.
use syseng.Base.{ℕ, Option, none}

-- A pointer is `none` for `nullptr`.
record ObjectPool : Type 0 where
  storage_ : Option ℕ
  head_ : Option ℕ
  capacity_ : ℕ
  available_ : ℕ

unfoldable construct : ℕ → ObjectPool
construct n = record { storage_ = none; head_ = none; capacity_ = n; available_ = n }

unfoldable allocate : ObjectPool → Option ℕ × ObjectPool
allocate s = (none, s)

unfoldable deallocate : Option ℕ → ObjectPool → ObjectPool
deallocate p s = s

unfoldable available : ObjectPool → ℕ
available s = s.available_

unfoldable capacity : ObjectPool → ℕ
capacity s = s.capacity_
