-- ===== src/PoolAllocator/Tests.antt =====
-- Runs of pool_allocator.hpp.
use syseng.Base.{◌-◌, ◌^◌, ◌≤◌, ◌≡◌, refl, some, List, [], ◌∷◌, arith}
use syseng.PoolAllocator.{
  State, Op, alloc, free, pool_size, allocate, deallocate, handed, step, run,
}
use syseng.PoolAllocator.Regions.{Modest, Apart, pool_regions-Apart, allocate_wraps}

abbrev fresh : State
fresh = record { g_offset = 0 }

abbrev some_ops : List Op
some_ops = alloc 8 3 ∷ free 0 3 ∷ alloc 1 5000000 ∷ alloc 4 2 ∷ []

-- The request for more than the pool is refused; the others are given one behind the other.
run_test : run some_ops fresh ≡ ((0, 24) ∷ (24, 8) ∷ [], record { g_offset = 32 })
unfolding run step handed allocate deallocate
run_test = refl

Modest-some_ops : Modest some_ops
unfolding Modest
Modest-some_ops = (omega arith, (omega arith, (omega arith, tt)))

pool_regions-Apart_example :
    Apart (run some_ops fresh).0 × ((run some_ops fresh).1.g_offset ≤ pool_size)
pool_regions-Apart_example = pool_regions-Apart some_ops fresh (omega arith) Modest-some_ops

allocate_wraps_example :
    (allocate 1 (2 ^ 64 - 40) (record { g_offset = 40 }) ≡ (some 40, record { g_offset = 0 }))
    × (allocate 8 (2 ^ 61) (record { g_offset = 40 }) ≡ (some 40, record { g_offset = 40 }))
allocate_wraps_example = allocate_wraps (record { g_offset = 40 }) (omega arith) (omega arith)
