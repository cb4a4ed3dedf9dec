-- ===== src/PoolAllocator.antt =====
-- 03-stl-internals/exercises/ex3-pool-allocator/pool_allocator.hpp: a bump allocator over one pool.
-- size_t arithmetic wraps at 2^64. An allocation is the offset of its first byte in g_pool.
pub mod Regions
mod Tests
use syseng.Base.{
  ℕ, ◌+◌, ◌*◌, ◌%◌, ◌^◌, ◌≡◌, Bool, true, false, Option, none, some, List, [], ◌∷◌, ◌++◌, ltb,
  if◌then◌else◌,
}

-- POOL_SIZE
abbrev pub pool_size : ℕ
pool_size = 4 * 1024 * 1024

-- The bump pointer; all allocators share it.
pub record State : Type 0 where
  pub g_offset : ℕ

unfoldable reset : State → State
reset s = record s { g_offset = 0 }

-- PoolAllocator<T>::allocate(n) with the size of T: the offset given, or `none` where it throws
-- std::bad_alloc, beside the state after the call.
unfoldable allocate : ℕ → ℕ → State → Option ℕ × State
allocate size_of n s =
    let bytes = n * size_of % 2 ^ 64 in
    let offset = s.g_offset in
    if ltb pool_size ((offset + bytes) % 2 ^ 64)
    then (none, s)
    else (some offset, record s { g_offset = (offset + bytes) % 2 ^ 64 })

unfoldable deallocate : ℕ → ℕ → State → State
deallocate p n s = s

-- Two allocators compare equal, being stateless.
unfoldable equal : State → Bool
equal s = true

unfoldable not_equal : State → Bool
not_equal s = false

-- What programs ask of the pool: `alloc size_of n` and `free p n`.
pub data Op : Type 0 where
  alloc : ℕ → ℕ → Op
  free : ℕ → ℕ → Op

-- The regions handed out, each an offset and a number of bytes.
unfoldable handed : ℕ → ℕ → Option ℕ → List (ℕ × ℕ)
handed size_of n none = []
handed size_of n (some p) = (p, n * size_of) ∷ []

unfoldable step : Op → State → List (ℕ × ℕ) × State
step (alloc size_of n) s = let (p, t) = allocate size_of n s in (handed size_of n p, t)
step (free p n) s = ([], deallocate p n s)

unfoldable run : List Op → State → List (ℕ × ℕ) × State
run [] s = ([], s)
run (o ∷ ops) s = let (rs, t) = step o s in let (rest, u) = run ops t in (rs ++ rest, u)
