-- ===== src/CacheProfiler.antt =====
-- 04-cache-and-memory/exercises/ex1-cache-profiler/cache_profiler.cpp, but for main(), which prints
-- titles. The functions are placeholders in the source, and are so here.
use syseng.Base.{ℕ, Option, none}
use syseng.Base.Int.{ℤ, pos}

-- A node behind a pointer that is `none` for `nullptr`, without the padding behind it.
record Node : Type 0 where
  next : Option ℕ

-- The counters of SharedCounters and PaddedCounters, which differ in the addresses of their fields.
record Counters : Type 0 where
  a : ℤ
  b : ℤ

unfoldable build_random_chain : ℕ → Option ℕ
build_random_chain n = none

unfoldable chase_pointers : Option ℕ → ℕ → Option ℕ
chase_pointers head steps = head

unfoldable benchmark_false_sharing : ℕ → ℤ
benchmark_false_sharing n_iters = pos 0

unfoldable benchmark_no_false_sharing : ℕ → ℤ
benchmark_no_false_sharing n_iters = pos 0
