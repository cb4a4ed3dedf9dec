-- ===== src/TestTools.antt =====
-- tools/common.hpp: the test macros with their counters, and the statistics of the benchmarks. The
-- counters are `int`: an increment past 2^31 - 1 is undefined behaviour, `none`.
pub mod Suite
pub mod Ranks
pub mod Percentages
pub mod Latency
pub mod CMacros
pub mod Verdicts
pub mod Timing
pub mod Median
mod Tests
use syseng.Base.{
  ℕ, ◌+◌, ◌-◌, ◌%◌, ◌^◌, Bool, Option, none, some, List, [], ◌∷◌, length, get_elem?, ◌>>=◌, ◌==◌,
  ltb, leb, if◌then◌else◌,
}
use syseng.Base.Int.{ℤ, pos}
use syseng.Base.Doubles.{Doubles}
use syseng.ContainerBenchmark.Containers.{sort}
use syseng.ContainerBenchmark.Bench.{sum_all}

pub record Counters : Type 0 where
  pub tests_run : ℕ
  pub tests_passed : ℕ
  pub tests_failed : ℕ

abbrev pub increment : ℕ → Option ℕ
increment c = if ltb (c + 1) (2 ^ 31) then some (c + 1) else none

-- A test function as the assertions it comes to: each holds or not, a failing one returns from the
-- function it stands in, and a call runs another function's assertions.
pub data Body : Type 0 where
  done : Body
  check : Bool → Body → Body
  call : Body → Body → Body

-- The failure counter after a body: the ASSERT macros.
unfoldable exec : Body → ℕ → Option ℕ
exec done failed = some failed
exec (check ok rest) failed = let r = exec rest failed in if ok then r else increment failed
exec (call callee rest) failed = do f ← exec callee failed; exec rest f

-- TEST_BEGIN
unfoldable test_begin : Counters
test_begin = record { tests_run = 0; tests_passed = 0; tests_failed = 0 }

-- RUN_TEST
unfoldable run_test : Body → Counters → Option Counters
run_test fn s = do
  run ← increment s.tests_run
  failed ← exec fn s.tests_failed
  passed ← if failed == s.tests_failed then increment s.tests_passed else some s.tests_passed
  some (record { tests_run = run; tests_passed = passed; tests_failed = failed })

-- A main() that runs its tests one after the other.
unfoldable run_tests : List Body → Counters → Option Counters
run_tests [] s = some s
run_tests (fn ∷ fns) s = do t ← run_test fn s; run_tests fns t

-- TEST_END: what main() returns.
unfoldable test_end : Counters → ℕ
test_end s = if s.tests_failed == 0 then 0 else 1

-- percentile: the sample, as a double, at p / 100.0 * sorted.size(), or the last one where that is too
-- large. `sorted.size() - 1` wraps.
unfoldable percentile : (f : Doubles) → List ℤ → f.Carrier → Option f.Carrier
percentile f sorted p = do
  idx ← f.to_size (f.mul (f.div p (f.tenths 1000)) (f.of_int (pos (length sorted))))
  let idx' = if leb (length sorted) idx then (length sorted + (2 ^ 64 - 1)) % 2 ^ 64 else idx
  v ← get_elem? sorted idx'
  some (f.of_int v)

-- The numbers that print_latency_dist prints.
pub record Dist (f : Doubles) : Type 0 where
  pub avg : f.Carrier
  pub p50 : f.Carrier
  pub p99 : f.Carrier
  pub p999 : f.Carrier

-- print_latency_dist: nothing is printed for no samples.
unfoldable latency_dist : (f : Doubles) → List ℤ → Option (Option (Dist f))
latency_dist f [] = some none
latency_dist f (x ∷ xs) = do
  let samples = sort (x ∷ xs)
  p50 ← percentile f samples (f.tenths 500)
  p99 ← percentile f samples (f.tenths 990)
  p999 ← percentile f samples (f.tenths 999)
  sum ← sum_all 63 samples (pos 0)
  let avg = f.div (f.of_int sum) (f.of_int (pos (length samples)))
  some (some (record { avg = avg; p50 = p50; p99 = p99; p999 = p999 }))
