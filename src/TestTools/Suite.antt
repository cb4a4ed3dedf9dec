-- ===== src/TestTools/Suite.antt =====
-- The counters of tools/common.hpp over a run of tests.
use syseng.Base.{
  ℕ, ◌+◌, ◌^◌, ◌<◌, ◌≤◌, ◌≡◌, ◌↔◌, refl, Bool, true, ◌&&◌, some, List, [], ◌∷◌, length,
  if◌then◌else◌, arith, ◌∙◌,
}
use syseng.TestTools.{
  Body, done, check, call, Counters, exec, test_begin, run_test, run_tests, test_end,
}

-- The failing assertions that a body reaches, and whether there is none.
unfoldable pub failures : Body → ℕ
failures done = 0
failures (check ok rest) = let r = failures rest in if ok then r else 1
failures (call callee rest) = failures callee + failures rest

unfoldable passes : Body → Bool
passes done = true
passes (check ok rest) = ok && passes rest
passes (call callee rest) = passes callee && passes rest

unfoldable pub all_failures : List Body → ℕ
all_failures [] = 0
all_failures (fn ∷ fns) = failures fn + all_failures fns

pub count_passing : List Body → ℕ
count_passing [] = 0
count_passing (fn ∷ fns) = (if passes fn then 1 else 0) + count_passing fns

passes_iff : (fn : Body) → (passes fn ≡ true) ↔ (failures fn ≡ 0)
unfolding passes failures
passes_iff done = (λ e. refl, λ e. refl)
passes_iff (check ok rest) =
    let (l, r) = passes_iff rest in (λ e. ground (arith, l), λ e. ground (arith, r))
passes_iff (call callee rest) =
    let (l, r) = passes_iff callee in
    let (l', r') = passes_iff rest in (λ e. ground (arith, l, l'), λ e. ground (arith, r, r'))

exec_lem : (fn : Body) (f : ℕ) → f + failures fn < 2 ^ 31 → exec fn f ≡ some (f + failures fn)
unfolding exec failures
exec_lem done f h = ground arith
exec_lem (check ok rest) f h = ground (arith, exec_lem rest f)
exec_lem (call callee rest) f h =
    ground (arith, exec_lem callee f, exec_lem rest (f + failures callee))

run_test_lem :
    (fn : Body) (s : Counters)
    → s.tests_run + 1 < 2 ^ 31
    → s.tests_passed + 1 < 2 ^ 31
    → s.tests_failed + failures fn < 2 ^ 31
    → run_test fn s
      ≡ some (record {
        tests_run = s.tests_run + 1;
        tests_passed = s.tests_passed + (if passes fn then 1 else 0);
        tests_failed = s.tests_failed + failures fn;
      })
unfolding run_test
run_test_lem fn s a b c =
    let (clean, counted) = passes_iff fn in
    rw (exec_lem fn s.tests_failed c) (ground (arith, clean, counted))

run_tests_lem :
    (fns : List Body) (s : Counters)
    → s.tests_run + length fns < 2 ^ 31
    → s.tests_passed + length fns < 2 ^ 31
    → s.tests_failed + all_failures fns < 2 ^ 31
    → run_tests fns s
      ≡ some (record {
        tests_run = s.tests_run + length fns;
        tests_passed = s.tests_passed + count_passing fns;
        tests_failed = s.tests_failed + all_failures fns;
      })
unfolding run_tests all_failures count_passing
run_tests_lem [] s a b c = ground arith
run_tests_lem (fn ∷ fns) s a b c =
    let t : Counters = record {
      tests_run = s.tests_run + 1;
      tests_passed = s.tests_passed + (if passes fn then 1 else 0);
      tests_failed = s.tests_failed + failures fn;
    } in
    let one : run_test fn s ≡ some t =
      run_test_lem fn s (omega arith) (omega arith) (omega arith) in
    let at_most_one : (if passes fn then 1 else 0) ≤ 1 = ground arith in
    let rest = run_tests_lem fns t (omega arith) (omega arith) (omega arith) in
    rw (one, rest) (ground arith)

count_passing-le-length : (fns : List Body) → count_passing fns ≤ length fns
unfolding count_passing
count_passing-le-length [] = omega arith
count_passing-le-length (fn ∷ fns) = ground (arith, count_passing-le-length fns)

all_passing : (fns : List Body) → (count_passing fns ≡ length fns) ↔ (all_failures fns ≡ 0)
unfolding count_passing all_failures
all_passing [] = (λ e. refl, λ e. refl)
all_passing (fn ∷ fns) =
    let (clean, counted) = passes_iff fn in
    let (l, r) = all_passing fns in
    let bound = count_passing-le-length fns in
    (λ e. ground (arith, clean, l, bound), λ e. ground (arith, counted, r))

-- The counters after TEST_BEGIN and a run of tests.
abbrev pub tallied : List Body → Counters
tallied fns = record {
  tests_run = length fns;
  tests_passed = count_passing fns;
  tests_failed = all_failures fns;
}

-- A run of fewer than 2^31 tests with fewer than 2^31 failing assertions ends with every test
-- counted, those passed that reached no failing assertion, and the failing assertions reached; the
-- program then returns 0 exactly when all tests passed.
pub suite_lem :
    (fns : List Body)
    → length fns < 2 ^ 31
    → all_failures fns < 2 ^ 31
    → (run_tests fns test_begin ≡ some (tallied fns))
      × ((test_end (tallied fns) ≡ 0) ↔ (count_passing fns ≡ length fns))
unfolding test_begin test_end
suite_lem fns a b =
    let (l, r) = all_passing fns in
    let counted = run_tests_lem fns test_begin (omega arith) (omega arith) (omega arith) in
    (counted ∙ ground arith, (λ e. ground (arith, r), λ e. ground (arith, l)))
