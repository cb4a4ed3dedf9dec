-- ===== src/TestTools/Tests.antt =====
-- A run of three tests, and a few samples.
use syseng.Base.{
  length, ◌+◌, ◌-◌, leb, if◌then◌else◌, Bool, none, ◌*◌, ◌^◌, ◌<◌, ◌≡◌, ◌↔◌, refl, true, false,
  some, List, [], ◌∷◌, arith,
}
use syseng.Base.Int.{ℤ, pos, negsuc}
use syseng.Base.Doubles.{fixed_point, fixed_point-DoubleLaws}
use syseng.ContainerBenchmark.Sums.{naturals, total}
use syseng.TestTools.{Body, done, check, call, Dist, run_tests, test_begin, test_end, latency_dist}
use syseng.TestTools.Suite.{failures, all_failures, count_passing, tallied, suite_lem}
use syseng.TestTools.Latency.{IsRanked, latency_dist_lem}
use syseng.TestTools.CMacros.{
  run_tests_c, test_begin_c, CBody, assert_eq, assert_str_eq, assert_mem_eq, verdict, long_long,
  unsigned_long_long,
}
use syseng.TestTools.Verdicts.{
  run_tests_c-run_tests, Passes, InBounds, verdict_lem, ends, checks, AllBecome, none_left,
  one_more,
}
use syseng.TestTools.Timing.{Readings}

-- The second test fails in a function that it calls, and goes on.
abbrev three_tests : List Body
three_tests =
    check true done
    ∷ call (check false (check true done)) (check true done)
    ∷ call (check true done) done
    ∷ []

few_failures : all_failures three_tests < 2 ^ 31
unfolding all_failures failures
few_failures = omega arith

suite_lem_example :
    (run_tests three_tests test_begin ≡ some (tallied three_tests))
    × ((test_end (tallied three_tests) ≡ 0) ↔ (count_passing three_tests ≡ 3))
suite_lem_example = suite_lem three_tests (omega arith) few_failures

abbrev three_samples : List ℤ
three_samples = pos 40 ∷ pos 10 ∷ pos 25 ∷ []

naturals-three_samples : naturals three_samples ≡ true
unfolding naturals
naturals-three_samples = refl

total-three_samples : total three_samples < 2 ^ 63
unfolding total
total-three_samples = omega arith

latency_dist_lem_example :
    (d : Dist fixed_point) × (latency_dist fixed_point three_samples ≡ some (some d))
    × fixed_point.le d.p50 d.p99
    × fixed_point.le d.p99 d.p999
    × IsRanked fixed_point 500 three_samples d.p50
    × IsRanked fixed_point 990 three_samples d.p99
    × IsRanked fixed_point 999 three_samples d.p999
    × (d.avg
        ≡ fixed_point.div
            (fixed_point.of_int (pos (total three_samples)))
            (fixed_point.of_int (pos (length three_samples))))
latency_dist_lem_example =
    latency_dist_lem fixed_point fixed_point-DoubleLaws three_samples (omega arith) (omega arith)
      naturals-three_samples total-three_samples

one_byte-InBounds : InBounds (assert_mem_eq (7 ∷ 8 ∷ []) (7 ∷ 9 ∷ []) 1)
unfolding InBounds
one_byte-InBounds = (omega arith, omega arith)

-- The second bytes differ, and only the first is compared.
verdict_lem_example :
    (ok : Bool) × (verdict (assert_mem_eq (7 ∷ 8 ∷ []) (7 ∷ 9 ∷ []) 1) ≡ some ok)
    × ((ok ≡ true) ↔ Passes (assert_mem_eq (7 ∷ 8 ∷ []) (7 ∷ 9 ∷ []) 1))
verdict_lem_example = verdict_lem (assert_mem_eq (7 ∷ 8 ∷ []) (7 ∷ 9 ∷ []) 1) one_byte-InBounds

-- The largest unsigned number passes for -1, and NULL does not pass for NULL.
wide_test : verdict (assert_eq (pos (2 ^ 64 - 1)) (negsuc 0)) ≡ some true
unfolding verdict long_long unsigned_long_long
wide_test = refl

null_test : verdict (assert_str_eq none none) ≡ some false
unfolding verdict
null_test = refl

-- The first test passes; the second stops at its first assertion.
abbrev two_c_tests : List CBody
two_c_tests =
    CBody.check (assert_eq (pos 4) (pos 4)) CBody.done
    ∷ CBody.check (assert_str_eq none none) (CBody.check (assert_eq (pos 1) (pos 1)) CBody.done)
    ∷ []

abbrev two_bodies : List Body
two_bodies = check true done ∷ check false (check true done) ∷ []

two_c_tests-AllBecome : AllBecome two_c_tests two_bodies
unfolding verdict long_long unsigned_long_long
two_c_tests-AllBecome =
    one_more (checks refl ends) (one_more (checks refl (checks refl ends)) none_left)

c_suite_test : run_tests_c two_c_tests test_begin_c ≡ run_tests two_bodies test_begin_c
c_suite_test = run_tests_c-run_tests test_begin_c two_c_tests-AllBecome

-- Ten nanoseconds between readings, and five more before the fourth.
abbrev readings : Readings
readings r = pos (10 * r + (if leb r 2 then 0 else 5))
