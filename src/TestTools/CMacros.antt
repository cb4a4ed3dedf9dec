-- ===== src/TestTools/CMacros.antt =====
-- tools/common.h: the test macros for C, over counters as those of tools/common.hpp. An assertion is
-- given the values of its arguments.
use syseng.Base.{
  ℕ, ◌-◌, ◌%◌, ◌^◌, Bool, true, false, not, ◌&&◌, Option, none, some, List, [], ◌∷◌, length, take,
  ◌>>=◌, ◌==◌, ltb, leb, if◌then◌else◌,
}
use syseng.Base.Int.{ℤ, pos, negsuc, minus_one, eqb_ℤ}
use syseng.TestTools.{Counters, increment}

-- (unsigned long long)v of an integer of any type.
unfoldable pub unsigned_long_long : ℤ → ℕ
unsigned_long_long (pos n) = n % 2 ^ 64
unsigned_long_long (negsuc n) = 2 ^ 64 - 1 - n % 2 ^ 64

-- (long long)v, which keeps the low 64 bits.
unfoldable pub long_long : ℤ → ℤ
long_long v =
    let r = unsigned_long_long v in if ltb r (2 ^ 63) then pos r else negsuc (2 ^ 64 - r - 1)

-- strcmp of two strings, by their bytes before the terminating 0, and memcmp of as many bytes.
unfoldable pub compare_bytes : List ℕ → List ℕ → ℤ
compare_bytes [] [] = pos 0
compare_bytes [] (d ∷ t) = minus_one
compare_bytes (c ∷ s) [] = pos 1
compare_bytes (c ∷ s) (d ∷ t) =
    let rest = compare_bytes s t in if c == d then rest else if ltb c d then minus_one else pos 1

-- memcmp of two blocks, which must have the bytes that it reads.
unfoldable pub memcmp : List ℕ → List ℕ → ℕ → Option ℤ
memcmp a b len =
    if leb len (length a) && leb len (length b)
    then some (compare_bytes (take len a) (take len b))
    else none

-- A pointer is `none` for NULL, a `char *` the string that it points to.
pub data Assertion : Type 0 where
  assert_eq : ℤ → ℤ → Assertion
  assert_eq_uint : ℤ → ℤ → Assertion
  assert_true : Bool → Assertion
  assert_false : Bool → Assertion
  assert_null : Option ℕ → Assertion
  assert_not_null : Option ℕ → Assertion
  assert_str_eq : Option (List ℕ) → Option (List ℕ) → Assertion
  assert_mem_eq : List ℕ → List ℕ → ℕ → Assertion

abbrev is_null : {A : Type 0} → Option A → Bool
is_null none = true
is_null (some p) = false

-- Whether the test of the macro passes.
unfoldable pub verdict : Assertion → Option Bool
verdict (assert_eq expected actual) = some (eqb_ℤ (long_long expected) (long_long actual))
verdict (assert_eq_uint expected actual) =
    some (unsigned_long_long expected == unsigned_long_long actual)
verdict (assert_true cond) = some cond
verdict (assert_false cond) = some (not cond)
verdict (assert_null ptr) = some (is_null ptr)
verdict (assert_not_null ptr) = some (not (is_null ptr))
verdict (assert_str_eq none actual) = some false
verdict (assert_str_eq (some s) none) = some false
verdict (assert_str_eq (some s) (some t)) = some (eqb_ℤ (compare_bytes s t) (pos 0))
verdict (assert_mem_eq expected actual len) = do
  r ← memcmp expected actual len
  some (eqb_ℤ r (pos 0))

-- A test function.
pub data CBody : Type 0 where
  done : CBody
  check : Assertion → CBody → CBody
  call : CBody → CBody → CBody

-- The failure counter after it: a failing assertion counts and returns.
unfoldable pub exec_c : CBody → ℕ → Option ℕ
exec_c done failed = some failed
exec_c (check a rest) failed =
    let r = exec_c rest failed in do ok ← verdict a; if ok then r else increment failed
exec_c (call callee rest) failed = do f ← exec_c callee failed; exec_c rest f

-- RUN_TEST
unfoldable pub run_test_c : CBody → Counters → Option Counters
run_test_c fn s = do
  run ← increment s.tests_run
  failed ← exec_c fn s.tests_failed
  passed ← if failed == s.tests_failed then increment s.tests_passed else some s.tests_passed
  some (record { tests_run = run; tests_passed = passed; tests_failed = failed })

-- A main() that runs its tests one after the other.
unfoldable pub run_tests_c : List CBody → Counters → Option Counters
run_tests_c [] s = some s
run_tests_c (fn ∷ fns) s = do t ← run_test_c fn s; run_tests_c fns t

-- TEST_BEGIN, and TEST_END: what main() returns.
unfoldable pub test_begin_c : Counters
test_begin_c = record { tests_run = 0; tests_passed = 0; tests_failed = 0 }

unfoldable test_end_c : Counters → ℕ
test_end_c s = if s.tests_failed == 0 then 0 else 1
