-- ===== src/TestTools/Verdicts.antt =====
-- When the assertions of tools/common.h pass, and how a test counts them.
use syseng.Base.{
  ℕ, ◌+◌, ◌-◌, ◌%◌, ◌^◌, ◌≤◌, ◌≡◌, ◌≢◌, ◌↔◌, refl, Bool, true, false, ◌&&◌, Option, none, some,
  List, [], ◌∷◌, length, take, ◌==◌, leb, arith, ◌>>=◌,
}
use syseng.Base.Int.{ℤ, pos, negsuc, pos_part, neg_part, eqb_ℤ}
use syseng.TestTools.{Body, exec, Counters, run_test, run_tests}
use syseng.TestTools.CMacros.{
  Assertion, assert_eq, assert_eq_uint, assert_true, assert_false, assert_null, assert_not_null,
  assert_str_eq, assert_mem_eq, long_long, unsigned_long_long, compare_bytes, memcmp, verdict,
  CBody, exec_c, run_test_c, run_tests_c,
}

-- Equal up to a multiple of 2^64.
abbrev pub IsCongruent : ℤ → ℤ → Type 0
IsCongruent x y = (pos_part x + neg_part y) % 2 ^ 64 ≡ (pos_part y + neg_part x) % 2 ^ 64

abbrev pub BothText : Option (List ℕ) → Option (List ℕ) → Type 0
BothText none t = ⊥
BothText (some s) none = ⊥
BothText (some s) (some t) = s ≡ t

-- What an assertion asks for.
pub Passes : Assertion → Type 0
Passes (assert_eq expected actual) = IsCongruent expected actual
Passes (assert_eq_uint expected actual) = IsCongruent expected actual
Passes (assert_true cond) = cond ≡ true
Passes (assert_false cond) = cond ≡ false
Passes (assert_null ptr) = ptr ≡ none
Passes (assert_not_null ptr) = ptr ≢ none
Passes (assert_str_eq expected actual) = BothText expected actual
Passes (assert_mem_eq expected actual len) = take len expected ≡ take len actual

-- The blocks that memcmp reads have the bytes.
unfoldable pub InBounds : Assertion → Type 0
InBounds (assert_eq expected actual) = Unit
InBounds (assert_eq_uint expected actual) = Unit
InBounds (assert_true cond) = Unit
InBounds (assert_false cond) = Unit
InBounds (assert_null ptr) = Unit
InBounds (assert_not_null ptr) = Unit
InBounds (assert_str_eq expected actual) = Unit
InBounds (assert_mem_eq expected actual len) = (len ≤ length expected) × (len ≤ length actual)

unsigned-IsCongruent :
    (x y : ℤ) → ((unsigned_long_long x == unsigned_long_long y) ≡ true) ↔ IsCongruent x y
unfolding unsigned_long_long
unsigned-IsCongruent (pos x) (pos y) = (λ e. ground (arith, e), λ e. ground (arith, e))
unsigned-IsCongruent (pos x) (negsuc y) = (λ e. ground (arith, e), λ e. ground (arith, e))
unsigned-IsCongruent (negsuc x) (pos y) = (λ e. ground (arith, e), λ e. ground (arith, e))
unsigned-IsCongruent (negsuc x) (negsuc y) = (λ e. ground (arith, e), λ e. ground (arith, e))

unsigned_long_long_lt : (x : ℤ) → unsigned_long_long x ≤ 2 ^ 64 - 1
unfolding unsigned_long_long
unsigned_long_long_lt (pos n) = omega arith
unsigned_long_long_lt (negsuc n) = omega arith

-- Both casts keep the same bits.
long-unsigned :
    (x y : ℤ) → eqb_ℤ (long_long x) (long_long y) ≡ (unsigned_long_long x == unsigned_long_long y)
unfolding long_long
long-unsigned x y = ground (arith, unsigned_long_long_lt x, unsigned_long_long_lt y)

compare_bytes_lem : (s t : List ℕ) → (eqb_ℤ (compare_bytes s t) (pos 0) ≡ true) ↔ (s ≡ t)
unfolding compare_bytes
compare_bytes_lem [] [] = (λ e. refl, λ e. refl)
compare_bytes_lem [] (d ∷ t) = (λ e. ground (arith, e), λ e. ground (arith, e))
compare_bytes_lem (c ∷ s) [] = (λ e. ground (arith, e), λ e. ground (arith, e))
compare_bytes_lem (c ∷ s) (d ∷ t) =
    let (l, r) = compare_bytes_lem s t in (λ e. ground (arith, e, l), λ e. ground (arith, e, r))

-- Every assertion whose memcmp stays in its blocks has a verdict, and it passes exactly if what it
-- asks for holds: ASSERT_EQ, as ASSERT_EQ_UINT, if its arguments are equal up to a multiple of
-- 2^64; ASSERT_STR_EQ if neither argument is NULL and the strings are equal; ASSERT_MEM_EQ if the
-- first bytes are equal, as many as it is given.
pub verdict_lem :
    (a : Assertion) → InBounds a → (ok : Bool) × (verdict a ≡ some ok) × ((ok ≡ true) ↔ Passes a)
unfolding verdict Passes InBounds memcmp
verdict_lem (assert_eq x y) h =
    let (l, r) = unsigned-IsCongruent x y in
    let same = long-unsigned x y in
    (_, refl, (λ e. ground (arith, e, l, same), λ e. ground (arith, e, r, same)))
verdict_lem (assert_eq_uint x y) h = (_, refl, unsigned-IsCongruent x y)
verdict_lem (assert_true cond) h = (_, refl, (λ e. e, λ e. e))
verdict_lem (assert_false cond) h = (_, refl, (λ e. ground (arith, e), λ e. ground (arith, e)))
verdict_lem (assert_null none) h = (_, refl, (λ e. refl, λ e. refl))
verdict_lem (assert_null (some p)) h = (_, refl, (λ e. ground (arith, e), λ e. ground (arith, e)))
verdict_lem (assert_not_null none) h = (_, refl, (λ e. ground (arith, e), λ e. absurd (e refl)))
verdict_lem (assert_not_null (some p)) h = (_, refl, (λ e f. ground (arith, f), λ e. refl))
verdict_lem (assert_str_eq none t) h = (_, refl, (λ e. ground (arith, e), λ e. absurd e))
verdict_lem (assert_str_eq (some s) none) h = (_, refl, (λ e. ground (arith, e), λ e. absurd e))
verdict_lem (assert_str_eq (some s) (some t)) h = (_, refl, compare_bytes_lem s t)
verdict_lem (assert_mem_eq a b len) h =
    let fits : (leb len (length a) && leb len (length b)) ≡ true = ground (arith, h.0, h.1) in
    (_, rw fits refl, compare_bytes_lem (take len a) (take len b))

-- The body that a C test comes to by its verdicts.
pub data Becomes : CBody → Body → Type 0 where
  ends : Becomes CBody.done Body.done
  checks :
      {a : Assertion} {ok : Bool} {c : CBody} {b : Body}
      → verdict a ≡ some ok
      → Becomes c b
      → Becomes (CBody.check a c) (Body.check ok b)
  calls :
      {c c' : CBody} {b b' : Body}
      → Becomes c b
      → Becomes c' b'
      → Becomes (CBody.call c c') (Body.call b b')

-- A C test counts failures as the test of tools/common.hpp with its verdicts.
exec_c-exec : {c : CBody} {b : Body} (f : ℕ) → Becomes c b → exec_c c f ≡ exec b f
unfolding exec_c exec
exec_c-exec f ends = refl
exec_c-exec f (checks {ok} known r) = rw (known, exec_c-exec f r) refl
exec_c-exec f (calls r r') = λ i. exec_c-exec f r i >>= (λ f'. exec_c-exec f' r' i)

pub data AllBecome : List CBody → List Body → Type 0 where
  none_left : AllBecome [] []
  one_more :
      {c : CBody} {b : Body} {cs : List CBody} {bs : List Body}
      → Becomes c b
      → AllBecome cs bs
      → AllBecome (c ∷ cs) (b ∷ bs)

run_test_c-run_test :
    {c : CBody} {b : Body} (s : Counters) → Becomes c b → run_test_c c s ≡ run_test b s
unfolding run_test_c run_test
run_test_c-run_test s r = rw (exec_c-exec s.tests_failed r) refl

-- Tests in C with verdicts for all their assertions leave the counters that the tests with the same
-- verdicts leave under the macros of tools/common.hpp.
pub run_tests_c-run_tests :
    {cs : List CBody} {bs : List Body} (s : Counters)
    → AllBecome cs bs
    → run_tests_c cs s ≡ run_tests bs s
unfolding run_tests_c run_tests
run_tests_c-run_tests s none_left = refl
run_tests_c-run_tests s (one_more r rs) =
    λ i. run_test_c-run_test s r i >>= (λ t. run_tests_c-run_tests t rs i)
