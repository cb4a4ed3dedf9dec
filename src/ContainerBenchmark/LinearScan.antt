-- ===== src/ContainerBenchmark/LinearScan.antt =====
-- bench_lookup_list and bench_lookup_deque of bench_containers.cpp, which cap their queries.
use syseng.Base.{
  ℕ, zero, suc, ◌/◌, ◌^◌, ◌<◌, ◌≤◌, ◌≡◌, refl, true, false, Option, none, some, List, [], ◌∷◌,
  ◌>>=◌, if◌then◌else◌, ltb, ◌==◌, arith, length, take,
}
use syseng.Base.Int.{ℤ, pos, pos_part}
use syseng.Base.CInt.{int_of_size_lem}
use syseng.ContainerBenchmark.Machine.{Clock, timed, int_div, long_mul}
use syseng.ContainerBenchmark.Containers.{linear_find}
use syseng.ContainerBenchmark.Bench.{
  sum_all, sum_found, limit_of, bench_lookup_list, bench_lookup_deque,
}
use syseng.ContainerBenchmark.Search.{linear_find-found}
use syseng.ContainerBenchmark.Sums.{naturals, total}
use syseng.ContainerBenchmark.Agreement.{within, sum_found-sum_all}

-- The number of queries looked up, out of n.
abbrev pub capped : ℕ → ℕ
capped n = if ltb 1000 n then 1000 else n

within-take : (n : ℕ) (q keys : List ℤ) → within q keys ≡ true → within (take n q) keys ≡ true
unfolding within
within-take zero q keys h = refl
within-take (suc n) [] keys h = refl
within-take (suc n) (k ∷ q) keys h = ground (arith, within-take n q keys)

pub naturals-take : (n : ℕ) (q : List ℤ) → naturals q ≡ true → naturals (take n q) ≡ true
unfolding naturals
naturals-take zero q h = refl
naturals-take (suc n) [] h = refl
naturals-take (suc n) (k ∷ q) h = ground (arith, naturals-take n q)

pub total-take : (n : ℕ) (q : List ℤ) → total (take n q) ≤ total q
unfolding total
total-take zero q = omega arith
total-take (suc n) [] = omega arith
total-take (suc n) (k ∷ q) = omega (arith, total-take n q)

limit_of_lem : (q : List ℤ) → length q < 2 ^ 31 → limit_of q ≡ pos (capped (length q))
unfolding limit_of
limit_of_lem q h = rw (int_of_size_lem (length q) h) (ground arith)

int_div_lem : (a b : ℕ) → int_div (pos a) (pos b) ≡ (if b == 0 then none else some (pos (a / b)))
unfolding int_div
int_div_lem a zero = refl
int_div_lem a (suc b) = ground arith

-- The time of the capped loop, scaled by how often the cap goes into the number of queries.
unfoldable pub scaled : Option (ℤ × ℤ) → ℕ → Option (ℤ × ℤ)
scaled run factor = do (ns, sum) ← run; total_ns ← long_mul ns (pos factor); some (total_ns, sum)

no_answer :
    {A B : Type 0} (run : Option A) (f : A → Option B) → ((a : A) → f a ≡ none) → (run >>= f) ≡ none
no_answer none f h = refl
no_answer (some a) f h = h a

-- For queries among the elements of the list (the deque), fewer than 2^31, only the first 1000 are
-- looked up and summed, and the time is multiplied by the whole quotient of the number of queries
-- by the number looked up; for no query at all the division by zero is undefined behaviour.
pub linear_lookups_lem :
    (t : Clock) (l q : List ℤ)
    → within q l ≡ true
    → length q < 2 ^ 31
    → (bench_lookup_list t l q ≡ (
        if length q == 0
        then none
        else scaled
            (timed t (sum_all 31 (take (capped (length q)) q) (pos 0)))
            (length q / capped (length q))))
      × (bench_lookup_deque t l q ≡ bench_lookup_list t l q)
unfolding bench_lookup_list bench_lookup_deque scaled
linear_lookups_lem t l [] inside short =
    let run = timed t (sum_found 31 (linear_find l) (take (pos_part (limit_of [])) []) (pos 0)) in
    (
      no_answer run _ (λ a. rw (int_of_size_lem 0 short, limit_of_lem [] short, int_div_lem 0 0)),
      refl,
    )
linear_lookups_lem t l (k ∷ q) inside short =
    let n = length (k ∷ q) in
    let found =
      sum_found-sum_all 31 (linear_find l) l (take (capped n) (k ∷ q)) (pos 0)
        (λ j h. linear_find-found j l h) (within-take (capped n) (k ∷ q) l inside) in
    let nonempty : (n == 0) ≡ false = ground arith in
    let some_query : (capped n == 0) ≡ false = ground arith in
    (
      rw (
        int_of_size_lem n short,
        limit_of_lem (k ∷ q) short,
        found,
        int_div_lem n (capped n),
        some_query,
        nonempty,
      ),
      refl,
    )
