-- ===== src/ContainerBenchmark/Overflow.antt =====
-- The int sums of bench_containers.cpp on the keys 0, ..., n - 1, in whatever order they come.
use mathlib.Core.List.{Permᴰ}
use syseng.Base.{
  ℕ, ◌+◌, ◌-◌, ◌*◌, ◌^◌, ◌<◌, ◌≤◌, ◌≡◌, refl, sym, ap, ◌∙◌, true, none, List, [], ◌∷◌, arith, inl,
  inr, Option-cases,
}
use syseng.Base.Int.{ℤ, pos}
use syseng.Base.CInt.{exact}
use syseng.ContainerBenchmark.Machine.{Clock, timed}
use syseng.ContainerBenchmark.Containers.{sort, contains, iota}
use syseng.ContainerBenchmark.Bench.{sum_all, bench_lookup_vector, bench_insert_vector}
use syseng.ContainerBenchmark.Sums.{
  naturals, total, sum_all-total, total-Perm, naturals-Perm, contains-Perm, iota-naturals,
  total-iota,
}
use syseng.ContainerBenchmark.Agreement.{within, lookup_vector-sum_all}
use syseng.ContainerBenchmark.Program.{
  Env, EnvLaws, generate_keys, generate_shuffled, clock, vector_section, main, main_for,
}

within-of_contains :
    (q keys : List ℤ)
    → ((k : ℤ) → contains k q ≡ true → contains k keys ≡ true)
    → within q keys ≡ true
unfolding within contains
within-of_contains [] keys h = refl
within-of_contains (k ∷ q) keys h =
    ground (arith, h k (ground arith), within-of_contains q keys (λ j g. h j (ground arith)))

-- Keys 0, ..., n - 1 and queries, each in some order.
module _ (n : ℕ) (keys queries : List ℤ) (pk : Permᴰ keys (iota n 0))
    (pq : Permᴰ queries keys) where
  pub queries-within : within queries keys ≡ true
  queries-within = within-of_contains queries keys (λ k h. sym (contains-Perm k pq) ∙ h)

  pub queries-total : 2 * total queries + n ≡ n * n
  queries-total = omega (arith, total-Perm pq, total-Perm pk, total-iota n 0)

  pub keys-naturals : naturals keys ≡ true
  keys-naturals = naturals-Perm pk ∙ iota-naturals n 0

  sum_queries : (w : ℕ) → 0 < 2 ^ w → sum_all w queries (pos 0) ≡ exact w (pos (total queries))
  sum_queries w h =
      let from_zero : 0 + total queries ≡ total queries = omega arith in
      sum_all-total w queries 0 h (naturals-Perm pq ∙ keys-naturals)
      ∙ ap (λ s. exact w (pos s)) from_zero

  lookup_overflow : (t : Clock) → 65537 ≤ n → bench_lookup_vector t (sort keys) queries ≡ none
  unfolding timed
  lookup_overflow t large =
      let d = n - 65537 in
      let split : n ≡ 65537 + d = omega arith in
      let big : 2 ^ 31 ≤ total queries = omega (arith, queries-total, ap (λ x. x * x) split) in
      let over : sum_all 31 queries (pos 0) ≡ none = ground (arith, sum_queries 31) in
      lookup_vector-sum_all t keys queries queries-within ∙ rw over

  vector_section_overflow : (env : Env) → 65537 ≤ n → vector_section env keys queries ≡ none
  unfolding vector_section
  vector_section_overflow env large = elim (Option-cases (bench_insert_vector (clock env 0) keys)) [
    | inl e ↦ rw e
    | inr (r, e) ↦ rw (e, lookup_overflow (clock env 1) large)
  ]

main_for_overflow : (env : Env) → EnvLaws env → (n : ℕ) → 65537 ≤ n → main_for env (pos n) ≡ none
unfolding main_for generate_keys generate_shuffled
main_for_overflow env laws n large =
    let keys = (env.shuffle (env.mt19937 42) (iota n 0)).0 in
    let queries = (env.shuffle (env.mt19937 42) keys).0 in
    let pk = laws.shuffle-Perm (env.mt19937 42) (iota n 0) in
    let pq = laws.shuffle-Perm (env.mt19937 42) keys in
    rw (vector_section_overflow n keys queries pk pq env large)

-- main() runs into undefined behaviour, whatever the shuffle, the maps and the clock do, because an
-- `int` sum overflows: with its own N, and with every N of 65537 or more in its place.
pub main_overflow :
    (env : Env)
    → EnvLaws env
    → (main env ≡ none) × ((n : ℕ) → 65537 ≤ n → main_for env (pos n) ≡ none)
unfolding main
main_overflow env laws =
    (main_for_overflow env laws 1000000 (omega arith), main_for_overflow env laws)
