-- ===== src/ContainerBenchmark/Completes.antt =====
-- main() of bench_containers.cpp for every N: its `int` sums fit up to 65536.
use mathlib.Core.List.{Permᴰ}
use mathlib.Core.List.Permᴰ
use native.Mathlib.Nat.{div_self}
use syseng.Base.{
  ℕ, ◌+◌, ◌-◌, ◌*◌, ◌/◌, ◌^◌, ◌<◌, ◌≤◌, ◌≡◌, refl, ap, ◌∙◌, false, some, List, [], ◌∷◌, ◌==◌, arith,
  sym, Bool-cases, ltb, if◌then◌else◌, none, inl, inr, length, take,
}
use syseng.Base.Int.{ℤ, pos, ◌*ℤ◌}
use syseng.ContainerBenchmark.Machine.{timed, long_mul}
use syseng.ContainerBenchmark.Containers.{iota}
use syseng.ContainerBenchmark.Bench.{
  bench_insert_list, bench_lookup_list, bench_iter_list, bench_insert_deque, bench_iter_deque,
  sum_all,
}
use syseng.ContainerBenchmark.Search.{push_all-append}
use syseng.ContainerBenchmark.Sums.{total, naturals-Perm, length-Perm, length-iota}
use syseng.ContainerBenchmark.LinearScan.{
  capped, scaled, linear_lookups_lem, naturals-take, total-take,
}
use syseng.ContainerBenchmark.Overflow.{queries-within, keys-naturals, main_overflow}
use syseng.ContainerBenchmark.SmallSums.{sum_part, values_sum}
use syseng.ContainerBenchmark.Program.{
  Env, EnvLaws, row_of, clock, list_section, deque_section, generate_keys, generate_shuffled,
  main_for, Row,
}
use syseng.ContainerBenchmark.Sections.{
  Steady, spent, times, took, vector_section_lem, map_section_lem, umap_section_lem,
  uflat_section_lem, flatmap_section_lem, uflat_ptr_section_lem, node_map_section_lem,
}

-- The factor for n queries is small.
factor_bound : (n : ℕ) → 1 ≤ n → n ≤ 65536 → n / capped n ≤ 65
factor_bound n positive few = ground (arith, div_self {n = n} positive)

long_mul_pos : (a b : ℕ) → a < 2 ^ 56 → b ≤ 65 → long_mul (pos a) (pos b) ≡ some (pos (a * b))
unfolding long_mul ◌*ℤ◌
long_mul_pos a b h g =
    let d = 65 - b in
    let split : b + d ≡ 65 = omega arith in
    let bound : a * b < 2 ^ 63 = omega (arith, ap (λ x. a * x) split) in ground (arith, bound)

module _ (env : Env) (laws : EnvLaws env) (r : ℕ → ℕ) (steady : Steady env r) (n : ℕ)
    (keys queries : List ℤ) (pk : Permᴰ keys (iota n 0)) (pq : Permᴰ queries keys)
    (positive : 1 ≤ n) (few : n ≤ 65536) where
  many : length queries ≡ n
  many = length-Perm pq ∙ length-Perm pk ∙ length-iota n 0

  part_sum :
      sum_all 31 (take (capped n) queries) (pos 0) ≡ some (pos (total (take (capped n) queries)))
  part_sum =
      sum_part n keys queries pk pq positive few 31 (take (capped n) queries) (omega arith)
        (naturals-take (capped n) queries (naturals-Perm pq ∙ keys-naturals n keys queries pk pq))
        (total-take (capped n) queries)

  lookup_list_lem :
      (i : ℕ)
      → bench_lookup_list (clock env i) keys queries
        ≡ some (pos (spent r i * (n / capped n)), pos (total (take (capped n) queries)))
  unfolding scaled timed
  lookup_list_lem i =
      let short : length queries < 2 ^ 31 = omega (arith, many) in
      let nonempty : (n == 0) ≡ false = ground arith in
      let brief : spent r i < 2 ^ 56 = omega (arith, steady.early (2 * i + 1)) in
      (linear_lookups_lem (clock env i) keys queries (queries-within n keys queries pk pq) short).0
      ∙ rw (
        many,
        nonempty,
        part_sum,
        took env r steady i,
        long_mul_pos (spent r i) (n / capped n) brief (factor_bound n positive few),
      )

  list_section_lem :
      list_section env keys queries
      ≡ some (times (spent r 9) (spent r 10 * (n / capped n)) (spent r 11))
  unfolding list_section bench_insert_list bench_iter_list timed
  list_section_lem = rw (
    push_all-append keys [],
    took env r steady 9,
    lookup_list_lem 10,
    took env r steady 11,
    values_sum n keys queries pk pq positive few 31 keys (omega arith) (Permᴰ.refl keys),
  )

  deque_section_lem :
      deque_section env keys queries
      ≡ some (times (spent r 12) (spent r 13 * (n / capped n)) (spent r 14))
  unfolding deque_section bench_insert_deque bench_iter_deque timed
  deque_section_lem =
      let short : length queries < 2 ^ 31 = omega (arith, many) in
      let same =
        (linear_lookups_lem (clock env 13) keys queries (queries-within n keys queries pk pq)
          short).1 in
      rw (
        push_all-append keys [],
        took env r steady 12,
        same,
        lookup_list_lem 13,
        took env r steady 14,
        values_sum n keys queries pk pq positive few 31 keys (omega arith) (Permᴰ.refl keys),
      )

-- The rows for the times that the clock gives.
abbrev pub rows : (env : Env) → (ℕ → ℕ) → ℕ → List (Row env.double)
rows env r n =
    let put = row_of env (pos n) in
    put "std::list" (times (spent r 9) (spent r 10 * (n / capped n)) (spent r 11))
    ∷ put "std::deque" (times (spent r 12) (spent r 13 * (n / capped n)) (spent r 14))
    ∷ put "vector+lower_bound" (times (spent r 0) (spent r 1) (spent r 2))
    ∷ put "std::map" (times (spent r 3) (spent r 4) (spent r 5))
    ∷ put "unordered_map" (times (spent r 6) (spent r 7) (spent r 8))
    ∷ put "boost::unord_flat_map" (times (spent r 15) (spent r 16) (spent r 17))
    ∷ put "boost::flat_map" (times (spent r 18) (spent r 19) (spent r 20))
    ∷ put "boost::node_map (heap allocation)" (times (spent r 24) (spent r 25) (spent r 26))
    ∷ []

main_for-rows :
    (env : Env)
    → EnvLaws env
    → (r : ℕ → ℕ) → Steady env r
    → (n : ℕ) → 1 ≤ n
    → n ≤ 65536
    → main_for env (pos n) ≡ some (rows env r n)
unfolding main_for generate_keys generate_shuffled
main_for-rows env laws r steady n positive few =
    let keys = (env.shuffle (env.mt19937 42) (iota n 0)).0 in
    let queries = (env.shuffle (env.mt19937 42) keys).0 in
    let pk = laws.shuffle-Perm (env.mt19937 42) (iota n 0) in
    let pq = laws.shuffle-Perm (env.mt19937 42) keys in
    rw (
      vector_section_lem env laws r steady n keys queries pk pq positive few,
      map_section_lem env laws r steady n keys queries pk pq positive few,
      umap_section_lem env laws r steady n keys queries pk pq positive few,
      list_section_lem env laws r steady n keys queries pk pq positive few,
      deque_section_lem env laws r steady n keys queries pk pq positive few,
      uflat_section_lem env laws r steady n keys queries pk pq positive few,
      flatmap_section_lem env laws r steady n keys queries pk pq positive few,
      uflat_ptr_section_lem env laws r steady n keys queries pk pq positive few,
      node_map_section_lem env laws r steady n keys queries pk pq positive few,
    )

-- The body of main() for any positive N in the place of its constant, a steady clock, and maps and
-- a shuffle that do what they document: it runs into undefined behaviour exactly when N is above
-- 65536, as the program's own N is. Otherwise it computes its eight rows, where each number is the
-- difference of the two readings around the benchmark divided by N, and the lookups in the list and
-- in the deque are scaled by the quotient of N and the capped number.
pub main_for_lem :
    (env : Env)
    → EnvLaws env
    → (r : ℕ → ℕ) → Steady env r
    → (n : ℕ) → 1 ≤ n
    → main_for env (pos n) ≡ (if ltb 65536 n then none else some (rows env r n))
main_for_lem env laws r steady n positive = elim (Bool-cases (ltb 65536 n)) [
  | inl above ↦ (main_overflow env laws).1 n (ground (arith, above)) ∙ sym (rw above refl)
  | inr few ↦ main_for-rows env laws r steady n positive (ground (arith, few)) ∙ sym (rw few refl)
]
