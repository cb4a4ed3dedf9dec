-- ===== src/ContainerBenchmark/Tests.antt =====
-- A small run of bench_containers.cpp: every map is the sorted list of its entries, and the shuffle
-- swaps the first two.
use mathlib.Core.List.{Permᴰ}
use mathlib.Core.List.Permᴰ
use syseng.Base.{
  ℕ, suc, ◌*◌, ◌^◌, ◌<◌, ◌≤◌, ◌≡◌, refl, true, Option, none, some, List, [], ◌∷◌, arith, ltb,
  if◌then◌else◌,
}
use syseng.Base.Int.{ℤ, pos, negsuc, ◌+ℤ◌, ◌-ℤ◌}
use syseng.Base.CInt.{add}
use syseng.ContainerBenchmark.Machine.{Clock, timed, elapsed}
use syseng.ContainerBenchmark.Containers.{
  std_map, sort, insert_sorted, lower_bound, none_less, contains, distinct,
}
use syseng.ContainerBenchmark.StdMap.{std_map-MapLaws}
use syseng.ContainerBenchmark.Bench.{
  insert_all, sum_found, add_found, bench_lookup_vector, bench_lookup_umap, bench_lookup_map,
}
use syseng.ContainerBenchmark.Agreement.{within, lookups_agree}
use syseng.ContainerBenchmark.Program.{Env, EnvLaws, row, row_of, main, main_for}
use syseng.ContainerBenchmark.Sections.{Steady, times}
use syseng.ContainerBenchmark.Overflow.{main_overflow}
use syseng.ContainerBenchmark.Completes.{main_for_lem, rows}
use syseng.Base.Doubles.{fixed_point}

abbrev swap_first : List ℤ → List ℤ
swap_first [] = []
swap_first (x ∷ []) = x ∷ []
swap_first (x ∷ y ∷ xs) = y ∷ x ∷ xs

swap_first-Perm : (xs : List ℤ) → Permᴰ (swap_first xs) xs
swap_first-Perm [] = Permᴰ.nil
swap_first-Perm (x ∷ []) = Permᴰ.refl (x ∷ [])
swap_first-Perm (x ∷ y ∷ xs) = Permᴰ.swap refl refl

abbrev ticks : ℕ → ℕ
ticks i = if ltb i 1000 then 10 * i else 10000

abbrev small_env : Env
small_env = record {
  Gen = ℕ;
  mt19937 = λ seed. seed;
  shuffle = λ g xs. (swap_first xs, suc g);
  umap = std_map ℤ;
  uflat = std_map ℤ;
  flatmap = std_map ℤ;
  uflat_ptr = std_map (Option ℤ);
  node_map = std_map ℤ;
  reading = λ i. pos (ticks i);
  double = fixed_point;
}

small_env_laws : EnvLaws small_env
small_env_laws = record {
  shuffle-Perm = λ g xs. swap_first-Perm xs;
  umap-MapLaws = std_map-MapLaws;
  uflat-MapLaws = std_map-MapLaws;
  flatmap-MapLaws = std_map-MapLaws;
  uflat_ptr-MapLaws = std_map-MapLaws;
  node_map-MapLaws = std_map-MapLaws;
}

ticks-forward : (i : ℕ) → ticks i ≤ ticks (suc i)
ticks-forward i = ground arith

ticks-early : (i : ℕ) → ticks i < 2 ^ 56
ticks-early i = ground arith

small_env-Steady : Steady small_env ticks
small_env-Steady = record { reads = λ i. refl; forward = ticks-forward; early = ticks-early }

main_overflow_example :
    (main small_env ≡ none) × ((n : ℕ) → 65537 ≤ n → main_for small_env (pos n) ≡ none)
main_overflow_example = main_overflow small_env small_env_laws

main_for_lem_example : main_for small_env (pos 3) ≡ some (rows small_env ticks 3)
main_for_lem_example = main_for_lem small_env small_env_laws ticks small_env-Steady 3 (omega arith)

-- Ten nanoseconds for three elements, in thousandths.
row_test :
    row_of small_env (pos 3) "std::list" (times 10 10 10)
    ≡ record { name = "std::list"; ins = 3333; look = 3333; iter = 3333 }
unfolding row_of row
row_test = refl

abbrev some_keys : List ℤ
some_keys = pos 2 ∷ negsuc 0 ∷ pos 5 ∷ []

abbrev some_queries : List ℤ
some_queries = pos 5 ∷ negsuc 0 ∷ pos 5 ∷ []

abbrev watch : Clock
watch = record { begin = pos 7; finish = pos 40 }

-- The run of the vector's lookup: 33 nanoseconds and the sum 9.
lookup_test : bench_lookup_vector watch (sort some_keys) some_queries ≡ some (pos 33, pos 9)
unfolding bench_lookup_vector sort insert_sorted lower_bound none_less sum_found add_found add timed
    elapsed ◌+ℤ◌ ◌-ℤ◌
lookup_test = refl

distinct-some_keys : distinct some_keys ≡ true
unfolding distinct contains
distinct-some_keys = refl

within-some_queries : within some_queries some_keys ≡ true
unfolding within contains
within-some_queries = refl

lookups_agree_example :
    (bench_lookup_vector watch (sort some_keys) some_queries
      ≡ bench_lookup_umap
          (std_map ℤ)
          watch
          (insert_all (std_map ℤ) (λ k. k) some_keys [])
          some_queries)
    × (bench_lookup_map watch (insert_all (std_map ℤ) (λ k. k) some_keys []) some_queries
        ≡ bench_lookup_umap
            (std_map ℤ)
            watch
            (insert_all (std_map ℤ) (λ k. k) some_keys [])
            some_queries)
lookups_agree_example =
    lookups_agree (std_map ℤ) std_map-MapLaws watch some_keys some_queries distinct-some_keys
      within-some_queries
