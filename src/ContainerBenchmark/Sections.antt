-- ===== src/ContainerBenchmark/Sections.antt =====
-- The sections of main() in bench_containers.cpp, for an N whose `int` sums fit.
use mathlib.Core.List.{Permᴰ}
use syseng.Base.{
  ℕ, suc, ◌+◌, ◌-◌, ◌*◌, ◌^◌, ◌<◌, ◌≤◌, ◌≡◌, refl, ◌∙◌, true, some, List, [], arith, length,
}
use syseng.Base.Int.{ℤ, pos, ◌-ℤ◌}
use syseng.ContainerBenchmark.Machine.{elapsed, timed}
use syseng.ContainerBenchmark.Containers.{std_map, sort, lower_bound, contains, iota, find_entry}
use syseng.ContainerBenchmark.Bench.{
  bench_insert_vector, bench_lookup_vector, bench_iter_vector, bench_insert_map, bench_lookup_map,
  bench_iter_map, bench_insert_umap, bench_lookup_umap, bench_iter_umap, bench_insert_uflat,
  bench_lookup_uflat, bench_iter_uflat, bench_insert_flatmap, bench_lookup_flatmap,
  bench_iter_flatmap, bench_insert_uflat_ptr, bench_lookup_uflat_ptr, bench_iter_uflat_ptr,
  bench_insert_node_map, bench_lookup_node_map, bench_iter_node_map,
}
use syseng.ContainerBenchmark.StdMap.{std_map-MapLaws}
use syseng.ContainerBenchmark.Search.{sort-IsSorted, contains-sort, lower_bound-found}
use syseng.ContainerBenchmark.Values.{sort-Perm, empty_bare, reserved_fresh, reserved_bare}
use syseng.ContainerBenchmark.SmallSums.{
  found_queries, values_sum, map_found, map_values, ptr_found, ptr_values,
}
use syseng.ContainerBenchmark.Program.{
  Env, EnvLaws, Times, clock, vector_section, map_section, umap_section, uflat_section,
  flatmap_section, uflat_ptr_section, node_map_section,
}

-- The clock is steady, and has run for less than 2^56 nanoseconds, some two years.
pub record Steady (env : Env) (r : ℕ → ℕ) : Type 0 where
  pub reads : (i : ℕ) → env.reading i ≡ pos (r i)
  pub forward : (i : ℕ) → r i ≤ r (suc i)
  pub early : (i : ℕ) → r i < 2 ^ 56

-- The nanoseconds of the i-th benchmark.
abbrev pub spent : (ℕ → ℕ) → ℕ → ℕ
spent r i = r (2 * i + 1) - r (2 * i)

abbrev pub times : ℕ → ℕ → ℕ → Times
times a b c = record { ins = pos a; look = pos b; iter = pos c }

pub took :
    (env : Env) (r : ℕ → ℕ)
    → Steady env r
    → (i : ℕ) → elapsed (clock env i) ≡ some (pos (spent r i))
unfolding elapsed ◌-ℤ◌
took env r steady i = ground (
  arith,
  steady.reads (2 * i),
  steady.reads (2 * i + 1),
  steady.forward (2 * i),
  steady.early (2 * i + 1),
)

module _ (env : Env) (laws : EnvLaws env) (r : ℕ → ℕ) (steady : Steady env r) (n : ℕ)
    (keys queries : List ℤ) (pk : Permᴰ keys (iota n 0)) (pq : Permᴰ queries keys)
    (positive : 1 ≤ n) (few : n ≤ 65536) where
  pub vector_section_lem :
      vector_section env keys queries ≡ some (times (spent r 0) (spent r 1) (spent r 2))
  unfolding vector_section bench_insert_vector bench_lookup_vector bench_iter_vector timed
  vector_section_lem =
      let finds = λ (k : ℤ) (h : contains k keys ≡ true).
        lower_bound-found k (sort keys) (sort-IsSorted keys) (contains-sort k keys ∙ h) in
      rw (
        took env r steady 0,
        took env r steady 1,
        took env r steady 2,
        found_queries n keys queries pk pq positive few 31 (lower_bound (sort keys)) (omega arith)
            finds,
        values_sum n keys queries pk pq positive few 31 (sort keys) (omega arith) (sort-Perm keys),
      )

  pub map_section_lem :
      map_section env keys queries ≡ some (times (spent r 3) (spent r 4) (spent r 5))
  unfolding map_section bench_insert_map bench_lookup_map bench_iter_map timed find_entry
  map_section_lem = rw (
    took env r steady 3,
    took env r steady 4,
    took env r steady 5,
    map_found n keys queries pk pq positive few (std_map ℤ) std_map-MapLaws [] (λ k. refl) Permᴰ.nil
        31 (omega arith),
    map_values n keys queries pk pq positive few (std_map ℤ) std_map-MapLaws [] (λ k. refl)
        Permᴰ.nil 31 (omega arith),
  )

  pub umap_section_lem :
      umap_section env keys queries ≡ some (times (spent r 6) (spent r 7) (spent r 8))
  unfolding umap_section bench_insert_umap bench_lookup_umap bench_iter_umap timed
  umap_section_lem = rw (
    took env r steady 6,
    took env r steady 7,
    took env r steady 8,
    map_found n keys queries pk pq positive few env.umap laws.umap-MapLaws env.umap.empty
        laws.umap-MapLaws.find-empty (empty_bare env.umap laws.umap-MapLaws) 31 (omega arith),
    map_values n keys queries pk pq positive few env.umap laws.umap-MapLaws env.umap.empty
        laws.umap-MapLaws.find-empty (empty_bare env.umap laws.umap-MapLaws) 31 (omega arith),
  )

  pub uflat_section_lem :
      uflat_section env keys queries ≡ some (times (spent r 15) (spent r 16) (spent r 17))
  unfolding uflat_section bench_insert_uflat bench_lookup_uflat bench_iter_uflat timed
  uflat_section_lem = rw (
    took env r steady 15,
    took env r steady 16,
    took env r steady 17,
    map_found n keys queries pk pq positive few env.uflat laws.uflat-MapLaws
        (env.uflat.reserve (length keys) env.uflat.empty)
        (reserved_fresh env.uflat laws.uflat-MapLaws (length keys))
        (reserved_bare env.uflat laws.uflat-MapLaws (length keys)) 63 (omega arith),
    map_values n keys queries pk pq positive few env.uflat laws.uflat-MapLaws
        (env.uflat.reserve (length keys) env.uflat.empty)
        (reserved_fresh env.uflat laws.uflat-MapLaws (length keys))
        (reserved_bare env.uflat laws.uflat-MapLaws (length keys)) 63 (omega arith),
  )

  pub flatmap_section_lem :
      flatmap_section env keys queries ≡ some (times (spent r 18) (spent r 19) (spent r 20))
  unfolding flatmap_section bench_insert_flatmap bench_lookup_flatmap bench_iter_flatmap timed
  flatmap_section_lem = rw (
    took env r steady 18,
    took env r steady 19,
    took env r steady 20,
    map_found n keys queries pk pq positive few env.flatmap laws.flatmap-MapLaws
        (env.flatmap.reserve (length keys) env.flatmap.empty)
        (reserved_fresh env.flatmap laws.flatmap-MapLaws (length keys))
        (reserved_bare env.flatmap laws.flatmap-MapLaws (length keys)) 63 (omega arith),
    map_values n keys queries pk pq positive few env.flatmap laws.flatmap-MapLaws
        (env.flatmap.reserve (length keys) env.flatmap.empty)
        (reserved_fresh env.flatmap laws.flatmap-MapLaws (length keys))
        (reserved_bare env.flatmap laws.flatmap-MapLaws (length keys)) 63 (omega arith),
  )

  pub node_map_section_lem :
      node_map_section env keys queries ≡ some (times (spent r 24) (spent r 25) (spent r 26))
  unfolding node_map_section bench_insert_node_map bench_lookup_node_map bench_iter_node_map timed
  node_map_section_lem = rw (
    took env r steady 24,
    took env r steady 25,
    took env r steady 26,
    map_found n keys queries pk pq positive few env.node_map laws.node_map-MapLaws
        (env.node_map.reserve (length keys) env.node_map.empty)
        (reserved_fresh env.node_map laws.node_map-MapLaws (length keys))
        (reserved_bare env.node_map laws.node_map-MapLaws (length keys)) 63 (omega arith),
    map_values n keys queries pk pq positive few env.node_map laws.node_map-MapLaws
        (env.node_map.reserve (length keys) env.node_map.empty)
        (reserved_fresh env.node_map laws.node_map-MapLaws (length keys))
        (reserved_bare env.node_map laws.node_map-MapLaws (length keys)) 63 (omega arith),
  )

  pub uflat_ptr_section_lem :
      uflat_ptr_section env keys queries ≡ some (times (spent r 21) (spent r 22) (spent r 23))
  unfolding uflat_ptr_section bench_insert_uflat_ptr bench_lookup_uflat_ptr bench_iter_uflat_ptr
      timed
  uflat_ptr_section_lem = rw (
    took env r steady 21,
    took env r steady 22,
    took env r steady 23,
    ptr_found n keys queries pk pq positive few env.uflat_ptr laws.uflat_ptr-MapLaws
        (env.uflat_ptr.reserve (length keys) env.uflat_ptr.empty)
        (reserved_fresh env.uflat_ptr laws.uflat_ptr-MapLaws (length keys))
        (reserved_bare env.uflat_ptr laws.uflat_ptr-MapLaws (length keys)),
    ptr_values n keys queries pk pq positive few env.uflat_ptr laws.uflat_ptr-MapLaws
        (env.uflat_ptr.reserve (length keys) env.uflat_ptr.empty)
        (reserved_fresh env.uflat_ptr laws.uflat_ptr-MapLaws (length keys))
        (reserved_bare env.uflat_ptr laws.uflat_ptr-MapLaws (length keys)),
  )
