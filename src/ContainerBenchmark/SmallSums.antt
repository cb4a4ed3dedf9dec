-- ===== src/ContainerBenchmark/SmallSums.antt =====
-- The sums of bench_containers.cpp on the keys 0, ..., n - 1 for an n where they fit an `int`.
use mathlib.Core.List.{Permᴰ}
use syseng.Base.{
  ℕ, ◌+◌, ◌-◌, ◌*◌, ◌^◌, ◌<◌, ◌≤◌, ◌≡◌, ap, ◌∙◌, true, Option, none, some, List, [], arith, subst,
}
use syseng.Base.Int.{ℤ, pos}
use syseng.ContainerBenchmark.Containers.{MapOps, MapLaws, contains, distinct, iota}
use syseng.ContainerBenchmark.Bench.{
  insert_all, sum_all, sum_found, sum_ptrs, search_map, search_ptr, values_of,
}
use syseng.ContainerBenchmark.Sums.{
  naturals, total, sum_all-total, total-Perm, naturals-Perm, iota-distinct, distinct-Perm,
}
use syseng.ContainerBenchmark.Values.{insert_all_fresh-Perm, map_id, sum_ptrs_keys}
use syseng.ContainerBenchmark.Agreement.{sum_found-sum_all, search_map-found, search_ptr-found}
use syseng.ContainerBenchmark.Overflow.{queries-within, queries-total, keys-naturals}

module _ (n : ℕ) (keys queries : List ℤ) (pk : Permᴰ keys (iota n 0)) (pq : Permᴰ queries keys)
    (positive : 1 ≤ n) (few : n ≤ 65536) where
  pub small : total queries < 2 ^ 31
  small =
      let d = 65536 - n in
      let whole : n + d ≡ 65536 = omega arith in
      omega (arith, queries-total n keys queries pk pq, ap (λ x. x * x) whole)

  same_total : total queries ≡ total keys
  same_total = total-Perm pq

  keys_distinct : distinct keys ≡ true
  keys_distinct = distinct-Perm pk ∙ iota-distinct n 0

  -- Sums over some of the queries, over all by a search that finds the keys, and over the keys.
  pub sum_part :
      (w : ℕ) (q : List ℤ)
      → 2 ^ 31 ≤ 2 ^ w
      → naturals q ≡ true
      → total q ≤ total queries
      → sum_all w q (pos 0) ≡ some (pos (total q))
  sum_part w q wide natural part = sum_all-total w q 0 (omega arith) natural ∙ ground (arith, small)

  pub found_queries :
      (w : ℕ) (look : ℤ → Option (Option ℤ))
      → 2 ^ 31 ≤ 2 ^ w
      → ((k : ℤ) → contains k keys ≡ true → look k ≡ some (some k))
      → sum_found w look queries (pos 0) ≡ some (pos (total queries))
  found_queries w look wide finds =
      sum_found-sum_all w look keys queries (pos 0) finds (queries-within n keys queries pk pq)
      ∙ sum_part w queries wide (naturals-Perm pq ∙ keys-naturals n keys queries pk pq)
          (omega arith)

  pub values_sum :
      (w : ℕ) (values : List ℤ)
      → 2 ^ 31 ≤ 2 ^ w
      → Permᴰ values keys
      → sum_all w values (pos 0) ≡ some (pos (total keys))
  values_sum w values wide p =
      sum_all-total w values 0 (omega arith) (naturals-Perm p ∙ keys-naturals n keys queries pk pq)
      ∙ ground (arith, small, total-Perm p, same_total)

  -- A map whose carrier starts without keys and entries.
  module _ (m : MapOps ℤ) (laws : MapLaws m) (c : m.Carrier) (fresh : (k : ℤ) → m.find k c ≡ none)
      (bare : Permᴰ (m.entries c) []) where
    pub map_found :
        (w : ℕ)
        → 2 ^ 31 ≤ 2 ^ w
        → sum_found w (search_map m (insert_all m (λ k. k) keys c)) queries (pos 0)
          ≡ some (pos (total queries))
    map_found w wide =
        found_queries w (search_map m (insert_all m (λ k. k) keys c)) wide
          (λ k h. search_map-found m laws keys c k keys_distinct fresh h)

    pub map_values :
        (w : ℕ)
        → 2 ^ 31 ≤ 2 ^ w
        → sum_all w (values_of (m.entries (insert_all m (λ k. k) keys c))) (pos 0)
          ≡ some (pos (total keys))
    map_values w wide = values_sum w (values_of (m.entries (insert_all m (λ k. k) keys c))) wide (
        subst (λ xs. Permᴰ (values_of (m.entries (insert_all m (λ k. k) keys c))) xs) (map_id keys)
          (insert_all_fresh-Perm m laws (λ k. k) keys c keys_distinct fresh bare))

  -- Likewise for the map of pointers.
  module _ (m : MapOps (Option ℤ)) (laws : MapLaws m) (c : m.Carrier)
      (fresh : (k : ℤ) → m.find k c ≡ none) (bare : Permᴰ (m.entries c) []) where
    pub ptr_found :
        sum_found 63 (search_ptr m (insert_all m some keys c)) queries (pos 0)
        ≡ some (pos (total queries))
    ptr_found =
        found_queries 63 (search_ptr m (insert_all m some keys c)) (omega arith)
          (λ k h. search_ptr-found m laws keys c k keys_distinct fresh h)

    pub ptr_values :
        sum_ptrs (values_of (m.entries (insert_all m some keys c))) (pos 0)
        ≡ some (pos (total keys))
    ptr_values =
        sum_ptrs_keys (values_of (m.entries (insert_all m some keys c))) keys
          (insert_all_fresh-Perm m laws some keys c keys_distinct fresh bare)
          (keys-naturals n keys queries pk pq) (omega (arith, small, same_total))
