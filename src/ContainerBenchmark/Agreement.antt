-- ===== src/ContainerBenchmark/Agreement.antt =====
-- The lookup benchmarks of bench_containers.cpp side by side, on which main() leaves its sanity check
-- open.
use syseng.Base.{
  ℕ, ◌≡◌, refl, sym, ap, ◌∙◌, Bool, true, ◌&&◌, Option, none, some, List, [], ◌∷◌, ◌>>=◌, arith,
}
use syseng.Base.Int.{ℤ, pos}
use syseng.Base.CInt.{add}
use syseng.ContainerBenchmark.Machine.{Clock, timed}
use syseng.ContainerBenchmark.Containers.{
  MapOps, MapLaws, std_map, sort, lower_bound, contains, distinct,
}
use syseng.ContainerBenchmark.Bench.{
  insert_all, sum_all, sum_found, add_found, search_map, search_ptr, deref_found,
  bench_lookup_vector, bench_lookup_umap, bench_lookup_map,
}
use syseng.ContainerBenchmark.StdMap.{std_map-MapLaws}
use syseng.ContainerBenchmark.Search.{
  contains-sort, sort-IsSorted, lower_bound-found, find-insert_all,
}

-- Every query is a key.
unfoldable pub within : List ℤ → List ℤ → Bool
within [] keys = true
within (k ∷ q) keys = contains k keys && within q keys

-- A search that finds every key itself adds up the queries.
pub sum_found-sum_all :
    (w : ℕ) (look : ℤ → Option (Option ℤ)) (keys q : List ℤ) (sum : ℤ)
    → ((k : ℤ) → contains k keys ≡ true → look k ≡ some (some k))
    → within q keys ≡ true
    → sum_found w look q sum ≡ sum_all w q sum
unfolding sum_found sum_all within add_found
sum_found-sum_all w look keys [] sum finds h = refl
sum_found-sum_all w look keys (k ∷ q) sum finds h =
    let found : look k ≡ some (some k) = finds k (ground arith) in
    let rest = λ (s : ℤ). sum_found-sum_all w look keys q s finds (ground arith) in
    rw found (λ i. add w sum k >>= λ s. rest s i)

-- A map built from distinct keys, each under itself, finds every one of them.
pub search_map-found :
    (m : MapOps ℤ)
    → MapLaws m
    → (keys : List ℤ) (c : m.Carrier) (k : ℤ) → distinct keys ≡ true
    → ((j : ℤ) → m.find j c ≡ none)
    → contains k keys ≡ true
    → search_map m (insert_all m (λ j. j) keys c) k ≡ some (some k)
unfolding search_map
search_map-found m laws keys c k d fresh h =
    ap some (find-insert_all m laws (λ j. j) keys c k d (λ j _. fresh j) ∙ rw h)

-- Likewise a map of pointers to the keys.
pub search_ptr-found :
    (m : MapOps (Option ℤ))
    → MapLaws m
    → (keys : List ℤ) (c : m.Carrier) (k : ℤ) → distinct keys ≡ true
    → ((j : ℤ) → m.find j c ≡ none)
    → contains k keys ≡ true
    → search_ptr m (insert_all m some keys c) k ≡ some (some k)
unfolding search_ptr deref_found
search_ptr-found m laws keys c k d fresh h =
    let found : m.find k (insert_all m some keys c) ≡ some (some k) =
      find-insert_all m laws some keys c k d (λ j _. fresh j) ∙ rw h in
    ap deref_found found

-- The vector's lookup on the sorted keys adds up the queries.
pub lookup_vector-sum_all :
    (t : Clock) (keys q : List ℤ)
    → within q keys ≡ true
    → bench_lookup_vector t (sort keys) q ≡ timed t (sum_all 31 q (pos 0))
unfolding bench_lookup_vector
lookup_vector-sum_all t keys q h = ap (timed t) (
    sum_found-sum_all 31 (lower_bound (sort keys)) keys q (pos 0)
      (λ k there.
        lower_bound-found k (sort keys) (sort-IsSorted keys) (contains-sort k keys ∙ there))
      h)

lookup_umap-sum_all :
    (m : MapOps ℤ)
    → MapLaws m
    → (t : Clock) (keys q : List ℤ) → distinct keys ≡ true
    → within q keys ≡ true
    → bench_lookup_umap m t (insert_all m (λ k. k) keys m.empty) q ≡ timed t (sum_all 31 q (pos 0))
unfolding bench_lookup_umap
lookup_umap-sum_all m laws t keys q d h = ap (timed t) (
    sum_found-sum_all 31 (search_map m (insert_all m (λ k. k) keys m.empty)) keys q (pos 0)
      (λ k there. search_map-found m laws keys m.empty k d laws.find-empty there) h)

-- For distinct keys and queries among them the lookups in the sorted vector of the keys, in the
-- ordered map and in the unordered map of the keys answer alike: the same sum, or an overflow in
-- all three.
pub lookups_agree :
    (m : MapOps ℤ)
    → MapLaws m
    → (t : Clock) (keys q : List ℤ) → distinct keys ≡ true
    → within q keys ≡ true
    → (bench_lookup_vector t (sort keys) q
        ≡ bench_lookup_umap m t (insert_all m (λ k. k) keys m.empty) q)
      × (bench_lookup_map t (insert_all (std_map ℤ) (λ k. k) keys []) q
          ≡ bench_lookup_umap m t (insert_all m (λ k. k) keys m.empty) q)
unfolding bench_lookup_umap bench_lookup_map
lookups_agree m laws t keys q d h =
    let umap = sym (lookup_umap-sum_all m laws t keys q d h) in
    (
      lookup_vector-sum_all t keys q h ∙ umap,
      lookup_umap-sum_all (std_map ℤ) std_map-MapLaws t keys q d h ∙ umap,
    )
