-- ===== src/ContainerBenchmark/Bench.antt =====
-- Parts 2 to 4 of bench_containers.cpp and the four Boost sections behind them: the insert, lookup
-- and iteration benchmarks. Each is given what the clock reads and answers with the nanoseconds
-- returned beside the value that do_not_optimize() is given.
use syseng.Base.{ℕ, Option, none, some, List, [], ◌∷◌, ◌++◌, length, take, ◌>>=◌, if◌then◌else◌}
use syseng.Base.Int.{ℤ, pos, ltb_ℤ, pos_part}
use syseng.Base.CInt.{add}
use syseng.Base.CInt.{int_of_size}
use syseng.ContainerBenchmark.Machine.{int_div, long_mul, Clock, timed}
use syseng.ContainerBenchmark.Containers.{MapOps, std_map, sort, lower_bound, linear_find}

unfoldable pub push_all : List ℤ → List ℤ → List ℤ
push_all [] vec = vec
push_all (key ∷ keys) vec = push_all keys (vec ++ key ∷ [])

-- The loop `for (auto key : keys) map[key] = key;`, or the one with emplace. What is stored under
-- a key is made by `value`.
unfoldable pub insert_all : {V : Type 0} (m : MapOps V) → (ℤ → V) → List ℤ → m.Carrier → m.Carrier
insert_all m value [] c = c
insert_all m value (k ∷ keys) c = insert_all m value keys (m.insert k (value k) c)

-- `sum += v` for every value, in k + 1 bits.
unfoldable pub sum_all : ℕ → List ℤ → ℤ → Option ℤ
sum_all k [] sum = some sum
sum_all k (v ∷ values) sum = do sum' ← add k sum v; sum_all k values sum'

-- `if (it != end) sum += *it;`
unfoldable pub add_found : ℕ → ℤ → Option ℤ → Option ℤ
add_found k sum none = some sum
add_found k sum (some v) = add k sum v

-- The loop over the queries. A search that is itself undefined is `none`.
unfoldable pub sum_found : ℕ → (ℤ → Option (Option ℤ)) → List ℤ → ℤ → Option ℤ
sum_found k search [] sum = some sum
sum_found k search (val ∷ q) sum = do
  found ← search val
  sum' ← add_found k sum found
  sum_found k search q sum'

-- `it->second` of a map of values.
unfoldable pub search_map : (m : MapOps ℤ) → m.Carrier → ℤ → Option (Option ℤ)
search_map m c k = some (m.find k c)

-- `*it->second` of a map of unique_ptr<int>: the owned value, or undefined for nullptr.
unfoldable pub deref_found : Option (Option ℤ) → Option (Option ℤ)
deref_found none = some none
deref_found (some p) = do v ← p; some (some v)

unfoldable pub search_ptr : (m : MapOps (Option ℤ)) → m.Carrier → ℤ → Option (Option ℤ)
search_ptr m c k = deref_found (m.find k c)

unfoldable pub sum_ptrs : List (Option ℤ) → ℤ → Option ℤ
sum_ptrs [] sum = some sum
sum_ptrs (p ∷ ps) sum = do v ← p; sum' ← add 63 sum v; sum_ptrs ps sum'

unfoldable pub bench_insert_vector : Clock → List ℤ → Option (ℤ × List ℤ)
bench_insert_vector t keys = timed t (some (sort (push_all keys [])))

unfoldable pub bench_insert_map : Clock → List ℤ → Option (ℤ × List (ℤ × ℤ))
bench_insert_map t keys = timed t (some (insert_all (std_map ℤ) (λ k. k) keys []))

unfoldable pub bench_insert_umap : (m : MapOps ℤ) → Clock → List ℤ → Option (ℤ × m.Carrier)
bench_insert_umap m t keys = timed t (some (insert_all m (λ k. k) keys m.empty))

unfoldable pub bench_insert_list : Clock → List ℤ → Option (ℤ × List ℤ)
bench_insert_list t keys = timed t (some (push_all keys []))

unfoldable pub bench_insert_deque : Clock → List ℤ → Option (ℤ × List ℤ)
bench_insert_deque t keys = timed t (some (push_all keys []))

unfoldable pub bench_lookup_vector : Clock → List ℤ → List ℤ → Option (ℤ × ℤ)
bench_lookup_vector t sorted_v q = timed t (sum_found 31 (lower_bound sorted_v) q (pos 0))

unfoldable pub bench_lookup_map : Clock → List (ℤ × ℤ) → List ℤ → Option (ℤ × ℤ)
bench_lookup_map t c q = timed t (sum_found 31 (search_map (std_map ℤ) c) q (pos 0))

unfoldable pub bench_lookup_umap : (m : MapOps ℤ) → Clock → m.Carrier → List ℤ → Option (ℤ × ℤ)
bench_lookup_umap m t c q = timed t (sum_found 31 (search_map m c) q (pos 0))

-- LINEAR_SCAN_CAP
abbrev pub linear_scan_cap : ℤ
linear_scan_cap = pos 1000

-- `std::min((int)q.size(), LINEAR_SCAN_CAP)`
unfoldable pub limit_of : List ℤ → ℤ
limit_of q =
    let size = int_of_size (length q) in
    if ltb_ℤ linear_scan_cap size then linear_scan_cap else size

-- The loop runs `limit` rounds, none for a negative limit.
unfoldable pub bench_lookup_list : Clock → List ℤ → List ℤ → Option (ℤ × ℤ)
bench_lookup_list t l q = do
  (ns, sum) ← timed t (sum_found 31 (linear_find l) (take (pos_part (limit_of q)) q) (pos 0))
  factor ← int_div (int_of_size (length q)) (limit_of q)
  total ← long_mul ns factor
  some (total, sum)

unfoldable pub bench_lookup_deque : Clock → List ℤ → List ℤ → Option (ℤ × ℤ)
bench_lookup_deque t d q = do
  (ns, sum) ← timed t (sum_found 31 (linear_find d) (take (pos_part (limit_of q)) q) (pos 0))
  factor ← int_div (int_of_size (length q)) (limit_of q)
  total ← long_mul ns factor
  some (total, sum)

unfoldable pub bench_iter_vector : Clock → List ℤ → Option (ℤ × ℤ)
bench_iter_vector t v = timed t (sum_all 31 v (pos 0))

unfoldable pub values_of : {V : Type 0} → List (ℤ × V) → List V
values_of [] = []
values_of ((k, v) ∷ m) = v ∷ values_of m

unfoldable pub bench_iter_map : Clock → List (ℤ × ℤ) → Option (ℤ × ℤ)
bench_iter_map t c = timed t (sum_all 31 (values_of c) (pos 0))

unfoldable pub bench_iter_umap : (m : MapOps ℤ) → Clock → m.Carrier → Option (ℤ × ℤ)
bench_iter_umap m t c = timed t (sum_all 31 (values_of (m.entries c)) (pos 0))

unfoldable pub bench_iter_list : Clock → List ℤ → Option (ℤ × ℤ)
bench_iter_list t l = timed t (sum_all 31 l (pos 0))

unfoldable pub bench_iter_deque : Clock → List ℤ → Option (ℤ × ℤ)
bench_iter_deque t d = timed t (sum_all 31 d (pos 0))

-- boost::unordered_flat_map. `reserve` is outside the timed section.
unfoldable pub bench_insert_uflat : (m : MapOps ℤ) → Clock → List ℤ → Option (ℤ × m.Carrier)
bench_insert_uflat m t keys =
    timed t (some (insert_all m (λ k. k) keys (m.reserve (length keys) m.empty)))

unfoldable pub bench_lookup_uflat : (m : MapOps ℤ) → Clock → m.Carrier → List ℤ → Option (ℤ × ℤ)
bench_lookup_uflat m t c q = timed t (sum_found 63 (search_map m c) q (pos 0))

unfoldable pub bench_iter_uflat : (m : MapOps ℤ) → Clock → m.Carrier → Option (ℤ × ℤ)
bench_iter_uflat m t c = timed t (sum_all 63 (values_of (m.entries c)) (pos 0))

-- boost::container::flat_map
unfoldable pub bench_insert_flatmap : (m : MapOps ℤ) → Clock → List ℤ → Option (ℤ × m.Carrier)
bench_insert_flatmap m t keys =
    timed t (some (insert_all m (λ k. k) keys (m.reserve (length keys) m.empty)))

unfoldable pub bench_lookup_flatmap : (m : MapOps ℤ) → Clock → m.Carrier → List ℤ → Option (ℤ × ℤ)
bench_lookup_flatmap m t c q = timed t (sum_found 63 (search_map m c) q (pos 0))

unfoldable pub bench_iter_flatmap : (m : MapOps ℤ) → Clock → m.Carrier → Option (ℤ × ℤ)
bench_iter_flatmap m t c = timed t (sum_all 63 (values_of (m.entries c)) (pos 0))

-- boost::unordered_node_map
unfoldable pub bench_insert_node_map : (m : MapOps ℤ) → Clock → List ℤ → Option (ℤ × m.Carrier)
bench_insert_node_map m t keys =
    timed t (some (insert_all m (λ k. k) keys (m.reserve (length keys) m.empty)))

unfoldable pub bench_lookup_node_map : (m : MapOps ℤ) → Clock → m.Carrier → List ℤ → Option (ℤ × ℤ)
bench_lookup_node_map m t c q = timed t (sum_found 63 (search_map m c) q (pos 0))

unfoldable pub bench_iter_node_map : (m : MapOps ℤ) → Clock → m.Carrier → Option (ℤ × ℤ)
bench_iter_node_map m t c = timed t (sum_all 63 (values_of (m.entries c)) (pos 0))

-- boost::unordered_flat_map<int, unique_ptr<int>>; make_unique never gives nullptr.
unfoldable pub bench_insert_uflat_ptr :
    (m : MapOps (Option ℤ)) → Clock → List ℤ → Option (ℤ × m.Carrier)
bench_insert_uflat_ptr m t keys =
    timed t (some (insert_all m some keys (m.reserve (length keys) m.empty)))

unfoldable pub bench_lookup_uflat_ptr :
    (m : MapOps (Option ℤ)) → Clock → m.Carrier → List ℤ → Option (ℤ × ℤ)
bench_lookup_uflat_ptr m t c q = timed t (sum_found 63 (search_ptr m c) q (pos 0))

unfoldable pub bench_iter_uflat_ptr : (m : MapOps (Option ℤ)) → Clock → m.Carrier → Option (ℤ × ℤ)
bench_iter_uflat_ptr m t c = timed t (sum_ptrs (values_of (m.entries c)) (pos 0))
