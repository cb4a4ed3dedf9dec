-- ===== src/ContainerBenchmark/Program.antt =====
-- main() of bench_containers.cpp: the data, the benchmarks in order, and the rows of the table. What
-- is not in this repository is a parameter: the random shuffle, the maps, and the clock, which is
-- read at the start and at the end of every benchmark. Numbers of type double are an interface.
use Prim.Native.String.{String}
use mathlib.Core.List.{Permᴰ}
use syseng.Base.{ℕ, ◌+◌, ◌*◌, Option, none, some, List, [], ◌∷◌, length, ◌>>=◌}
use syseng.Base.Int.{ℤ, pos, negsuc}
use syseng.Base.Doubles.{Doubles}
use syseng.ContainerBenchmark.Machine.{Clock}
use syseng.ContainerBenchmark.Containers.{MapOps, MapLaws, std_map, sort, iota}
use syseng.ContainerBenchmark.Bench.{
  push_all, insert_all, bench_insert_vector, bench_lookup_vector, bench_iter_vector,
  bench_insert_map, bench_lookup_map, bench_iter_map, bench_insert_umap, bench_lookup_umap,
  bench_iter_umap, bench_insert_list, bench_lookup_list, bench_iter_list, bench_insert_deque,
  bench_lookup_deque, bench_iter_deque, bench_insert_uflat, bench_lookup_uflat, bench_iter_uflat,
  bench_insert_flatmap, bench_lookup_flatmap, bench_iter_flatmap, bench_insert_uflat_ptr,
  bench_lookup_uflat_ptr, bench_iter_uflat_ptr, bench_insert_node_map, bench_lookup_node_map,
  bench_iter_node_map,
}

pub record Env : Type 1 where
  pub Gen : Type 0
  -- std::mt19937 from a seed, and std::shuffle, which moves the generator on.
  pub mt19937 : ℕ → Gen
  pub shuffle : Gen → List ℤ → List ℤ × Gen
  pub umap : MapOps ℤ
  pub uflat : MapOps ℤ
  pub flatmap : MapOps ℤ
  pub uflat_ptr : MapOps (Option ℤ)
  pub node_map : MapOps ℤ
  -- The i-th reading of steady_clock, in nanoseconds.
  pub reading : ℕ → ℤ
  pub double : Doubles

pub record EnvLaws (env : Env) : Type 0 where
  pub shuffle-Perm : (g : env.Gen) (xs : List ℤ) → Permᴰ (env.shuffle g xs).0 xs
  pub umap-MapLaws : MapLaws env.umap
  pub uflat-MapLaws : MapLaws env.uflat
  pub flatmap-MapLaws : MapLaws env.flatmap
  pub uflat_ptr-MapLaws : MapLaws env.uflat_ptr
  pub node_map-MapLaws : MapLaws env.node_map

-- The static generators of the two functions, set when a function is first called.
pub record Statics (Gen : Type 0) : Type 0 where
  pub of_keys : Option Gen
  pub of_shuffled : Option Gen

-- The static generator as a call finds it.
abbrev pub generator : (env : Env) → Option env.Gen → env.Gen
generator env none = env.mt19937 42
generator env (some g) = g

-- A negative N is no size of a vector: the constructor throws.
unfoldable pub generate_keys : (env : Env) → ℤ → Statics env.Gen → Option (List ℤ × Statics env.Gen)
generate_keys env (negsuc n) st = none
generate_keys env (pos n) st =
    let (nums, g) = env.shuffle (generator env st.of_keys) (iota n 0) in
    some (nums, record st { of_keys = some g })

unfoldable pub generate_shuffled : (env : Env) → List ℤ → Statics env.Gen → List ℤ × Statics env.Gen
generate_shuffled env keys st =
    let (shuffled_keys, g) = env.shuffle (generator env st.of_shuffled) keys in
    (shuffled_keys, record st { of_shuffled = some g })

-- What the clock reads around the i-th benchmark.
abbrev pub clock : Env → ℕ → Clock
clock env i = record { begin = env.reading (2 * i); finish = env.reading (2 * i + 1) }

-- What row() prints of one container: the times per element, in nanoseconds.
pub record Row (f : Doubles) : Type 0 where
  pub name : String
  pub ins : f.Carrier
  pub look : f.Carrier
  pub iter : f.Carrier

-- row(), which divides by the N that it captures.
unfoldable pub row : (f : Doubles) → ℤ → String → ℤ → ℤ → ℤ → Row f
row f n name ins look iter =
    let per_element = λ (t : ℤ). f.div (f.of_int t) (f.of_int n) in
    record { name = name; ins = per_element ins; look = per_element look; iter = per_element iter }

-- One container's three times, in the order of its section of main().
pub record Times : Type 0 where
  pub ins : ℤ
  pub look : ℤ
  pub iter : ℤ

unfoldable pub vector_section : (env : Env) → List ℤ → List ℤ → Option Times
vector_section env keys queries = do
  (v_ins, _) ← bench_insert_vector (clock env 0) keys
  let sorted_v = sort keys
  (v_look, _) ← bench_lookup_vector (clock env 1) sorted_v queries
  (v_iter, _) ← bench_iter_vector (clock env 2) sorted_v
  some (record { ins = v_ins; look = v_look; iter = v_iter })

unfoldable pub map_section : (env : Env) → List ℤ → List ℤ → Option Times
map_section env keys queries = do
  (m_ins, _) ← bench_insert_map (clock env 3) keys
  let map_m = insert_all (std_map ℤ) (λ k. k) keys []
  (m_look, _) ← bench_lookup_map (clock env 4) map_m queries
  (m_iter, _) ← bench_iter_map (clock env 5) map_m
  some (record { ins = m_ins; look = m_look; iter = m_iter })

unfoldable pub umap_section : (env : Env) → List ℤ → List ℤ → Option Times
umap_section env keys queries = do
  (h_ins, _) ← bench_insert_umap env.umap (clock env 6) keys
  let umap_h = insert_all env.umap (λ k. k) keys env.umap.empty
  (h_look, _) ← bench_lookup_umap env.umap (clock env 7) umap_h queries
  (h_iter, _) ← bench_iter_umap env.umap (clock env 8) umap_h
  some (record { ins = h_ins; look = h_look; iter = h_iter })

unfoldable pub list_section : (env : Env) → List ℤ → List ℤ → Option Times
list_section env keys queries = do
  (l_ins, _) ← bench_insert_list (clock env 9) keys
  let list_l = push_all keys []
  (l_look, _) ← bench_lookup_list (clock env 10) list_l queries
  (l_iter, _) ← bench_iter_list (clock env 11) list_l
  some (record { ins = l_ins; look = l_look; iter = l_iter })

unfoldable pub deque_section : (env : Env) → List ℤ → List ℤ → Option Times
deque_section env keys queries = do
  (d_ins, _) ← bench_insert_deque (clock env 12) keys
  let deque_d = push_all keys []
  (d_look, _) ← bench_lookup_deque (clock env 13) deque_d queries
  (d_iter, _) ← bench_iter_deque (clock env 14) deque_d
  some (record { ins = d_ins; look = d_look; iter = d_iter })

unfoldable pub uflat_section : (env : Env) → List ℤ → List ℤ → Option Times
uflat_section env keys queries = do
  (uf_ins, _) ← bench_insert_uflat env.uflat (clock env 15) keys
  let uflat_h = insert_all env.uflat (λ k. k) keys (env.uflat.reserve (length keys) env.uflat.empty)
  (uf_look, _) ← bench_lookup_uflat env.uflat (clock env 16) uflat_h queries
  (uf_iter, _) ← bench_iter_uflat env.uflat (clock env 17) uflat_h
  some (record { ins = uf_ins; look = uf_look; iter = uf_iter })

unfoldable pub flatmap_section : (env : Env) → List ℤ → List ℤ → Option Times
flatmap_section env keys queries = do
  (fm_ins, _) ← bench_insert_flatmap env.flatmap (clock env 18) keys
  let flat_m =
      insert_all env.flatmap (λ k. k) keys (env.flatmap.reserve (length keys) env.flatmap.empty)
  (fm_look, _) ← bench_lookup_flatmap env.flatmap (clock env 19) flat_m queries
  (fm_iter, _) ← bench_iter_flatmap env.flatmap (clock env 20) flat_m
  some (record { ins = fm_ins; look = fm_look; iter = fm_iter })

unfoldable pub uflat_ptr_section : (env : Env) → List ℤ → List ℤ → Option Times
uflat_ptr_section env keys queries = do
  (ufp_ins, _) ← bench_insert_uflat_ptr env.uflat_ptr (clock env 21) keys
  let uflat_ptr_h =
      insert_all env.uflat_ptr some keys (env.uflat_ptr.reserve (length keys) env.uflat_ptr.empty)
  (ufp_look, _) ← bench_lookup_uflat_ptr env.uflat_ptr (clock env 22) uflat_ptr_h queries
  (ufp_iter, _) ← bench_iter_uflat_ptr env.uflat_ptr (clock env 23) uflat_ptr_h
  some (record { ins = ufp_ins; look = ufp_look; iter = ufp_iter })

unfoldable pub node_map_section : (env : Env) → List ℤ → List ℤ → Option Times
node_map_section env keys queries = do
  (nm_ins, _) ← bench_insert_node_map env.node_map (clock env 24) keys
  let node_h =
      insert_all env.node_map (λ k. k) keys (env.node_map.reserve (length keys) env.node_map.empty)
  (nm_look, _) ← bench_lookup_node_map env.node_map (clock env 25) node_h queries
  (nm_iter, _) ← bench_iter_node_map env.node_map (clock env 26) node_h
  some (record { ins = nm_ins; look = nm_look; iter = nm_iter })

unfoldable pub row_of : (env : Env) → ℤ → String → Times → Row env.double
row_of env n name t = row env.double n name t.ins t.look t.iter

-- The body of main() below the constant N, for any N. The times of the map of pointers are taken, and not printed.
unfoldable pub main_for : (env : Env) → ℤ → Option (List (Row env.double))
main_for env n = do
  (keys, st) ← generate_keys env n (record { of_keys = none; of_shuffled = none })
  let (queries, _) = generate_shuffled env keys st
  v ← vector_section env keys queries
  m ← map_section env keys queries
  h ← umap_section env keys queries
  l ← list_section env keys queries
  d ← deque_section env keys queries
  uf ← uflat_section env keys queries
  fm ← flatmap_section env keys queries
  ufp ← uflat_ptr_section env keys queries
  nm ← node_map_section env keys queries
  some (
      row_of env n "std::list" l
      ∷ row_of env n "std::deque" d
      ∷ row_of env n "vector+lower_bound" v
      ∷ row_of env n "std::map" m
      ∷ row_of env n "unordered_map" h
      ∷ row_of env n "boost::unord_flat_map" uf
      ∷ row_of env n "boost::flat_map" fm
      ∷ row_of env n "boost::node_map (heap allocation)" nm
      ∷ [])

-- `const int N = 1'000'000`
abbrev pub num_keys : ℤ
num_keys = pos 1000000

unfoldable pub main : (env : Env) → Option (List (Row env.double))
main env = main_for env num_keys
