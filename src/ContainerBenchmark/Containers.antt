-- ===== src/ContainerBenchmark/Containers.antt =====
-- The containers that bench_containers.cpp measures. std::vector, std::list and std::deque are the
-- list of their elements. The maps share an interface: std::map is implemented below, while
-- std::unordered_map, whose iteration order is not specified, and Boost's maps are parameters.
use mathlib.Core.List.{Permᴰ}
use syseng.Base.{
  ℕ, zero, suc, ◌≡◌, Bool, true, false, ◌&&◌, ◌||◌, not, Option, none, some, List, [], ◌∷◌,
  if◌then◌else◌,
}
use syseng.Base.Int.{ℤ, pos, ltb_ℤ, eqb_ℤ}

pub record MapOps (V : Type 0) : Type 1 where
  pub Carrier : Type 0
  pub empty : Carrier
  pub reserve : ℕ → Carrier → Carrier
  -- `m[k] = v` of the standard maps, `m.emplace(k, v)` of Boost's.
  pub insert : ℤ → V → Carrier → Carrier
  pub find : ℤ → Carrier → Option V
  -- What a loop over the map sees, in order.
  pub entries : Carrier → List (ℤ × V)

-- What the maps document of an insertion under a key that is absent.
pub record MapLaws {V : Type 0} (m : MapOps V) : Type 0 where
  pub find-empty : (k : ℤ) → m.find k m.empty ≡ none
  pub find-reserve : (k : ℤ) (n : ℕ) (c : m.Carrier) → m.find k (m.reserve n c) ≡ m.find k c
  pub find-insert :
      (k j : ℤ) (v : V) (c : m.Carrier)
      → m.find k c ≡ none
      → m.find j (m.insert k v c) ≡ (if eqb_ℤ k j then some v else m.find j c)
  pub entries-empty : m.entries m.empty ≡ []
  pub entries-reserve : (n : ℕ) (c : m.Carrier) → Permᴰ (m.entries (m.reserve n c)) (m.entries c)
  pub entries-insert :
      (k : ℤ) (v : V) (c : m.Carrier)
      → m.find k c ≡ none
      → Permᴰ (m.entries (m.insert k v c)) ((k, v) ∷ m.entries c)

module _ {V : Type 0} where
  -- `m[k] = v` on the sorted entries of a std::map.
  unfoldable pub assign : ℤ → V → List (ℤ × V) → List (ℤ × V)
  assign k v [] = (k, v) ∷ []
  assign k v ((j, w) ∷ m) =
      let rest = assign k v m in
      if ltb_ℤ k j then (k, v) ∷ (j, w) ∷ m else if eqb_ℤ k j then (k, v) ∷ m else (j, w) ∷ rest

  unfoldable pub find_entry : ℤ → List (ℤ × V) → Option V
  find_entry k [] = none
  find_entry k ((j, w) ∷ m) = let rest = find_entry k m in if eqb_ℤ j k then some w else rest

-- std::map
abbrev pub std_map : (V : Type 0) → MapOps V
std_map V = record {
  Carrier = List (ℤ × V);
  empty = [];
  reserve = λ n c. c;
  insert = assign;
  find = find_entry;
  entries = λ c. c;
}

-- std::sort, which on `int` has one possible result.
unfoldable pub insert_sorted : ℤ → List ℤ → List ℤ
insert_sorted v [] = v ∷ []
insert_sorted v (x ∷ xs) =
    let rest = insert_sorted v xs in if ltb_ℤ x v then x ∷ rest else v ∷ x ∷ xs

unfoldable pub sort : List ℤ → List ℤ
sort [] = []
sort (x ∷ xs) = insert_sorted x (sort xs)

-- The element std::lower_bound points to, if it is not the end. The range must be partitioned:
-- behind an element that is not less stands none that is less.
unfoldable pub none_less : ℤ → List ℤ → Bool
none_less v [] = true
none_less v (x ∷ xs) = not (ltb_ℤ x v) && none_less v xs

unfoldable pub lower_bound : List ℤ → ℤ → Option (Option ℤ)
lower_bound [] v = some none
lower_bound (x ∷ xs) v =
    let rest = lower_bound xs v in
    if ltb_ℤ x v then rest else if none_less v xs then some (some x) else none

-- The element std::find points to, if it is not the end.
unfoldable pub linear_find : List ℤ → ℤ → Option (Option ℤ)
linear_find [] v = some none
linear_find (x ∷ xs) v = let rest = linear_find xs v in if eqb_ℤ x v then some (some x) else rest

unfoldable pub contains : ℤ → List ℤ → Bool
contains k [] = false
contains k (x ∷ xs) = eqb_ℤ x k || contains k xs

unfoldable pub distinct : List ℤ → Bool
distinct [] = true
distinct (x ∷ xs) = not (contains x xs) && distinct xs

-- n values as std::iota writes them from `value` on.
unfoldable pub iota : ℕ → ℕ → List ℤ
iota zero value = []
iota (suc n) value = pos value ∷ iota n (suc value)
