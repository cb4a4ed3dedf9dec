-- ===== src/ContainerBenchmark/Values.antt =====
-- The values that the iteration benchmarks of bench_containers.cpp meet.
use mathlib.Core.List.{Permᴰ, append-nil}
use mathlib.Core.List.Permᴰ
use syseng.Base.{
  ℕ, ◌+◌, ◌^◌, ◌<◌, ◌≡◌, refl, sym, ap, ◌∙◌, Bool, true, false, ◌&&◌, Option, none, some, List, [],
  ◌∷◌, ◌++◌, arith, map, Bool-cases, inl, inr, subst,
}
use syseng.Base.Int.{ℤ, pos, negsuc, ltb_ℤ, pos_part}
use syseng.Base.CInt.{exact}
use syseng.ContainerBenchmark.Containers.{MapOps, MapLaws, insert_sorted, sort, contains, distinct}
use syseng.ContainerBenchmark.Bench.{insert_all, values_of, sum_ptrs}
use syseng.ContainerBenchmark.Search.{eqb_ℤ→eq}
use syseng.ContainerBenchmark.Sums.{naturals, total, is_natural, add_pos}

insert_sorted-Perm : (v : ℤ) (xs : List ℤ) → Permᴰ (insert_sorted v xs) (v ∷ xs)
unfolding insert_sorted
insert_sorted-Perm v [] = Permᴰ.refl (v ∷ [])
insert_sorted-Perm v (x ∷ xs) = elim (Bool-cases (ltb_ℤ x v)) [
  | inl less ↦
      let swapped : Permᴰ (x ∷ insert_sorted v xs) (v ∷ x ∷ xs) =
        Permᴰ.trans (Permᴰ.cons refl (insert_sorted-Perm v xs)) (Permᴰ.swap refl refl) in
      rw less swapped
  | inr not_less ↦ rw not_less (Permᴰ.refl (v ∷ x ∷ xs))
]

pub sort-Perm : (xs : List ℤ) → Permᴰ (sort xs) xs
unfolding sort
sort-Perm [] = Permᴰ.nil
sort-Perm (x ∷ xs) = Permᴰ.trans (insert_sorted-Perm x (sort xs)) (Permᴰ.cons refl (sort-Perm xs))

module _ {V : Type 0} where
  values_of-Perm : {xs ys : List (ℤ × V)} → Permᴰ xs ys → Permᴰ (values_of xs) (values_of ys)
  unfolding values_of
  values_of-Perm Permᴰ.nil = Permᴰ.nil
  values_of-Perm (Permᴰ.cons e p) = Permᴰ.cons (ap (λ x. x.1) e) (values_of-Perm p)
  values_of-Perm (Permᴰ.swap e f) = Permᴰ.swap (ap (λ x. x.1) e) (ap (λ x. x.1) f)
  values_of-Perm (Permᴰ.trans p q) = Permᴰ.trans (values_of-Perm p) (values_of-Perm q)

  -- The loop over distinct keys that were absent adds their values.
  insert_all-Perm :
      (m : MapOps V)
      → MapLaws m
      → (value : ℤ → V) (keys : List ℤ) (c : m.Carrier) → distinct keys ≡ true
      → ((k : ℤ) → contains k keys ≡ true → m.find k c ≡ none)
      → Permᴰ
          (values_of (m.entries (insert_all m value keys c)))
          (map value keys ++ values_of (m.entries c))
  unfolding insert_all distinct contains values_of
  insert_all-Perm m laws value [] c d absent = Permᴰ.refl (values_of (m.entries c))
  insert_all-Perm m laws value (k ∷ keys) c d absent =
      let here : m.find k c ≡ none = absent k (ground arith) in
      let inserted = λ (i : ℤ). laws.find-insert k i (value k) c here in
      let later = λ (i : ℤ) (h : contains i keys ≡ true). absent i (ground arith) in
      Permᴰ.trans
        (insert_all-Perm m laws value keys (m.insert k (value k) c) (ground arith)
          (λ i h. ground (arith, inserted i, eqb_ℤ→eq k i, later i h)))
        (Permᴰ.trans
          (Permᴰ.append_left (map value keys)
            (values_of-Perm (laws.entries-insert k (value k) c here)))
          (Permᴰ.middle (value k) (map value keys) (values_of (m.entries c))))

  -- From a map without keys and entries the values are those of the keys.
  pub insert_all_fresh-Perm :
      (m : MapOps V)
      → MapLaws m
      → (value : ℤ → V) (keys : List ℤ) (c : m.Carrier) → distinct keys ≡ true
      → ((k : ℤ) → m.find k c ≡ none)
      → Permᴰ (m.entries c) []
      → Permᴰ (values_of (m.entries (insert_all m value keys c))) (map value keys)
  unfolding values_of
  insert_all_fresh-Perm m laws value keys c d fresh bare =
      let nothing : Permᴰ (values_of (m.entries c)) [] = values_of-Perm bare in
      let all = insert_all-Perm m laws value keys c d (λ k _. fresh k) in
      subst (λ xs. Permᴰ (values_of (m.entries (insert_all m value keys c))) xs)
        (append-nil (map value keys)) (Permᴰ.trans all (Permᴰ.append_left (map value keys) nothing))

pub map_id : (keys : List ℤ) → map (λ k. k) keys ≡ keys
map_id [] = refl
map_id (k ∷ keys) = ap (λ r. k ∷ r) (map_id keys)

-- Boost's maps are reserved before they are filled.
module _ {V : Type 0} (m : MapOps V) (laws : MapLaws m) where
  pub empty_bare : Permᴰ (m.entries m.empty) []
  empty_bare = subst (λ xs. Permᴰ xs []) (sym laws.entries-empty) Permᴰ.nil

  pub reserved_fresh : (n : ℕ) (k : ℤ) → m.find k (m.reserve n m.empty) ≡ none
  reserved_fresh n k = laws.find-reserve k n m.empty ∙ laws.find-empty k

  pub reserved_bare : (n : ℕ) → Permᴰ (m.entries (m.reserve n m.empty)) []
  reserved_bare n = Permᴰ.trans (laws.entries-reserve n m.empty) empty_bare

abbrev is_natural_ptr : Option ℤ → Bool
is_natural_ptr none = false
is_natural_ptr (some v) = is_natural v

abbrev owned_value : Option ℤ → ℕ
owned_value none = 0
owned_value (some v) = pos_part v

-- No pointer is null, and no value negative.
unfoldable natural_ptrs : List (Option ℤ) → Bool
natural_ptrs [] = true
natural_ptrs (p ∷ ps) = is_natural_ptr p && natural_ptrs ps

unfoldable total_ptrs : List (Option ℤ) → ℕ
total_ptrs [] = 0
total_ptrs (p ∷ ps) = owned_value p + total_ptrs ps

natural_ptrs-Perm : {xs ys : List (Option ℤ)} → Permᴰ xs ys → natural_ptrs xs ≡ natural_ptrs ys
unfolding natural_ptrs
natural_ptrs-Perm Permᴰ.nil = refl
natural_ptrs-Perm (Permᴰ.cons e p) = λ i. is_natural_ptr (e i) && natural_ptrs-Perm p i
natural_ptrs-Perm (Permᴰ.swap e f) = ground (arith, ap is_natural_ptr e, ap is_natural_ptr f)
natural_ptrs-Perm (Permᴰ.trans p q) = natural_ptrs-Perm p ∙ natural_ptrs-Perm q

total_ptrs-Perm : {xs ys : List (Option ℤ)} → Permᴰ xs ys → total_ptrs xs ≡ total_ptrs ys
unfolding total_ptrs
total_ptrs-Perm Permᴰ.nil = refl
total_ptrs-Perm (Permᴰ.cons e p) = omega (arith, ap owned_value e, total_ptrs-Perm p)
total_ptrs-Perm (Permᴰ.swap e f) = omega (arith, ap owned_value e, ap owned_value f)
total_ptrs-Perm (Permᴰ.trans p q) = total_ptrs-Perm p ∙ total_ptrs-Perm q

sum_ptrs-total :
    (ps : List (Option ℤ)) (a : ℕ)
    → a < 2 ^ 63
    → natural_ptrs ps ≡ true
    → sum_ptrs ps (pos a) ≡ exact 63 (pos (a + total_ptrs ps))
unfolding sum_ptrs natural_ptrs total_ptrs
sum_ptrs-total [] a small h = ground arith
sum_ptrs-total (none ∷ ps) a small h = absurd (cc)
sum_ptrs-total (some (negsuc n) ∷ ps) a small h = absurd (cc)
sum_ptrs-total (some (pos n) ∷ ps) a small h =
    ground (arith, add_pos 63 a n, sum_ptrs-total ps (a + n))

natural_ptrs-map : (keys : List ℤ) → natural_ptrs (map some keys) ≡ naturals keys
unfolding natural_ptrs naturals
natural_ptrs-map [] = refl
natural_ptrs-map (k ∷ keys) = λ i. is_natural k && natural_ptrs-map keys i

total_ptrs-map : (keys : List ℤ) → total_ptrs (map some keys) ≡ total keys
unfolding total_ptrs total
total_ptrs-map [] = refl
total_ptrs-map (k ∷ keys) = λ i. pos_part k + total_ptrs-map keys i

-- A loop over pointers to the keys, in some order, adds up the keys.
pub sum_ptrs_keys :
    (ps : List (Option ℤ)) (keys : List ℤ)
    → Permᴰ ps (map some keys)
    → naturals keys ≡ true
    → total keys < 2 ^ 63
    → sum_ptrs ps (pos 0) ≡ some (pos (total keys))
sum_ptrs_keys ps keys p h small =
    let same : total_ptrs ps ≡ total keys = total_ptrs-Perm p ∙ total_ptrs-map keys in
    let natural : natural_ptrs ps ≡ true = natural_ptrs-Perm p ∙ natural_ptrs-map keys ∙ h in
    sum_ptrs-total ps 0 (omega arith) natural ∙ ground (arith, same)
