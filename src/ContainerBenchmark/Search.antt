-- ===== src/ContainerBenchmark/Search.antt =====
-- What the searches of bench_containers.cpp find for a key that is present.
use mathlib.Core.List.{append-nil, append_assoc}
use syseng.Base.{
  ◌≡◌, refl, sym, ap, ◌∙◌, true, false, ◌&&◌, ◌||◌, not, none, some, inl, inr, List, [], ◌∷◌, ◌++◌,
  if◌then◌else◌, arith, Bool-cases,
}
use syseng.Base.Int.{ℤ, ltb_ℤ, eqb_ℤ}
use syseng.ContainerBenchmark.Containers.{
  MapOps, MapLaws, insert_sorted, sort, none_less, lower_bound, linear_find, contains, distinct,
}
use syseng.ContainerBenchmark.Bench.{push_all, insert_all}

pub eqb_ℤ→eq : (a b : ℤ) → eqb_ℤ a b ≡ true → a ≡ b
eqb_ℤ→eq a b h = ground arith

contains-insert_sorted :
    (k v : ℤ) (xs : List ℤ) → contains k (insert_sorted v xs) ≡ (eqb_ℤ v k || contains k xs)
unfolding contains insert_sorted
contains-insert_sorted k v [] = refl
contains-insert_sorted k v (x ∷ xs) = ground (arith, contains-insert_sorted k v xs)

pub contains-sort : (k : ℤ) (xs : List ℤ) → contains k (sort xs) ≡ contains k xs
unfolding contains sort
contains-sort k [] = refl
contains-sort k (x ∷ xs) =
    contains-insert_sorted k x (sort xs) ∙ ap (λ r. eqb_ℤ x k || r) (contains-sort k xs)

unfoldable pub IsSorted : List ℤ → Type 0
IsSorted [] = Unit
IsSorted (x ∷ xs) = (none_less x xs ≡ true) × IsSorted xs

none_less-insert_sorted :
    (u v : ℤ) (xs : List ℤ) → none_less u (insert_sorted v xs) ≡ (not (ltb_ℤ v u) && none_less u xs)
unfolding none_less insert_sorted
none_less-insert_sorted u v [] = refl
none_less-insert_sorted u v (x ∷ xs) = ground (arith, none_less-insert_sorted u v xs)

none_less_trans :
    (u v : ℤ) (xs : List ℤ) → ltb_ℤ v u ≡ false → none_less v xs ≡ true → none_less u xs ≡ true
unfolding none_less
none_less_trans u v [] h g = refl
none_less_trans u v (x ∷ xs) h g = ground (arith, none_less_trans u v xs h)

none_less-contains :
    (u k : ℤ) (xs : List ℤ) → none_less u xs ≡ true → contains k xs ≡ true → ltb_ℤ k u ≡ false
unfolding none_less contains
none_less-contains u k [] h g = absurd (cc)
none_less-contains u k (x ∷ xs) h g = ground (arith, none_less-contains u k xs)

insert_sorted-IsSorted : (v : ℤ) (xs : List ℤ) → IsSorted xs → IsSorted (insert_sorted v xs)
unfolding IsSorted none_less insert_sorted
insert_sorted-IsSorted v [] h = (refl, tt)
insert_sorted-IsSorted v (x ∷ xs) h = elim (Bool-cases (ltb_ℤ x v)) [
  | inl less ↦
      let smallest : none_less x (insert_sorted v xs) ≡ true =
        ground (arith, none_less-insert_sorted x v xs) in
      let sorted = insert_sorted-IsSorted v xs h.1 in
      let both : IsSorted (x ∷ insert_sorted v xs) = (smallest, sorted) in rw less both
  | inr not_less ↦
      let smallest : none_less v (x ∷ xs) ≡ true =
        ground (arith, none_less_trans v x xs not_less) in
      let both : IsSorted (v ∷ x ∷ xs) = (smallest, h) in rw not_less both
]

pub sort-IsSorted : (xs : List ℤ) → IsSorted (sort xs)
unfolding IsSorted sort
sort-IsSorted [] = tt
sort-IsSorted (x ∷ xs) = insert_sorted-IsSorted x (sort xs) (sort-IsSorted xs)

pub lower_bound-found :
    (k : ℤ) (xs : List ℤ) → IsSorted xs → contains k xs ≡ true → lower_bound xs k ≡ some (some k)
unfolding IsSorted lower_bound contains
lower_bound-found k [] h g = absurd (cc)
lower_bound-found k (x ∷ xs) h g = ground (
  arith,
  lower_bound-found k xs h.1,
  none_less-contains x k xs h.0,
  none_less_trans k x xs,
  eqb_ℤ→eq x k,
)

pub linear_find-found :
    (k : ℤ) (xs : List ℤ) → contains k xs ≡ true → linear_find xs k ≡ some (some k)
unfolding linear_find contains
linear_find-found k [] h = absurd (cc)
linear_find-found k (x ∷ xs) h = ground (arith, linear_find-found k xs, eqb_ℤ→eq x k)

-- A loop of push_back appends.
pub push_all-append : (keys vec : List ℤ) → push_all keys vec ≡ vec ++ keys
unfolding push_all
push_all-append [] vec = sym (append-nil vec)
push_all-append (k ∷ keys) vec =
    push_all-append keys (vec ++ k ∷ []) ∙ append_assoc vec (k ∷ []) keys

-- A map that satisfies the interface's laws.
module _ {V : Type 0} (m : MapOps V) (laws : MapLaws m) (value : ℤ → V) where
  -- After the loop over distinct keys that were absent, a key of them is found with its value and
  -- another one as before.
  pub find-insert_all :
      (keys : List ℤ) (c : m.Carrier) (j : ℤ)
      → distinct keys ≡ true
      → ((k : ℤ) → contains k keys ≡ true → m.find k c ≡ none)
      → m.find j (insert_all m value keys c)
        ≡ (if contains j keys then some (value j) else m.find j c)
  unfolding insert_all contains distinct
  find-insert_all [] c j d absent = refl
  find-insert_all (k ∷ keys) c j d absent =
      let inserted = λ (i : ℤ). laws.find-insert k i (value k) c (absent k (ground arith)) in
      let there = λ (i : ℤ) (h : contains i keys ≡ true). absent i (ground arith) in
      find-insert_all keys (m.insert k (value k) c) j (ground arith)
        (λ i h. ground (arith, inserted i, eqb_ℤ→eq k i, there i h))
      ∙ ground (arith, inserted j, eqb_ℤ→eq k j)
