-- ===== src/TestTools/Ranks.antt =====
-- The place of a number among the samples of tools/common.hpp: how many are below and above it.
use mathlib.Core.List.{Permᴰ}
use syseng.Base.{
  ℕ, zero, suc, ◌+◌, ◌<◌, ◌≤◌, ◌≡◌, refl, ap, ◌∙◌, Bool, true, false, some, List, [], ◌∷◌, length,
  get_elem?, if◌then◌else◌, arith, subst,
}
use syseng.Base.Int.{ℤ, ltb_ℤ}
use syseng.ContainerBenchmark.Containers.{none_less}
use syseng.ContainerBenchmark.Search.{IsSorted}

none_less-get :
    (v : ℤ) (xs : List ℤ) (j : ℕ) {w : ℤ}
    → none_less v xs ≡ true
    → get_elem? xs j ≡ some w
    → ltb_ℤ w v ≡ false
unfolding none_less
none_less-get v [] j h g = absurd (cc)
none_less-get v (x ∷ xs) zero h g = ground arith
none_less-get v (x ∷ xs) (suc j) h g = none_less-get v xs j (ground arith) g

-- In a sorted list a later element is not less.
pub IsSorted-get :
    (xs : List ℤ) (i j : ℕ) {v w : ℤ}
    → IsSorted xs
    → i ≤ j
    → get_elem? xs i ≡ some v
    → get_elem? xs j ≡ some w
    → ltb_ℤ w v ≡ false
unfolding IsSorted
IsSorted-get [] i j s le g h = absurd (cc)
IsSorted-get (x ∷ xs) zero zero s le g h = ground arith
IsSorted-get (x ∷ xs) zero (suc j) s le g h = ground (arith, none_less-get x xs j s.0 h)
IsSorted-get (x ∷ xs) (suc i) zero s le g h = absurd (omega arith)
IsSorted-get (x ∷ xs) (suc i) (suc j) s le g h = IsSorted-get xs i j s.1 (omega arith) g h

-- How many numbers satisfy a test.
abbrev pub weight : (ℤ → Bool) → ℤ → ℕ
weight p x = if p x then 1 else 0

unfoldable pub count : (ℤ → Bool) → List ℤ → ℕ
count p [] = 0
count p (x ∷ xs) = weight p x + count p xs

abbrev pub count_below : ℤ → List ℤ → ℕ
count_below v xs = count (λ x. ltb_ℤ x v) xs

abbrev pub count_above : ℤ → List ℤ → ℕ
count_above v xs = count (λ x. ltb_ℤ v x) xs

pub count-Perm : (p : ℤ → Bool) {xs ys : List ℤ} → Permᴰ xs ys → count p xs ≡ count p ys
unfolding count
count-Perm p Permᴰ.nil = refl
count-Perm p (Permᴰ.cons e q) = omega (arith, ap (weight p) e, count-Perm p q)
count-Perm p (Permᴰ.swap e f) = omega (arith, ap (weight p) e, ap (weight p) f)
count-Perm p (Permᴰ.trans q r) = count-Perm p q ∙ count-Perm p r

count-le : (p : ℤ → Bool) (xs : List ℤ) → count p xs ≤ length xs
unfolding count
count-le p [] = omega arith
count-le p (x ∷ xs) = ground (arith, count-le p xs)

none_less-count_below : (v : ℤ) (xs : List ℤ) → none_less v xs ≡ true → count_below v xs ≡ 0
unfolding none_less count
none_less-count_below v [] h = refl
none_less-count_below v (x ∷ xs) h = ground (arith, none_less-count_below v xs)

-- In a sorted list as many elements as stand before one can be less, and as many as stand behind it
-- greater.
pub IsSorted-count :
    (xs : List ℤ) (i : ℕ) {v : ℤ}
    → IsSorted xs
    → get_elem? xs i ≡ some v
    → (count_below v xs ≤ i) × (count_above v xs + i < length xs)
unfolding IsSorted count
IsSorted-count [] i s h = absurd (cc)
IsSorted-count (x ∷ xs) zero {v} s h =
    let same : x ≡ v = cc in
    let least : none_less v xs ≡ true = subst (λ y. none_less y xs ≡ true) same s.0 in
    let none_below = none_less-count_below v xs least in
    let few = count-le (λ y. ltb_ℤ v y) xs in
    (ground (arith, none_below, same), ground (arith, few, same))
IsSorted-count (x ∷ xs) (suc i) {v} s h =
    let rest = IsSorted-count xs i s.1 h in
    let not_above = none_less-get x xs i s.0 h in
    (ground (arith, rest.0), ground (arith, rest.1, not_above))
