-- ===== src/Base/Lists.antt =====
-- Lists measured and indexed by native numbers, under the library's names, and predicates on them.
use Prim.Native.Nat.{ℕ, zero, suc, ◌+◌, ◌-◌, ◌≤◌, ◌<◌}
use mathlib.Core.Path.{◌≡◌, refl, ap}
use mathlib.Core.Logic.{◌≢◌}
use mathlib.Core.Bool.{Bool, ◌&&◌, ◌||◌}
use mathlib.Core.List.{List, [], ◌∷◌, ◌++◌}
use mathlib.Core.Option.{Option, none, some}
use syseng.Base.Tests.{ltb, leb, ◌==◌, if◌then◌else◌}
use native.Mathlib.Omega.{arith}

module _ {ℓ} {A : Type ℓ} where
  abbrev pub length : List A → ℕ
  length [] = 0
  length (x ∷ xs) = suc (length xs)

  abbrev pub get_elem? : List A → ℕ → Option A
  get_elem? [] i = none
  get_elem? (x ∷ xs) zero = some x
  get_elem? (x ∷ xs) (suc i) = get_elem? xs i

  -- A write out of bounds changes nothing.
  abbrev pub set : List A → ℕ → A → List A
  set [] i v = []
  set (x ∷ xs) zero v = v ∷ xs
  set (x ∷ xs) (suc i) v = x ∷ set xs i v

  abbrev pub take : ℕ → List A → List A
  take zero xs = []
  take (suc n) [] = []
  take (suc n) (x ∷ xs) = x ∷ take n xs

  abbrev pub drop : ℕ → List A → List A
  drop zero xs = xs
  drop (suc n) [] = []
  drop (suc n) (x ∷ xs) = drop n xs

  abbrev pub replicate : ℕ → A → List A
  replicate zero a = []
  replicate (suc n) a = a ∷ replicate n a

  pub length-append : (xs ys : List A) → length (xs ++ ys) ≡ length xs + length ys
  length-append [] ys = omega arith
  length-append (x ∷ xs) ys = omega (arith, length-append xs ys)

  pub length-replicate : (n : ℕ) (a : A) → length (replicate n a) ≡ n
  length-replicate zero a = refl
  length-replicate (suc n) a = ap suc (length-replicate n a)

  pub length-set : (xs : List A) (i : ℕ) (v : A) → length (set xs i v) ≡ length xs
  length-set [] i v = refl
  length-set (x ∷ xs) zero v = refl
  length-set (x ∷ xs) (suc i) v = ap suc (length-set xs i v)

  pub get_elem?-set_self :
      (xs : List A) (i : ℕ) (v : A) → i < length xs → get_elem? (set xs i v) i ≡ some v
  get_elem?-set_self [] i v h = elim h [ ]
  get_elem?-set_self (x ∷ xs) zero v h = refl
  get_elem?-set_self (x ∷ xs) (suc i) v h = get_elem?-set_self xs i v (omega arith)

  pub get_elem?-set_ne :
      (xs : List A) {i j : ℕ} (v : A) → i ≢ j → get_elem? (set xs i v) j ≡ get_elem? xs j
  get_elem?-set_ne [] v h = refl
  get_elem?-set_ne (x ∷ xs) {i = zero} {j = zero} v h = absurd (h refl)
  get_elem?-set_ne (x ∷ xs) {i = zero} {j = suc j} v h = refl
  get_elem?-set_ne (x ∷ xs) {i = suc i} {j = zero} v h = refl
  get_elem?-set_ne (x ∷ xs) {i = suc i} {j = suc j} v h = get_elem?-set_ne xs v (λ e. h (ap suc e))

  pub get_elem?-lt : (xs : List A) (i : ℕ) {v : A} → get_elem? xs i ≡ some v → i < length xs
  get_elem?-lt [] i h = absurd (cc)
  get_elem?-lt (x ∷ xs) zero h = omega arith
  get_elem?-lt (x ∷ xs) (suc i) h = omega (arith, get_elem?-lt xs i h)

  pub get_elem?-append_lt :
      (xs ys : List A) (i : ℕ) → i < length xs → get_elem? (xs ++ ys) i ≡ get_elem? xs i
  get_elem?-append_lt [] ys i h = elim h [ ]
  get_elem?-append_lt (x ∷ xs) ys zero h = refl
  get_elem?-append_lt (x ∷ xs) ys (suc i) h = get_elem?-append_lt xs ys i (omega arith)

  pub get_elem?-append_end :
      (xs : List A) (y : A) (i : ℕ) → i ≡ length xs → get_elem? (xs ++ y ∷ []) i ≡ some y
  get_elem?-append_end [] y zero h = refl
  get_elem?-append_end [] y (suc i) h = absurd (omega arith)
  get_elem?-append_end (x ∷ xs) y zero h = absurd (omega arith)
  get_elem?-append_end (x ∷ xs) y (suc i) h = get_elem?-append_end xs y i (omega arith)

  pub get_elem?-ge : (xs : List A) (i : ℕ) → length xs ≤ i → get_elem? xs i ≡ none
  get_elem?-ge [] i h = refl
  get_elem?-ge (x ∷ xs) zero h = absurd (omega arith)
  get_elem?-ge (x ∷ xs) (suc i) h = get_elem?-ge xs i (omega arith)

-- A predicate on every element, by recursion.
abbrev pub All {ℓ κ} : {A : Type ℓ} → (A → Type κ) → List A → Type κ
All P [] = Unit
All P (x ∷ xs) = P x × All P xs

-- Writing in one place what stands in another keeps it there, also if the places are one.
pub get_elem?-set_copy {ℓ} :
    {A : Type ℓ} (xs : List A) (i j : ℕ) (v : A)
    → get_elem? xs j ≡ some v
    → get_elem? (set xs i v) j ≡ some v
get_elem?-set_copy [] i j v h = h
get_elem?-set_copy (x ∷ xs) zero zero v h = refl
get_elem?-set_copy (x ∷ xs) zero (suc j) v h = h
get_elem?-set_copy (x ∷ xs) (suc i) zero v h = h
get_elem?-set_copy (x ∷ xs) (suc i) (suc j) v h = get_elem?-set_copy xs i j v h

-- A list that grows by one element while an older one is replaced.
module _ {ℓ} {A : Type ℓ} (xs : List A) (x y : A) (j : ℕ) (old : j < length xs) where
  pub get_elem?-grown_new : get_elem? (set (xs ++ x ∷ []) j y) (length xs) ≡ some x
  get_elem?-grown_new = ground (
    arith,
    get_elem?-set_ne (xs ++ x ∷ []) {i = j} {j = length xs} y,
    get_elem?-append_end xs x (length xs),
  )

  pub get_elem?-grown_old : get_elem? (set (xs ++ x ∷ []) j y) j ≡ some y
  get_elem?-grown_old =
      get_elem?-set_self (xs ++ x ∷ []) j y (omega (arith, length-append xs (x ∷ [])))

module _ {ℓ} {A : Type ℓ} where
  pub set_same : (xs : List A) (i : ℕ) {v : A} → get_elem? xs i ≡ some v → set xs i v ≡ xs
  set_same [] i h = refl
  set_same (x ∷ xs) zero h = ground arith
  set_same (x ∷ xs) (suc i) h = ap (λ r. x ∷ r) (set_same xs i h)

  pub set-set : (xs : List A) (i : ℕ) (v w : A) → set (set xs i v) i w ≡ set xs i w
  set-set [] i v w = refl
  set-set (x ∷ xs) zero v w = refl
  set-set (x ∷ xs) (suc i) v w = ap (λ r. x ∷ r) (set-set xs i v w)

  pub take_all :
      (k : ℕ) (xs ys : List A) → k ≡ length xs → k ≡ length ys → take k xs ++ drop k ys ≡ xs
  take_all zero [] [] h g = refl
  take_all zero (x ∷ xs) ys h g = absurd (omega arith)
  take_all zero [] (y ∷ ys) h g = absurd (omega arith)
  take_all (suc k) [] ys h g = absurd (omega arith)
  take_all (suc k) (x ∷ xs) [] h g = absurd (omega arith)
  take_all (suc k) (x ∷ xs) (y ∷ ys) h g =
      ap (λ r. x ∷ r) (take_all k xs ys (omega arith) (omega arith))

  -- Below the length there is an element.
  pub get_elem?-some : (xs : List A) (i : ℕ) → i < length xs → (v : A) × (get_elem? xs i ≡ some v)
  get_elem?-some [] i h = elim h [ ]
  get_elem?-some (x ∷ xs) zero h = (x, refl)
  get_elem?-some (x ∷ xs) (suc i) h = get_elem?-some xs i (omega arith)

pub set-append_end {ℓ} :
    {A : Type ℓ} (xs : List A) (x y : A) → set (xs ++ x ∷ []) (length xs) y ≡ xs ++ y ∷ []
set-append_end [] x y = refl
set-append_end (z ∷ xs) x y = ap (λ r. z ∷ r) (set-append_end xs x y)

pub get_elem?-set :
    {A : Type 0} (xs : List A) (i : ℕ) (v : A) (j : ℕ)
    → i < length xs
    → get_elem? (set xs i v) j ≡ (if j == i then some v else get_elem? xs j)
get_elem?-set xs i v j h =
    ground (arith, get_elem?-set_self xs i v h, get_elem?-set_ne xs {i = i} {j = j} v)

-- Lists with the same element at each place are equal.
pub get_elem?_ext :
    {A : Type 0} (xs ys : List A) → ((j : ℕ) → get_elem? xs j ≡ get_elem? ys j) → xs ≡ ys
get_elem?_ext [] [] h = refl
get_elem?_ext [] (y ∷ ys) h = let first = h 0 in absurd (cc)
get_elem?_ext (x ∷ xs) [] h = let first = h 0 in absurd (cc)
get_elem?_ext (x ∷ xs) (y ∷ ys) h =
    let first = h 0 in let rest = get_elem?_ext xs ys (λ j. h (suc j)) in cc

-- The places at a distance d from one of the ends of the first n, for i ≤ d < i + rounds.
abbrev pub swapped : ℕ → ℕ → ℕ → ℕ → Bool
swapped rounds i n j = (leb i j && ltb j (i + rounds)) || (leb (n - i - rounds) j && ltb j (n - i))
