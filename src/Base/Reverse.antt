-- ===== src/Base/Reverse.antt =====
-- The elements of a reversed list by native numbers.
use Prim.Native.Nat.{ℕ, zero, suc, ◌+◌, ◌-◌, ◌/◌, ◌<◌}
use mathlib.Core.Path.{◌≡◌}
use mathlib.Core.List.{List, [], ◌∷◌}
use mathlib.Core.List.{reverse_aux, reverse}
use mathlib.Core.Option.{some}
use native.Mathlib.Omega.{arith}
use syseng.Base.Tests.{ltb, if◌then◌else◌}
use syseng.Base.Lists.{length, get_elem?, All, get_elem?_ext, get_elem?-ge}

get_elem?-cons :
    {A : Type 0} (x : A) (xs : List A) (j : ℕ)
    → get_elem? (x ∷ xs) j ≡ (if ltb 0 j then get_elem? xs (j - 1) else some x)
get_elem?-cons x xs zero = ground arith
get_elem?-cons x xs (suc j) = ground arith

get_elem?-reverse_aux :
    {A : Type 0} (xs r : List A) (j : ℕ)
    → get_elem? (reverse_aux xs r) j ≡ (
        if ltb j (length xs) then get_elem? xs (length xs - 1 - j) else get_elem? r (j - length xs))
get_elem?-reverse_aux [] r j = ground arith
get_elem?-reverse_aux (x ∷ xs) r j = ground (
  arith,
  get_elem?-reverse_aux xs (x ∷ r) j,
  get_elem?-cons x r (j - length xs),
  get_elem?-cons x xs (length xs - j),
)

length-reverse_aux : {A : Type 0} (xs r : List A) → length (reverse_aux xs r) ≡ length xs + length r
length-reverse_aux [] r = omega arith
length-reverse_aux (x ∷ xs) r = omega (arith, length-reverse_aux xs (x ∷ r))

pub length-reverse : {A : Type 0} (xs : List A) → length (reverse xs) ≡ length xs
length-reverse xs = omega (arith, length-reverse_aux xs [])

pub get_elem?-reverse :
    {A : Type 0} (xs : List A) (j : ℕ)
    → j < length xs
    → get_elem? (reverse xs) j ≡ get_elem? xs (length xs - 1 - j)
get_elem?-reverse xs j lt = ground (arith, get_elem?-reverse_aux xs [] j)

All-reverse_aux :
    {A : Type 0} (P : A → Type 0) (xs r : List A) → All P xs → All P r → All P (reverse_aux xs r)
All-reverse_aux P [] r h k = k
All-reverse_aux P (x ∷ xs) r h k = All-reverse_aux P xs (x ∷ r) h.1 (h.0, k)

pub All-reverse : {A : Type 0} (P : A → Type 0) (xs : List A) → All P xs → All P (reverse xs)
All-reverse P xs h = All-reverse_aux P xs [] h tt

-- A list is its own reverse if its elements below the middle agree with those above.
pub reverse_of_halves :
    {A : Type 0} (xs : List A)
    → ((j : ℕ) → j < length xs / 2 → get_elem? xs j ≡ get_elem? xs (length xs - 1 - j))
    → reverse xs ≡ xs
reverse_of_halves xs h = get_elem?_ext (reverse xs) xs (λ j. ground (
  arith,
  get_elem?-reverse xs j,
  h j,
  h (length xs - 1 - j),
  get_elem?-ge (reverse xs) j,
  get_elem?-ge xs j,
  length-reverse xs,
))
