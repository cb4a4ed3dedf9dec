-- ===== src/Hello/Numbers.antt =====
-- clamp and array_sum of hello.c.
use syseng.Base.{
  ap, ◌∙◌, take, get_elem?-some, ℕ, zero, suc, ◌+◌, ◌^◌, ◌≤◌, ◌<◌, ◌≡◌, refl, some, List, [], ◌∷◌,
  length, drop, get_elem?, arith,
}
use syseng.Base.CInt.{add}
use syseng.Base.Int.{
  ℤ, pos, negsuc, pos_part, neg_part, ◌+ℤ◌, ◌≤ℤ◌, +ℤ_parts, eq_of_parts, +ℤ_assoc,
}
use syseng.Hello.{max_of, min_of, clamp, sum_loop, array_sum}

-- For lo ≤ hi, clamp is the larger of lo and the smaller of the value and hi, it lies between the
-- bounds, and clamping again changes nothing.
clamp_lem :
    (val lo hi : ℤ)
    → lo ≤ℤ hi
    → (clamp val lo hi ≡ max_of lo (min_of val hi))
      × (clamp val lo hi ≡ min_of hi (max_of val lo))
      × (lo ≤ℤ clamp val lo hi)
      × (clamp val lo hi ≤ℤ hi)
      × (clamp (clamp val lo hi) lo hi ≡ clamp val lo hi)
unfolding clamp max_of min_of
clamp_lem val lo hi le = (
  ground (arith, eq_of_parts lo hi, eq_of_parts lo val),
  ground (arith, eq_of_parts val lo, eq_of_parts val hi, eq_of_parts lo hi),
  ground arith,
  ground arith,
  ground arith,
)

abbrev pub total : List ℤ → ℤ
total [] = pos 0
total (v ∷ vs) = v +ℤ total vs

-- The sum of the absolute values.
abbrev pub size : List ℤ → ℕ
size [] = 0
size (v ∷ vs) = pos_part v + neg_part v + size vs

slice : List ℤ → ℕ → ℕ → List ℤ
slice arr i rounds = take rounds (drop i arr)

slice-suc :
    (arr : List ℤ) (i rounds : ℕ) (v : ℤ)
    → get_elem? arr i ≡ some v
    → slice arr i (suc rounds) ≡ v ∷ slice arr (suc i) rounds
unfolding slice
slice-suc [] i rounds v e = absurd (cc)
slice-suc (w ∷ arr) zero rounds v e = ground arith
slice-suc (w ∷ arr) (suc i) rounds v e = slice-suc arr i rounds v e

+ℤ_bound :
    (a b : ℤ)
    → pos_part (a +ℤ b) + neg_part (a +ℤ b) ≤ pos_part a + neg_part a + (pos_part b + neg_part b)
unfolding ◌+ℤ◌
+ℤ_bound a b = ground arith

add-some :
    (a b : ℤ)
    → pos_part a + neg_part a + (pos_part b + neg_part b) < 2 ^ 31
    → add 31 a b ≡ some (a +ℤ b)
unfolding add ◌+ℤ◌
add-some a b h = ground arith

sum_loop_lem :
    (rounds i : ℕ) (arr : List ℤ) (s : ℤ)
    → i + rounds ≤ length arr
    → pos_part s + neg_part s + size (slice arr i rounds) < 2 ^ 31
    → sum_loop rounds i arr s ≡ some (s +ℤ total (slice arr i rounds))
unfolding sum_loop
sum_loop_lem zero i arr s room small =
    unfold slice in ap some (eq_of_parts s (s +ℤ pos 0) (omega (arith, +ℤ_parts s (pos 0))))
sum_loop_lem (suc rounds) i arr s room small =
    let (v, e) = get_elem?-some arr i (omega arith) in
    let split = slice-suc arr i rounds v e in
    let room' : pos_part s
          + neg_part s
          + (pos_part v + neg_part v + size (slice arr (suc i) rounds))
        < 2 ^ 31 =
      ground (arith, small, split) in
    rw
      (
        e,
        add-some s v (omega arith),
        sum_loop_lem rounds (suc i) arr (s +ℤ v) (omega arith) (omega (arith, +ℤ_bound s v)),
        split,
      )
      (ap some (+ℤ_assoc s v (total (slice arr (suc i) rounds))))

zero_add : (a : ℤ) → pos 0 +ℤ a ≡ a
zero_add a = eq_of_parts (pos 0 +ℤ a) a (omega (arith, +ℤ_parts (pos 0) a))

-- Where the absolute values of the first n elements sum up to less than 2^31, array_sum gives their
-- sum; for a negative n it is 0.
array_sum_lem :
    (n : ℕ) (arr : List ℤ)
    → n ≤ length arr
    → size (take n arr) < 2 ^ 31
    → (array_sum arr (pos n) ≡ some (total (take n arr)))
      × (array_sum arr (negsuc n) ≡ some (pos 0))
unfolding array_sum slice sum_loop
array_sum_lem n arr room small = (
  sum_loop_lem n 0 arr (pos 0) (omega arith) (omega arith)
      ∙ ap some (zero_add (total (take n arr))),
  refl,
)
