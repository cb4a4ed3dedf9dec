-- ===== src/TestTools/Percentages.antt =====
-- The index that percentile() of tools/common.hpp computes in doubles.
use syseng.Base.{ℕ, ◌^◌, ◌≤◌, ◌≡◌, some, arith, ◌∙◌, ap, subst}
use syseng.Base.Int.{pos}
use syseng.Base.Doubles.{Doubles, DoubleLaws}

-- The number that percentile() makes an index of.
abbrev pub rank_of : (f : Doubles) → f.Carrier → ℕ → f.Carrier
rank_of f p n = f.mul (f.div p (f.tenths 1000)) (f.of_int (pos n))

module _ (f : Doubles) (laws : DoubleLaws f) where
  -- A percentage, as a double.
  pub IsPercentage : f.Carrier → Type 0
  IsPercentage p = f.le (f.tenths 0) p × f.le p (f.tenths 1000)

  rank_of-mono :
      (p q : f.Carrier) (n : ℕ)
      → 1 ≤ n
      → n ≤ 2 ^ 53
      → f.le p q
      → f.le (rank_of f p n) (rank_of f q n)
  rank_of-mono p q n more small h =
      laws.mul-mono (f.div p (f.tenths 1000)) (f.div q (f.tenths 1000)) n more (omega arith)
        (laws.div-mono p q h)

  rank_of_zero : (n : ℕ) → n ≤ 2 ^ 53 → rank_of f (f.tenths 0) n ≡ f.tenths 0
  rank_of_zero n small =
      ap (λ z. f.mul z (f.of_int (pos n))) laws.div_zero ∙ laws.mul_zero n (omega arith)

  rank_of_hundred : (n : ℕ) → rank_of f (f.tenths 1000) n ≡ f.of_int (pos n)
  rank_of_hundred n =
      ap (λ z. f.mul z (f.of_int (pos n))) laws.div_self ∙ laws.mul_one (f.of_int (pos n))

  rank_low :
      (p : f.Carrier) (n : ℕ)
      → 1 ≤ n
      → n ≤ 2 ^ 53
      → IsPercentage p
      → f.le (f.tenths 0) (rank_of f p n)
  unfolding IsPercentage
  rank_low p n more small h =
      subst (λ z. f.le z (rank_of f p n)) (rank_of_zero n small)
        (rank_of-mono (f.tenths 0) p n more small h.0)

  -- The index of the larger percentage, and of a smaller one.
  pub rank-some :
      (p : f.Carrier) (n : ℕ)
      → 1 ≤ n
      → n ≤ 2 ^ 53
      → IsPercentage p
      → (i : ℕ) × (f.to_size (rank_of f p n) ≡ some i)
  unfolding IsPercentage
  rank-some p n more small h =
      let all = f.of_int (pos n) in
      let below =
        subst (λ z. f.le (rank_of f p n) z) (rank_of_hundred n)
          (rank_of-mono p (f.tenths 1000) n more small h.1) in
      let (i, e, le) =
        laws.to_size-mono (rank_of f p n) all n (rank_low p n more small h) below
          (laws.to_size-of_int n small) in
      (i, e)

  pub ranks-le :
      (p q : f.Carrier) (n : ℕ) {i j : ℕ}
      → 1 ≤ n
      → n ≤ 2 ^ 53
      → IsPercentage p
      → f.le p q
      → f.to_size (rank_of f p n) ≡ some i
      → f.to_size (rank_of f q n) ≡ some j
      → i ≤ j
  ranks-le p q n {i} {j} more small hp h at_p at_q =
      let (i', e, le) =
        laws.to_size-mono (rank_of f p n) (rank_of f q n) j (rank_low p n more small hp)
          (rank_of-mono p q n more small h) at_q in
      let same : i' ≡ i = cc in omega (arith, le, same)

  pub tenths-IsPercentage : (k : ℕ) → k ≤ 1000 → IsPercentage (f.tenths k)
  unfolding IsPercentage
  tenths-IsPercentage k h = (laws.tenths-mono 0 k (omega arith), laws.tenths-mono k 1000 h)
