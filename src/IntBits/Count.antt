-- ===== src/IntBits/Count.antt =====
-- bit_count of bits.c.
use Prim.Native.Nat.{bit_and as word_and}
use native.Mathlib.Nat.{pow-suc, div-div-eq-div-mul, div-le_self}
use syseng.Base.{ℕ, zero, suc, ◌+◌, ◌-◌, ◌/◌, ◌%◌, ◌^◌, ◌≤◌, ◌<◌, ◌≡◌, refl, ap, ◌∙◌, some, arith}
use syseng.Base.Bits.{bit_and-lowest, bit_and-none}
use syseng.Base.CInt.{add}
use syseng.Base.Int.{pos, negsuc, ◌+ℤ◌}
use syseng.IntBits.{bit_and, count_below, bit_count}

-- The ones among the lowest digits.
abbrev pub ones : ℕ → ℕ → ℕ
ones zero n = 0
ones (suc k) n = n % 2 + ones k (n / 2)

ones-highest : (k n : ℕ) → ones (suc k) n ≡ ones k n + n / 2 ^ k % 2
ones-highest zero n = let unit : n / 2 ^ 0 ≡ n = omega arith in rw unit (omega arith)
ones-highest (suc k) n =
    let half : n / 2 / 2 ^ k ≡ n / 2 ^ suc k =
      div-div-eq-div-mul n 2 (2 ^ k) ∙ ap (λ (t : ℕ). n / t) (omega (arith, pow-suc 2 k)) in
    omega (arith, ones-highest k (n / 2), half)

ones-le : (k n : ℕ) → ones k n ≤ k
ones-le zero n = omega arith
ones-le (suc k) n = omega (arith, ones-le k (n / 2))

div_small : (n k : ℕ) → n < 2 ^ 31 → n / 2 ^ k < 2 ^ 31
div_small n k small = omega (arith, div-le_self n (2 ^ k))

lowest_digit : (w : ℕ) → w < 2 ^ 32 → word_and w 1 ≡ w % 2
lowest_digit w small = bit_and-lowest w 1 ∙ rw (bit_and-none 32 (w / 2) (omega arith)) (omega arith)

digit_pos : (n : ℕ) → n < 2 ^ 31 → bit_and (pos n) (pos 1) ≡ pos (n % 2)
unfolding bit_and
digit_pos n small = rw (lowest_digit n (omega arith)) (ground arith)

digit_neg : (n : ℕ) → n < 2 ^ 31 → bit_and (negsuc n) (pos 1) ≡ pos (1 - n % 2)
unfolding bit_and
digit_neg n small = rw (lowest_digit (2 ^ 32 - 1 - n) (omega arith)) (ground arith)

count_pos : (k n : ℕ) → k ≤ 32 → n < 2 ^ 31 → count_below k (pos n) ≡ some (pos (ones k n))
unfolding count_below add ◌+ℤ◌
count_pos zero n le small = refl
count_pos (suc k) n le small =
    rw (count_pos k n (omega arith) small, digit_pos (n / 2 ^ k) (div_small n k small))
      (ground (arith, ones-highest k n, ones-le k n))

count_neg : (k n : ℕ) → k ≤ 32 → n < 2 ^ 31 → count_below k (negsuc n) ≡ some (pos (k - ones k n))
unfolding count_below add ◌+ℤ◌
count_neg zero n le small = refl
count_neg (suc k) n le small =
    rw (count_neg k n (omega arith) small, digit_neg (n / 2 ^ k) (div_small n k small))
      (ground (arith, ones-highest k n, ones-le k n))

-- bit_count of an int that is not negative is the number of ones among its 32 digits; for the int
-- -(n + 1), whose digits are those of n turned, it is 32 less the ones of n.
pub bit_count_lem :
    (n : ℕ)
    → n < 2 ^ 31
    → (bit_count (pos n) ≡ some (pos (ones 32 n)))
      × (bit_count (negsuc n) ≡ some (pos (32 - ones 32 n)))
unfolding bit_count
bit_count_lem n small = (count_pos 32 n (omega arith) small, count_neg 32 n (omega arith) small)
