-- ===== src/IntBits/Words.antt =====
-- The operations of bits.c with masks of equal digits.
use Prim.Native.Nat.{bit_or as word_or}
use syseng.Base.{ℕ, zero, suc, ◌+◌, ◌*◌, ◌/◌, ◌%◌, ◌^◌, ◌≤◌, ◌<◌, ◌≡◌, refl, sym, ◌∙◌, true, arith}
use syseng.Base.CInt.{in_range}
use syseng.Base.Int.{ℤ, pos, negsuc}
use syseng.Base.Bits.{
  bit_and-all, bit_and-none, bit_xor-none, bit_xor-all, bit_or-apart, bit_and-ones, bit_and-left,
}
use syseng.IntBits.{to_word, of_word, bit_and, int_xor, complement, shift_right}

to_word-lt : (x : ℤ) → in_range 31 x ≡ true → to_word x < 2 ^ 32
to_word-lt x r = ground (arith, r)

of_word-to_word : (x : ℤ) → in_range 31 x ≡ true → of_word (to_word x) ≡ x
of_word-to_word x r = ground (arith, r)

-- Shifting 31 places leaves the sign.
abbrev pub sign_of : ℤ → ℤ
sign_of (pos n) = pos 0
sign_of (negsuc n) = negsuc 0

pub shift_sign : (x : ℤ) → in_range 31 x ≡ true → shift_right x 31 ≡ sign_of x
shift_sign x r = ground (arith, r)

and_zero : (x : ℤ) → in_range 31 x ≡ true → bit_and x (pos 0) ≡ pos 0
unfolding bit_and
and_zero x r = rw (bit_and-none 32 (to_word x) (to_word-lt x r)) refl

and_ones : (x : ℤ) → in_range 31 x ≡ true → bit_and x (negsuc 0) ≡ x
unfolding bit_and
and_ones x r = rw (bit_and-all 32 (to_word x) (to_word-lt x r)) (of_word-to_word x r)

pub xor_zero : (x : ℤ) → in_range 31 x ≡ true → int_xor x (pos 0) ≡ x
unfolding int_xor
xor_zero x r = rw (bit_xor-none 32 (to_word x) (to_word-lt x r)) (of_word-to_word x r)

pub xor_ones : (x : ℤ) → in_range 31 x ≡ true → int_xor x (negsuc 0) ≡ complement x
unfolding int_xor
xor_ones x r = rw (bit_xor-all 32 (to_word x) (to_word-lt x r)) (ground (arith, r))

some_digit : (p q : ℕ) → p < 2 → q < 2 → 1 ≤ p + q → 1 ≤ word_or p q
some_digit zero zero lp lq h = absurd (omega arith)
some_digit zero (suc zero) lp lq h = omega arith
some_digit (suc zero) zero lp lq h = omega arith
some_digit (suc zero) (suc zero) lp lq h = omega arith
some_digit (suc (suc p)) q lp lq h = absurd (omega arith)
some_digit zero (suc (suc q)) lp lq h = absurd (omega arith)
some_digit (suc zero) (suc (suc q)) lp lq h = absurd (omega arith)

pub ones_and : (x : ℤ) → in_range 31 x ≡ true → bit_and (negsuc 0) x ≡ x
unfolding bit_and
ones_and x r = rw (bit_and-ones 32 (to_word x) (to_word-lt x r)) (of_word-to_word x r)

pub zero_and : (x : ℤ) → bit_and (pos 0) x ≡ pos 0
unfolding bit_and
zero_and x = rw (bit_and-left (to_word x)) refl

-- The word of a disjunction has the sign bit if one of the two words has it.
pub or_sign :
    (a b : ℕ)
    → a < 2 ^ 32
    → b < 2 ^ 32
    → (a < 2 ^ 31 → 2 ^ 31 ≤ b)
    → shift_right (of_word (word_or a b)) 31 ≡ negsuc 0
or_sign a b la lb either =
    let split_a : a / 2 ^ 31 * 2 ^ 31 + a % 2 ^ 31 ≡ a = omega arith in
    let split_b : b / 2 ^ 31 * 2 ^ 31 + b % 2 ^ 31 ≡ b = omega arith in
    let whole : word_or a b
        ≡ word_or (a / 2 ^ 31) (b / 2 ^ 31) * 2 ^ 31 + word_or (a % 2 ^ 31) (b % 2 ^ 31) =
      (λ i. word_or (sym split_a i) (sym split_b i))
      ∙ bit_or-apart 31 (a / 2 ^ 31) (b / 2 ^ 31) (a % 2 ^ 31) (b % 2 ^ 31) (omega arith)
          (omega arith) in
    let set : 1 ≤ word_or (a / 2 ^ 31) (b / 2 ^ 31) =
      some_digit (a / 2 ^ 31) (b / 2 ^ 31) (omega arith) (omega arith) (ground (arith, either)) in
    ground (arith, whole, set)
