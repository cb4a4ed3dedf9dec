-- ===== src/IntBits/Signs.antt =====
-- Negation, absolute value, sign and the overflow test of bits.c.
use syseng.Base.{
  ◌+◌, ◌-◌, ◌^◌, ◌≡◌, refl, ◌∙◌, Bool, true, false, some, none, if◌then◌else◌, ◌>>=◌, arith,
  Bool-cases, inl, inr,
}
use syseng.Base.CInt.{add, sub, in_range, exact}
use syseng.Base.Int.{ℤ, pos, negsuc, pos_part, neg_part, ◌+ℤ◌, ◌-ℤ◌, ltb_ℤ}
use syseng.IntBits.{bit_and, int_xor, complement, bit_negate, bit_abs, is_negative, add_ok}
use syseng.IntBits.Words.{shift_sign, xor_zero, xor_ones}

abbrev pub flag : Bool → ℤ
flag true = pos 1
flag false = pos 0

bit_negate_lem : (x : ℤ) → bit_negate x ≡ exact 31 (pos 0 -ℤ x)
unfolding bit_negate add ◌+ℤ◌ ◌-ℤ◌
bit_negate_lem x = ground arith

is_negative_lem : (x : ℤ) → in_range 31 x ≡ true → is_negative x ≡ some (flag (ltb_ℤ x (pos 0)))
unfolding is_negative add ◌+ℤ◌
is_negative_lem x r = rw (shift_sign x r) (ground arith)

bit_abs_lem : (x : ℤ) → in_range 31 x ≡ true → bit_abs x ≡ exact 31 (pos (pos_part x + neg_part x))
unfolding bit_abs sub ◌-ℤ◌
bit_abs_lem (pos n) r = rw (shift_sign (pos n) r, xor_zero (pos n) r) (ground arith)
bit_abs_lem (negsuc n) r = rw (shift_sign (negsuc n) r, xor_ones (negsuc n) r) (ground arith)

least_negated : exact 31 (pos 0 -ℤ negsuc (2 ^ 31 - 1)) ≡ none
unfolding ◌-ℤ◌
least_negated = refl

-- On the ints bit_negate is 0 - x and bit_abs the absolute value, wherever these are ints, and else
-- undefined, which is at the least int alone; is_negative is always defined, and 1 exactly for the
-- ints below 0.
signs_lem :
    (x : ℤ)
    → in_range 31 x ≡ true
    → (bit_negate x ≡ exact 31 (pos 0 -ℤ x))
      × (bit_abs x ≡ exact 31 (pos (pos_part x + neg_part x)))
      × (is_negative x ≡ some (if ltb_ℤ x (pos 0) then pos 1 else pos 0))
      × (bit_negate (negsuc (2 ^ 31 - 1)) ≡ none)
      × (bit_abs (negsuc (2 ^ 31 - 1)) ≡ none)
signs_lem x r = (
  bit_negate_lem x,
  bit_abs_lem x r,
  is_negative_lem x r ∙ ground arith,
  bit_negate_lem (negsuc (2 ^ 31 - 1)) ∙ least_negated,
  bit_abs_lem (negsuc (2 ^ 31 - 1)) refl,
)

-- The number that add_ok makes of the signs of the operands.
abbrev agreement : Bool → Bool → ℤ
agreement true true = pos 1
agreement false false = pos 1
agreement true false = pos 2
agreement false true = pos 2

agreement_lem :
    (a b : Bool) → bit_abs (complement (int_xor (flag a) (flag b))) ≡ some (agreement a b)
unfolding bit_abs int_xor sub ◌-ℤ◌
agreement_lem true true = refl
agreement_lem true false = refl
agreement_lem false true = refl
agreement_lem false false = refl

-- The sign of a sum of two numbers with one sign is that sign.
verdict :
    (a b c : Bool)
    → (a ≡ b → c ≡ a)
    → (do d ← sub 31 (bit_and (agreement a b) (int_xor (flag c) (flag a))) (pos 1); bit_abs d)
      ≡ some (pos 1)
unfolding sub bit_and bit_abs int_xor ◌-ℤ◌
verdict true true true h = refl
verdict true true false h = let e = h refl in absurd (cc)
verdict true false true h = refl
verdict true false false h = refl
verdict false true true h = refl
verdict false true false h = refl
verdict false false true h = let e = h refl in absurd (cc)
verdict false false false h = refl

sum_sign : (x y : ℤ) → ltb_ℤ x (pos 0) ≡ ltb_ℤ y (pos 0) → ltb_ℤ (x +ℤ y) (pos 0) ≡ ltb_ℤ x (pos 0)
unfolding ◌+ℤ◌
sum_sign x y e = ground (arith, e)

-- On ints add_ok answers 1 where the sum is an int; where it is not, add_ok itself adds out of
-- range, and is undefined. It never answers 0.
pub add_ok_lem :
    (x y : ℤ)
    → in_range 31 x ≡ true
    → in_range 31 y ≡ true
    → add_ok x y ≡ (if in_range 31 (x +ℤ y) then some (pos 1) else none)
unfolding add_ok add
add_ok_lem x y rx ry =
    rw
      (
        is_negative_lem x rx,
        is_negative_lem y ry,
        agreement_lem (ltb_ℤ x (pos 0)) (ltb_ℤ y (pos 0)),
      )
      (elim (Bool-cases (in_range 31 (x +ℤ y))) [
        | inl fits ↦
            rw (fits, is_negative_lem (x +ℤ y) fits)
              (verdict (ltb_ℤ x (pos 0)) (ltb_ℤ y (pos 0)) (ltb_ℤ (x +ℤ y) (pos 0)) (sum_sign x y))
        | inr over ↦ rw over refl
      ])
