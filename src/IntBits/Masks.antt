-- ===== src/IntBits/Masks.antt =====
-- conditional and is_power_of_2 of bits.c, which select by masks.
use syseng.Base.{
  zero, suc, ◌-◌, ◌^◌, ◌≡◌, refl, ◌∙◌, Bool, true, false, some, none, if◌then◌else◌, ◌>>=◌, arith,
  Bool-cases, inl, inr,
}
use syseng.Base.CInt.{add, sub, in_range}
use syseng.Base.Int.{ℤ, pos, negsuc, ◌+ℤ◌, ◌-ℤ◌, eqb_ℤ, +ℤ_cancel}
use syseng.IntBits.{bit_and, int_or, complement, shift_right, conditional}
use syseng.IntBits.Words.{or_sign, ones_and, zero_and}

-- All ones exactly for a number other than 0.
pub record IsMask (x m : ℤ) : Type 0 where
  pub negated : add 31 (complement x) (pos 1) ≡ some m
  pub mask : shift_right (int_or x m) 31 ≡ (if eqb_ℤ x (pos 0) then pos 0 else negsuc 0)

pub nonzero-IsMask :
    (x : ℤ) → in_range 31 x ≡ true → in_range 31 (pos 0 -ℤ x) ≡ true → (m : ℤ) × IsMask x m
unfolding add ◌+ℤ◌ ◌-ℤ◌ int_or
nonzero-IsMask (pos zero) r r' = (pos 0, record { negated = refl; mask = refl })
nonzero-IsMask (pos (suc n)) r r' = (
  negsuc n,
  record {
    negated = ground (arith, r);
    mask =
        or_sign (suc n) (2 ^ 32 - 1 - n) (ground (arith, r)) (omega arith) (λ lt. ground (arith, r))
        ∙ ground arith;
  },
)
nonzero-IsMask (negsuc n) r r' = (
  pos (suc n),
  record {
    negated = ground (arith, r');
    mask =
        or_sign (2 ^ 32 - 1 - n) (suc n) (omega arith) (ground (arith, r))
          (λ lt. absurd (ground (arith, lt, r)))
        ∙ ground arith;
  },
)

zero_left : (x : ℤ) → pos 0 +ℤ x ≡ x
unfolding ◌+ℤ◌
zero_left x = ground arith

zero_right : (x : ℤ) → x +ℤ pos 0 ≡ x
unfolding ◌+ℤ◌
zero_right x = ground arith

zero_off : (x : ℤ) → x -ℤ pos 0 ≡ x
unfolding ◌-ℤ◌
zero_off x = ground arith

selected :
    (nz : Bool) (y z : ℤ)
    → in_range 31 y ≡ true
    → in_range 31 z ≡ true
    → (do
      a ←
          add 31
            (bit_and (if nz then pos 0 else negsuc 0) y)
            (bit_and (if nz then pos 0 else negsuc 0) z)
      b ← add 31 a (bit_and (complement (if nz then pos 0 else negsuc 0)) z)
      sub 31 b (bit_and (if nz then pos 0 else negsuc 0) z))
      ≡ (if nz then some z else if in_range 31 (y +ℤ z) then some y else none)
unfolding add sub ◌+ℤ◌
selected true y z ry rz =
    rw (zero_and y, zero_and z, ones_and z rz, zero_left z, rz, zero_off z, rz) refl
selected false y z ry rz =
    rw (zero_and z, ones_and y ry, ones_and z rz)
      (elim (Bool-cases (in_range 31 (y +ℤ z))) [
        | inl fits ↦ rw (fits, zero_right (y +ℤ z), fits, +ℤ_cancel y z, ry) refl
        | inr over ↦ rw over refl
      ])

-- For ints, the first not the least one, conditional gives z if x is 0; otherwise it gives y where
-- y + z is an int, and is undefined where it is not.
pub conditional_lem :
    (x y z : ℤ)
    → in_range 31 x ≡ true
    → in_range 31 (pos 0 -ℤ x) ≡ true
    → in_range 31 y ≡ true
    → in_range 31 z ≡ true
    → conditional x y z
      ≡ (if eqb_ℤ x (pos 0) then some z else if in_range 31 (y +ℤ z) then some y else none)
unfolding conditional
conditional_lem x y z rx rx' ry rz =
    let (m, is) = nonzero-IsMask x rx rx' in
    rw (is.negated, is.mask) (selected (eqb_ℤ x (pos 0)) y z ry rz)
