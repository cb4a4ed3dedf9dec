-- ===== src/FloatBits/Words.antt =====
-- The fields of the words of float_bits.c, and the functions on them.
use Prim.Native.Nat.{bit_and, bit_or, bit_xor}
use syseng.Base.{
  ℕ, zero, suc, ◌+◌, ◌-◌, ◌*◌, ◌/◌, ◌%◌, ◌^◌, ◌<◌, ◌≡◌, refl, ap, sym, ◌∙◌, ◌&&◌, not,
  if◌then◌else◌, ◌==◌, arith,
}
use syseng.Base.Bits.{
  bit_and-apart, bit_or-apart, bit_xor-apart, bit_and-all, bit_and-none, bit_or-none, bit_xor-none,
  bit_or-left,
}
use syseng.FloatBits.{
  float_negate, float_abs, exponent_of, with_exponent, twice_small, half_small, float_is_nan,
}

-- Sign, exponent and fraction side by side.
abbrev pub word : ℕ → ℕ → ℕ → ℕ
word s e m = s * 2 ^ 31 + (e * 2 ^ 23 + m)

-- The fields are in their widths.
pub record IsFields (s e m : ℕ) : Type 0 where
  pub sign : s < 2
  pub exponent : e < 2 ^ 8
  pub fraction : m < 2 ^ 23

bit_and-word :
    (s e m s' e' m' : ℕ)
    → IsFields s e m
    → IsFields s' e' m'
    → bit_and (word s e m) (word s' e' m') ≡ word (bit_and s s') (bit_and e e') (bit_and m m')
bit_and-word s e m s' e' m' f g =
    bit_and-apart 31 s s' (e * 2 ^ 23 + m) (e' * 2 ^ 23 + m')
      (omega (arith, f.exponent, f.fraction)) (omega (arith, g.exponent, g.fraction))
    ∙ ap (λ (t : ℕ). bit_and s s' * 2 ^ 31 + t) (bit_and-apart 23 e e' m m' f.fraction g.fraction)

bit_or-word :
    (s e m s' e' m' : ℕ)
    → IsFields s e m
    → IsFields s' e' m'
    → bit_or (word s e m) (word s' e' m') ≡ word (bit_or s s') (bit_or e e') (bit_or m m')
bit_or-word s e m s' e' m' f g =
    bit_or-apart 31 s s' (e * 2 ^ 23 + m) (e' * 2 ^ 23 + m') (omega (arith, f.exponent, f.fraction))
      (omega (arith, g.exponent, g.fraction))
    ∙ ap (λ (t : ℕ). bit_or s s' * 2 ^ 31 + t) (bit_or-apart 23 e e' m m' f.fraction g.fraction)

fields : (s e m : ℕ) → s < 2 → e < 2 ^ 8 → m < 2 ^ 23 → IsFields s e m
fields s e m a b c = record { sign = a; exponent = b; fraction = c }

and_none : (s e m : ℕ) → IsFields s e m → (bit_and s 0 ≡ 0) × (bit_and e 0 ≡ 0) × (bit_and m 0 ≡ 0)
and_none s e m f =
    (bit_and-none 1 s f.sign, bit_and-none 8 e f.exponent, bit_and-none 23 m f.fraction)

and_all :
    (s e m : ℕ) → IsFields s e m → (bit_and s 1 ≡ s) × (bit_and e 255 ≡ e) × (bit_and m 8388607 ≡ m)
and_all s e m f = (bit_and-all 1 s f.sign, bit_and-all 8 e f.exponent, bit_and-all 23 m f.fraction)

-- What a mask of whole fields leaves.
module _ (s e m : ℕ) (f : IsFields s e m) where
  sign_mask : bit_and (word s e m) 0x80000000 ≡ word s 0 0
  sign_mask =
      bit_and-word s e m 1 0 0 f (fields 1 0 0 (omega arith) (omega arith) (omega arith))
      ∙ rw ((and_all s e m f).0, (and_none s e m f).1, (and_none s e m f).2) refl

  fraction_mask : bit_and (word s e m) 0x007FFFFF ≡ m
  fraction_mask =
      bit_and-word s e m 0 0 8388607 f
        (fields 0 0 8388607 (omega arith) (omega arith) (omega arith))
      ∙ rw ((and_none s e m f).0, (and_none s e m f).1, (and_all s e m f).2) (omega arith)

  pub exponent_mask : exponent_of (word s e m) ≡ e
  exponent_mask =
      let masked : bit_and (word s e m) 0x7F800000 ≡ word 0 e 0 =
        bit_and-word s e m 0 255 0 f (fields 0 255 0 (omega arith) (omega arith) (omega arith))
        ∙ rw ((and_none s e m f).0, (and_all s e m f).1, (and_none s e m f).2) refl in
      rw masked (omega arith)

  pub with_exponent_lem : (k : ℕ) → k < 2 ^ 8 → with_exponent k (word s e m) ≡ word s k m
  unfolding with_exponent
  with_exponent_lem k small =
      let kept : bit_and (word s e m) 0x807FFFFF ≡ word s 0 m =
        bit_and-word s e m 1 0 8388607 f
          (fields 1 0 8388607 (omega arith) (omega arith) (omega arith))
        ∙ rw ((and_all s e m f).0, (and_none s e m f).1, (and_all s e m f).2) refl in
      let cleared : IsFields s 0 m = fields s 0 m f.sign (omega arith) f.fraction in
      let placed : IsFields 0 k 0 = fields 0 k 0 (omega arith) small (omega arith) in
      let shifted : k * 2 ^ 23 ≡ word 0 k 0 = omega arith in
      rw (kept, shifted)
        (bit_or-word s 0 m 0 k 0 cleared placed
          ∙ rw (bit_or-none 1 s f.sign, bit_or-left k, bit_or-none 23 m f.fraction) (omega arith))

  pub float_abs_lem : float_abs (word s e m) ≡ word 0 e m
  unfolding float_abs
  float_abs_lem =
      bit_and-word s e m 0 255 8388607 f
        (fields 0 255 8388607 (omega arith) (omega arith) (omega arith))
      ∙ rw ((and_none s e m f).0, (and_all s e m f).1, (and_all s e m f).2) refl

  pub float_is_nan_lem : float_is_nan (word s e m) ≡ ((e == 255) && not (m == 0))
  unfolding float_is_nan
  float_is_nan_lem = rw (exponent_mask, fraction_mask) refl

-- The sign bit put back above what is below it.
put_sign : (s r : ℕ) → r < 2 ^ 31 → bit_or r (word s 0 0) ≡ s * 2 ^ 31 + r
put_sign s r small =
    let plain : 0 * 2 ^ 31 + r ≡ r = omega arith in
    ap (λ (t : ℕ). bit_or t (word s 0 0)) (sym plain)
    ∙ (bit_or-apart 31 0 s r 0 small (omega arith)
        ∙ rw (bit_or-left s, bit_or-none 31 r small) refl)

pub twice_small_lem : (s m : ℕ) → IsFields s 0 m → twice_small (word s 0 m) ≡ s * 2 ^ 31 + m * 2
unfolding twice_small
twice_small_lem s m f =
    let doubled : word s 0 m * 2 % 2 ^ 32 ≡ m * 2 = omega (arith, f.sign, f.fraction) in
    rw (sign_mask s 0 m f, doubled, bit_and-all 31 (m * 2) (omega (arith, f.fraction)))
      (put_sign s (m * 2) (omega (arith, f.fraction)))

no_second : (s : ℕ) → s < 2 → bit_and s 2 ≡ 0
no_second zero small = refl
no_second (suc zero) small = refl
no_second (suc (suc s)) small = absurd (omega arith)

pub half_small_lem : (s m : ℕ) → IsFields s 0 m → half_small (word s 0 m) ≡ s * 2 ^ 31 + m / 2
unfolding half_small
half_small_lem s m f =
    let halved : word s 0 m / 2 ≡ s * 2 ^ 30 + m / 2 = omega (arith, f.sign, f.fraction) in
    let second : bit_and (s * 2 ^ 30 + m / 2) 0xBFFFFFFF ≡ m / 2 =
      bit_and-apart 30 s 2 (m / 2) 1073741823 (omega (arith, f.fraction)) (omega arith)
      ∙ rw (no_second s f.sign, bit_and-all 30 (m / 2) (omega (arith, f.fraction))) (omega arith) in
    rw
      (
        sign_mask s 0 m f,
        halved,
        bit_and-all 31 (s * 2 ^ 30 + m / 2) (omega (arith, f.sign, f.fraction)),
        second,
      )
      (put_sign s (m / 2) (omega (arith, f.fraction)))

flip : (s : ℕ) → s < 2 → bit_xor s 1 ≡ 1 - s
flip zero small = refl
flip (suc zero) small = refl
flip (suc (suc s)) small = absurd (omega arith)

pub float_negate_lem :
    (s e m : ℕ)
    → IsFields s e m
    → float_negate (word s e m)
      ≡ (if (e == 255) && not (m == 0) then word s e m else word (1 - s) e m)
unfolding float_negate
float_negate_lem s e m f =
    let exp : bit_and (word s e m / 2 ^ 23) 0xFF ≡ e =
      let shifted : word s e m / 2 ^ 23 ≡ s * 2 ^ 8 + e = omega (arith, f.exponent, f.fraction) in
      rw shifted (
        bit_and-apart 8 s 0 e 255 f.exponent (omega arith)
        ∙ rw (bit_and-none 1 s f.sign, bit_and-all 8 e f.exponent) (omega arith)) in
    let flipped : bit_xor (word s e m) 0x80000000 ≡ word (1 - s) e m =
      bit_xor-apart 31 s 1 (e * 2 ^ 23 + m) 0 (omega (arith, f.exponent, f.fraction)) (omega arith)
      ∙ rw (flip s f.sign, bit_xor-none 31 (e * 2 ^ 23 + m) (omega (arith, f.exponent, f.fraction)))
          refl in
    rw (exp, fraction_mask s e m f, flipped) refl
