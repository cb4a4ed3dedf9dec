-- ===== src/FloatBits/Scale.antt =====
-- float_twice and float_half of float_bits.c as arithmetic on the numbers that words stand for.
use native.Mathlib.Nat.{pow-suc}
use syseng.Base.{
  ℕ, zero, suc, ◌+◌, ◌-◌, ◌*◌, ◌/◌, ◌%◌, ◌^◌, ◌≤◌, ◌<◌, ◌≡◌, refl, ap, sym, ◌∙◌, false, ◌&&◌, not,
  if◌then◌else◌, ltb, ◌==◌, arith, Bool-cases, inl, inr,
}
use syseng.FloatBits.{float_negate, float_abs, float_twice, float_half, float_is_nan}
use syseng.FloatBits.Words.{
  word, IsFields, exponent_mask, with_exponent_lem, twice_small_lem, half_small_lem, float_abs_lem,
  float_negate_lem, float_is_nan_lem,
}

-- The absolute value of a word with exponent below 255, in units of 2^-150: the fraction alone for
-- exponent 0, and else with the implicit leading bit, scaled.
abbrev pub magnitude : ℕ → ℕ → ℕ
magnitude e m = if e == 0 then m * 2 else (2 ^ 23 + m) * 2 ^ e

float_twice_fields :
    (s e m : ℕ)
    → IsFields s e m
    → float_twice (word s e m) ≡ (
        if e == 0
        then word s (m * 2 / 2 ^ 23) (m * 2 % 2 ^ 23)
        else if e == 255
        then word s e m
        else word s (e + 1) m)
unfolding float_twice
float_twice_fields s zero m f =
    rw (exponent_mask s 0 m f, twice_small_lem s m f) (omega (arith, f.fraction))
float_twice_fields s (suc e) m f =
    let above : (suc e == 0) ≡ false = ground arith in
    rw (exponent_mask s (suc e) m f, above)
      (elim (Bool-cases (suc e == 255)) [
        | inl top ↦ rw top refl
        | inr finite ↦
            rw finite
              (with_exponent_lem s (suc e) m f (suc e + 1) (ground (arith, finite, f.exponent)))
      ])

float_half_fields :
    (s e m : ℕ)
    → IsFields s e m
    → float_half (word s e m)
      ≡ (if e == 0 then word s 0 (m / 2) else if e == 255 then word s e m else word s (e - 1) m)
unfolding float_half
float_half_fields s zero m f = rw (exponent_mask s 0 m f, half_small_lem s m f) (omega arith)
float_half_fields s (suc e) m f =
    let above : (suc e == 0) ≡ false = ground arith in
    rw (exponent_mask s (suc e) m f, above)
      (elim (Bool-cases (suc e == 255)) [
        | inl top ↦ rw top refl
        | inr finite ↦
            rw finite (with_exponent_lem s (suc e) m f (suc e - 1) (omega (arith, f.exponent)))
      ])

scale_suc : (e m : ℕ) → (2 ^ 23 + m) * 2 ^ suc e ≡ 2 * ((2 ^ 23 + m) * 2 ^ e)
scale_suc e m = omega (arith, ap (λ (t : ℕ). (2 ^ 23 + m) * t) (pow-suc 2 e))

magnitude-suc : (e m : ℕ) → magnitude (suc e) m ≡ (2 ^ 23 + m) * 2 ^ suc e
magnitude-suc e m = ground arith

-- A fraction that no longer fits carries into the exponent as the implicit bit.
magnitude_carry :
    (m : ℕ) → m < 2 ^ 23 → magnitude (m * 2 / 2 ^ 23) (m * 2 % 2 ^ 23) ≡ 2 * magnitude 0 m
magnitude_carry m small = elim (Bool-cases (ltb (m * 2) (2 ^ 23))) [
  | inl fits ↦
      let q : m * 2 / 2 ^ 23 ≡ 0 = ground (arith, fits) in
      let r : m * 2 % 2 ^ 23 ≡ m * 2 = ground (arith, fits) in rw (q, r) (omega arith)
  | inr over ↦
      let q : m * 2 / 2 ^ 23 ≡ 1 = ground (arith, over) in
      let r : m * 2 % 2 ^ 23 + 2 ^ 23 ≡ m * 2 = ground (arith, over) in rw q (omega (arith, r))
]

-- The fields of the double.
twice_magnitude :
    (s e m : ℕ)
    → IsFields s e m
    → e < 254
    → (e' : ℕ) × (m' : ℕ) × (float_twice (word s e m) ≡ word s e' m')
      × (e' < 255)
      × (m' < 2 ^ 23)
      × (magnitude e' m' ≡ 2 * magnitude e m)
twice_magnitude s zero m f small = (
  m * 2 / 2 ^ 23,
  m * 2 % 2 ^ 23,
  float_twice_fields s zero m f,
  omega (arith, f.fraction),
  omega arith,
  magnitude_carry m f.fraction,
)
twice_magnitude s (suc e) m f small = (
  suc (suc e),
  m,
  float_twice_fields s (suc e) m f ∙ ground (arith, small),
  omega arith,
  f.fraction,
  magnitude-suc (suc e) m ∙ (scale_suc (suc e) m ∙ ap (λ (t : ℕ). 2 * t) (sym (magnitude-suc e m))),
)

with_sign : (s e m k : ℕ) → IsFields s e m → k < 2 ^ 8 → IsFields s k m
with_sign s e m k f small = record { sign = f.sign; exponent = small; fraction = f.fraction }

-- For a word with exponent below 254, float_twice keeps the sign and doubles the value exactly, also
-- where a denormalized number becomes a normalized one. From exponent 254 it goes to 255 with the
-- fraction kept: to infinity for the fraction 0 alone, and else to what float_is_nan takes for a
-- NaN. With exponent 255 the word stays.
pub float_twice_lem :
    (s e m : ℕ)
    → IsFields s e m
    → e < 254
    → ((e' : ℕ) × (m' : ℕ) × (float_twice (word s e m) ≡ word s e' m')
        × (e' < 255)
        × (m' < 2 ^ 23)
        × (magnitude e' m' ≡ 2 * magnitude e m))
      × (float_twice (word s 254 m) ≡ word s 255 m)
      × (float_is_nan (float_twice (word s 254 m)) ≡ not (m == 0))
      × (float_twice (word s 255 m) ≡ word s 255 m)
float_twice_lem s e m f small =
    let top : float_twice (word s 254 m) ≡ word s 255 m =
      float_twice_fields s 254 m (with_sign s e m 254 f (omega arith)) in
    let f' = with_sign s e m 255 f (omega arith) in
    (
      twice_magnitude s e m f small,
      top,
      rw top (float_is_nan_lem s 255 m f'),
      float_twice_fields s 255 m f',
    )

half_magnitude : (e m : ℕ) → 2 ≤ e → 2 * magnitude (e - 1) m ≡ magnitude e m
half_magnitude zero m low = absurd (omega arith)
half_magnitude (suc zero) m low = absurd (omega arith)
half_magnitude (suc (suc e)) m low =
    let one_less : suc (suc e) - 1 ≡ suc e = omega arith in
    rw (one_less, magnitude-suc e m, magnitude-suc (suc e) m, scale_suc (suc e) m) refl

half_fields_high :
    (s e m : ℕ) → IsFields s e m → 1 ≤ e → e < 255 → float_half (word s e m) ≡ word s (e - 1) m
half_fields_high s e m f low high = float_half_fields s e m f ∙ ground (arith, low, high)

twice_fields_high :
    (s e m : ℕ) → IsFields s e m → 1 ≤ e → e < 255 → float_twice (word s e m) ≡ word s (e + 1) m
twice_fields_high s e m f low high = float_twice_fields s e m f ∙ ground (arith, low, high)

-- For a word with exponent from 2 to 254, float_half keeps the sign and halves the value exactly, and
-- float_twice undoes it. With exponent 0 it halves the fraction and drops the last bit; with
-- exponent 1 it takes the fraction without the implicit bit, so that the result is less than half
-- the value; with exponent 255 the word stays.
pub float_half_lem :
    (s e m : ℕ)
    → IsFields s e m
    → 2 ≤ e
    → e < 255
    → (float_half (word s e m) ≡ word s (e - 1) m)
      × (2 * magnitude (e - 1) m ≡ magnitude e m)
      × (float_twice (float_half (word s e m)) ≡ word s e m)
      × (float_half (word s 0 m) ≡ word s 0 (m / 2))
      × (2 * magnitude 0 (m / 2) + 2 * (m % 2) ≡ magnitude 0 m)
      × (float_half (word s 1 m) ≡ word s 0 m)
      × (2 * magnitude 0 m < magnitude 1 m)
      × (float_half (word s 255 m) ≡ word s 255 m)
float_half_lem s e m f low high =
    let half = half_fields_high s e m f (omega arith) high in
    let again : e - 1 + 1 ≡ e = omega arith in
    let small = f.fraction in
    (
      half,
      half_magnitude e m low,
      rw half (
          twice_fields_high s (e - 1) m (with_sign s e m (e - 1) f (omega arith)) (omega arith)
            (omega arith)
          ∙ rw again refl),
      float_half_fields s 0 m (with_sign s e m 0 f (omega arith)),
      omega arith,
      float_half_fields s 1 m (with_sign s e m 1 f (omega arith)),
      omega arith,
      float_half_fields s 255 m (with_sign s e m 255 f (omega arith)),
    )

-- On the words that are no NaN a second float_negate undoes the first, and both have the same
-- float_abs; a NaN stays under float_negate.
float_sign_lem :
    (s e m : ℕ)
    → IsFields s e m
    → (float_negate (float_negate (word s e m)) ≡ word s e m)
      × (float_abs (float_negate (word s e m)) ≡ float_abs (word s e m))
      × (float_abs (word s e m) ≡ word 0 e m)
float_sign_lem s e m f = elim (Bool-cases ((e == 255) && not (m == 0))) [
  | inl nan ↦
      let same : float_negate (word s e m) ≡ word s e m = float_negate_lem s e m f ∙ rw nan refl in
      (rw (same, same) refl, rw same refl, float_abs_lem s e m f)
  | inr number ↦
      let swap : float_negate (word s e m) ≡ word (1 - s) e m =
        float_negate_lem s e m f ∙ rw number refl in
      let f' : IsFields (1 - s) e m = record {
        sign = omega arith;
        exponent = f.exponent;
        fraction = f.fraction;
      } in
      let back : float_negate (word (1 - s) e m) ≡ word (1 - (1 - s)) e m =
        float_negate_lem (1 - s) e m f' ∙ rw number refl in
      let twice : 1 - (1 - s) ≡ s = omega (arith, f.sign) in
      (
        rw (swap, back, twice) refl,
        rw swap (float_abs_lem (1 - s) e m f' ∙ sym (float_abs_lem s e m f)),
        float_abs_lem s e m f,
      )
]
