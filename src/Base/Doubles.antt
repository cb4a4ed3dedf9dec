-- ===== src/Base/Doubles.antt =====
-- The numbers of type double as an interface, with what the programs rely on: conversions and
-- operations that round keep the order of numbers.
use Prim.Native.Nat.{ℕ, ◌+◌, ◌-◌, ◌*◌, ◌/◌, ◌^◌, ◌≤◌, ◌<◌}
use mathlib.Core.Path.{◌≡◌, refl, ap}
use mathlib.Core.Option.{Option, some}
use native.Mathlib.Omega.{arith}
use syseng.Base.Int.{ℤ, pos, pos_part, ◌≤ℤ◌}

pub record Doubles : Type 1 where
  pub Carrier : Type 0
  pub le : Carrier → Carrier → Type 0
  -- (double)n of an integer.
  pub of_int : ℤ → Carrier
  -- The literal n / 10, as 99.9 for 999.
  pub tenths : ℕ → Carrier
  pub div : Carrier → Carrier → Carrier
  pub mul : Carrier → Carrier → Carrier
  -- static_cast<size_t>, which is undefined for a number outside the range.
  pub to_size : Carrier → Option ℕ

pub record DoubleLaws (f : Doubles) : Type 0 where
  pub of_int-mono : (a b : ℤ) → a ≤ℤ b → f.le (f.of_int a) (f.of_int b)
  pub tenths-mono : (a b : ℕ) → a ≤ b → f.le (f.tenths a) (f.tenths b)
  -- Division by 100.0.
  pub div-mono :
      (x y : f.Carrier) → f.le x y → f.le (f.div x (f.tenths 1000)) (f.div y (f.tenths 1000))
  pub div_zero : f.div (f.tenths 0) (f.tenths 1000) ≡ f.tenths 0
  pub div_self : f.div (f.tenths 1000) (f.tenths 1000) ≡ f.tenths 10
  -- Multiplication by a positive size.
  pub mul-mono :
      (x y : f.Carrier) (n : ℕ)
      → 1 ≤ n
      → n < 2 ^ 64
      → f.le x y
      → f.le (f.mul x (f.of_int (pos n))) (f.mul y (f.of_int (pos n)))
  pub mul_zero : (n : ℕ) → n < 2 ^ 64 → f.mul (f.tenths 0) (f.of_int (pos n)) ≡ f.tenths 0
  pub mul_one : (x : f.Carrier) → f.mul (f.tenths 10) x ≡ x
  -- A number up to 2^53 is exact.
  pub to_size-of_int : (n : ℕ) → n ≤ 2 ^ 53 → f.to_size (f.of_int (pos n)) ≡ some n
  pub to_size-mono :
      (x y : f.Carrier) (j : ℕ)
      → f.le (f.tenths 0) x
      → f.le x y
      → f.to_size y ≡ some j
      → (i : ℕ) × (f.to_size x ≡ some i) × (i ≤ j)

-- Numbers in thousandths, which have the laws.
abbrev pub fixed_point : Doubles
fixed_point = record {
  Carrier = ℕ;
  le = λ a b. a ≤ b;
  of_int = λ n. 1000 * pos_part n;
  tenths = λ n. 100 * n;
  div = λ a b. 1000 * a / b;
  mul = λ a b. a * b / 1000;
  to_size = λ a. some (a / 1000);
}

mul_le : (x y k : ℕ) → x ≤ y → x * k ≤ y * k
mul_le x y k h =
    let d = y - x in let split : y ≡ x + d = omega arith in omega (arith, ap (λ z. z * k) split)

pub fixed_point-DoubleLaws : DoubleLaws fixed_point
fixed_point-DoubleLaws = record {
  of_int-mono = λ a b h. ground (arith, h);
  tenths-mono = λ a b h. omega (arith, h);
  div-mono = λ x y h. omega (arith, h);
  div_zero = refl;
  div_self = refl;
  mul-mono = λ x y n more small h. omega (arith, mul_le x y (1000 * n) h);
  mul_zero = λ n small. omega arith;
  mul_one = λ x. omega arith;
  to_size-of_int = λ n small. ground arith;
  to_size-mono = λ x y j low h e. (x / 1000, refl, ground (arith, h, e));
}
