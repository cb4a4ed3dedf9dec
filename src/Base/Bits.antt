-- ===== src/Base/Bits.antt =====
-- The native bit operations on fields of a number: what stands above a place and what stands below.
use Prim.Native.Nat.{
  ℕ, zero, suc, ◌+◌, ◌-◌, ◌*◌, ◌/◌, ◌%◌, ◌^◌, ◌≤◌, ◌<◌, min, max, differ, digits, bitwise, bit_and,
  bit_or, bit_xor, bit_and-bitwise, bit_or-bitwise, bit_xor-bitwise,
}
use mathlib.Core.Path.{◌≡◌, refl, ap, ◌∙◌}
use native.Mathlib.Nat.{pow-suc, le_refl, one-le-pow}
use native.Mathlib.Omega.{arith}

-- The recursion of `bitwise` does not depend on its count of digits to go.
module _ (rest : ℕ → ℕ) (digit : ℕ → ℕ → ℕ) where
  digits-stable : (n m a b : ℕ) → a ≤ n → a ≤ m → digits rest digit n a b ≡ digits rest digit m a b
  digits-stable zero zero a b p q = refl
  digits-stable zero (suc m) zero b p q = refl
  digits-stable (suc n) zero zero b p q = refl
  digits-stable (suc n) (suc m) zero b p q = refl
  digits-stable zero (suc m) (suc a) b p q = absurd (omega arith)
  digits-stable (suc n) zero (suc a) b p q = absurd (omega arith)
  digits-stable (suc n) (suc m) (suc a) b p q =
      rw (digits-stable n m (suc a / 2) (b / 2) (omega arith) (omega arith))

  bitwise-lowest :
      (a b : ℕ)
      → bitwise rest digit (suc a) b
        ≡ bitwise rest digit (suc a / 2) (b / 2) * 2 + digit (suc a % 2) (b % 2)
  bitwise-lowest a b =
      omega (arith, digits-stable a (suc a / 2) (suc a / 2) (b / 2) (omega arith) (le_refl _))

pub bit_and-lowest : (a b : ℕ) → bit_and a b ≡ bit_and (a / 2) (b / 2) * 2 + min (a % 2) (b % 2)
bit_and-lowest zero b = simp bit_and-bitwise (omega arith)
bit_and-lowest (suc a) b = simp bit_and-bitwise (bitwise-lowest (λ y. 0) min a b)

bit_or-lowest : (a b : ℕ) → bit_or a b ≡ bit_or (a / 2) (b / 2) * 2 + max (a % 2) (b % 2)
bit_or-lowest zero b = simp bit_or-bitwise (omega arith)
bit_or-lowest (suc a) b = simp bit_or-bitwise (bitwise-lowest (λ y. y) max a b)

bit_xor-lowest : (a b : ℕ) → bit_xor a b ≡ bit_xor (a / 2) (b / 2) * 2 + differ (a % 2) (b % 2)
bit_xor-lowest zero b = simp bit_xor-bitwise (omega arith)
bit_xor-lowest (suc a) b = simp bit_xor-bitwise (bitwise-lowest (λ y. y) differ a b)

times_double : (q k : ℕ) → q * 2 ^ suc k ≡ 2 * (q * 2 ^ k)
times_double q k = omega (arith, ap (λ (t : ℕ). q * t) (pow-suc 2 k))

-- A digitwise operation works on the digits above place k and on those below apart.
module _ (op : ℕ → ℕ → ℕ) (digit : ℕ → ℕ → ℕ)
    (lowest : (a b : ℕ) → op a b ≡ op (a / 2) (b / 2) * 2 + digit (a % 2) (b % 2))
    (none : op 0 0 ≡ 0) where
  apart :
      (k q q' r r' : ℕ)
      → r < 2 ^ k
      → r' < 2 ^ k
      → op (q * 2 ^ k + r) (q' * 2 ^ k + r') ≡ op q q' * 2 ^ k + op r r'
  apart zero q q' r r' small small' =
      let r0 : r ≡ 0 = omega arith in
      let r0' : r' ≡ 0 = omega arith in
      let unit : q * 1 + r ≡ q = omega arith in
      let unit' : q' * 1 + r' ≡ q' = omega arith in rw (unit, unit', r0, r0', none) (omega arith)
  apart (suc k) q q' r r' small small' =
      let half : (q * 2 ^ suc k + r) / 2 ≡ q * 2 ^ k + r / 2 = omega (arith, times_double q k) in
      let half' : (q' * 2 ^ suc k + r') / 2 ≡ q' * 2 ^ k + r' / 2 =
        omega (arith, times_double q' k) in
      let odd : (q * 2 ^ suc k + r) % 2 ≡ r % 2 = omega (arith, times_double q k) in
      let odd' : (q' * 2 ^ suc k + r') % 2 ≡ r' % 2 = omega (arith, times_double q' k) in
      let ih =
        apart k q q' (r / 2) (r' / 2) (omega (arith, pow-suc 2 k)) (omega (arith, pow-suc 2 k)) in
      lowest (q * 2 ^ suc k + r) (q' * 2 ^ suc k + r')
      ∙ rw (half, half', odd, odd', ih) (omega (arith, lowest r r', times_double (op q q') k))

pub bit_and-apart :
    (k q q' r r' : ℕ)
    → r < 2 ^ k
    → r' < 2 ^ k
    → bit_and (q * 2 ^ k + r) (q' * 2 ^ k + r') ≡ bit_and q q' * 2 ^ k + bit_and r r'
bit_and-apart = apart bit_and min bit_and-lowest refl

pub bit_or-apart :
    (k q q' r r' : ℕ)
    → r < 2 ^ k
    → r' < 2 ^ k
    → bit_or (q * 2 ^ k + r) (q' * 2 ^ k + r') ≡ bit_or q q' * 2 ^ k + bit_or r r'
bit_or-apart = apart bit_or max bit_or-lowest refl

pub bit_xor-apart :
    (k q q' r r' : ℕ)
    → r < 2 ^ k
    → r' < 2 ^ k
    → bit_xor (q * 2 ^ k + r) (q' * 2 ^ k + r') ≡ bit_xor q q' * 2 ^ k + bit_xor r r'
bit_xor-apart = apart bit_xor differ bit_xor-lowest refl

-- A mask of all k digits keeps a number that has no more, and no digit of a mask takes all.
pub bit_and-all : (k r : ℕ) → r < 2 ^ k → bit_and r (2 ^ k - 1) ≡ r
bit_and-all zero r small = let r0 : r ≡ 0 = omega arith in rw r0 refl
bit_and-all (suc k) r small =
    let odd : (2 ^ suc k - 1) % 2 ≡ 1 = omega (arith, pow-suc 2 k, one-le-pow k 2) in
    let half : (2 ^ suc k - 1) / 2 ≡ 2 ^ k - 1 = omega (arith, pow-suc 2 k, one-le-pow k 2) in
    bit_and-lowest r (2 ^ suc k - 1)
    ∙ rw (odd, half, bit_and-all k (r / 2) (omega (arith, pow-suc 2 k))) (omega arith)

pub bit_and-none : (k r : ℕ) → r < 2 ^ k → bit_and r 0 ≡ 0
bit_and-none zero r small = let r0 : r ≡ 0 = omega arith in rw r0 refl
bit_and-none (suc k) r small =
    bit_and-lowest r 0 ∙ rw (bit_and-none k (r / 2) (omega (arith, pow-suc 2 k))) (omega arith)

pub bit_or-none : (k r : ℕ) → r < 2 ^ k → bit_or r 0 ≡ r
bit_or-none zero r small = let r0 : r ≡ 0 = omega arith in rw r0 refl
bit_or-none (suc k) r small =
    bit_or-lowest r 0 ∙ rw (bit_or-none k (r / 2) (omega (arith, pow-suc 2 k))) (omega arith)

differ_zero : (x : ℕ) → differ x 0 ≡ x
differ_zero zero = refl
differ_zero (suc x) = refl

pub bit_xor-none : (k r : ℕ) → r < 2 ^ k → bit_xor r 0 ≡ r
bit_xor-none zero r small = let r0 : r ≡ 0 = omega arith in rw r0 refl
bit_xor-none (suc k) r small =
    bit_xor-lowest r 0
    ∙ rw (bit_xor-none k (r / 2) (omega (arith, pow-suc 2 k))) (omega (arith, differ_zero (r % 2)))

pub bit_or-left : (r : ℕ) → bit_or 0 r ≡ r
bit_or-left r = simp bit_or-bitwise refl

digit_flip : (x : ℕ) → x < 2 → differ x 1 ≡ 1 - x
digit_flip zero small = refl
digit_flip (suc zero) small = refl
digit_flip (suc (suc x)) small = absurd (omega arith)

-- Exclusive or with a mask of all k digits turns every digit.
pub bit_xor-all : (k r : ℕ) → r < 2 ^ k → bit_xor r (2 ^ k - 1) ≡ 2 ^ k - 1 - r
bit_xor-all zero r small = let r0 : r ≡ 0 = omega arith in rw r0 refl
bit_xor-all (suc k) r small =
    let odd : (2 ^ suc k - 1) % 2 ≡ 1 = omega (arith, pow-suc 2 k, one-le-pow k 2) in
    let half : (2 ^ suc k - 1) / 2 ≡ 2 ^ k - 1 = omega (arith, pow-suc 2 k, one-le-pow k 2) in
    bit_xor-lowest r (2 ^ suc k - 1)
    ∙ rw (odd, half, bit_xor-all k (r / 2) (omega (arith, pow-suc 2 k)))
        (omega (arith, digit_flip (r % 2) (omega arith), pow-suc 2 k, one-le-pow k 2))

pub bit_and-left : (r : ℕ) → bit_and 0 r ≡ 0
bit_and-left r = simp bit_and-bitwise refl

min_one : (x : ℕ) → x < 2 → min 1 x ≡ x
min_one zero small = refl
min_one (suc zero) small = refl
min_one (suc (suc x)) small = absurd (omega arith)

pub bit_and-ones : (k r : ℕ) → r < 2 ^ k → bit_and (2 ^ k - 1) r ≡ r
bit_and-ones zero r small = let r0 : r ≡ 0 = omega arith in rw r0 refl
bit_and-ones (suc k) r small =
    let odd : (2 ^ suc k - 1) % 2 ≡ 1 = omega (arith, pow-suc 2 k, one-le-pow k 2) in
    let half : (2 ^ suc k - 1) / 2 ≡ 2 ^ k - 1 = omega (arith, pow-suc 2 k, one-le-pow k 2) in
    bit_and-lowest (2 ^ suc k - 1) r
    ∙ rw (odd, half, bit_and-ones k (r / 2) (omega (arith, pow-suc 2 k)))
        (omega (arith, min_one (r % 2) (omega arith)))
